-- ===== src/Config/Restart.antt =====
-- A server that starts again, cmd/goreverselb/server.go and pkg/helpers/configStorage.go.
use goreverselb.Base.{
  Bytes, Map, Option-cases, [], ap, arith, bytes_dec, bytes_key, false, get, get-put, get-put_self,
  inl, inr, ite, nat_key, none, put, refl, some, subst, sym, true, ◌∙◌, ◌≡◌,
}
use goreverselb.Types.{ConfigData}
use goreverselb.Config.{
  at_start, initial_config, UserData, default_user_id, start_up, set_token, load_config, pointed,
  Codec, Codecs, World, path_ext, codec_of, save, store_name,
}

-- The initial configuration is encoded, and what is encoded is decoded, into an empty configuration,
-- as one with the same users.
pub record IsFaithful (k : Codec) : Type 0 where
  pub encodes : (b : Bytes) × (k.marshal (some initial_config) ≡ some b)
  pub decodes :
      (a : ConfigData) (b : Bytes)
      → k.marshal (some a) ≡ some b
      → (a' : ConfigData) × (k.unmarshal b (record { users = [] }) ≡ (a', true))
        × ((name : Bytes) → get name a'.users ≡ get name a.users)

pub uses_yaml : (k : Codecs) → codec_of k store_name ≡ k.yaml
unfolding codec_of path_ext bytes_dec
uses_yaml k = refl

-- The store that is written holds the configuration.
record Holds (k : Codecs) (w : World) : Type 0 where
  bytes : Bytes
  encoded : k.yaml.marshal (some w.config) ≡ some bytes
  stored : get store_name w.disk ≡ some bytes

save-Holds :
    (k : Codecs) (w : World) (b : Bytes)
    → k.yaml.marshal (some w.config) ≡ some b
    → w.file ≡ record { filename = store_name; app_config = true }
    → Holds k (save k true w).1
unfolding save
save-Holds k w b m e =
    rw (e, uses_yaml k, m)
      (record { bytes = b; encoded = m; stored = get-put_self store_name b w.disk })

-- The store does not exist, or it is decoded without an error.
pub data IsReadable (k : Codecs) (disk : Map Bytes Bytes) : Type 0 where
  missing : get store_name disk ≡ none → IsReadable k disk
  decoded :
      (b : Bytes) (a : ConfigData)
      → get store_name disk ≡ some b
      → k.yaml.unmarshal b (record { users = [] }) ≡ (a, true)
      → IsReadable k disk

abbrev pub loaded : Codecs → Map Bytes Bytes → World
loaded k disk = (load_config k true false initial_config (at_start disk)).1

loaded-file :
    (k : Codecs) (disk : Map Bytes Bytes)
    → IsFaithful k.yaml
    → IsReadable k disk
    → (loaded k disk).file ≡ record { filename = store_name; app_config = true }
unfolding load_config get
loaded-file k disk f (missing h) = let (b, m) = f.encodes in rw (h, uses_yaml k, m) refl
loaded-file k disk f (decoded b a h e) = rw (h, uses_yaml k, e) refl

loaded-decoded :
    (k : Codecs) (disk : Map Bytes Bytes) (b : Bytes) (a : ConfigData)
    → get store_name disk ≡ some b
    → k.yaml.unmarshal b (record { users = [] }) ≡ (a, true)
    → loaded k disk ≡ record {
      file = record { filename = store_name; app_config = true };
      config = a;
      disk = disk;
    }
unfolding load_config get
loaded-decoded k disk b a h e = rw (h, uses_yaml k, e) refl

pub set_token-some :
    (token : Bytes) (config : ConfigData) (u : UserData)
    → get default_user_id config.users ≡ some u
    → set_token token config
      ≡ some (record { users = put default_user_id (record u { token = token }) config.users })
unfolding set_token
set_token-some token config u h = rw h refl

pub set_token-none :
    (token : Bytes) (config : ConfigData)
    → get default_user_id config.users ≡ none
    → set_token token config ≡ none
unfolding set_token
set_token-none token config h = rw h refl

pub start_up-none :
    (k : Codecs) (token : Bytes) (disk : Map Bytes Bytes)
    → set_token token (loaded k disk).config ≡ none
    → start_up k true token disk ≡ none
unfolding start_up
start_up-none k token disk h = rw h refl

pub start_up-some :
    (k : Codecs) (token : Bytes) (disk : Map Bytes Bytes) (config : ConfigData)
    → set_token token (loaded k disk).config ≡ some config
    → start_up k true token disk
      ≡ some ((save k true (record (loaded k disk) { config = config })).1)
unfolding start_up
start_up-some k token disk config h = rw h refl

save-config : (k : Codecs) (w : World) → (save k true w).1.config ≡ w.config
unfolding save
save-config k w =
    elim (Option-cases
      ((codec_of k w.file.filename).marshal (pointed w.file.app_config w.config))) [
        | inl e ↦ rw e refl
        | inr (b, e) ↦ rw e refl
      ]

-- What a first start leaves: its store holds its configuration, which has the default user.
record Started (k : Codecs) (token : Bytes) (w : World) : Type 0 where
  holds : Holds k w
  user : UserData
  has_user : get default_user_id w.config.users ≡ some user

start_up-Started :
    (k : Codecs) (token : Bytes) (disk : Map Bytes Bytes) (w : World) (b : Bytes)
    → IsFaithful k.yaml
    → IsReadable k disk
    → start_up k true token disk ≡ some w
    → k.yaml.marshal (some w.config) ≡ some b
    → Started k token w
start_up-Started k token disk w b f r h m =
    elim (Option-cases (get default_user_id (loaded k disk).config.users)) [
      | inl e ↦
          let n = start_up-none k token disk (set_token-none token (loaded k disk).config e) in
          absurd (ground (arith, n, h))
      | inr (u, e) ↦
          let config : ConfigData = record {
            users = put default_user_id (record u { token = token }) (loaded k disk).config.users;
          } in
          let w' : World = record (loaded k disk) { config = config } in
          let s =
            start_up-some k token disk config (set_token-some token (loaded k disk).config u e) in
          let q : (save k true w').1 ≡ w = ground (arith, s, h) in
          let same : w.config ≡ config = ap (λ (x : World). x.config) (sym q) ∙ save-config k w' in
          let m' : k.yaml.marshal (some config) ≡ some b = ground (arith, same, m) in
          subst (λ (x : World). Started k token x) q
            (record {
              holds = save-Holds k w' b m' (loaded-file k disk f r);
              user = record u { token = token };
              has_user =
                  ap (λ (x : ConfigData). get default_user_id x.users) (save-config k w')
                  ∙ get-put_self default_user_id (record u { token = token })
                      (loaded k disk).config.users;
            })
    ]

-- A server starts on a store that is missing or readable, has a configuration that the encoder
-- encodes, and ends. When it starts again on the
-- store that it has written, with whatever token, it does not panic, and it has the users that it
-- had, of which only the default user has another token: the one that is given. Writes succeed, and
-- the yaml encoder behaves as documented.
pub start_up-restart :
    (k : Codecs) (token token' : Bytes) (disk : Map Bytes Bytes) (w : World) (b : Bytes)
    → IsFaithful k.yaml
    → IsReadable k disk
    → start_up k true token disk ≡ some w
    → k.yaml.marshal (some w.config) ≡ some b
    → (w' : World) × (u : UserData) × (start_up k true token' w.disk ≡ some w')
      × (get default_user_id w.config.users ≡ some u)
      × ((name : Bytes)
          → get name w'.config.users
            ≡ ite
                (bytes_dec default_user_id name)
                (some (record u { token = token' }))
                (get name w.config.users))
start_up-restart k token token' disk w b f r h m =
    let s = start_up-Started k token disk w b f r h m in
    let (a, e, same) = f.decodes w.config s.holds.bytes s.holds.encoded in
    let l = loaded-decoded k w.disk s.holds.bytes a s.holds.stored e in
    let u = s.user in
    let config : ConfigData = record {
      users = put default_user_id (record u { token = token' }) a.users;
    } in
    let w' : World = record (loaded k w.disk) { config = config } in
    let t : set_token token' (loaded k w.disk).config ≡ some config =
      rw l (set_token-some token' a u (same default_user_id ∙ s.has_user)) in
    (
      (save k true w').1,
      u,
      start_up-some k token' w.disk config t,
      s.has_user,
      λ name.
          ap (λ (x : ConfigData). get name x.users) (save-config k w')
          ∙ ground (
            arith,
            get-put default_user_id name (record u { token = token' }) a.users,
            same name,
          ),
    )
