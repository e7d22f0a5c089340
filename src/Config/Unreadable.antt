-- ===== src/Config/Unreadable.antt =====
-- A server that starts on a store which it cannot decode, cmd/goreverselb/server.go.
use goreverselb.Base.{
  Bytes, Map, Option-cases, [], bytes_key, false, get, get-put_self, inl, inr, nat_key, none, put,
  refl, some, true, ◌≡◌, ◌⊎◌,
}
use goreverselb.Types.{ConfigData, default_user_id}
use goreverselb.Config.{Codecs, World, save, load_config, set_token, start_up, store_name}
use goreverselb.Config.Restart.{
  uses_yaml, loaded, set_token-some, set_token-none, start_up-some, start_up-none,
}

loaded-undecoded :
    (k : Codecs) (disk : Map Bytes Bytes) (b : Bytes) (a : ConfigData)
    → get store_name disk ≡ some b
    → k.yaml.unmarshal b (record { users = [] }) ≡ (a, false)
    → loaded k disk ≡ record {
      file = record { filename = store_name; app_config = false };
      config = a;
      disk = disk;
    }
unfolding load_config get
loaded-undecoded k disk b a h e = rw (h, uses_yaml k, e) refl

save-nil :
    (k : Codecs) (config : ConfigData) (disk : Map Bytes Bytes) (n : Bytes)
    → k.yaml.marshal none ≡ some n
    → get store_name
        (save k true (record {
          file = record { filename = store_name; app_config = false };
          config = config;
          disk = disk;
        })).1.disk
      ≡ some n
unfolding save
save-nil k config disk n m = rw (uses_yaml k, m) (get-put_self store_name n disk)

-- Where the decoder reports an error on the store, writes succeed and nil is encoded, the start
-- panics if what was decoded lacks the default user, and otherwise ends with the encoding of nil in
-- the store.
pub start_up-unreadable :
    (k : Codecs) (token : Bytes) (disk : Map Bytes Bytes) (b n : Bytes) (a : ConfigData)
    → get store_name disk ≡ some b
    → k.yaml.unmarshal b (record { users = [] }) ≡ (a, false)
    → k.yaml.marshal none ≡ some n
    → ((get default_user_id a.users ≡ none) × (start_up k true token disk ≡ none))
      ⊎ ((w : World) × (start_up k true token disk ≡ some w) × (get store_name w.disk ≡ some n))
start_up-unreadable k token disk b n a h e m =
    let l = loaded-undecoded k disk b a h e in
    elim (Option-cases (get default_user_id a.users)) [
      | inl g ↦ inl (g, start_up-none k token disk (rw l (set_token-none token a g)))
      | inr (u, g) ↦
          let config : ConfigData = record {
            users = put default_user_id (record u { token = token }) a.users;
          } in
          let t : set_token token (loaded k disk).config ≡ some config =
            rw l (set_token-some token a u g) in
          inr (_, start_up-some k token disk config t, rw l (save-nil k config disk n m))
    ]
