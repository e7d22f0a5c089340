-- ===== src/Config/Tests.antt =====
-- Starts on an empty disk, on the store of such a start, and on a store that is not decoded.
use goreverselb.Base.{
  Bytes, Map, [], bytes_dec, bytes_key, codes, delete, false, get, ite, nat_key, none, put, refl,
  some, true, ◌++◌, ◌∷◌, ◌≡◌, ◌⊎◌,
}
use goreverselb.Types.{UserData, default_user_id}
use goreverselb.Config.{Codecs, World, start_up, store_name}
use goreverselb.Config.Concrete.{concrete, concrete-IsFaithful}
use goreverselb.Config.Restart.{IsReadable, start_up-restart}
use goreverselb.Config.Unreadable.{start_up-unreadable}

abbrev codecs : Codecs
codecs = record { yaml = concrete; json = concrete }

abbrev encoding : Bytes
encoding =
    (12 ∷ codes "default@none")
    ++ ((12 ∷ codes "default@none") ++ ((6 ∷ codes "secret") ++ (0 ∷ 1 ∷ codes "*")))

abbrev first_start : World
first_start = record {
  file = record { filename = store_name; app_config = true };
  config = record {
    users =
        (
          default_user_id,
          record {
            user_id = default_user_id;
            token = codes "secret";
            role = [];
            services = [];
            allowed_sources = codes "*";
          },
        )
        ∷ [];
  };
  disk = (store_name, encoding) ∷ [];
}

starts : start_up codecs true (codes "secret") [] ≡ some first_start
unfolding start_up get put delete bytes_dec concrete
starts = refl

encodes : concrete.marshal (some first_start.config) ≡ some encoding
unfolding concrete
encodes = refl

no_store : get {V = Bytes} store_name [] ≡ none
unfolding get
no_store = refl

start_up-restart_example :
    (w' : World) × (u : UserData) × (start_up codecs true (codes "changed") first_start.disk
      ≡ some w')
    × (get default_user_id first_start.config.users ≡ some u)
    × ((name : Bytes)
        → get name w'.config.users
          ≡ ite
              (bytes_dec default_user_id name)
              (some (record u { token = codes "changed" }))
              (get name first_start.config.users))
start_up-restart_example =
    start_up-restart codecs (codes "secret") (codes "changed") [] first_start encoding
      concrete-IsFaithful (IsReadable.missing no_store) starts encodes

abbrev damaged : Map Bytes Bytes
damaged = (store_name, 7 ∷ []) ∷ []

is_stored : get store_name damaged ≡ some (7 ∷ [])
unfolding get bytes_dec
is_stored = refl

not_decoded : concrete.unmarshal (7 ∷ []) (record { users = [] }) ≡ (record { users = [] }, false)
unfolding concrete
not_decoded = refl

nil_encoded : concrete.marshal none ≡ some []
unfolding concrete
nil_encoded = refl

start_up-unreadable_example :
    ((get {V = UserData} default_user_id [] ≡ none)
      × (start_up codecs true (codes "secret") damaged ≡ none))
    ⊎ ((w : World) × (start_up codecs true (codes "secret") damaged ≡ some w)
        × (get store_name w.disk ≡ some []))
start_up-unreadable_example =
    start_up-unreadable codecs (codes "secret") damaged (7 ∷ []) [] (record { users = [] })
      is_stored not_decoded nil_encoded
