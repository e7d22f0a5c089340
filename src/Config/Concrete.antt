-- ===== src/Config/Concrete.antt =====
-- An encoder of configurations of one user without services: it shows that the hypotheses on the
-- encoder can hold.
use goreverselb.Base.{
  Bool, Bytes, Map, Option, [], ap, arith, bytes_key, drop, drop-length-append, false, get,
  if◌then◌else◌, leb, length, length-append, nat_key, none, refl, some, subst, sym, take,
  take-length-append, true, ◌++◌, ◌>>=◌, ◌∷◌, ◌≡◌,
}
use goreverselb.Types.{ConfigData, UserData, ServiceData}
use goreverselb.Config.{Codec}
use goreverselb.Config.Restart.{IsFaithful}

text : Bytes → Bytes → Bytes
text s t = length s ∷ (s ++ t)

read_text : Bytes → Option (Bytes × Bytes)
read_text [] = none
read_text (n ∷ t) = if leb n (length t) then some (take n t, drop n t) else none

read_text-text : (s t : Bytes) → read_text (text s t) ≡ some (s, t)
unfolding read_text text
read_text-text s t =
    ground (arith, length-append s t, take-length-append s t, drop-length-append s t)

encode_user : Bytes → UserData → Map Bytes ServiceData → Option Bytes
unfolding text
encode_user k u [] =
    some (text k (text u.user_id (text u.token (text u.role (text u.allowed_sources [])))))
encode_user k u (s ∷ services) = none

encode_users : Map Bytes UserData → Option Bytes
unfolding encode_user
encode_users [] = none
encode_users ((k, u) ∷ []) = encode_user k u u.services
encode_users (e ∷ e' ∷ users) = none

encode : Option ConfigData → Option Bytes
unfolding encode_users
encode none = some []
encode (some a) = encode_users a.users

decode_users : Bytes → Option ConfigData
unfolding read_text
decode_users b = do
  k ← read_text b
  i ← read_text k.1
  t ← read_text i.1
  r ← read_text t.1
  s ← read_text r.1
  some (record {
    users =
        (
          k.0,
          record { user_id = i.0; token = t.0; role = r.0; services = []; allowed_sources = s.0 },
        )
        ∷ [];
  })

decoded_into : Option ConfigData → ConfigData → ConfigData × Bool
decoded_into none c = (c, false)
decoded_into (some a) c = (a, true)

decode : Bytes → ConfigData → ConfigData × Bool
unfolding decode_users decoded_into
decode b c = decoded_into (decode_users b) c

unfoldable pub concrete : Codec
unfolding encode decode
concrete = record { marshal = encode; unmarshal = decode }

decode_users-text :
    (k i t r s : Bytes)
    → decode_users (text k (text i (text t (text r (text s [])))))
      ≡ some (record {
        users =
            (k, record { user_id = i; token = t; role = r; services = []; allowed_sources = s })
            ∷ [];
      })
unfolding decode_users
decode_users-text k i t r s =
    rw
      (
        read_text-text k (text i (text t (text r (text s [])))),
        read_text-text i (text t (text r (text s []))),
        read_text-text t (text r (text s [])),
        read_text-text r (text s []),
        read_text-text s [],
      )
      refl

abbrev Decodes : Map Bytes UserData → Bytes → Type 0
Decodes users b =
    (a : ConfigData) × (decode b (record { users = [] }) ≡ (a, true))
    × ((name : Bytes) → get name a.users ≡ get name users)

encode_user-Decodes :
    (k : Bytes) (u : UserData) (services : Map Bytes ServiceData) (b : Bytes)
    → u.services ≡ services
    → encode_user k u services ≡ some b
    → Decodes ((k, u) ∷ []) b
unfolding encode_user decode
encode_user-Decodes k u [] b e h =
    let q : text k (text u.user_id (text u.token (text u.role (text u.allowed_sources [])))) ≡ b =
      ground (arith, h) in
    subst (λ (x : Bytes). Decodes ((k, u) ∷ []) x) q
      (
        record { users = (k, record u { services = [] }) ∷ [] },
        rw (decode_users-text k u.user_id u.token u.role u.allowed_sources) refl,
        λ name.
            ap (λ (m : Map Bytes ServiceData). get name ((k, record u { services = m }) ∷ []))
              (sym e),
      )
encode_user-Decodes k u (s ∷ services) b e h = absurd (cc)

encode_users-Decodes :
    (users : Map Bytes UserData) (b : Bytes) → encode_users users ≡ some b → Decodes users b
unfolding encode_users
encode_users-Decodes [] b h = absurd (cc)
encode_users-Decodes ((k, u) ∷ []) b h = encode_user-Decodes k u u.services b refl h
encode_users-Decodes (e ∷ e' ∷ users) b h = absurd (cc)

pub concrete-IsFaithful : IsFaithful concrete
unfolding concrete
concrete-IsFaithful = record {
  encodes = (_, refl);
  decodes = λ a b h. encode_users-Decodes a.users b h;
}
