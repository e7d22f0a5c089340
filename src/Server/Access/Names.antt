-- ===== src/Server/Access/Names.antt =====
-- parseServiceContext reads back the names that a client puts together.
use goreverselb.Base.{
  Bool-cases, Bytes, List, Without, [], arith, inl, inr, length, refl, ℕ, ◌++◌, ◌<◌, ◌==◌, ◌∷◌, ◌≡◌,
}
use goreverselb.Types.{TunnelData, default_user_id}
use goreverselb.Server.Access.{onto_first, split, parse_service_context}
use goreverselb.Cli.{tunnel_service_name}

split-Without : (sep : ℕ) (s : Bytes) → Without sep s → split sep s ≡ s ∷ []
unfolding split
split-Without sep [] w = refl
split-Without sep (c ∷ s) w = ground (arith, split-Without sep s w.1)

split-append :
    (sep : ℕ) (s t : Bytes) → Without sep s → split sep (s ++ (sep ∷ t)) ≡ s ∷ split sep t
unfolding split
split-append sep [] t w = ground arith
split-append sep (c ∷ s) t w = ground (arith, split-append sep s t w.1)

length-onto_first : (c : ℕ) (ps : List Bytes) → 0 < length (onto_first c ps)
unfolding onto_first
length-onto_first c [] = omega arith
length-onto_first c (p ∷ ps) = omega arith

split-ne-nil : (sep : ℕ) (s : Bytes) → 0 < length (split sep s)
unfolding split
split-ne-nil sep [] = omega arith
split-ne-nil sep (c ∷ s) = elim (Bool-cases (c == sep)) [
  | inl e ↦ rw e (omega arith)
  | inr e ↦ rw e (length-onto_first c (split sep s))
]

named : (s : Bytes) (c : ℕ) (i : Bytes) → tunnel_service_name s (c ∷ i) ≡ s ++ (b':' ∷ c ∷ i)
unfolding tunnel_service_name
named s c i = ground arith

-- Whatever stands behind the first separator, the first part is what stands in front of it.
module _ (td : TunnelData) where
  context_names :
      (service_name instance_name : Bytes)
      → Without b':' service_name
      → Without b':' instance_name
      → td.service_name ≡ tunnel_service_name service_name instance_name
      → ((parse_service_context td).service_name ≡ service_name)
        × ((parse_service_context td).instance_name ≡ instance_name)
  unfolding parse_service_context tunnel_service_name
  context_names service_name [] ws wi e = rw (e, split-Without b':' service_name ws) (refl, refl)
  context_names service_name (c ∷ i) ws wi e =
      rw
        (
          e,
          named service_name c i,
          split-append b':' service_name (c ∷ i) ws,
          split-Without b':' (c ∷ i) wi,
        )
        (refl, refl)

  pub context_user :
      (user_id secret : Bytes)
      → Without b':' user_id
      → td.token ≡ user_id ++ (b':' ∷ secret)
      → (parse_service_context td).user_id ≡ user_id
  unfolding parse_service_context
  context_user user_id secret w e =
      rw (e, split-append b':' user_id secret w) (ground (arith, split-ne-nil b':' secret))

-- A service, an instance and a user without colons, put together as a client does it, are read
-- back as they are: the instance of a service name without one is the empty text, and the user is
-- what stands in front of the first colon of the token, whatever stands behind it.
pub parse_service_context-tunnel_service_name :
    (td : TunnelData) (service_name instance_name user_id secret : Bytes)
    → Without b':' service_name
    → Without b':' instance_name
    → Without b':' user_id
    → td.service_name ≡ tunnel_service_name service_name instance_name
    → td.token ≡ user_id ++ (b':' ∷ secret)
    → ((parse_service_context td).service_name ≡ service_name)
      × ((parse_service_context td).instance_name ≡ instance_name)
      × ((parse_service_context td).user_id ≡ user_id)
parse_service_context-tunnel_service_name td service_name instance_name user_id secret ws wi wu e
      t =
    let names = context_names td service_name instance_name ws wi e in
    (names.0, names.1, context_user td user_id secret wu t)

-- A token without a colon is one of the default user.
pub parse_service_context-default_user :
    (td : TunnelData) → Without b':' td.token → (parse_service_context td).user_id ≡ default_user_id
unfolding parse_service_context
parse_service_context-default_user td w = rw (split-Without b':' td.token w) refl
