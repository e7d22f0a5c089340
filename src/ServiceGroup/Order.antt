-- ===== src/ServiceGroup/Order.antt =====
-- The order in which `range` visits the new services, in ReconcileServiceGroup of
-- pkg/muxtunnelClientServiceGroup.go.
use goreverselb.Base.{
  Bytes, Map, Option, [], ap, arith, bytes_dec, bytes_key, get, if◌then◌else◌, nat_key, none, refl,
  some, subst, sym, ◌∙◌, ◌∷◌, ◌≡◌,
}
use mathlib.Core.List.{Permᴰ}
use goreverselb.Client.Address.{split_host_port}
use goreverselb.ServiceGroup.{ServiceInfo, Tunnels, Group, reconcile_service_group}
use goreverselb.ServiceGroup.Reconciled.{AsAsked}
use goreverselb.ServiceGroup.Settled.{IsSettled}
use goreverselb.ServiceGroup.Rounds.{NoNil, same_name, given}
use goreverselb.ServiceGroup.Contract.{
  kept_or_made, reconcile_service_group-IsReconciled, IsReconciled,
}

-- The name of a service, and a nil pointer's, which has none, are not among the given ones.
abbrev IsNew : Option ServiceInfo → Map Bytes (Option ServiceInfo) → Type 0
IsNew none xs = Unit {0}
IsNew (some x) xs = given x.name xs ≡ none

-- No two services have one name.
abbrev pub DistinctNames : Map Bytes (Option ServiceInfo) → Type 0
DistinctNames [] = Unit {0}
DistinctNames (a ∷ xs) = IsNew a.1 xs × DistinctNames xs

IsNew-given :
    (o : Option ServiceInfo) (xs ys : Map Bytes (Option ServiceInfo))
    → ((name : Bytes) → given name xs ≡ given name ys)
    → IsNew o xs
    → IsNew o ys
IsNew-given none xs ys f d = tt
IsNew-given (some x) xs ys f d = sym (f x.name) ∙ d

given-cons :
    (name : Bytes) (a : Bytes × Option ServiceInfo) (xs ys : Map Bytes (Option ServiceInfo))
    → given name xs ≡ given name ys
    → given name (a ∷ xs) ≡ given name (a ∷ ys)
given-cons name (k, none) xs ys e = e
given-cons name (k, some x) xs ys e = ap (λ r. if same_name x.name name then some x else r) e

given-swap :
    (name : Bytes) (a b : Bytes × Option ServiceInfo) (xs : Map Bytes (Option ServiceInfo))
    → IsNew a.1 (b ∷ xs)
    → given name (a ∷ b ∷ xs) ≡ given name (b ∷ a ∷ xs)
given-swap name (k, none) (j, none) xs d = refl
given-swap name (k, none) (j, some y) xs d = refl
given-swap name (k, some x) (j, none) xs d = refl
given-swap name (k, some x) (j, some y) xs d = elim (bytes_dec x.name name) [
  | yes e ↦ elim (bytes_dec y.name name) [
    | yes f ↦ absurd (ground (arith, d, e, f))
    | no f ↦ ground (arith, e, f)
  ]
  | no e ↦ ground (arith, e)
]

swap-DistinctNames :
    (a b : Bytes × Option ServiceInfo) (xs : Map Bytes (Option ServiceInfo))
    → DistinctNames (a ∷ b ∷ xs)
    → DistinctNames (b ∷ a ∷ xs)
swap-DistinctNames (k, none) (j, none) xs d = d
swap-DistinctNames (k, none) (j, some y) xs d = (d.1.0, (tt, d.1.1))
swap-DistinctNames (k, some x) (j, none) xs d = (tt, (d.0, d.1.1))
swap-DistinctNames (k, some x) (j, some y) xs d = elim (bytes_dec y.name x.name) [
  | yes e ↦ absurd (ground (arith, d.0, e))
  | no e ↦ (ground (arith, e, d.1.0), (ground (arith, e, d.0), d.1.1))
]

NoNil-swap :
    (a b : Bytes × Option ServiceInfo) (xs : Map Bytes (Option ServiceInfo))
    → NoNil (a ∷ b ∷ xs)
    → NoNil (b ∷ a ∷ xs)
NoNil-swap (k, none) b xs z = absurd z
NoNil-swap (k, some x) (j, none) xs z = absurd z
NoNil-swap (k, some x) (j, some y) xs z = z

NoNil-cons :
    (a : Bytes × Option ServiceInfo) (xs ys : Map Bytes (Option ServiceInfo))
    → (NoNil xs → NoNil ys)
    → NoNil (a ∷ xs)
    → NoNil (a ∷ ys)
NoNil-cons (k, none) xs ys f z = z
NoNil-cons (k, some x) xs ys f z = f z

NoNil-Permᴰ : {ns ns' : Map Bytes (Option ServiceInfo)} → Permᴰ ns ns' → NoNil ns → NoNil ns'
NoNil-Permᴰ Permᴰ.nil z = z
NoNil-Permᴰ (Permᴰ.cons {a = a} {b = b} {l₁ = l₁} {l₂ = l₂} e p) z =
    subst (λ (x : Bytes × Option ServiceInfo). NoNil (x ∷ l₂)) e
      (NoNil-cons a l₁ l₂ (NoNil-Permᴰ p) z)
NoNil-Permᴰ (Permᴰ.swap {a = a} {b = b} {a' = a'} {b' = b'} {l = l} e e') z =
    subst (λ (x : Bytes × Option ServiceInfo). NoNil (a' ∷ x ∷ l)) e
      (subst (λ (x : Bytes × Option ServiceInfo). NoNil (x ∷ a ∷ l)) e' (NoNil-swap a b l z))
NoNil-Permᴰ (Permᴰ.trans p q) z = NoNil-Permᴰ q (NoNil-Permᴰ p z)

given-Permᴰ :
    {ns ns' : Map Bytes (Option ServiceInfo)}
    → Permᴰ ns ns'
    → DistinctNames ns
    → DistinctNames ns' × ((name : Bytes) → given name ns ≡ given name ns')
given-Permᴰ Permᴰ.nil d = (tt, λ name. refl)
given-Permᴰ (Permᴰ.cons {a = a} {b = b} {l₁ = l₁} {l₂ = l₂} e p) d =
    let (d', f) = given-Permᴰ p d.1 in
    subst
      (λ (z : Bytes × Option ServiceInfo).
        DistinctNames (z ∷ l₂) × ((name : Bytes) → given name (a ∷ l₁) ≡ given name (z ∷ l₂)))
      e ((IsNew-given a.1 l₁ l₂ f d.0, d'), λ name. given-cons name a l₁ l₂ (f name))
given-Permᴰ (Permᴰ.swap {a = a} {b = b} {a' = a'} {b' = b'} {l = l} e e') d =
    subst
      (λ (z : Bytes × Option ServiceInfo).
        DistinctNames (a' ∷ z ∷ l)
        × ((name : Bytes) → given name (a ∷ b ∷ l) ≡ given name (a' ∷ z ∷ l)))
      e
      (subst
        (λ (z : Bytes × Option ServiceInfo).
          DistinctNames (z ∷ a ∷ l)
          × ((name : Bytes) → given name (a ∷ b ∷ l) ≡ given name (z ∷ a ∷ l)))
        e' (swap-DistinctNames a b l d, λ name. given-swap name a b l d.0))
given-Permᴰ (Permᴰ.trans p q) d =
    let (d', f) = given-Permᴰ p d in
    let (d'', g) = given-Permᴰ q d' in (d'', λ name. f name ∙ g name)

-- Two groups that no lookup of a service tells apart, and whose tunnels of each service are those
-- that the service asks for; a name without a service has none.
pub record Agree (a b : Group) : Type 0 where
  pub services : (name : Bytes) → get name a.service_map ≡ get name b.service_map
  pub tunnels :
      (name : Bytes) (srv : ServiceInfo)
      → get name a.service_map ≡ some srv
      → (m : Tunnels) × (m' : Tunnels) × (get name a.tunnels ≡ some m)
        × (get name b.tunnels ≡ some m')
        × AsAsked srv m
        × AsAsked srv m'
  pub idle :
      (name : Bytes)
      → get name a.service_map ≡ none
      → ((m : Tunnels) → get name a.tunnels ≡ some m → (k : Bytes) → get k m ≡ none)
        × ((m : Tunnels) → get name b.tunnels ≡ some m → (k : Bytes) → get k m ≡ none)

reconciled-Agree :
    {ns ns' : Map Bytes (Option ServiceInfo)} {c : Group} {x y : Option Group}
    (r : IsReconciled ns c x) (r' : IsReconciled ns' c y)
    → ((name : Bytes) → given name ns ≡ given name ns')
    → Agree r.after r'.after
reconciled-Agree {c = c} r r' f =
    let same : (name : Bytes) → get name r.after.service_map ≡ get name r'.after.service_map =
      λ name. r.becomes name ∙ ap (kept_or_made c name) (f name) ∙ sym (r'.becomes name) in
    record {
      services = same;
      tunnels = λ name srv h.
          let s = (r.settled.everywhere name).serves srv h in
          let s' = (r'.settled.everywhere name).serves srv (sym (same name) ∙ h) in
          (s.tunnels, s'.tunnels, s.stored, s'.stored, s.as_wanted, s'.as_wanted);
      idle = λ name h. (
        (r.settled.everywhere name).idle h,
        (r'.settled.everywhere name).idle (sym (same name) ∙ h),
      );
    }

-- With an endpoint that has a host, the order in which the new services are visited does not
-- matter to a settled group if no pointer is nil and no two services have one name: in either order
-- the reconciliation ends without a panic, every name has the same service, a service has a tunnel
-- exactly for the keys of its ports, each as these ask for, in both groups, and a name without a
-- service has none in either.
pub reconcile_service_group-reordered :
    (ns ns' : Map Bytes (Option ServiceInfo)) (c : Group) (host : Bytes)
    → split_host_port c.api_endpoint ≡ some host
    → NoNil ns
    → IsSettled c
    → Permᴰ ns ns'
    → DistinctNames ns
    → (a : Group) × (b : Group) × (reconcile_service_group ns c ≡ some a)
      × (reconcile_service_group ns' c ≡ some b)
      × Agree a b
reconcile_service_group-reordered ns ns' c host reachable z i p d =
    let r = reconcile_service_group-IsReconciled ns c host reachable z i in
    let r' = reconcile_service_group-IsReconciled ns' c host reachable (NoNil-Permᴰ p z) i in
    (r.after, r'.after, r.result, r'.result, reconciled-Agree r r' (given-Permᴰ p d).1)
