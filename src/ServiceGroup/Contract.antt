-- ===== src/ServiceGroup/Contract.antt =====
-- What a client of MuxTunnelClientServiceGroup, pkg/muxtunnelClientServiceGroup.go, may rely on.
use goreverselb.Base.{
  Bool, Bytes, Distinct, List, Map, Option, Option-cases, [], ap, arith, bytes_key, false, get,
  get-nil, inl, inr, is_some, nat_key, none, refl, some, true, ◌>>=◌, ◌∙◌, ◌∷◌, ◌≡◌,
}
use goreverselb.Client.Address.{split_host_port}
use goreverselb.ServiceGroup.{
  enter_service, reconcile_tunnels, ServiceInfo, Tunnels, Group, new_group, names_gone,
  reconcile_service_group, reconcile_services, remove_services,
}
use goreverselb.ServiceGroup.Settled.{IsSettled}
use goreverselb.ServiceGroup.Rounds.{NoNil, given, entry, has_name-given, has_name, Known}
use goreverselb.ServiceGroup.Entering.{Entered, reconcile_services-Entered}
use goreverselb.ServiceGroup.Removing.{Removed, remove_services-Removed}

-- The service that a name has after a reconciliation: that of the group, or what is made of the new
-- one.
abbrev pub kept_or_made : Group → Bytes → Option ServiceInfo → Option ServiceInfo
kept_or_made c name none = none
kept_or_made c name (some n) = entry c (get name c.service_map) (some n)

-- A reconciliation that ends without a panic in a settled group whose services are the new ones.
pub record IsReconciled (ns : Map Bytes (Option ServiceInfo)) (c : Group) (x : Option Group)
    : Type 0 where
  pub after : Group
  pub result : x ≡ some after
  pub settled : IsSettled after
  pub api_endpoint : after.api_endpoint ≡ c.api_endpoint
  pub names : (name : Bytes) → is_some (get name after.service_map) ≡ has_name name ns
  pub becomes : (name : Bytes) → get name after.service_map ≡ kept_or_made c name (given name ns)
  pub stays :
      (name : Bytes) (srv : ServiceInfo)
      → has_name name ns ≡ true
      → get name c.service_map ≡ some srv
      → get name after.service_map ≡ some srv

names_gone-get :
    (name : Bytes) (m : Map Bytes ServiceInfo)
    → is_some (get name (names_gone m)) ≡ is_some (get name m)
unfolding names_gone get
names_gone-get name [] = refl
names_gone-get name ((k, srv) ∷ m) = ground (arith, names_gone-get name m)

names_gone-Distinct : (m : Map Bytes ServiceInfo) → Distinct m → Distinct (names_gone m)
unfolding names_gone
names_gone-Distinct [] d = tt
names_gone-Distinct ((k, srv) ∷ m) d =
    (ground (arith, names_gone-get k m, d.0), names_gone-Distinct m d.1)

names_gone-Known : (c : Group) → Known (names_gone c.service_map) c
names_gone-Known c name b h = ground (arith, names_gone-get name c.service_map, h)

none_of : (o : Option ServiceInfo) → is_some o ≡ false → o ≡ none
none_of none h = refl
none_of (some x) h = absurd (cc)

module _ {ns : Map Bytes (Option ServiceInfo)} {c : Group}
    (e : Entered ns c
      (names_gone c.service_map)
      (reconcile_services ns c (names_gone c.service_map)))
    (r : Removed e.left e.after (remove_services e.left e.after)) where
  after-names : (name : Bytes) → is_some (get name r.after.service_map) ≡ has_name name ns
  after-names name =
      ground (arith, r.names name, e.names name, e.takes name, names_gone-get name c.service_map)

  after-becomes :
      (name : Bytes) (o : Option ServiceInfo)
      → given name ns ≡ o
      → get name r.after.service_map ≡ kept_or_made c name o
  after-becomes name none h =
      none_of (get name r.after.service_map)
        (ground (arith, after-names name, has_name-given name ns, h))
  after-becomes name (some n) h =
      let there : has_name name ns ≡ true = ground (arith, has_name-given name ns, h) in
      r.stays name (ground (arith, e.takes name, there))
      ∙ e.becomes name
      ∙ ap (entry c (get name c.service_map)) h

pub reconcile_service_group-IsReconciled :
    (ns : Map Bytes (Option ServiceInfo)) (c : Group) (host : Bytes)
    → split_host_port c.api_endpoint ≡ some host
    → NoNil ns
    → IsSettled c
    → IsReconciled ns c (reconcile_service_group ns c)
unfolding reconcile_service_group
reconcile_service_group-IsReconciled ns c host reachable z i =
    let gone = names_gone c.service_map in
    let e =
      reconcile_services-Entered host ns c gone reachable z i (names_gone-Known c)
        (names_gone-Distinct c.service_map i.keys) in
    let r =
      remove_services-Removed host e.left e.after (ground (arith, e.api_endpoint, reachable))
        e.settled e.known e.keys in
    record {
      after = r.after;
      result = rw e.result r.result;
      settled = r.settled;
      api_endpoint = r.api_endpoint ∙ e.api_endpoint;
      names = after-names e r;
      becomes = λ name. after-becomes e r name (given name ns) refl;
      stays = λ name srv h g. r.stays name (ground (arith, e.takes name, h)) ∙ e.stays name srv g;
    }

-- Some pointer is nil.
abbrev pub HasNil : Map Bytes (Option ServiceInfo) → Type 0
HasNil [] = ⊥
HasNil ((k, none) ∷ xs) = Unit {0}
HasNil ((k, some x) ∷ xs) = HasNil xs

reconcile_services-nil :
    (ns : Map Bytes (Option ServiceInfo)) (c : Group) (gone : Map Bytes Bool)
    → HasNil ns
    → reconcile_services ns c gone ≡ none
unfolding reconcile_services
reconcile_services-nil [] c gone h = absurd h
reconcile_services-nil ((k, none) ∷ ns) c gone h = refl
reconcile_services-nil ((k, some n) ∷ ns) c gone h =
    let (srv, c', gone') = enter_service n c gone in
    elim (Option-cases (reconcile_tunnels srv c')) [
      | inl e ↦ rw e refl
      | inr (c'', e) ↦ rw e (reconcile_services-nil ns c'' gone' h)
    ]

-- Where a pointer is nil, every reconciliation panics.
pub reconcile_service_group-nil :
    (ns : Map Bytes (Option ServiceInfo)) (c : Group)
    → HasNil ns
    → reconcile_service_group ns c ≡ none
unfolding reconcile_service_group
reconcile_service_group-nil ns c h =
    rw (reconcile_services-nil ns c (names_gone c.service_map) h) refl

-- Reconciliations one after another.
unfoldable pub reconcile_all : List (Map Bytes (Option ServiceInfo)) → Group → Option Group
reconcile_all [] c = some c
reconcile_all (ns ∷ nss) c = do c' ← reconcile_service_group ns c; reconcile_all nss c'

pub new_group-IsSettled : (api_endpoint token : Bytes) → IsSettled (new_group api_endpoint token)
unfolding new_group
new_group-IsSettled api_endpoint token = record {
  tidy = λ name m h. absurd (ground (arith, get-nil {V = Tunnels} name));
  keys = tt;
  everywhere = λ name. record {
    serves = λ srv h. absurd (ground (arith, get-nil {V = ServiceInfo} name));
    idle = λ h m g. absurd (ground (arith, get-nil {V = Tunnels} name));
  };
}

abbrev pub AllNoNil : List (Map Bytes (Option ServiceInfo)) → Type 0
AllNoNil [] = Unit {0}
AllNoNil (ns ∷ nss) = NoNil ns × AllNoNil nss

reconcile_all-IsSettled :
    (nss : List (Map Bytes (Option ServiceInfo))) (c : Group) (host : Bytes)
    → split_host_port c.api_endpoint ≡ some host
    → AllNoNil nss
    → IsSettled c
    → (c' : Group) × (reconcile_all nss c ≡ some c') × IsSettled c'
unfolding reconcile_all
reconcile_all-IsSettled [] c host reachable z i = (c, refl, i)
reconcile_all-IsSettled (ns ∷ nss) c host reachable (z, zs) i =
    let r = reconcile_service_group-IsReconciled ns c host reachable z i in
    let (c', e, j) =
      reconcile_all-IsSettled nss r.after host (ground (arith, r.api_endpoint, reachable)) zs
        r.settled in
    (c', rw r.result e, j)

-- From a new group with an endpoint that has a host, no sequence of reconciliations in which no
-- pointer is nil panics, as a tunnel closed twice or a write into a nil map would, and the group is
-- settled after it.
pub reconcile_all-new_group :
    (api_endpoint token host : Bytes) (nss : List (Map Bytes (Option ServiceInfo)))
    → split_host_port api_endpoint ≡ some host
    → AllNoNil nss
    → (c : Group) × (reconcile_all nss (new_group api_endpoint token) ≡ some c) × IsSettled c
unfolding new_group
reconcile_all-new_group api_endpoint token host nss reachable zs =
    reconcile_all-IsSettled nss (new_group api_endpoint token) host reachable zs
      (new_group-IsSettled api_endpoint token)
