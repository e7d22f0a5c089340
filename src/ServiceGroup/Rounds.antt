-- ===== src/ServiceGroup/Rounds.antt =====
-- A round of the loop over the new services in ReconcileServiceGroup of
-- pkg/muxtunnelClientServiceGroup.go.
use goreverselb.Base.{
  Bool, Bytes, Distinct, Map, Option, Option-cases, [], ap, arith, bytes_dec, bytes_key, delete,
  delete-Distinct, false, get, get-delete, get-put, get-put_ne, get-put_self, if◌then◌else◌, inl,
  inr, is_some, ite, nat_key, none, put, put-Distinct, refl, some, true, ◌||◌, ◌∙◌, ◌∷◌, ◌≡◌,
}
use goreverselb.Client.Address.{split_host_port}
use goreverselb.ServiceGroup.{ServiceInfo, Group, new_service, enter_service, reconcile_tunnels}
use goreverselb.ServiceGroup.Services.{reconcile_tunnels-Reconciled}
use goreverselb.ServiceGroup.Settled.{
  IsSettled, IsSettledAt-agree, reconciled-IsSettled, served-AllAsked, idle-AllAsked,
}

-- No pointer is nil.
abbrev pub NoNil : Map Bytes (Option ServiceInfo) → Type 0
NoNil [] = Unit {0}
NoNil ((k, none) ∷ xs) = ⊥
NoNil ((k, some x) ∷ xs) = NoNil xs

abbrev pub same_name : Bytes → Bytes → Bool
same_name n name = ite (bytes_dec n name) true false

-- One of the new services has the name.
abbrev pub has_name : Bytes → Map Bytes (Option ServiceInfo) → Bool
has_name name [] = false
has_name name ((k, none) ∷ xs) = has_name name xs
has_name name ((k, some x) ∷ xs) = same_name x.name name || has_name name xs

-- The first of the new services with the name.
abbrev pub given : Bytes → Map Bytes (Option ServiceInfo) → Option ServiceInfo
given name [] = none
given name ((k, none) ∷ xs) = given name xs
given name ((k, some x) ∷ xs) = if same_name x.name name then some x else given name xs

-- What the map has under a name when a service may be entered: an old service stays.
abbrev pub entry : Group → Option ServiceInfo → Option ServiceInfo → Option ServiceInfo
entry c (some srv) o = some srv
entry c none none = none
entry c none (some n) = some (new_service c n)

-- Every name of `gone` is one of a service.
abbrev pub Known : Map Bytes Bool → Group → Type 0
Known gone c =
    (name : Bytes) (b : Bool) → get name gone ≡ some b → is_some (get name c.service_map) ≡ true

-- A round of the loop over the new services.
pub record Round (n : ServiceInfo) (c : Group) (gone : Map Bytes Bool) : Type 0 where
  pub srv : ServiceInfo
  pub entered : Group
  pub left : Map Bytes Bool
  pub enters : enter_service n c gone ≡ (srv, entered, left)
  pub after : Group
  pub reconciles : reconcile_tunnels srv entered ≡ some after
  pub settled : IsSettled after
  pub api_endpoint : after.api_endpoint ≡ c.api_endpoint
  pub token : after.token ≡ c.token
  pub names :
      (name : Bytes)
      → is_some (get name after.service_map)
        ≡ (same_name n.name name || is_some (get name c.service_map))
  pub becomes :
      (name : Bytes)
      → get name after.service_map
        ≡ entry c (get name c.service_map) (if same_name n.name name then some n else none)
  pub takes : (name : Bytes) → get name left ≡ ite (bytes_dec n.name name) none (get name gone)
  pub keys : Distinct gone → Distinct left
  pub stays :
      (name : Bytes) (x : ServiceInfo)
      → get name c.service_map ≡ some x
      → get name after.service_map ≡ some x

enter_old :
    (n srv : ServiceInfo) (c : Group) (gone : Map Bytes Bool)
    → get n.name c.service_map ≡ some srv
    → enter_service n c gone ≡ (srv, c, delete n.name gone)
unfolding enter_service
enter_old n srv c gone h = rw (h, enter_service)

enter_new :
    (n : ServiceInfo) (c : Group) (gone : Map Bytes Bool)
    → get n.name c.service_map ≡ none
    → enter_service n c gone ≡ (
      new_service c n,
      record c { service_map = put n.name (new_service c n) c.service_map },
      gone,
    )
unfolding enter_service
enter_new n c gone h = rw (h, enter_service)

entry-some :
    (c : Group) (x : ServiceInfo) (o o' : Option ServiceInfo) → o ≡ some x → some x ≡ entry c o o'
entry-some c x o o' h = rw h refl

pub entry-none : (c : Group) (o : Option ServiceInfo) → o ≡ entry c o none
entry-none c none = refl
entry-none c (some x) = refl

-- Two rounds, of which the first enters a service or none.
pub entry-entry :
    (c c' : Group) (o g : Option ServiceInfo) (b : Bool) (n : ServiceInfo)
    → c'.api_endpoint ≡ c.api_endpoint
    → c'.token ≡ c.token
    → entry c' (entry c o (if b then some n else none)) g ≡ entry c o (if b then some n else g)
entry-entry c c' (some x) g b n e t = refl
entry-entry c c' none g true n e t = refl
entry-entry c c' none none false n e t = refl
entry-entry c c' none (some m) false n e t = rw (e, t) refl

pub has_name-given :
    (name : Bytes) (ns : Map Bytes (Option ServiceInfo))
    → has_name name ns ≡ is_some (given name ns)
has_name-given name [] = refl
has_name-given name ((k, none) ∷ xs) = has_name-given name xs
has_name-given name ((k, some x) ∷ xs) = ground (arith, has_name-given name xs)

entry-old :
    (n srv : ServiceInfo) (c : Group) (name : Bytes)
    → get n.name c.service_map ≡ some srv
    → get name c.service_map
      ≡ entry c (get name c.service_map) (if same_name n.name name then some n else none)
entry-old n srv c name h = elim (bytes_dec n.name name) [
  | yes e ↦
      let g : get name c.service_map ≡ some srv = ground (arith, h, e) in
      g
      ∙ entry-some c srv (get name c.service_map) (if same_name n.name name then some n else none) g
  | no e ↦
      let off : same_name n.name name ≡ false = ground (arith, e) in
      rw off (entry-none c (get name c.service_map))
]

entry-new :
    (n : ServiceInfo) (c : Group) (name : Bytes)
    → get n.name c.service_map ≡ none
    → get name (put n.name (new_service c n) c.service_map)
      ≡ entry c (get name c.service_map) (if same_name n.name name then some n else none)
entry-new n c name h = elim (bytes_dec n.name name) [
  | yes e ↦
      let on : same_name n.name name ≡ true = ground (arith, e) in
      let g : get name c.service_map ≡ none = ground (arith, h, e) in
      rw (on, g) (ground (arith, get-put n.name name (new_service c n) c.service_map, e))
  | no e ↦
      let off : same_name n.name name ≡ false = ground (arith, e) in
      rw off (
        get-put_ne n.name name (new_service c n) c.service_map e
        ∙ entry-none c (get name c.service_map))
]

module _ (host : Bytes) where
  old-Round :
      (n srv : ServiceInfo) (c : Group) (gone : Map Bytes Bool)
      → split_host_port c.api_endpoint ≡ some host
      → IsSettled c
      → get n.name c.service_map ≡ some srv
      → Round n c gone
  old-Round n srv c gone reachable i h =
      let s = (i.everywhere n.name).serves srv h in
      let r =
        reconcile_tunnels-Reconciled srv c host (ground (arith, s.endpoint, reachable)) i.tidy in
      record {
        srv = srv;
        entered = c;
        left = delete n.name gone;
        enters = enter_old n srv c gone h;
        after = r.after;
        reconciles = r.result;
        settled =
            reconciled-IsSettled srv c r i.keys (λ name e. i.everywhere name)
              (ground (arith, s.named, h)) s.endpoint s.alive
              (served-AllAsked c srv s.tunnels (ground (arith, s.named, s.stored)) s.as_wanted);
        api_endpoint = r.api_endpoint;
        token = r.token;
        names = λ name. ground (arith, r.service_map, h);
        becomes = λ name. ap (get name) r.service_map ∙ entry-old n srv c name h;
        takes = λ name. get-delete n.name name gone;
        keys = delete-Distinct n.name gone;
        stays = λ name x g. ground (arith, r.service_map, g);
      }

  new-Round :
      (n : ServiceInfo) (c : Group) (gone : Map Bytes Bool)
      → split_host_port c.api_endpoint ≡ some host
      → IsSettled c
      → Known gone c
      → get n.name c.service_map ≡ none
      → Round n c gone
  new-Round n c gone reachable i known h =
      let srv = new_service c n in
      let c1 : Group = record c { service_map = put n.name srv c.service_map } in
      let r = reconcile_tunnels-Reconciled srv c1 host reachable i.tidy in
      record {
        srv = srv;
        entered = c1;
        left = gone;
        enters = enter_new n c gone h;
        after = r.after;
        reconciles = r.result;
        settled =
            reconciled-IsSettled srv c1 r (put-Distinct n.name srv c.service_map i.keys)
              (λ name e.
                IsSettledAt-agree c c1 name (i.everywhere name)
                  (get-put_ne n.name name srv c.service_map e) refl refl)
              (get-put_self n.name srv c.service_map) refl refl
              (idle-AllAsked c1 srv ((i.everywhere n.name).idle h));
        api_endpoint = r.api_endpoint;
        token = r.token;
        becomes = λ name. ap (get name) r.service_map ∙ entry-new n c name h;
        names = λ name. ground (arith, r.service_map, get-put n.name name srv c.service_map);
        takes = λ name. elim (Option-cases (get name gone)) [
          | inl e ↦ ground (arith, e)
          | inr (b, e) ↦ ground (arith, known name b e, h, e)
        ];
        keys = λ d. d;
        stays =
            λ name x g. ground (arith, r.service_map, get-put n.name name srv c.service_map, g, h);
      }

  pub round :
      (n : ServiceInfo) (c : Group) (gone : Map Bytes Bool)
      → split_host_port c.api_endpoint ≡ some host
      → IsSettled c
      → Known gone c
      → Round n c gone
  round n c gone reachable i known = elim (Option-cases (get n.name c.service_map)) [
    | inl h ↦ new-Round n c gone reachable i known h
    | inr (srv, h) ↦ old-Round n srv c gone reachable i h
  ]
