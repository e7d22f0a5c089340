-- ===== src/ServiceGroup/Removing.antt =====
-- The loop over the services that are gone in ReconcileServiceGroup of
-- pkg/muxtunnelClientServiceGroup.go.
use goreverselb.Base.{
  Bool, Bytes, Distinct, Map, Option, Option-cases, [], arith, bytes_dec, bytes_key, delete, get,
  get-delete, get-nil, inl, inr, is_some, ite, nat_key, none, not, refl, some, true, ◌&&◌, ◌∙◌, ◌∷◌,
  ◌≡◌, ◌≢◌,
}
use goreverselb.Client.Address.{split_host_port}
use goreverselb.ServiceGroup.{ServiceInfo, Group, remove_service, remove_services}
use goreverselb.ServiceGroup.Services.{reconcile_tunnels-Reconciled}
use goreverselb.ServiceGroup.Settled.{IsSettled, removed-IsSettled}
use goreverselb.ServiceGroup.Rounds.{Known}

pub record Removed (gone : Map Bytes Bool) (c : Group) (x : Option Group) : Type 0 where
  pub after : Group
  pub result : x ≡ some after
  pub settled : IsSettled after
  pub api_endpoint : after.api_endpoint ≡ c.api_endpoint
  pub names :
      (name : Bytes)
      → is_some (get name after.service_map)
        ≡ (is_some (get name c.service_map) && not (is_some (get name gone)))
  pub stays :
      (name : Bytes) → get name gone ≡ none → get name after.service_map ≡ get name c.service_map

get-cons :
    (name j : Bytes) (b : Bool) (gone : Map Bytes Bool)
    → get j ((name, b) ∷ gone) ≡ ite (bytes_dec name j) (some b) (get j gone)
unfolding get
get-cons name j b gone = refl

known_service :
    (name : Bytes) (c : Group)
    → is_some (get name c.service_map) ≡ true
    → (srv : ServiceInfo) × (get name c.service_map ≡ some srv)
known_service name c h = elim (Option-cases (get name c.service_map)) [
  | inl e ↦ absurd (ground (arith, e, h))
  | inr (srv, e) ↦ (srv, e)
]

-- What is left of the services that are gone is known after one of them was removed.
rest-Known :
    (name : Bytes) (b : Bool) (gone : Map Bytes Bool) {c : Group} {x : Option Group}
    → Known ((name, b) ∷ gone) c
    → get name gone ≡ none
    → (r : Removed ((name, b) ∷ []) c x) → Known gone r.after
rest-Known name b gone known fresh r j b' g =
    let apart : name ≢ j = λ e. ground (arith, fresh, e, g) in
    ground (
      arith,
      r.names j,
      known j b' (ground (arith, get-cons name j b gone, g, apart)),
      get-cons name j b [],
      get-nil {V = Bool} j,
      apart,
    )

-- Two removals, one after the other.
rest-Removed :
    (name : Bytes) (b : Bool) (gone : Map Bytes Bool) {c : Group} {x y z : Option Group}
    (r : Removed ((name, b) ∷ []) c x) (l : Removed gone r.after y)
    → z ≡ some l.after
    → Removed ((name, b) ∷ gone) c z
rest-Removed name b gone r l e = record {
  after = l.after;
  result = e;
  settled = l.settled;
  api_endpoint = l.api_endpoint ∙ r.api_endpoint;
  names = λ j. ground (
    arith,
    l.names j,
    r.names j,
    get-cons name j b gone,
    get-cons name j b [],
    get-nil {V = Bool} j,
  );
  stays = λ j g. ground (
    arith,
    l.stays j,
    r.stays j,
    get-cons name j b gone,
    get-cons name j b [],
    get-nil {V = Bool} j,
    g,
  );
}

module _ (host : Bytes) where
  remove_service-Removed :
      (name : Bytes) (srv : ServiceInfo) (b : Bool) (c : Group)
      → split_host_port c.api_endpoint ≡ some host
      → IsSettled c
      → get name c.service_map ≡ some srv
      → Removed ((name, b) ∷ []) c (remove_service name c)
  unfolding remove_service
  remove_service-Removed name srv b c reachable i h =
      let s = (i.everywhere name).serves srv h in
      let gone : ServiceInfo = record srv { deleted = true } in
      let r =
        reconcile_tunnels-Reconciled gone c host (ground (arith, s.endpoint, reachable)) i.tidy in
      record {
        after = record r.after { service_map = delete srv.name r.after.service_map };
        result = rw (h, r.result, s.named) refl;
        settled = removed-IsSettled gone c r i.keys (λ j e. i.everywhere j) refl;
        api_endpoint = r.api_endpoint;
        names = λ j. ground (
          arith,
          get-delete srv.name j r.after.service_map,
          r.service_map,
          s.named,
          get-cons name j b [],
          get-nil {V = Bool} j,
        );
        stays = λ j g. ground (
          arith,
          get-delete srv.name j r.after.service_map,
          r.service_map,
          s.named,
          get-cons name j b [],
          g,
        );
      }

  pub remove_services-Removed :
      (gone : Map Bytes Bool) (c : Group)
      → split_host_port c.api_endpoint ≡ some host
      → IsSettled c
      → Known gone c
      → Distinct gone
      → Removed gone c (remove_services gone c)
  unfolding remove_services
  remove_services-Removed [] c reachable i known d = record {
    after = c;
    result = refl;
    settled = i;
    api_endpoint = refl;
    names = λ name. ground (arith, get-nil {V = Bool} name);
    stays = λ name h. refl;
  }
  remove_services-Removed ((name, b) ∷ gone) c reachable i known d =
      let (srv, h) =
        known_service name c (known name b (ground (arith, get-cons name name b gone))) in
      let r = remove_service-Removed name srv b c reachable i h in
      let l =
        remove_services-Removed gone r.after (ground (arith, r.api_endpoint, reachable)) r.settled
          (rest-Known name b gone known d.0 r) d.1 in
      rest-Removed name b gone r l (rw r.result l.result)
