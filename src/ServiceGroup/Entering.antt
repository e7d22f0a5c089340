-- ===== src/ServiceGroup/Entering.antt =====
-- The loop over the new services in ReconcileServiceGroup of pkg/muxtunnelClientServiceGroup.go.
use goreverselb.Base.{
  Bool, Bytes, Distinct, Map, Option, [], ap, arith, bytes_dec, bytes_key, get, if◌then◌else◌,
  is_some, nat_key, none, refl, some, ◌||◌, ◌∙◌, ◌∷◌, ◌≡◌,
}
use goreverselb.Client.Address.{split_host_port}
use goreverselb.ServiceGroup.{
  enter_service, ServiceInfo, Group, reconcile_services, reconcile_tunnels,
}
use goreverselb.ServiceGroup.Settled.{IsSettled}
use goreverselb.ServiceGroup.Rounds.{
  NoNil, given, entry, entry-none, entry-entry, same_name, has_name, Known, Round, round,
}

pub record Entered (ns : Map Bytes (Option ServiceInfo)) (c : Group) (gone : Map Bytes Bool)
    (x : Option (Group × Map Bytes Bool)) : Type 0 where
  pub after : Group
  pub left : Map Bytes Bool
  pub result : x ≡ some (after, left)
  pub settled : IsSettled after
  pub api_endpoint : after.api_endpoint ≡ c.api_endpoint
  pub token : after.token ≡ c.token
  pub becomes :
      (name : Bytes) → get name after.service_map ≡ entry c (get name c.service_map) (given name ns)
  pub known : Known left after
  pub keys : Distinct left
  pub names :
      (name : Bytes)
      → is_some (get name after.service_map)
        ≡ (has_name name ns || is_some (get name c.service_map))
  pub takes : (name : Bytes) → get name left ≡ (if has_name name ns then none else get name gone)
  pub stays :
      (name : Bytes) (x : ServiceInfo)
      → get name c.service_map ≡ some x
      → get name after.service_map ≡ some x

reconcile_services-cons :
    (k : Bytes) (n srv : ServiceInfo) (ns : Map Bytes (Option ServiceInfo)) (c c1 c2 : Group)
    (gone left : Map Bytes Bool)
    → enter_service n c gone ≡ (srv, c1, left)
    → reconcile_tunnels srv c1 ≡ some c2
    → reconcile_services ((k, some n) ∷ ns) c gone ≡ reconcile_services ns c2 left
unfolding reconcile_services
reconcile_services-cons k n srv ns c c1 c2 gone left e r = rw (e, r) refl

module _ {n : ServiceInfo} {c : Group} {gone : Map Bytes Bool} (r : Round n c gone) where
  round-Known : Known gone c → Known r.left r.after
  round-Known known name b h = elim (bytes_dec n.name name) [
    | yes e ↦ absurd (ground (arith, r.takes name, h, e))
    | no e ↦ ground (arith, r.names name, known name b, r.takes name, h, e)
  ]

module _ (host : Bytes) where
  pub reconcile_services-Entered :
      (ns : Map Bytes (Option ServiceInfo)) (c : Group) (gone : Map Bytes Bool)
      → split_host_port c.api_endpoint ≡ some host
      → NoNil ns
      → IsSettled c
      → Known gone c
      → Distinct gone
      → Entered ns c gone (reconcile_services ns c gone)
  unfolding reconcile_services
  reconcile_services-Entered [] c gone reachable z i known d = record {
    after = c;
    left = gone;
    result = refl;
    settled = i;
    api_endpoint = refl;
    token = refl;
    becomes = λ name. entry-none c (get name c.service_map);
    known = known;
    keys = d;
    names = λ name. refl;
    takes = λ name. refl;
    stays = λ name x h. h;
  }
  reconcile_services-Entered ((k, none) ∷ ns) c gone reachable z i known d = absurd z
  reconcile_services-Entered ((k, some n) ∷ ns) c gone reachable z i known d =
      let r = round host n c gone reachable i known in
      let l =
        reconcile_services-Entered ns r.after r.left (ground (arith, r.api_endpoint, reachable)) z
          r.settled (round-Known r known) (r.keys d) in
      record {
        after = l.after;
        left = l.left;
        result =
            reconcile_services-cons k n r.srv ns c r.entered r.after gone r.left r.enters
              r.reconciles
            ∙ l.result;
        settled = l.settled;
        api_endpoint = l.api_endpoint ∙ r.api_endpoint;
        token = l.token ∙ r.token;
        becomes = λ name.
            l.becomes name
            ∙ ap (λ o. entry r.after o (given name ns)) (r.becomes name)
            ∙ entry-entry c r.after (get name c.service_map) (given name ns) (same_name n.name name)
                n r.api_endpoint r.token;
        known = l.known;
        keys = l.keys;
        names = λ name. ground (arith, l.names name, r.names name);
        takes = λ name. ground (arith, l.takes name, r.takes name);
        stays = λ name x h. l.stays name x (r.stays name x h);
      }
