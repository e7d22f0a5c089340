-- ===== src/ServiceGroup/Settled.antt =====
-- The state between two reconciliations of pkg/muxtunnelClientServiceGroup.go, and the steps that
-- keep it.
use goreverselb.Base.{
  Bytes, Distinct, Map, Option, Option-cases, ap, arith, bytes_dec, bytes_key, delete,
  delete-Distinct, false, get, get-delete, inl, inr, nat_key, none, refl, some, subst, sym, true,
  ◌∙◌, ◌≡◌, ◌≢◌,
}
use goreverselb.ServiceGroup.{ServiceInfo, Tunnels, Group}
use goreverselb.ServiceGroup.Reconciled.{IsTidy, Matches, AsAsked, Reconciled, old_tunnel, wanted}
use goreverselb.ServiceGroup.Fresh.{origin, identity}
use goreverselb.Client.{MuxTunnelClient}

pub record IsServed (c : Group) (name : Bytes) (srv : ServiceInfo) : Type 0 where
  pub named : srv.name ≡ name
  pub endpoint : srv.tunnel_endpoint_api ≡ c.api_endpoint
  pub alive : srv.deleted ≡ false
  pub tunnels : Tunnels
  pub stored : get name c.tunnels ≡ some tunnels
  pub as_wanted : AsAsked srv tunnels

-- A service of the map has the tunnels that it wants, and a name without a service has none.
pub record IsSettledAt (c : Group) (name : Bytes) : Type 0 where
  pub serves : (srv : ServiceInfo) → get name c.service_map ≡ some srv → IsServed c name srv
  pub idle :
      get name c.service_map ≡ none
      → (m : Tunnels) → get name c.tunnels ≡ some m
      → (k : Bytes) → get k m ≡ none

pub record IsSettled (c : Group) : Type 0 where
  pub tidy : IsTidy c
  pub keys : Distinct c.service_map
  pub everywhere : (name : Bytes) → IsSettledAt c name

pub IsSettledAt-agree :
    (c c' : Group) (name : Bytes)
    → IsSettledAt c name
    → get name c'.service_map ≡ get name c.service_map
    → get name c'.tunnels ≡ get name c.tunnels
    → c'.api_endpoint ≡ c.api_endpoint
    → IsSettledAt c' name
IsSettledAt-agree c c' name a e t p = record {
  serves = λ srv h.
      let s = a.serves srv (sym e ∙ h) in
      record {
        named = s.named;
        endpoint = s.endpoint ∙ sym p;
        alive = s.alive;
        tunnels = s.tunnels;
        stored = t ∙ s.stored;
        as_wanted = s.as_wanted;
      };
  idle = λ h m g. a.idle (sym e ∙ h) m (sym t ∙ g);
}

-- The old tunnels of the service's keys are as its ports ask for.
abbrev pub AllAsked : ServiceInfo → (Bytes → Option MuxTunnelClient) → Type 0
AllAsked srv old =
    (k : Bytes) (t : MuxTunnelClient)
    → wanted srv k ≡ true
    → old k ≡ some t
    → origin srv k srv.ports none ≡ some (identity t)

asked-origin :
    (srv : ServiceInfo) (k : Bytes) (o : Option MuxTunnelClient)
    → ((t : MuxTunnelClient) → o ≡ some t → origin srv k srv.ports none ≡ some (identity t))
    → origin srv k srv.ports none ≡ origin srv k srv.ports o
asked-origin srv k none f = refl
asked-origin srv k (some t) f = f t refl

asked-AsAsked :
    (srv : ServiceInfo) (old : Bytes → Option MuxTunnelClient) (m : Tunnels)
    → AllAsked srv old
    → Matches srv old m
    → AsAsked srv m
asked-AsAsked srv old m asked q = record {
  present = λ k w.
      let (t, g, f) = q.present k w in
      (
        t,
        g,
        record {
          is_open = f.is_open;
          has_addresses = f.has_addresses;
          has_target = f.has_target;
          has_identity = asked-origin srv k (old k) (λ u e. asked k u w e) ∙ f.has_identity;
        },
      );
  absent = q.absent;
}

-- The tunnels of a service that is served are.
pub served-AllAsked :
    (c : Group) (srv : ServiceInfo) (m : Tunnels)
    → get srv.name c.tunnels ≡ some m
    → AsAsked srv m
    → AllAsked srv (old_tunnel c srv.name)
served-AllAsked c srv m stored q k t w e =
    let (u, g, f) = q.present k w in
    let same : u ≡ t = ground (arith, stored, e, g) in
    f.has_identity ∙ ap (λ x. some (identity x)) same

-- A service that has none has none that is not.
pub idle-AllAsked :
    (c : Group) (srv : ServiceInfo)
    → ((m : Tunnels) → get srv.name c.tunnels ≡ some m → (k : Bytes) → get k m ≡ none)
    → AllAsked srv (old_tunnel c srv.name)
idle-AllAsked c srv idle k t w e = elim (Option-cases (get srv.name c.tunnels)) [
  | inl n ↦ absurd (ground (arith, n, e))
  | inr (m, n) ↦ absurd (ground (arith, n, e, idle m n k))
]

module _ (srv : ServiceInfo) (c : Group) {o : Option Group} (r : Reconciled srv c o)
    (d : Distinct c.service_map)
    (elsewhere : (name : Bytes) → srv.name ≢ name → IsSettledAt c name) where
  after-Distinct : Distinct r.after.service_map
  after-Distinct = subst (λ (x : Map Bytes ServiceInfo). Distinct x) (sym r.service_map) d

  -- The service that is reconciled stands in the map.
  pub reconciled-IsSettled :
      get srv.name c.service_map ≡ some srv
      → srv.tunnel_endpoint_api ≡ c.api_endpoint
      → srv.deleted ≡ false
      → AllAsked srv (old_tunnel c srv.name)
      → IsSettled r.after
  reconciled-IsSettled h p a asked = record {
    tidy = r.tidy;
    keys = after-Distinct;
    everywhere = λ name. elim (bytes_dec srv.name name) [
      | yes e ↦ record {
        serves = λ x g.
            let q : srv ≡ x = ground (arith, r.service_map, h, g, e) in
            subst (λ (y : ServiceInfo). IsServed r.after name y) q
              (record {
                named = e;
                endpoint = p ∙ sym r.api_endpoint;
                alive = a;
                tunnels = r.tunnels;
                stored = ground (arith, r.stored, e);
                as_wanted = asked-AsAsked srv (old_tunnel c srv.name) r.tunnels asked r.as_wanted;
              });
        idle = λ g. absurd (ground (arith, r.service_map, h, g, e));
      }
      | no n ↦
          IsSettledAt-agree c r.after name (elsewhere name n) (ground (arith, r.service_map))
            (r.others name n) r.api_endpoint
    ];
  }

  -- The service that is reconciled is deleted and then leaves the map.
  pub removed-IsSettled :
      srv.deleted ≡ true
      → IsSettled (record r.after { service_map = delete srv.name r.after.service_map })
  removed-IsSettled a = record {
    tidy = r.tidy;
    keys = delete-Distinct srv.name r.after.service_map after-Distinct;
    everywhere = λ name. elim (bytes_dec srv.name name) [
      | yes e ↦ record {
        serves = λ x g. absurd (ground (arith, get-delete srv.name name r.after.service_map, e, g));
        idle = λ g m f k.
            let q : r.tunnels ≡ m = ground (arith, r.stored, f, e) in
            subst (λ (y : Tunnels). get k y ≡ none) q (r.as_wanted.absent k (ground (arith, a)));
      }
      | no n ↦
          IsSettledAt-agree c (record r.after { service_map = delete srv.name r.after.service_map })
            name (elsewhere name n)
            (ground (arith, get-delete srv.name name r.after.service_map, r.service_map, n))
            (r.others name n) r.api_endpoint
    ];
  }
