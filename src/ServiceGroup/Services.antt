-- ===== src/ServiceGroup/Services.antt =====
-- ReconcileServiceGroup of pkg/muxtunnelClientServiceGroup.go: a reconciliation ends without a
-- panic and leaves the tunnels of the services that it is given.
use goreverselb.Base.{
  Bool-cases, Bytes, Distinct, Option, arith, bytes_key, false, get, inl, inr, nat_key, some, subst,
  sym, true, ◌∙◌, ◌≡◌,
}
use goreverselb.Client.Address.{split_host_port}
use goreverselb.ServiceGroup.{
  tunnels_of, Work, ServiceInfo, Tunnels, Group, all_gone, reconcile_ports, finish,
  reconcile_tunnels,
}
use goreverselb.ServiceGroup.Fresh.{has_port}
use goreverselb.ServiceGroup.Ports.{Open, Looped, reconcile_ports-Looped}
use goreverselb.ServiceGroup.Gone.{
  all_gone-get, close_gone-Emptied, all_gone-Distinct, all_gone-Within,
}
use goreverselb.ServiceGroup.Reconciled.{
  old_tunnel, IsTidy, Reconciled, tunnels_of-some, deleted-Matches, looped-Within, looped-Matches,
  finish-Reconciled,
}

reconcile_tunnels-deleted :
    (srv : ServiceInfo) (c : Group) (m : Tunnels)
    → IsTidy c
    → Open m
    → Distinct m
    → ((k : Bytes) → get k m ≡ old_tunnel c srv.name k)
    → srv.deleted ≡ true
    → Reconciled srv c (finish srv c (some m, all_gone m))
reconcile_tunnels-deleted srv c m i o d q h =
    let e =
      close_gone-Emptied (all_gone m) m c.closed (all_gone-Distinct m d) d o (all_gone-Within m) in
    finish-Reconciled srv c i (all_gone m) m o e (deleted-Matches (old_tunnel c srv.name) h e)
      (λ k t old w. e.closes k true t (all_gone-get k m t (q k ∙ old)) (q k ∙ old))

reconcile_tunnels-Looped :
    (srv : ServiceInfo) (c : Group) (m : Tunnels) (v : Option Work)
    → IsTidy c
    → ((k : Bytes) → get k m ≡ old_tunnel c srv.name k)
    → srv.deleted ≡ false
    → (l : Looped srv srv.ports m (all_gone m) v)
    → Reconciled srv c (finish srv c (some l.after, l.left))
reconcile_tunnels-Looped srv c m v i q h l =
    let e =
      close_gone-Emptied l.left l.after c.closed l.left_keys l.keys l.all_open (looped-Within l) in
    finish-Reconciled srv c i l.left l.after l.all_open e
      (looped-Matches l (old_tunnel c srv.name) q h e)
      (λ k t old w.
        let f : has_port k srv.ports ≡ false = ground (arith, w, h) in
        e.closes k true t (l.untaken k f ∙ all_gone-get k m t (q k ∙ old))
          (l.others k f ∙ q k ∙ old))

module _ (srv : ServiceInfo) (c : Group) (m : Tunnels) (t : tunnels_of srv c ≡ some m) where
  reconcile_tunnels-finish :
      srv.deleted ≡ true → reconcile_tunnels srv c ≡ finish srv c (some m, all_gone m)
  unfolding reconcile_tunnels
  reconcile_tunnels-finish h = ground (arith, t, h)

  reconcile_tunnels-ports :
      (w : Work)
      → srv.deleted ≡ false
      → reconcile_ports srv srv.ports (some m, all_gone m) ≡ some w
      → reconcile_tunnels srv c ≡ finish srv c w
  unfolding reconcile_tunnels
  reconcile_tunnels-ports w h e = ground (arith, t, h, e)

-- In a group whose tunnels are open and have distinct keys, and with an endpoint that has a host,
-- the tunnels of a service are reconciled without a panic: the service has a tunnel exactly for the
-- keys of its ports, or none if it is deleted. Each is open and has the service's backend addresses
-- and the target of the last port with its key. One that was there keeps its endpoint, names and
-- frontend, and one that was not has those of the service and of the first port with its key. One
-- that was there and is not asked for any more is closed. The tunnels of other services and the map
-- of services stay as they are.
pub reconcile_tunnels-Reconciled :
    (srv : ServiceInfo) (c : Group) (host : Bytes)
    → split_host_port srv.tunnel_endpoint_api ≡ some host
    → IsTidy c
    → Reconciled srv c (reconcile_tunnels srv c)
reconcile_tunnels-Reconciled srv c host reachable i =
    let (m, t, o, d, q) = tunnels_of-some srv c host reachable i in
    elim (Bool-cases srv.deleted) [
      | inl h ↦
          subst (λ (x : Option Group). Reconciled srv c x)
            (sym (reconcile_tunnels-finish srv c m t h))
            (reconcile_tunnels-deleted srv c m i o d q h)
      | inr h ↦
          let l =
            reconcile_ports-Looped srv host reachable srv.ports m (all_gone m) o d
              (all_gone-Distinct m d) in
          subst (λ (x : Option Group). Reconciled srv c x)
            (sym (reconcile_tunnels-ports srv c m t (some l.after, l.left) h l.result))
            (reconcile_tunnels-Looped srv c m (reconcile_ports srv srv.ports (some m, all_gone m)) i
              q h l)
    ]
