-- ===== src/ServiceGroup/Ports.antt =====
-- The loop over a service's ports in reconcileTunnels of pkg/muxtunnelClientServiceGroup.go.
use goreverselb.Base.{
  Bool, Bool-cases, Bytes, Distinct, List, Map, Option, Option-cases, [], ap, arith, bytes_dec,
  bytes_key, delete, delete-Distinct, false, get, get-delete, get-put, inl, inr, ite, nat_key, none,
  put, put-Distinct, refl, some, sym, true, ◌∙◌, ◌∷◌, ◌≡◌,
}
use goreverselb.Client.{MuxTunnelClient, new_mux_tunnel_client}
use goreverselb.Client.Address.{split_host_port}
use goreverselb.ServiceGroup.{
  PortData, ServiceInfo, Tunnels, Work, port_key, tunnel_data, refresh, reconcile_port,
  reconcile_ports,
}
use goreverselb.ServiceGroup.Fresh.{
  identity, asked_of, origin, IsFresh, refresh-Refreshed, first_asked-here, origin-here,
  origin-later, last_target-none, has_port, has_port-here, round-IsFresh,
}

abbrev pub Open : Tunnels → Type 0
Open m = (k : Bytes) (t : MuxTunnelClient) → get k m ≡ some t → t.closed ≡ false

put-Open :
    (k : Bytes) (t : MuxTunnelClient) (m : Tunnels) → t.closed ≡ false → Open m → Open (put k t m)
put-Open k t m h o j u e = ground (arith, get-put k j t m, o j u)

-- What the loop over `ps` makes of the map `m` and of `gone`.
pub record Looped (srv : ServiceInfo) (ps : List PortData) (m : Tunnels) (gone : Map Bytes Bool)
    (w : Option Work) : Type 0 where
  pub after : Tunnels
  pub left : Map Bytes Bool
  pub result : w ≡ some (some after, left)
  pub all_open : Open after
  pub keys : Distinct after
  pub left_keys : Distinct left
  pub present :
      (k : Bytes)
      → has_port k ps ≡ true
      → (t : MuxTunnelClient) × (get k after ≡ some t) × IsFresh srv k ps (get k m) t
  pub others : (k : Bytes) → has_port k ps ≡ false → get k after ≡ get k m
  pub taken : (k : Bytes) → has_port k ps ≡ true → get k left ≡ none
  pub untaken : (k : Bytes) → has_port k ps ≡ false → get k left ≡ get k gone

module _ (srv : ServiceInfo) (host : Bytes)
    (reachable : split_host_port srv.tunnel_endpoint_api ≡ some host) where
  new_mux_tunnel_client-some :
      (p : PortData)
      → (t : MuxTunnelClient) × (t.closed ≡ false)
        × (identity t ≡ asked_of srv p)
        × (new_mux_tunnel_client srv.tunnel_endpoint_api (tunnel_data srv p) ≡ some t)
  unfolding new_mux_tunnel_client tunnel_data
  new_mux_tunnel_client-some p = (
    record {
      api_endpoint = srv.tunnel_endpoint_api;
      api_endpoint_host = host;
      tunnel_data = tunnel_data srv p;
      connection_count = 1;
      closed = false;
    },
    refl,
    refl,
    rw reachable refl,
  )

  reconcile_port-some :
      (p : PortData) (m : Tunnels) (gone : Map Bytes Bool)
      → Open m
      → (t : MuxTunnelClient) × IsFresh srv (port_key p) (p ∷ []) (get (port_key p) m) t
        × (reconcile_port srv p (some m, gone)
            ≡ some (some (put (port_key p) t m), delete (port_key p) gone))
  unfolding reconcile_port
  reconcile_port-some p m gone o = elim (Option-cases (get (port_key p) m)) [
    | inl e ↦
        let (t, c, q, n) = new_mux_tunnel_client-some p in
        let r = refresh-Refreshed srv p t c in
        (
          refresh srv p t,
          round-IsFresh srv p (get (port_key p) m) t (refresh srv p t) r (
              ap (origin srv (port_key p) (p ∷ [])) e
              ∙ first_asked-here srv (port_key p) p [] refl
              ∙ ap some (sym q)),
          rw (e, n) refl,
        )
    | inr (t, e) ↦
        let r = refresh-Refreshed srv p t (o (port_key p) t e) in
        (
          refresh srv p t,
          round-IsFresh srv p (get (port_key p) m) t (refresh srv p t) r
              (ap (origin srv (port_key p) (p ∷ [])) e),
          rw e refl,
        )
  ]

  module _ (p : PortData) (ps : List PortData) (m : Tunnels) (t : MuxTunnelClient)
      (fresh : IsFresh srv (port_key p) (p ∷ []) (get (port_key p) m) t) (k : Bytes) where
    -- A later port has the key too.
    earlier-IsFresh :
        (t' : MuxTunnelClient)
        → IsFresh srv k ps (get k (put (port_key p) t m)) t'
        → IsFresh srv k (p ∷ ps) (get k m) t'
    earlier-IsFresh t' z = record {
      is_open = z.is_open;
      has_addresses = z.has_addresses;
      has_target = rw z.has_target refl;
      has_identity = elim (bytes_dec (port_key p) k) [
        | yes e ↦
            let there : get k (put (port_key p) t m) ≡ some t =
              ground (arith, get-put (port_key p) k t m, e) in
            origin-here srv k p ps (get k m) e
            ∙ ap (λ j. origin srv (port_key p) (p ∷ []) (get j m)) (sym e)
            ∙ fresh.has_identity
            ∙ sym (ap (origin srv k ps) there)
            ∙ z.has_identity
        | no n ↦
            let there : get k (put (port_key p) t m) ≡ get k m =
              ground (arith, get-put (port_key p) k t m, n) in
            origin-later srv k p ps (get k m) n ∙ sym (ap (origin srv k ps) there) ∙ z.has_identity
      ];
    }

    -- No later port has the key.
    only-IsFresh :
        has_port k (p ∷ ps) ≡ true → has_port k ps ≡ false → IsFresh srv k (p ∷ ps) (get k m) t
    only-IsFresh h f =
        let e = has_port-here k p ps h f in
        record {
          is_open = fresh.is_open;
          has_addresses = fresh.has_addresses;
          has_target = rw (last_target-none k ps f) (
              ap (λ j. ite (bytes_dec (port_key p) j) (some p.target_port) none) (sym e)
              ∙ fresh.has_target);
          has_identity =
              origin-here srv k p ps (get k m) e
              ∙ ap (λ j. origin srv (port_key p) (p ∷ []) (get j m)) (sym e)
              ∙ fresh.has_identity;
        }

  pub reconcile_ports-Looped :
      (ps : List PortData) (m : Tunnels) (gone : Map Bytes Bool)
      → Open m
      → Distinct m
      → Distinct gone
      → Looped srv ps m gone (reconcile_ports srv ps (some m, gone))
  unfolding reconcile_ports
  reconcile_ports-Looped [] m gone o d g = record {
    after = m;
    left = gone;
    result = refl;
    all_open = o;
    keys = d;
    left_keys = g;
    present = λ k h. absurd (cc);
    others = λ k h. refl;
    taken = λ k h. absurd (cc);
    untaken = λ k h. refl;
  }
  reconcile_ports-Looped (p ∷ ps) m gone o d g =
      let (t, fresh, e) = reconcile_port-some p m gone o in
      let k0 = port_key p in
      let l =
        reconcile_ports-Looped ps (put k0 t m) (delete k0 gone) (put-Open k0 t m fresh.is_open o)
          (put-Distinct k0 t m d) (delete-Distinct k0 gone g) in
      record {
        after = l.after;
        left = l.left;
        result = rw e l.result;
        all_open = l.all_open;
        keys = l.keys;
        left_keys = l.left_keys;
        present = λ k h. elim (Bool-cases (has_port k ps)) [
          | inl f ↦
              let (t', e', z) = l.present k f in (t', e', earlier-IsFresh p ps m t fresh k t' z)
          | inr f ↦ (
            t,
            ground (arith, l.others k f, get-put k0 k t m, h),
            only-IsFresh p ps m t fresh k h f,
          )
        ];
        others = λ k h. ground (arith, l.others k, get-put k0 k t m);
        taken = λ k h. elim (Bool-cases (has_port k ps)) [
          | inl f ↦ l.taken k f
          | inr f ↦ ground (arith, l.untaken k f, get-delete k0 k gone, h)
        ];
        untaken = λ k h. ground (arith, l.untaken k, get-delete k0 k gone);
      }
