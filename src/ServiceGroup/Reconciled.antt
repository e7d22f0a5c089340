-- ===== src/ServiceGroup/Reconciled.antt =====
-- What reconcileTunnels of pkg/muxtunnelClientServiceGroup.go makes of a group.
use goreverselb.Base.{
  Bool, Bool-cases, Bytes, Distinct, List, Map, Option, Option-cases, [], ap, arith, bytes_dec,
  bytes_key, false, get, get-nil, get-put, get-put_ne, get-put_self, inl, inr, length, nat_key,
  none, not, put, refl, some, subst, sym, true, ◌&&◌, ◌==◌, ◌>>=◌, ◌∙◌, ◌∷◌, ◌≡◌, ◌≢◌,
}
use goreverselb.Client.{MuxTunnelClient}
use goreverselb.Client.Address.{split_host_port}
use goreverselb.ServiceGroup.{
  Work, ServiceInfo, Tunnels, Group, all_gone, tunnels_of, close_gone, finish,
}
use goreverselb.ServiceGroup.Ports.{Open, Looped}
use goreverselb.ServiceGroup.Fresh.{IsFresh, has_port}
use goreverselb.ServiceGroup.Gone.{
  Among, all_gone-get, Within, Emptied, all_gone-get, all_gone-Within,
}

-- The clients of the group are open, and no key of a service stands twice.
abbrev pub IsTidy : Group → Type 0
IsTidy c = (name : Bytes) (m : Tunnels) → get name c.tunnels ≡ some m → Open m × Distinct m

abbrev pub wanted : ServiceInfo → Bytes → Bool
wanted srv k = not srv.deleted && has_port k srv.ports

-- The service has a tunnel exactly for the keys of its ports, and none if it is deleted; each is
-- open, has the backend addresses of the service and the target of the last port with its key, and
-- is the old one of the key or as the first port with its key asks for.
pub record Matches (srv : ServiceInfo) (old : Bytes → Option MuxTunnelClient) (m : Tunnels)
    : Type 0 where
  pub present :
      (k : Bytes)
      → wanted srv k ≡ true
      → (t : MuxTunnelClient) × (get k m ≡ some t) × IsFresh srv k srv.ports (old k) t
  pub absent : (k : Bytes) → wanted srv k ≡ false → get k m ≡ none

abbrev pub nothing_old : Bytes → Option MuxTunnelClient
nothing_old k = none

-- The tunnels of the service are all as its ports ask for.
abbrev pub AsAsked : ServiceInfo → Tunnels → Type 0
AsAsked srv m = Matches srv nothing_old m

-- The tunnel of the service that the group has under the key.
abbrev pub old_tunnel : Group → Bytes → Bytes → Option MuxTunnelClient
old_tunnel c name k = get name c.tunnels >>= get k

pub record Reconciled (srv : ServiceInfo) (c : Group) (r : Option Group) : Type 0 where
  pub after : Group
  pub result : r ≡ some after
  pub service_map : after.service_map ≡ c.service_map
  pub api_endpoint : after.api_endpoint ≡ c.api_endpoint
  pub token : after.token ≡ c.token
  pub tunnels : Tunnels
  pub stored : get srv.name after.tunnels ≡ some tunnels
  pub as_wanted : Matches srv (old_tunnel c srv.name) tunnels
  pub closes :
      (k : Bytes) (t : MuxTunnelClient)
      → old_tunnel c srv.name k ≡ some t
      → wanted srv k ≡ false
      → Among (record t { closed = true }) after.closed
  pub tidy : IsTidy after
  pub others : (name : Bytes) → srv.name ≢ name → get name after.tunnels ≡ get name c.tunnels

split_host_port-nonempty :
    (s host : Bytes) → split_host_port s ≡ some host → (length s == 0) ≡ false
unfolding split_host_port
split_host_port-nonempty [] host h = absurd (cc)
split_host_port-nonempty (c ∷ s) host h = ground arith

pub tunnels_of-some :
    (srv : ServiceInfo) (c : Group) (host : Bytes)
    → split_host_port srv.tunnel_endpoint_api ≡ some host
    → IsTidy c
    → (m : Tunnels) × (tunnels_of srv c ≡ some m)
      × Open m
      × Distinct m
      × ((k : Bytes) → get k m ≡ old_tunnel c srv.name k)
unfolding tunnels_of
tunnels_of-some srv c host reachable i =
    let nonempty = split_host_port-nonempty srv.tunnel_endpoint_api host reachable in
    elim (Option-cases (get srv.name c.tunnels)) [
      | inl e ↦ (
        [],
        rw (nonempty, e) refl,
        (λ k t h. absurd (ground (arith, get-nil {V = MuxTunnelClient} k))),
        tt,
        λ k. get-nil {V = MuxTunnelClient} k ∙ sym (ap (λ x. x >>= get k) e),
      )
      | inr (m, e) ↦
          let (o, d) = i srv.name m e in
          (m, rw (nonempty, e) refl, o, d, λ k. sym (ap (λ x. x >>= get k) e))
    ]

all_gone-none : (k : Bytes) (m : Tunnels) → get k (all_gone m) ≡ none → get k m ≡ none
all_gone-none k m h = elim (Option-cases (get k m)) [
  | inl e ↦ e
  | inr (t, e) ↦ absurd (ground (arith, all_gone-get k m t e, h))
]

module _ {srv : ServiceInfo} {m : Tunnels} {closed : List MuxTunnelClient}
    {w : Option (Option Tunnels × List MuxTunnelClient)} where
  pub deleted-Matches :
      (old : Bytes → Option MuxTunnelClient)
      → srv.deleted ≡ true
      → (e : Emptied (all_gone m) m closed w) → Matches srv old e.after
  deleted-Matches old d e = record {
    present = λ k h. absurd (ground (arith, d, h));
    absent = λ k h. elim (Option-cases (get k (all_gone m))) [
      | inl n ↦ e.kept k n ∙ all_gone-none k m n
      | inr (b, n) ↦ e.removed k b n
    ];
  }

module _ {srv : ServiceInfo} {m : Tunnels} {v : Option Work}
    (l : Looped srv srv.ports m (all_gone m) v) where
  pub looped-Within : Within l.left l.after
  looped-Within k b h = elim (Bool-cases (has_port k srv.ports)) [
    | inl e ↦ absurd (ground (arith, l.taken k e, h))
    | inr e ↦
        let (t, g) = all_gone-Within m k b (ground (arith, l.untaken k e, h)) in
        (t, l.others k e ∙ g)
  ]

  module _ {closed : List MuxTunnelClient}
      {w : Option (Option Tunnels × List MuxTunnelClient)} where
    looped-absent :
        (e : Emptied l.left l.after closed w) (k : Bytes)
        → has_port k srv.ports ≡ false
        → get k e.after ≡ none
    looped-absent e k h = elim (Option-cases (get k l.left)) [
      | inl n ↦ e.kept k n ∙ l.others k h ∙ all_gone-none k m (ground (arith, l.untaken k h, n))
      | inr (b, n) ↦ e.removed k b n
    ]

    pub looped-Matches :
        (old : Bytes → Option MuxTunnelClient)
        → ((k : Bytes) → get k m ≡ old k)
        → srv.deleted ≡ false
        → (e : Emptied l.left l.after closed w) → Matches srv old e.after
    looped-Matches old q d e = record {
      present = λ k h.
          let p : has_port k srv.ports ≡ true = ground (arith, d, h) in
          let (t, g, f) = l.present k p in
          (
            t,
            e.kept k (l.taken k p) ∙ g,
            subst (λ (o : Option MuxTunnelClient). IsFresh srv k srv.ports o t) (q k) f,
          );
      absent = λ k h. looped-absent e k (ground (arith, d, h));
    }

module _ (srv : ServiceInfo) (c : Group) (i : IsTidy c) where
  put-IsTidy :
      (m : Tunnels) (closed : List MuxTunnelClient)
      → Open m
      → Distinct m
      → IsTidy (record c { tunnels = put srv.name m c.tunnels; closed = closed })
  put-IsTidy m closed o d name m' h = elim (bytes_dec srv.name name) [
    | yes e ↦
        let q : m ≡ m' = ground (arith, get-put srv.name name m c.tunnels, e, h) in
        subst (λ (x : Tunnels). Open x × Distinct x) q (o, d)
    | no n ↦ i name m' (ground (arith, get-put srv.name name m c.tunnels, n, h))
  ]

  pub finish-Reconciled :
      (gone : Map Bytes Bool) (m : Tunnels)
      → Open m
      → (e : Emptied gone m c.closed (close_gone gone (some m) c.closed))
      → Matches srv (old_tunnel c srv.name) e.after
      → ((k : Bytes) (t : MuxTunnelClient)
          → old_tunnel c srv.name k ≡ some t
          → wanted srv k ≡ false
          → Among (record t { closed = true }) e.all_closed)
      → Reconciled srv c (finish srv c (some m, gone))
  unfolding finish
  finish-Reconciled gone m o e q z = record {
    after = record c { tunnels = put srv.name e.after c.tunnels; closed = e.all_closed };
    result = rw e.result refl;
    service_map = refl;
    api_endpoint = refl;
    token = refl;
    tunnels = e.after;
    stored = get-put_self srv.name e.after c.tunnels;
    as_wanted = q;
    closes = z;
    tidy = put-IsTidy e.after e.all_closed e.still_open e.keys;
    others = λ name n. get-put_ne srv.name name e.after c.tunnels n;
  }
