-- ===== src/ServiceGroup/Fresh.antt =====
-- The clients that the ports of a service ask for, and a round of the loop over the ports in
-- reconcileTunnels of pkg/muxtunnelClientServiceGroup.go.
use goreverselb.Base.{
  Bool, Bool-cases, Bytes, List, Option, [], ap, arith, bytes_dec, false, inl, inr, ite, none, refl,
  some, sym, true, ℕ, ◌==◌, ◌||◌, ◌∙◌, ◌∷◌, ◌≡◌, ◌≢◌,
}
use goreverselb.Client.{MuxTunnelClient}
use goreverselb.Types.{FrontendData}
use goreverselb.ServiceGroup.{
  PortData, ServiceInfo, port_key, deep_equal, refresh_addresses, refresh,
}

deep_equal_sound : (xs ys : List Bytes) → deep_equal xs ys ≡ true → xs ≡ ys
unfolding deep_equal
deep_equal_sound [] [] h = refl
deep_equal_sound [] (y ∷ ys) h = absurd (cc)
deep_equal_sound (x ∷ xs) [] h = absurd (cc)
deep_equal_sound (x ∷ xs) (y ∷ ys) h = ground (arith, deep_equal_sound xs ys)

abbrev pub addresses : MuxTunnelClient → List Bytes
addresses t = t.tunnel_data.target_addresses

refresh_addresses-lem :
    (addrs : List Bytes) (t : MuxTunnelClient)
    → (addresses (refresh_addresses addrs t) ≡ addrs)
      × ((refresh_addresses addrs t).closed ≡ t.closed)
unfolding refresh_addresses
refresh_addresses-lem addrs t = elim (Bool-cases (deep_equal addrs (addresses t))) [
  | inl e ↦ rw e (sym (deep_equal_sound addrs (addresses t) e), refl)
  | inr e ↦ rw e (refl, refl)
]

-- What a client keeps from its making on: the endpoint, the name and the token of its service, the
-- frontend that it asks for, and the number of its connections.
abbrev pub Identity : Type 0
Identity = Bytes × (Bytes × (Bytes × (FrontendData × ℕ)))

abbrev pub identity : MuxTunnelClient → Identity
identity t = (
  t.api_endpoint,
  (
    t.tunnel_data.service_name,
    (t.tunnel_data.token, (t.tunnel_data.frontend_data, t.connection_count)),
  ),
)

-- What a port of a service asks for.
abbrev pub asked_of : ServiceInfo → PortData → Identity
asked_of srv p = (
  srv.tunnel_endpoint_api,
  (
    srv.name,
    (
      srv.token,
      (record { port = p.port; auto = false; tls_wrap = p.tls_wrap; ssh_wrap = p.ssh_wrap }, 1),
    ),
  ),
)

-- What the first port with the key asks for.
abbrev pub first_asked : ServiceInfo → Bytes → List PortData → Option Identity
first_asked srv k [] = none
first_asked srv k (p ∷ ps) =
    ite (bytes_dec (port_key p) k) (some (asked_of srv p)) (first_asked srv k ps)

abbrev pub or_else : {A : Type 0} → Option A → Option A → Option A
or_else (some x) o = some x
or_else none o = o

-- The target of the last port with the key.
abbrev pub last_target : Bytes → List PortData → Option ℕ
last_target k [] = none
last_target k (p ∷ ps) =
    or_else (last_target k ps) (ite (bytes_dec (port_key p) k) (some p.target_port) none)

-- The identity of a client that is there, or the one that is asked for.
abbrev pub origin : ServiceInfo → Bytes → List PortData → Option MuxTunnelClient → Option Identity
origin srv k ps none = first_asked srv k ps
origin srv k ps (some t) = some (identity t)

-- A client that serves the ports with the key: it is open, and has the addresses and the target port
-- of the last of them. It is the old one or is made as the first of them asks for.
pub record IsFresh (srv : ServiceInfo) (k : Bytes) (ps : List PortData)
    (old : Option MuxTunnelClient) (t : MuxTunnelClient) : Type 0 where
  pub is_open : t.closed ≡ false
  pub has_addresses : addresses t ≡ srv.backend_ips
  pub has_target : last_target k ps ≡ some t.tunnel_data.target_port
  pub has_identity : origin srv k ps old ≡ some (identity t)

-- What a round makes of a client.
pub record Refreshed (srv : ServiceInfo) (p : PortData) (t t' : MuxTunnelClient) : Type 0 where
  pub opened : t'.closed ≡ false
  pub located : addresses t' ≡ srv.backend_ips
  pub targeted : t'.tunnel_data.target_port ≡ p.target_port
  pub same : identity t' ≡ identity t

refresh_addresses-identity :
    (addrs : List Bytes) (t : MuxTunnelClient) → identity (refresh_addresses addrs t) ≡ identity t
unfolding refresh_addresses
refresh_addresses-identity addrs t = elim (Bool-cases (deep_equal addrs (addresses t))) [
  | inl e ↦ rw e refl
  | inr e ↦ rw e refl
]

pub refresh-Refreshed :
    (srv : ServiceInfo) (p : PortData) (t : MuxTunnelClient)
    → t.closed ≡ false
    → Refreshed srv p t (refresh srv p t)
unfolding refresh
refresh-Refreshed srv p t h =
    let (a, o) = refresh_addresses-lem srv.backend_ips t in
    let n = refresh_addresses-identity srv.backend_ips t in
    elim (Bool-cases
      ((refresh_addresses srv.backend_ips t).tunnel_data.target_port == p.target_port)) [
        | inl e ↦
            rw e (record { opened = o ∙ h; located = a; targeted = ground (arith, e); same = n })
        | inr e ↦ rw e (record { opened = o ∙ h; located = a; targeted = refl; same = n })
      ]

-- Some port of the list has the key.
abbrev pub has_port : Bytes → List PortData → Bool
has_port k [] = false
has_port k (p ∷ ps) = ite (bytes_dec (port_key p) k) true false || has_port k ps

pub first_asked-here :
    (srv : ServiceInfo) (k : Bytes) (p : PortData) (ps : List PortData)
    → port_key p ≡ k
    → first_asked srv k (p ∷ ps) ≡ some (asked_of srv p)
first_asked-here srv k p ps e = ground (arith, e)

pub origin-here :
    (srv : ServiceInfo) (k : Bytes) (p : PortData) (ps : List PortData) (o : Option MuxTunnelClient)
    → port_key p ≡ k
    → origin srv k (p ∷ ps) o ≡ origin srv (port_key p) (p ∷ []) o
origin-here srv k p ps none e =
    first_asked-here srv k p ps e ∙ sym (first_asked-here srv (port_key p) p [] refl)
origin-here srv k p ps (some t) e = refl

pub origin-later :
    (srv : ServiceInfo) (k : Bytes) (p : PortData) (ps : List PortData) (o : Option MuxTunnelClient)
    → port_key p ≢ k
    → origin srv k (p ∷ ps) o ≡ origin srv k ps o
origin-later srv k p ps none n = ground (arith, n)
origin-later srv k p ps (some t) n = refl

pub last_target-none :
    (k : Bytes) (ps : List PortData) → has_port k ps ≡ false → last_target k ps ≡ none
last_target-none k [] h = refl
last_target-none k (p ∷ ps) h = ground (arith, h, last_target-none k ps)

pub has_port-here :
    (k : Bytes) (p : PortData) (ps : List PortData)
    → has_port k (p ∷ ps) ≡ true
    → has_port k ps ≡ false
    → port_key p ≡ k
has_port-here k p ps h f = elim (bytes_dec (port_key p) k) [
  | yes e ↦ e
  | no n ↦ absurd (ground (arith, h, f, n))
]

pub round-IsFresh :
    (srv : ServiceInfo) (p : PortData) (old : Option MuxTunnelClient) (t t' : MuxTunnelClient)
    → Refreshed srv p t t'
    → origin srv (port_key p) (p ∷ []) old ≡ some (identity t)
    → IsFresh srv (port_key p) (p ∷ []) old t'
round-IsFresh srv p old t t' r o = record {
  is_open = r.opened;
  has_addresses = r.located;
  has_target = ground (arith, r.targeted);
  has_identity = o ∙ ap some (sym r.same);
}
