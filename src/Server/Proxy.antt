-- ===== src/Server/Proxy.antt =====
-- doProxy and connectBackend of pkg/muxtunnel.go, and what an accept loop does with a connection.
-- The copies in both directions are the network's.
use goreverselb.Base.{
  Bool, Bytes, Map, Option, Result, [], bytes_key, codes, err, get, if◌then◌else◌, length, ltb,
  nat_key, none, ok, some, suc, zero, ℕ, ◌&&◌, ◌++◌, ◌==◌, ◌∷◌,
}
use goreverselb.Types.{FrontendData, TunnelConnecData}
use goreverselb.Server.State.{MuxTunnelService, Frontend, Session, find_frontend}
use goreverselb.Sniff.Cursor.{Cryptobyte}
use goreverselb.Sniff.Target.{Conn, Calls, Sniffed, failed, target, get_sni_target}
pub mod Picking
pub mod Routing

-- `for id, session = range bcm { if i == 0 { break }; i = i - 1 }`; `none` stands for the initial
-- values of `id` and `session`.
unfoldable pub pick_loop :
    ℕ → Option (Bytes × Session) → Map Bytes Session → Option (Bytes × Session)
pick_loop i current [] = current
pick_loop zero current (e ∷ m) = some e
pick_loop (suc i) current (e ∷ m) = pick_loop i (some e) m

pub data PickError : Type 0 where
  no_frontend no_instance no_endpoint : PickError

unfoldable pub after_loop : Option (Bytes × Session) → Result PickError (Bytes × Session)
after_loop none = err no_endpoint
after_loop (some (id, session)) = if length id == 0 then err no_endpoint else ok (id, session)

-- `rand.Intn(count)` is a number below `count`; the argument is that number.
unfoldable pub pick_session : ℕ → Map Bytes Session → Result PickError (Bytes × Session)
unfolding pick_loop after_loop
pick_session i bcm = if length bcm == 0 then err no_endpoint else after_loop (pick_loop i none bcm)

-- The locked section of doProxy.
unfoldable pub pick_backend :
    ℕ → Bytes → Bytes → Bytes → MuxTunnelService → Result PickError (Bytes × Session)
unfolding pick_session
pick_backend i user_id service_name instance_name s = elim (find_frontend user_id service_name s) [
  | none ↦ err no_frontend
  | some (pointer, frontend) ↦ elim (get instance_name frontend.backend_conn_map) [
    | none ↦ err no_instance
    | some bcm ↦ pick_session i bcm
  ]
]

-- Whether the stream to the backend opens, and whether the writes to it succeed.
pub record BackCalls : Type 0 where
  pub opens : Bool
  pub connects : Bool
  pub sends_first : Bool

-- `tunnelConnect` of connectBackend.
unfoldable pub tunnel_connect : Bytes → Bytes → Bytes → TunnelConnecData
tunnel_connect service_name instance_name source_address = record {
  id = [];
  service_name =
      if ltb 0 (length instance_name)
      then service_name ++ (codes ":" ++ instance_name)
      else service_name;
  source_address = source_address;
}

pub data Proxied : Type 0 where
  not_sniffed : Proxied
  not_picked : PickError → Proxied
  not_connected : Proxied
  not_sent : Proxied
  -- The backend's id and session, what it is told, and the bytes that it gets before the copies.
  proxying : Bytes → Session → TunnelConnecData → Option Bytes → Proxied

unfoldable pub connect : BackCalls → Bytes → Session → TunnelConnecData → Option Bytes → Proxied
connect k id session data' first =
    if k.opens && k.connects
    then (elim first [
      | none ↦ proxying id session data' none
      | some b ↦ if k.sends_first then proxying id session data' (some b) else not_sent
    ])
    else not_connected

-- From the choice of a backend on.
unfoldable pub proxy_to :
    BackCalls → ℕ → Bytes → Bytes → Bytes → Bytes → Option Bytes → MuxTunnelService → Proxied
unfolding connect
proxy_to k i user_id service_name instance_name source first s =
    elim (pick_backend i user_id service_name instance_name s) [
      | err e ↦ not_picked e
      | ok (id, session) ↦
          connect k id session (tunnel_connect service_name instance_name source) first
    ]

module _ (c : Cryptobyte) where
  -- `i` is the random number.
  unfoldable pub do_proxy :
      Calls
      → BackCalls
      → ℕ
      → Bytes
      → Bytes
      → Bytes
      → Bytes
      → Conn
      → MuxTunnelService
      → Proxied × Conn
  unfolding proxy_to
  do_proxy calls k i user_id service_name instance_name source conn s =
      if length instance_name == 0
      then (let (sniffed, conn') = get_sni_target c calls conn in
          elim sniffed [
            | failed ↦ (not_sniffed, conn')
            | target name first ↦ (proxy_to k i user_id service_name name source first s, conn')
          ])
      else (proxy_to k i user_id service_name instance_name source none s, conn)

pub data Route : Type 0 where
  -- `handleSSH` with the instance that registered first
  to_ssh : Bytes → Route
  dropped : Route
  -- `doProxy` with the instance
  to_proxy : Bytes → Route

-- One round of the accept loop of startFrontend. The argument is the outcome of the TLS
-- handshake: the server name, or `none` for an error.
unfoldable pub route : Frontend → Option Bytes → Route
route frontend handshake =
    if frontend.fed.ssh_wrap
    then to_ssh frontend.instance_name
    else if frontend.fed.tls_wrap
    then (elim handshake [ none ↦ dropped | some server_name ↦ to_proxy server_name ])
    else to_proxy []
