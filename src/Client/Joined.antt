-- ===== src/Client/Joined.antt =====
-- A client and the server together: addBackendConnection of pkg/muxtunnelClient.go against
-- handleStream of pkg/muxtunnel.go.
use goreverselb.Base.{Bool-cases, [], arith, false, inl, inr, refl, some, true, ℕ, ◌≡◌}
use goreverselb.Types.{TunnelData, TunnelDataResponse}
use goreverselb.Client.{MuxTunnelClient, Link, ready, add_backend_connection, frontend_port}
use goreverselb.Server.State.{MuxTunnelService, Session, Frontend, find_frontend}
use goreverselb.Server.Access.{parse_service_context, authorize, response}
use goreverselb.Server.Register.{Env, Request, Outcome, joined, register, asked}
use goreverselb.Server.Stream.{Handler, waiting, open_stream, request_of}
use goreverselb.Server.Sound.{IsSound}
use goreverselb.Server.View.{session_at}
use goreverselb.Server.View.Joining.{IsJoined}
use goreverselb.Server.View.Registering.{register_report, Reports-registered}
use goreverselb.Server.View.Joining.{Reports}
use goreverselb.Server.Register.{out_of_ports, start_failed, nil_map_write}
use goreverselb.Server.Stream.{answer}

-- A link over which the answer of the server comes back.
abbrev pub answered_by : TunnelDataResponse → Link
answered_by tdr = record { connects = true; encodes = true; answered = some tdr }

abbrev pub Serves : MuxTunnelClient → Session → MuxTunnelService → Type 0
Serves tc session s =
    (p : ℕ) × (f : Frontend) × (find_frontend (parse_service_context tc.tunnel_data).user_id
        (parse_service_context tc.tunnel_data).service_name s
      ≡ some (p, f))
    × (f.port ≡ frontend_port tc)
    × (session_at (parse_service_context tc.tunnel_data).user_id
          (parse_service_context tc.tunnel_data).service_name
          (parse_service_context tc.tunnel_data).instance_name session.remote_addr s
        ≡ some session)

answered_by-ready :
    (tc : MuxTunnelClient) (td : TunnelData)
    → tc.closed ≡ false
    → (add_backend_connection (answered_by (response td [])) tc) ≡ (
      ready,
      record tc {
        tunnel_data = record tc.tunnel_data {
          frontend_data = record tc.tunnel_data.frontend_data { port = td.frontend_data.port };
        };
      },
    )
unfolding add_backend_connection response
answered_by-ready tc td h = rw h refl

answer-joined :
    (env : Env) (o : Outcome) (tdr : TunnelDataResponse) (h : Handler)
    → answer env o ≡ waiting tdr h
    → (p : ℕ) × (r : Request) × (o ≡ joined p r) × (tdr ≡ response r.td [])
unfolding answer
answer-joined env (out_of_ports r) tdr h w = absurd (cc)
answer-joined env start_failed tdr h w = absurd (cc)
answer-joined env nil_map_write tdr h w = absurd (cc)
answer-joined env (joined p r) tdr h w = elim (Bool-cases env.sends) [
  | inl e ↦ (p, r, refl, ground (arith, e, w))
  | inr e ↦ absurd (ground (arith, e, w))
]

open_stream-register :
    (env : Env) (session : Session) (td : TunnelData) (s : MuxTunnelService)
    (tdr : TunnelDataResponse) (h : Handler)
    → (open_stream env session (some td) s).0 ≡ waiting tdr h
    → (answer env (register env (request_of session td) s).0 ≡ waiting tdr h)
      × ((open_stream env session (some td) s).1 ≡ (register env (request_of session td) s).1)
unfolding open_stream
open_stream-register env session td s tdr h w =
    elim (Bool-cases
      (authorize (parse_service_context td).user_id (parse_service_context td).service_name td s)) [
        | inl e ↦ ground (arith, e, w)
        | inr e ↦ absurd (ground (arith, e, w))
      ]

Reports-IsJoined :
    (r : Request) (s : MuxTunnelService) (x : Outcome × MuxTunnelService) (p : ℕ) (r' : Request)
    → x.0 ≡ joined p r'
    → Reports r s x
    → IsJoined p r (asked r') x.1
Reports-IsJoined r s (joined q r'', t) p r' e (c, j, o, z) = ground (arith, j, e)
Reports-IsJoined r s (out_of_ports r'', t) p r' e h = absurd (cc)
Reports-IsJoined r s (start_failed, t) p r' e h = absurd (cc)
Reports-IsJoined r s (nil_map_write, t) p r' e h = absurd (cc)

-- A client that is not closed sends its tunnel data, the server admits it and the request joins,
-- and the answer comes back: then the client is ready, and the port that it knows is that of the
-- frontend that its service leads to, under which its session is registered.
pub add_backend_connection-Serves :
    (env : Env) (tc : MuxTunnelClient) (session : Session) (s : MuxTunnelService)
    (tdr : TunnelDataResponse) (h : Handler)
    → IsSound s
    → tc.closed ≡ false
    → (open_stream env session (some tc.tunnel_data) s).0 ≡ waiting tdr h
    → ((add_backend_connection (answered_by tdr) tc).0 ≡ ready)
      × Serves
          (add_backend_connection (answered_by tdr) tc).1
          session
          (open_stream env session (some tc.tunnel_data) s).1
unfolding parse_service_context
add_backend_connection-Serves env tc session s tdr h i o w =
    let (a, t) = open_stream-register env session tc.tunnel_data s tdr h w in
    let (p, r, j, b) =
      answer-joined env (register env (request_of session tc.tunnel_data) s).0 tdr h a in
    let reports = register_report env (request_of session tc.tunnel_data) s i in
    let x = register env (request_of session tc.tunnel_data) s in
    let there = Reports-IsJoined (request_of session tc.tunnel_data) s x p r j reports in
    let here = Reports-registered (request_of session tc.tunnel_data) s x p r j reports in
    rw (b, answered_by-ready tc r.td o, t)
      (refl, (p, there.frontend, there.found, there.port, here))
