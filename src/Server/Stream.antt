-- ===== src/Server/Stream.antt =====
-- handleStream of pkg/muxtunnel.go, in the two parts that the wait for the end of the session
-- separates, and the end of an accept loop.
use goreverselb.Base.{
  Bool, Bytes, Option, [], bytes_key, codes, delete, false, get, if◌then◌else◌, length, nat_key,
  none, not, put, some, ℕ, ◌++◌, ◌==◌,
}
use goreverselb.Types.{TunnelData, TunnelDataResponse}
use goreverselb.Pool.{return_element}
use goreverselb.Server.State.{Backends, MuxTunnelService, Frontend, Session, modify, close_listener}
use goreverselb.Server.Access.{parse_service_context, authorize, response}
use goreverselb.Server.Register.{
  Env, Request, Outcome, out_of_ports, start_failed, nil_map_write, joined, register,
  instance_sessions,
}

-- What the handler holds while it waits.
pub record Handler : Type 0 where
  pub pointer : ℕ
  pub request : Request

pub data Opened : Type 0 where
  not_decoded : Opened
  refused : TunnelDataResponse → Opened
  ended_silently : Opened
  crashed : Opened
  response_lost : Opened
  waiting : TunnelDataResponse → Handler → Opened

abbrev pub not_authorized : TunnelData → Bytes
not_authorized td =
    codes "stream: ["
    ++ (td.service_name ++ codes "] authorization failed, token presented is not valid")

abbrev pub no_ports : Bytes → Bytes
no_ports service_name =
    codes "stream: [" ++ (service_name ++ codes "] out of ports for automatic frontend allocation")

unfoldable pub answer : Env → Outcome → Opened
answer env (out_of_ports r) = refused (response r.td (no_ports r.service_name))
answer env start_failed = ended_silently
answer env nil_map_write = crashed
answer env (joined pointer r) =
    if env.sends
    then waiting (response r.td []) (record { pointer = pointer; request = r })
    else response_lost

abbrev pub request_of : Session → TunnelData → Request
request_of session td = record {
  user_id = (parse_service_context td).user_id;
  service_name = (parse_service_context td).service_name;
  instance_name = (parse_service_context td).instance_name;
  session = session;
  td = td;
}

-- To the wait. The argument is what the decoder makes of the stream; `none` is an error.
unfoldable pub open_stream :
    Env → Session → Option TunnelData → MuxTunnelService → Opened × MuxTunnelService
unfolding answer
open_stream env session none s = (not_decoded, s)
open_stream env session (some td) s =
    let r = request_of session td in
    if authorize r.user_id r.service_name td s
    then (let (outcome, s') = register env r s in (answer env outcome, s'))
    else (refused (response td (not_authorized td)), s)

-- `delete(val.backendConnMap[instanceName], …)`, and the inner map if that empties it.
unfoldable pub drop_backend : Bytes → Bytes → Backends → Backends
drop_backend instance_name addr backends =
    let sessions = delete addr (instance_sessions instance_name backends) in
    if length sessions == 0
    then delete instance_name backends
    else put instance_name sessions backends

abbrev pub drop_session : Request → Frontend → Frontend
drop_session r frontend = record frontend {
  backend_conn_map = drop_backend r.instance_name r.session.remote_addr frontend.backend_conn_map;
}

-- `if fem, ok := ts.frontendMap[userID]; ok { delete(fem, serviceName) }`
unfoldable pub remove_frontend : Bytes → Bytes → MuxTunnelService → MuxTunnelService
remove_frontend user_id service_name s = elim (get user_id s.frontend_map) [
  | none ↦ s
  | some services ↦ record s {
    frontend_map = put user_id (delete service_name services) s.frontend_map;
  }
]

abbrev pub has_backends : ℕ → MuxTunnelService → Bool
has_backends pointer s = elim (get pointer s.heap) [
  | none ↦ false
  | some frontend ↦ not (length frontend.backend_conn_map == 0)
]

unfoldable pub after_drop : Handler → MuxTunnelService → MuxTunnelService
unfolding modify
after_drop h s = record s { heap = modify h.pointer (drop_session h.request) s.heap }

-- From the wait on: the session is closed, or the service is.
unfoldable pub close_stream : Handler → MuxTunnelService → MuxTunnelService
unfolding after_drop remove_frontend close_listener
close_stream h s =
    let s' = after_drop h s in
    if has_backends h.pointer s'
    then s'
    else remove_frontend h.request.user_id h.request.service_name (close_listener h.pointer s')

abbrev pub stop : Frontend → Frontend
stop frontend = record frontend { listener = record frontend.listener { accepting = false } }

after_accept : ℕ → Option Frontend → MuxTunnelService → MuxTunnelService
unfolding modify
after_accept pointer none s = s
after_accept pointer (some frontend) s =
    if frontend.listener.accepting
    then record s {
      heap = modify pointer stop s.heap;
      frontend_port_pool = return_element frontend.fed.port s.frontend_port_pool;
    }
    else s

-- The accept loop of a frontend ends, since its listener is closed or for another error: its port
-- goes back to the pool.
unfoldable pub end_accept : ℕ → MuxTunnelService → MuxTunnelService
unfolding after_accept
end_accept pointer s = after_accept pointer (get pointer s.heap) s
