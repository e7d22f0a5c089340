-- ===== src/Server/Register.antt =====
-- The locked section of handleStream that starts a frontend and registers the session, and
-- startFrontend up to its goroutine, pkg/muxtunnel.go.
use goreverselb.Base.{
  Bool, Bytes, Map, Option, Result, [], bytes_key, err, get, if◌then◌else◌, nat_key, none, not, ok,
  put, some, suc, true, ℕ, ◌&&◌, ◌==◌,
}
use goreverselb.Types.{TunnelData}
use goreverselb.Pool.{PoolError, get_element, return_element}
use goreverselb.Server.State.{
  MuxTunnelService, Frontend, Session, Backends, find_frontend, modify, close_listener, port_in_use,
}

-- What the program does not decide: where `range` starts, and whether a listener and a write of
-- the response succeed.
pub record Env : Type 0 where
  pub pick : ℕ
  pub listens : Bool
  pub sends : Bool

-- The variables of handleStream at the lock.
pub record Request : Type 0 where
  pub user_id : Bytes
  pub service_name : Bytes
  pub instance_name : Bytes
  pub session : Session
  pub td : TunnelData

abbrev pub with_port : Request → ℕ → Bool → Request
with_port r port auto = record r {
  td = record r.td { frontend_data = record r.td.frontend_data { port = port; auto = auto } };
}

abbrev pub asked : Request → ℕ
asked r = r.td.frontend_data.port

-- `if val != nil { if td.FrontendData.Port == 0 { td.FrontendData.Port = val.port } }`
unfoldable pub default_port : Option (ℕ × Frontend) → Request → Request
default_port none r = r
default_port (some (pointer, val)) r =
    if asked r == 0 then with_port r val.port r.td.frontend_data.auto else r

-- `none` where the automatic allocation fails; the error for an explicit port is dropped.
unfoldable pub allot : Result PoolError ℕ → Request → Option Request
allot got r =
    if asked r == 0
    then elim got [ err e ↦ none | ok port ↦ some (with_port r port true) ]
    else some r

-- The `frontendRuntime` of startFrontend, and what its accept loop holds.
abbrev pub new_frontend : Request → Frontend
new_frontend r = record {
  service_name = r.service_name;
  instance_name = r.instance_name;
  port = asked r;
  listener = record { is_open = true; accepting = true };
  backend_conn_map = [];
  user_id = r.user_id;
  fed = r.td.frontend_data;
}

-- `startFrontend`, to the point where the accept loop runs; `none` where `net.Listen` fails.
unfoldable pub start_frontend : Env → Request → MuxTunnelService → Option (ℕ × MuxTunnelService)
start_frontend env r s =
    if env.listens && not (port_in_use (asked r) s.heap)
    then some (s.next, record s { heap = put s.next (new_frontend r) s.heap; next = suc s.next })
    else none

pub data Outcome : Type 0 where
  out_of_ports : Request → Outcome
  start_failed : Outcome
  nil_map_write : Outcome
  joined : ℕ → Request → Outcome

-- `ts.frontendMap[userID][serviceName] = val`; a write into a nil map panics.
unfoldable pub set_frontend : Bytes → Bytes → ℕ → MuxTunnelService → Option MuxTunnelService
set_frontend user_id service_name pointer s = elim (get user_id s.frontend_map) [
  | none ↦ none
  | some services ↦
      some
        (record s { frontend_map = put user_id (put service_name pointer services) s.frontend_map })
]

abbrev pub instance_sessions : Bytes → Backends → Map Bytes Session
instance_sessions instance_name backends = elim (get instance_name backends) [
  | none ↦ []
  | some sessions ↦ sessions
]

-- `val.backendConnMap[instanceName][session.RemoteAddr().String()] = session`, with the inner map
-- made if it is missing
abbrev pub add_session : Request → Frontend → Frontend
add_session r frontend = record frontend {
  backend_conn_map =
      put r.instance_name
        (put r.session.remote_addr r.session
          (instance_sessions r.instance_name frontend.backend_conn_map))
        frontend.backend_conn_map;
}

unfoldable pub add_backend : ℕ → Request → MuxTunnelService → Outcome × MuxTunnelService
unfolding modify
add_backend pointer r s =
    (joined pointer r, record s { heap = modify pointer (add_session r) s.heap })

unfoldable pub after_set :
    ℕ → Request → MuxTunnelService → Option MuxTunnelService → Outcome × MuxTunnelService
unfolding add_backend
after_set pointer r s none = (nil_map_write, s)
after_set pointer r s (some s') = add_backend pointer r s'

unfoldable pub after_start :
    Request → MuxTunnelService → Option (ℕ × MuxTunnelService) → Outcome × MuxTunnelService
unfolding after_set set_frontend
after_start r s none =
    (start_failed, record s { frontend_port_pool = return_element (asked r) s.frontend_port_pool })
after_start r s (some (pointer, s')) =
    after_set pointer r s' (set_frontend r.user_id r.service_name pointer s')

-- A frontend that is there keeps its listener only if it has the port.
unfoldable pub ensure_frontend :
    Env → Option (ℕ × Frontend) → Request → MuxTunnelService → Outcome × MuxTunnelService
unfolding after_start start_frontend close_listener
ensure_frontend env none r s = after_start r s (start_frontend env r s)
ensure_frontend env (some (pointer, val)) r s =
    if val.port == asked r
    then add_backend pointer r s
    else (let s' = close_listener pointer s in after_start r s' (start_frontend env r s'))

unfoldable pub after_allot :
    Env
    → Option (ℕ × Frontend)
    → Request
    → Option Request
    → MuxTunnelService
    → Outcome × MuxTunnelService
unfolding ensure_frontend
after_allot env val r none s = (out_of_ports r, s)
after_allot env val r (some r') s = ensure_frontend env val r' s

-- From `ts.mtx.Lock()` to `ts.mtx.Unlock()`.
unfoldable pub register : Env → Request → MuxTunnelService → Outcome × MuxTunnelService
unfolding after_allot default_port allot
register env r s =
    let val = find_frontend r.user_id r.service_name s in
    let r' = default_port val r in
    let (got, pool) = get_element env.pick (asked r') s.frontend_port_pool in
    after_allot env val r' (allot got r') (record s { frontend_port_pool = pool })
