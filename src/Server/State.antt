-- ===== src/Server/State.antt =====
-- The state of MuxTunnelService, pkg/muxtunnel.go. A `*muxfrontendRuntimeData` is a number, its
-- place in `heap`: a handler keeps the pointer while the map may get another frontend. A session
-- of yamux, which is not this repository's code, is the address of its remote end and a number
-- that tells two sessions apart. The certificate and the SSH key take no part in what is stated.
use goreverselb.Base.{
  Bool, Bytes, Map, Option, [], bytes_key, false, get, if◌then◌else◌, nat_key, none, put, some,
  true, ℕ, ◌&&◌, ◌==◌, ◌>>=◌, ◌||◌, ◌∷◌,
}
use goreverselb.Types.{ConfigData, UserData, FrontendData}
use goreverselb.Pool.{PoolInts, new_pool_for_range}

pub record Session : Type 0 where
  pub ident : ℕ
  pub remote_addr : Bytes

-- `is_open` until `Close`, and the goroutine of its accept loop, which outlives it.
pub record Listener : Type 0 where
  pub is_open : Bool
  pub accepting : Bool

abbrev pub Backends : Type 0
Backends = Map Bytes (Map Bytes Session)

-- `muxfrontendRuntimeData`, and with it the variables `userID` and `fed` that the accept loop of
-- its listener holds.
pub record Frontend : Type 0 where
  pub service_name : Bytes
  pub instance_name : Bytes
  pub port : ℕ
  pub listener : Listener
  pub backend_conn_map : Backends
  pub user_id : Bytes
  pub fed : FrontendData

pub record MuxTunnelService : Type 0 where
  pub port : ℕ
  pub token : Bytes
  pub config_data : ConfigData
  pub frontend_port_pool : PoolInts
  pub frontend_map : Map Bytes (Map Bytes ℕ)
  pub closed : Bool
  pub heap : Map ℕ Frontend
  pub next : ℕ

-- `for _, u := range configData.Users { ts.frontendMap[u.UserID] = make(...) }`
unfoldable pub user_maps : Map Bytes UserData → Map Bytes (Map Bytes ℕ) → Map Bytes (Map Bytes ℕ)
user_maps [] fm = fm
user_maps ((k, u) ∷ users) fm = user_maps users (put u.user_id [] fm)

unfoldable pub new_mux_tunnel_service : ConfigData → ℕ → Bytes → ℕ → ℕ → MuxTunnelService
unfolding user_maps
new_mux_tunnel_service config_data service_port token dynport dynportcount = record {
  port = service_port;
  token = token;
  config_data = config_data;
  frontend_port_pool = new_pool_for_range dynport dynportcount;
  frontend_map = user_maps config_data.users [];
  closed = false;
  heap = [];
  next = 0;
}

-- `close(ts.closeCh)`, which panics on a closed channel.
unfoldable pub close : MuxTunnelService → Option MuxTunnelService
close s = if s.closed then none else some (record s { closed = true })

-- `ts.frontendMap[userID][serviceName]`; a read of a nil map finds nothing.
unfoldable pub find_pointer : Bytes → Bytes → Map Bytes (Map Bytes ℕ) → Option ℕ
find_pointer user_id service_name frontend_map = do
  services ← get user_id frontend_map
  get service_name services

-- The pointer with the frontend that it leads to.
unfoldable pub behind : Option ℕ → Map ℕ Frontend → Option (ℕ × Frontend)
behind none heap = none
behind (some pointer) heap = do frontend ← get pointer heap; some (pointer, frontend)

unfoldable pub find_frontend : Bytes → Bytes → MuxTunnelService → Option (ℕ × Frontend)
unfolding behind
find_frontend user_id service_name s =
    behind (find_pointer user_id service_name s.frontend_map) s.heap

-- A write through a pointer.
unfoldable pub modify : ℕ → (Frontend → Frontend) → Map ℕ Frontend → Map ℕ Frontend
modify pointer f heap = elim (get pointer heap) [
  | none ↦ heap
  | some frontend ↦ put pointer (f frontend) heap
]

abbrev pub shut : Frontend → Frontend
shut frontend = record frontend { listener = record frontend.listener { is_open = false } }

-- `val.listener.Close()`
unfoldable pub close_listener : ℕ → MuxTunnelService → MuxTunnelService
unfolding modify
close_listener pointer s = record s { heap = modify pointer shut s.heap }

-- The operating system refuses a second listener on a port.
unfoldable pub port_in_use : ℕ → Map ℕ Frontend → Bool
port_in_use port [] = false
port_in_use port ((pointer, frontend) ∷ heap) =
    (frontend.listener.is_open && frontend.port == port) || port_in_use port heap
