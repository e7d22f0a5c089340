-- ===== src/ServiceGroup.antt =====
-- MuxTunnelClientServiceGroup of pkg/muxtunnelClientServiceGroup.go. A client stands in one map
-- only, so it is a value there; its goroutines, which may write the port of an answer into it, make
-- no move here. Those that were closed are kept aside. `none` is a panic.
pub mod Fresh
pub mod Ports
pub mod Gone
pub mod Reconciled
pub mod Services
pub mod Settled
pub mod Rounds
pub mod Entering
pub mod Removing
pub mod Contract
pub mod Order
mod Tests
use goreverselb.Base.{
  Bool, Bytes, List, Map, Option, [], bytes_dec, bytes_key, codes, delete, false, get,
  if◌then◌else◌, ite, length, nat_key, none, not, put, some, true, ℕ, ◌++◌, ◌-◌, ◌==◌, ◌>>=◌, ◌∷◌,
}
use goreverselb.Types.{TunnelData}
use goreverselb.Client.{
  MuxTunnelClient, new_mux_tunnel_client, close, update_target_addresses, update_target_port,
}
use goreverselb.Client.Address.{decimal}

pub record PortData : Type 0 where
  pub port : ℕ
  pub protocol : Bytes
  pub target_port : ℕ
  pub ssh_wrap : Bool
  pub tls_wrap : Bool

pub record ServiceInfo : Type 0 where
  pub name : Bytes
  pub ports : List PortData
  pub backend_ips : List Bytes
  pub deleted : Bool
  pub tunnel_endpoint_api : Bytes
  pub token : Bytes

abbrev pub Tunnels : Type 0
Tunnels = Map Bytes MuxTunnelClient

pub record Group : Type 0 where
  pub api_endpoint : Bytes
  pub token : Bytes
  pub service_map : Map Bytes ServiceInfo
  pub tunnels : Map Bytes Tunnels
  pub closed : List MuxTunnelClient

unfoldable pub new_group : Bytes → Bytes → Group
new_group api_endpoint token = record {
  api_endpoint = api_endpoint;
  token = token;
  service_map = [];
  tunnels = [];
  closed = [];
}

-- `fmt.Sprintf("%s-%d", p.Protocol, p.Port)`
unfoldable pub port_key : PortData → Bytes
port_key p = p.protocol ++ (codes "-" ++ decimal p.port)

unfoldable pub tunnel_data : ServiceInfo → PortData → TunnelData
tunnel_data srv p = record {
  id = [];
  service_name = srv.name;
  token = srv.token;
  allowed_sources = [];
  frontend_data = record {
    port = p.port;
    auto = false;
    tls_wrap = p.tls_wrap;
    ssh_wrap = p.ssh_wrap;
  };
  backend_accept_backlog = 1;
  target_port = p.target_port;
  target_addresses = [];
}

-- The equality of two lists, as `reflect.DeepEqual`; it also tells nil from an empty list, where
-- the update that follows changes nothing that is modelled.
unfoldable pub deep_equal : List Bytes → List Bytes → Bool
deep_equal [] [] = true
deep_equal [] (b ∷ bs) = false
deep_equal (x ∷ xs) [] = false
deep_equal (x ∷ xs) (b ∷ bs) = let rest = deep_equal xs bs in ite (bytes_dec x b) rest false

unfoldable pub refresh_addresses : List Bytes → MuxTunnelClient → MuxTunnelClient
unfolding deep_equal
refresh_addresses addrs t =
    if not (deep_equal addrs t.tunnel_data.target_addresses)
    then update_target_addresses addrs t
    else t

unfoldable pub refresh : ServiceInfo → PortData → MuxTunnelClient → MuxTunnelClient
refresh srv p t =
    let t' = refresh_addresses srv.backend_ips t in
    if not (t'.tunnel_data.target_port == p.target_port)
    then update_target_port p.target_port t'
    else t'

-- The variables of reconcileTunnels: `svcTunnelMap`, `none` where it is nil, and `portsGone`.
abbrev pub Work : Type 0
Work = Option Tunnels × Map Bytes Bool

abbrev pub find_tunnel : Bytes → Option Tunnels → Option MuxTunnelClient
find_tunnel k none = none
find_tunnel k (some m) = get k m

-- The rest of a round with the client `t`, which is written into the map at `k`.
unfoldable pub keep_tunnel : ServiceInfo → PortData → MuxTunnelClient → Work → Option Work
keep_tunnel srv p t (none, gone) = none
keep_tunnel srv p t (some m, gone) =
    some (some (put (port_key p) (refresh srv p t) m), delete (port_key p) gone)

-- With the result of `NewMuxTunnelClient`; the loop goes on after an error.
unfoldable pub after_make : ServiceInfo → PortData → Option MuxTunnelClient → Work → Option Work
unfolding keep_tunnel
after_make srv p none w = some w
after_make srv p (some t) w = keep_tunnel srv p t w

-- With the result of the lookup.
unfoldable pub after_find : ServiceInfo → PortData → Option MuxTunnelClient → Work → Option Work
unfolding after_make
after_find srv p (some t) w = keep_tunnel srv p t w
after_find srv p none w =
    after_make srv p (new_mux_tunnel_client srv.tunnel_endpoint_api (tunnel_data srv p)) w

-- A round of the loop over the ports.
unfoldable pub reconcile_port : ServiceInfo → PortData → Work → Option Work
unfolding after_find
reconcile_port srv p w = after_find srv p (find_tunnel (port_key p) w.0) w

unfoldable pub reconcile_ports : ServiceInfo → List PortData → Work → Option Work
reconcile_ports srv [] w = some w
reconcile_ports srv (p ∷ ps) w = do w' ← reconcile_port srv p w; reconcile_ports srv ps w'

unfoldable pub close_tunnel : Bytes → Option Tunnels → Option (Tunnels × MuxTunnelClient)
close_tunnel k none = none
close_tunnel k (some m) = do t ← get k m; t' ← close t; some (delete k m, t')

-- The loop over the ports that are gone.
unfoldable pub close_gone :
    Map Bytes Bool
    → Option Tunnels
    → List MuxTunnelClient
    → Option (Option Tunnels × List MuxTunnelClient)
close_gone [] m closed = some (m, closed)
close_gone ((k, b) ∷ gone) m closed = do
  (m', t) ← close_tunnel k m
  close_gone gone (some m') (t ∷ closed)

-- `svcTunnelMap` with an entry of `c.tunnels` made if it is missing; nil without an endpoint.
unfoldable pub tunnels_of : ServiceInfo → Group → Option Tunnels
tunnels_of srv c =
    if length srv.tunnel_endpoint_api == 0
    then none
    else (elim (get srv.name c.tunnels) [ none ↦ some [] | some m ↦ some m ])

unfoldable pub all_gone : Tunnels → Map Bytes Bool
all_gone [] = []
all_gone ((k, t) ∷ m) = (k, true) ∷ all_gone m

abbrev pub ports_gone : Option Tunnels → Map Bytes Bool
ports_gone none = []
ports_gone (some m) = all_gone m

-- The map is shared with `c.tunnels`, which is written with it.
abbrev pub store_tunnels : Bytes → Option Tunnels → Map Bytes Tunnels → Map Bytes Tunnels
store_tunnels name none tunnels = tunnels
store_tunnels name (some m) tunnels = put name m tunnels

unfoldable pub finish : ServiceInfo → Group → Work → Option Group
finish srv c w = do
  done ← close_gone w.1 w.0 c.closed
  some (record c { tunnels = store_tunnels srv.name done.0 c.tunnels; closed = done.1 })

unfoldable pub reconcile_tunnels : ServiceInfo → Group → Option Group
reconcile_tunnels srv c = do
  let m = tunnels_of srv c
  w ←
      (if srv.deleted
        then some (m, ports_gone m)
        else reconcile_ports srv srv.ports (m, ports_gone m))
  finish srv c w

-- `srvGone`
unfoldable pub names_gone : Map Bytes ServiceInfo → Map Bytes Bool
names_gone [] = []
names_gone ((name, srv) ∷ m) = (name, true) ∷ names_gone m

abbrev pub new_service : Group → ServiceInfo → ServiceInfo
new_service c newservice = record {
  name = newservice.name;
  ports = newservice.ports;
  backend_ips = newservice.backend_ips;
  deleted = false;
  tunnel_endpoint_api = c.api_endpoint;
  token = c.token;
}

-- A round of the loop over the new services: the service that is reconciled, the group with it in
-- its map, and what is left of `srvGone`.
unfoldable pub enter_service :
    ServiceInfo → Group → Map Bytes Bool → ServiceInfo × Group × Map Bytes Bool
enter_service newservice c gone = elim (get newservice.name c.service_map) [
  | some srv ↦ (srv, c, delete newservice.name gone)
  | none ↦
      let srv = new_service c newservice in
      (srv, record c { service_map = put newservice.name srv c.service_map }, gone)
]

-- The new services are pointers; `newservice.Name` panics where one is nil.
unfoldable pub reconcile_services :
    Map Bytes (Option ServiceInfo) → Group → Map Bytes Bool → Option (Group × Map Bytes Bool)
unfolding enter_service
reconcile_services [] c gone = some (c, gone)
reconcile_services ((k, none) ∷ newservices) c gone = none
reconcile_services ((k, some newservice) ∷ newservices) c gone = do
  let (srv, c', gone') = enter_service newservice c gone
  c'' ← reconcile_tunnels srv c'
  reconcile_services newservices c'' gone'

unfoldable pub remove_service : Bytes → Group → Option Group
remove_service name c = do
  srv ← get name c.service_map
  c' ← reconcile_tunnels (record srv { deleted = true }) c
  some (record c' { service_map = delete name c'.service_map })

-- The loop over the services that are gone.
unfoldable pub remove_services : Map Bytes Bool → Group → Option Group
remove_services [] c = some c
remove_services ((name, b) ∷ gone) c = do c' ← remove_service name c; remove_services gone c'

unfoldable pub reconcile_service_group : Map Bytes (Option ServiceInfo) → Group → Option Group
reconcile_service_group newservices c = do
  done ← reconcile_services newservices c (names_gone c.service_map)
  remove_services done.1 done.0
