-- ===== src/Client/Tests.antt =====
-- A client that joins a server with one user.
use goreverselb.Base.{
  [], bytes_dec, bytes_key, codes, false, get, nat_key, put, refl, some, true, ◌∷◌, ◌≡◌,
}
use goreverselb.Types.{ConfigData, default_user_id}
use goreverselb.Client.{MuxTunnelClient, ready, add_backend_connection}
use goreverselb.Client.Joined.{answered_by, Serves, add_backend_connection-Serves}
use goreverselb.Pool.{get_element, new_pool_for_range}
use goreverselb.Server.State.{
  MuxTunnelService, Session, find_frontend, find_pointer, new_mux_tunnel_service, port_in_use,
}
use goreverselb.Server.Access.{response, authorize, parse_service_context, split}
use goreverselb.Server.Register.{Env, register, with_port}
use goreverselb.Server.Stream.{Handler, waiting, open_stream, request_of}
use goreverselb.Server.System.{start, run}
use goreverselb.Server.System.Reach.{run-start-IsSound}
use goreverselb.Server.Sound.{IsSound}

abbrev config : ConfigData
config = record {
  users =
      (
        default_user_id,
        record {
          user_id = default_user_id;
          token = codes "secret";
          role = [];
          services = [];
          allowed_sources = [];
        },
      )
      ∷ [];
}

abbrev client : MuxTunnelClient
client = record {
  api_endpoint = codes "lb.example:9000";
  api_endpoint_host = codes "lb.example";
  tunnel_data = record {
    id = [];
    service_name = codes "web";
    token = codes "secret";
    allowed_sources = [];
    frontend_data = record { port = 0; auto = false; tls_wrap = false; ssh_wrap = false };
    backend_accept_backlog = 1;
    target_port = 80;
    target_addresses = codes "10.0.0.9" ∷ [];
  };
  connection_count = 1;
  closed = false;
}

abbrev works : Env
works = record { pick = 0; listens = true; sends = true }

abbrev session : Session
session = record { ident = 1; remote_addr = codes "10.0.0.1:5" }

abbrev service : MuxTunnelService
service = (start config 9000 [] 4000 3).service

service-IsSound : IsSound service
unfolding run
service-IsSound = run-start-IsSound config 9000 [] 4000 3 []

abbrev handler : Handler
handler = record {
  pointer = 0;
  request = with_port (request_of session client.tunnel_data) 4002 true;
}

it_waits :
    (open_stream works session (some client.tunnel_data) service).0
    ≡ waiting (response handler.request.td []) handler
unfolding run start open_stream register find_frontend find_pointer get authorize
    new_mux_tunnel_service bytes_dec parse_service_context split put get_element new_pool_for_range
    port_in_use
it_waits = refl

add_backend_connection-Serves_example :
    ((add_backend_connection (answered_by (response handler.request.td [])) client).0 ≡ ready)
    × Serves
        (add_backend_connection (answered_by (response handler.request.td [])) client).1
        session
        (open_stream works session (some client.tunnel_data) service).1
add_backend_connection-Serves_example =
    add_backend_connection-Serves works client session service (response handler.request.td [])
      handler service-IsSound refl it_waits
