-- ===== src/Server/Tests.antt =====
-- Runs of the tunnel service, and its theorems at a configuration of one user and three ports.
mod Changes
mod Deliveries
mod Moves
mod Draining
mod Stories
mod Choices
mod Routes
use goreverselb.Base.{
  Bytes, List, [], bytes_dec, bytes_key, codes, false, get, nat_key, put, refl, some, true, ℕ, ◌∷◌,
  ◌≡◌,
}
use goreverselb.Cli.{tunnel_service_name}
use goreverselb.Pool.{get_element, holds, new_pool_for_range}
use goreverselb.Pool.Invariant.{Status, status}
use goreverselb.Server.State.{find_pointer, new_mux_tunnel_service, port_in_use}
use goreverselb.Server.Access.{parse_service_context, authorize, response, split}
use goreverselb.Server.Access.Names.{parse_service_context-tunnel_service_name}
use goreverselb.Server.Register.{Request, start_failed, joined}
use goreverselb.Server.Stream.{close_stream, refused, not_authorized, response_lost, drop_session}
use goreverselb.Server.View.{session_at}
use goreverselb.Server.View.Closing.{Drops, close_stream-Drops, close_stream-stale}
use goreverselb.Server.Proxy.{pick_backend}
use goreverselb.Server.Proxy.Picking.{pick_backend-registered, pick_backend-any}
use goreverselb.Server.Ports.{register-frees_used_port}
use goreverselb.Server.Admission.{IsAdmitted, open_stream-IsAdmitted, open_stream-lost}
use goreverselb.Pool.Invariant.{IsValid}
use goreverselb.Types.{ConfigData, TunnelData, default_user_id}
use goreverselb.Server.State.{MuxTunnelService, Session, Frontend, find_frontend}
use goreverselb.Server.Register.{Env, with_port, register}
use goreverselb.Server.Stream.{Handler, open_stream, request_of}
use goreverselb.Server.System.{step, Event, opens, start, run}
use goreverselb.Server.System.Reach.{run-start-IsSound}
use goreverselb.Server.Sound.{IsSound}
use goreverselb.Server.Pools.{run-start-PoolIsValid}
use goreverselb.Server.View.Joining.{Reports}
use goreverselb.Server.View.Excuses.{Excused}
use goreverselb.Server.View.Registering.{register-Reports}

abbrev pub config : ConfigData
config = record {
  users =
      (
        default_user_id,
        record {
          user_id = default_user_id;
          token = codes "secret";
          role = [];
          services = [];
          allowed_sources = [];
        },
      )
      ∷ [];
}

abbrev pub works : Env
works = record { pick = 0; listens = true; sends = true }

abbrev pub silent : Env
silent = record { pick = 0; listens = true; sends = false }

abbrev pub alice : Session
alice = record { ident = 1; remote_addr = codes "10.0.0.1:5" }

abbrev pub bob : Session
bob = record { ident = 2; remote_addr = codes "10.0.0.2:6" }

abbrev pub tunnel : Bytes → ℕ → TunnelData
tunnel service_name port = record {
  id = [];
  service_name = service_name;
  token = codes "secret";
  allowed_sources = [];
  frontend_data = record { port = port; auto = false; tls_wrap = false; ssh_wrap = false };
  backend_accept_backlog = 1;
  target_port = 80;
  target_addresses = [];
}

abbrev pub web : Bytes
web = codes "web"

abbrev pub first : Bytes
first = codes "first"

abbrev pub web_first : TunnelData
web_first = tunnel (codes "web:first") 0

abbrev pub after : List Event → MuxTunnelService
after events = (run (start config 8000 [] 4000 3) events).service

abbrev pub one_opened : List Event
one_opened = opens works alice (some web_first) ∷ []

abbrev pub moved : List Event
moved =
    opens works alice (some web_first)
    ∷ opens works bob (some (tunnel (codes "web:first") 4000))
    ∷ []

run-start-IsSound_example : IsSound (after moved)
run-start-IsSound_example = run-start-IsSound config 8000 [] 4000 3 moved

run-start-PoolIsValid_example : IsValid 4000 3 (after moved).frontend_port_pool
run-start-PoolIsValid_example = run-start-PoolIsValid config 8000 [] 4000 3 moved

register-Reports_example :
    Reports
      (request_of bob web_first)
      (after one_opened)
      (register works (request_of bob web_first) (after one_opened))
    × Excused works
        (request_of bob web_first)
        (after one_opened)
        (register works (request_of bob web_first) (after one_opened)).0
register-Reports_example =
    register-Reports works (request_of bob web_first) (after one_opened)
      (run-start-IsSound config 8000 [] 4000 3 one_opened)

abbrev pub handler : Handler
handler = record { pointer = 0; request = with_port (request_of alice web_first) 4002 true }

abbrev pub joined_frontend : Frontend
joined_frontend = record {
  service_name = web;
  instance_name = first;
  port = 4002;
  listener = record { is_open = true; accepting = true };
  backend_conn_map = (first, (alice.remote_addr, alice) ∷ []) ∷ [];
  user_id = default_user_id;
  fed = record { port = 4002; auto = true; tls_wrap = false; ssh_wrap = false };
}

pub found : find_frontend default_user_id web (after one_opened) ≡ some (0, joined_frontend)
unfolding run start step open_stream register find_frontend find_pointer get authorize
    new_mux_tunnel_service bytes_dec parse_service_context split put get_element new_pool_for_range
    port_in_use
found = refl
