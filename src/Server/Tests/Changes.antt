-- ===== src/Server/Tests/Changes.antt =====
-- Sessions that end, registrations and responses that fail, at concrete states.
use goreverselb.Base.{
  [], arith, bytes_dec, bytes_key, codes, delete, false, get, length, nat_key, none, put, refl,
  some, true, ◌∷◌, ◌≡◌,
}
use goreverselb.Pool.{get_element, holds, new_pool_for_range}
use goreverselb.Pool.Invariant.{Status, status}
use goreverselb.Server.State.{find_pointer, new_mux_tunnel_service, port_in_use}
use goreverselb.Server.Access.{parse_service_context, authorize, split}
use goreverselb.Server.Register.{Request, start_failed, joined}
use goreverselb.Server.Stream.{close_stream, response_lost, drop_session}
use goreverselb.Server.View.{session_at}
use goreverselb.Server.View.Closing.{Drops, close_stream-Drops, close_stream-stale}
use goreverselb.Server.Ports.{register-frees_used_port}
use goreverselb.Server.Admission.{open_stream-lost}
use goreverselb.Types.{default_user_id}
use goreverselb.Server.State.{Frontend, find_frontend}
use goreverselb.Server.Register.{with_port, register}
use goreverselb.Server.Stream.{open_stream, request_of}
use goreverselb.Server.System.{step, start, run}
use goreverselb.Server.System.Reach.{run-start-IsSound}
use goreverselb.Server.Stream.{drop_backend}
use goreverselb.Server.Tests.{
  config, works, silent, alice, bob, tunnel, web, first, web_first, after, one_opened, moved,
  handler, joined_frontend, found,
}

close_stream-Drops_example :
    Drops handler.request (after one_opened) (close_stream handler (after one_opened))
unfolding parse_service_context split
close_stream-Drops_example =
    close_stream-Drops handler (after one_opened) joined_frontend
      (run-start-IsSound config 8000 [] 4000 3 one_opened) found

abbrev left_frontend : Frontend
left_frontend = record joined_frontend { listener = record { is_open = false; accepting = true } }

abbrev new_frontend_there : Frontend
new_frontend_there = record {
  service_name = web;
  instance_name = first;
  port = 4000;
  listener = record { is_open = true; accepting = true };
  backend_conn_map = (first, (bob.remote_addr, bob) ∷ []) ∷ [];
  user_id = default_user_id;
  fed = record { port = 4000; auto = false; tls_wrap = false; ssh_wrap = false };
}

left : get 0 (after moved).heap ≡ some left_frontend
unfolding run start step open_stream register find_frontend find_pointer get authorize
    new_mux_tunnel_service bytes_dec parse_service_context split put get_element new_pool_for_range
    port_in_use
left = refl

moved_to : find_frontend default_user_id web (after moved) ≡ some (1, new_frontend_there)
unfolding run start step open_stream register find_frontend find_pointer get authorize
    new_mux_tunnel_service bytes_dec parse_service_context split put get_element new_pool_for_range
    port_in_use
moved_to = refl

emptied : length (drop_session handler.request left_frontend).backend_conn_map ≡ 0
unfolding get delete bytes_dec parse_service_context split drop_backend
emptied = refl

close_stream-stale_example :
    (find_frontend default_user_id web (close_stream handler (after moved)) ≡ none)
    × (get 1 (close_stream handler (after moved)).heap ≡ some new_frontend_there)
unfolding parse_service_context split
close_stream-stale_example =
    close_stream-stale handler (after moved) left_frontend new_frontend_there 1 left emptied
      (omega arith) moved_to

-- Another service asks for the port of the first.
abbrev other : Request
other = request_of bob (tunnel (codes "other") 4002)

no_other : find_frontend other.user_id other.service_name (after one_opened) ≡ none
unfolding run start step open_stream register find_frontend find_pointer get authorize
    new_mux_tunnel_service bytes_dec parse_service_context split put get_element new_pool_for_range
    port_in_use
no_other = refl

not_free : holds 4002 (after one_opened).frontend_port_pool.free ≡ false
unfolding run start step open_stream register find_frontend find_pointer get authorize
    new_mux_tunnel_service bytes_dec parse_service_context split put get_element new_pool_for_range
    port_in_use
not_free = refl

is_allocated : holds 4002 (after one_opened).frontend_port_pool.allocated ≡ true
unfolding run start step open_stream register find_frontend find_pointer get authorize
    new_mux_tunnel_service bytes_dec parse_service_context split put get_element new_pool_for_range
    port_in_use
is_allocated = refl

is_used : port_in_use 4002 (after one_opened).heap ≡ true
unfolding run start step open_stream register find_frontend find_pointer get authorize
    new_mux_tunnel_service bytes_dec parse_service_context split put get_element new_pool_for_range
    port_in_use
is_used = refl

register-frees_used_port_example :
    ((register works other (after one_opened)).0 ≡ start_failed)
    × (status (register works other (after one_opened)).1.frontend_port_pool 4002 ≡ Status.free)
    × (port_in_use 4002 (register works other (after one_opened)).1.heap ≡ true)
register-frees_used_port_example =
    register-frees_used_port works other (after one_opened) no_other (omega arith) not_free
      is_allocated is_used

authorized :
    authorize
      (parse_service_context web_first).user_id
      (parse_service_context web_first).service_name
      web_first
      (after [])
    ≡ true
unfolding run start step open_stream register find_frontend find_pointer get authorize
    new_mux_tunnel_service bytes_dec parse_service_context split put get_element new_pool_for_range
    port_in_use
authorized = refl

joins :
    (register silent (request_of alice web_first) (after [])).0
    ≡ joined 0 (with_port (request_of alice web_first) 4002 true)
unfolding run start step open_stream register find_frontend find_pointer get authorize
    new_mux_tunnel_service bytes_dec parse_service_context split put get_element new_pool_for_range
    port_in_use
joins = refl

open_stream-lost_example :
    ((open_stream silent alice (some web_first) (after [])).0 ≡ response_lost)
    × (session_at
          (parse_service_context web_first).user_id
          (parse_service_context web_first).service_name
          (parse_service_context web_first).instance_name
          alice.remote_addr
          (open_stream silent alice (some web_first) (after [])).1
        ≡ some alice)
open_stream-lost_example =
    open_stream-lost silent alice web_first (after []) 0
      (with_port (request_of alice web_first) 4002 true)
      (run-start-IsSound config 8000 [] 4000 3 []) authorized refl joins
