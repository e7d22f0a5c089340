-- ===== src/Server/Tests/Draining.antt =====
-- Two sessions of one service that end: a run of the tunnel service.
use goreverselb.Base.{
  List, [], arith, bytes_dec, bytes_key, get, length, nat_key, put, refl, some, subst, sym, ℕ, ◌∷◌,
  ◌≡◌,
}
use goreverselb.Server.System.{Event, opens, start, run, step}
use goreverselb.Server.Register.{register}
use goreverselb.Server.Stream.{open_stream}
use goreverselb.Server.State.{new_mux_tunnel_service, port_in_use, find_frontend, find_pointer}
use goreverselb.Server.Access.{parse_service_context, authorize, split}
use goreverselb.Pool.{get_element, new_pool_for_range}
use goreverselb.Server.Idle.Drain.{IsKeyed, IsIdle, Order, done, next, ends, run-ends-IsIdle}
use goreverselb.Server.Tests.{config, works, alice, bob, web_first}

config-IsKeyed : IsKeyed config
unfolding get
config-IsKeyed k user e = ground arith

abbrev two_opened : List Event
two_opened = opens works alice (some web_first) ∷ opens works bob (some web_first) ∷ []

two_handlers : length (run (start config 8000 [] 4000 3) two_opened).handlers ≡ 2
unfolding run start step open_stream register find_frontend find_pointer get authorize
    new_mux_tunnel_service bytes_dec parse_service_context split put get_element new_pool_for_range
    port_in_use
two_handlers = refl

first_come_first : Order 2 (1 ∷ 0 ∷ [])
first_come_first = next (omega arith) (next (omega arith) done)

run-ends-IsIdle_example :
    IsIdle (run (run (start config 8000 [] 4000 3) two_opened) (ends (1 ∷ 0 ∷ [])))
run-ends-IsIdle_example =
    run-ends-IsIdle config 8000 [] 4000 3 two_opened (1 ∷ 0 ∷ []) config-IsKeyed (refl, (refl, tt))
      (subst (λ (n : ℕ). Order n (1 ∷ 0 ∷ [])) (sym two_handlers) first_come_first)
