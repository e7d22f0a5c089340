-- ===== src/Client/Workers/Tests.antt =====
-- A client with two goroutines that is closed while one is attached and one waits for the answer.
use goreverselb.Base.{
  Bool, List, [], arith, codes, false, get_elem?, none, refl, some, true, ◌∷◌, ◌≡◌,
}
use goreverselb.Client.{after_answer, MuxTunnelClient, Link, close}
use goreverselb.Client.Workers.{
  after_move, attached, awaits, gone, Workers, Event, moves, closes, step, run, advance,
  after_added,
}
use goreverselb.Client.Workers.Closing.{turns, run-closes-gone}

abbrev fails : Link
fails = record { connects = false; encodes = false; answered = none }

abbrev client : Bool → MuxTunnelClient
client closed = record {
  api_endpoint = codes "lb.example:9000";
  api_endpoint_host = codes "lb.example";
  tunnel_data = record {
    id = [];
    service_name = codes "web";
    token = codes "secret";
    allowed_sources = [];
    frontend_data = record { port = 0; auto = false; tls_wrap = false; ssh_wrap = false };
    backend_accept_backlog = 2;
    target_port = 80;
    target_addresses = [];
  };
  connection_count = 2;
  closed = closed;
}

abbrev before : Workers
before = record { client = client false; workers = attached ∷ awaits ∷ [] }

abbrev four_each : List Event
four_each =
    moves 1 fails false
    ∷ moves 0 fails false
    ∷ moves 1 fails false
    ∷ moves 0 fails false
    ∷ moves 1 fails false
    ∷ moves 0 fails false
    ∷ moves 1 fails false
    ∷ moves 0 fails false
    ∷ []

is_closed :
    step closes before ≡ some (record { client = client true; workers = attached ∷ awaits ∷ [] })
unfolding step close
is_closed = refl

all_gone :
    run four_each (record { client = client true; workers = attached ∷ awaits ∷ [] })
    ≡ some (record { client = client true; workers = gone ∷ gone ∷ [] })
unfolding run step after_move advance after_added after_answer
all_gone = refl

four_turns : turns 1 four_each ≡ 4
unfolding turns
four_turns = refl

run-closes-gone_example : get_elem? (gone ∷ gone ∷ []) 1 ≡ some gone
run-closes-gone_example =
    run-closes-gone before (record { client = client true; workers = attached ∷ awaits ∷ [] })
      (record { client = client true; workers = gone ∷ gone ∷ [] }) four_each is_closed all_gone 1
      (omega arith) (ground (arith, four_turns))
