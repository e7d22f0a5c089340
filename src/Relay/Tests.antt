-- ===== src/Relay/Tests.antt =====
-- A frontend connection of TCP with a backend stream of yamux, of pkg/muxtunnel.go, and two
-- connections of TCP, of pkg/muxtunnelClient.go.
use goreverselb.Base.{List, [], false, length, refl, some, true, ◌<◌, ◌∷◌, ◌≡◌, ◌⊎◌}
use goreverselb.Relay.{
  Conn, Relay, begin, Move, forward_moves, backward_moves, main_moves, returned, move, run,
  shut_read, shut_write, sent, run, in_turn,
}
use goreverselb.Relay.Ends.{Can, run-in_turn}

abbrev tcp : Conn
tcp = record {
  has_close_write = true;
  has_close_read = true;
  write_closed = false;
  read_closed = false;
  closed = false;
}

abbrev stream : Conn
stream = record {
  has_close_write = false;
  has_close_read = false;
  write_closed = false;
  read_closed = false;
  closed = false;
}

abbrev answer_first : List Move
answer_first =
    backward_moves ∷ backward_moves ∷ backward_moves ∷ main_moves ∷ forward_moves ∷ forward_moves
    ∷ forward_moves ∷ main_moves ∷ main_moves ∷ []

abbrev last : Relay
last = record {
  conn = record tcp { write_closed = true; read_closed = true; closed = true };
  back_conn = record stream { closed = true };
  forward = sent;
  backward = sent;
  done = 0;
  wait = returned;
}

reaches_last : run answer_first (begin tcp stream) ≡ some last
unfolding run move shut_read shut_write
reaches_last = refl

run-in_turn_example :
    ((last.wait ≡ returned)
      × (length answer_first ≡ 9)
      × ((last.conn, last.back_conn) ≡ in_turn tcp stream))
    ⊎ ((length answer_first < 9) × Can last)
run-in_turn_example = run-in_turn tcp stream answer_first last reaches_last

-- The backend connection of a client, of TCP, is shut on both sides and never closed.
left_open : (in_turn tcp tcp).1.closed ≡ false
unfolding in_turn shut_read shut_write
left_open = refl
