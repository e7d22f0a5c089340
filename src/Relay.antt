-- ===== src/Relay.antt =====
-- copybytes and the end of doProxy, pkg/muxtunnel.go; pkg/muxtunnelClient.go has the same code. The
-- two copies are goroutines and their steps come in any order; when an io.Copy ends is the
-- network's choice.
use goreverselb.Base.{
  Bool, List, Option, [], if◌then◌else◌, ltb, none, some, suc, true, zero, ℕ, ◌>>=◌, ◌∷◌,
}
pub mod Orders
pub mod Ends
mod Tests

-- A connection: the methods that its type has, and those that were called.
pub record Conn : Type 0 where
  pub has_close_write : Bool
  pub has_close_read : Bool
  pub write_closed : Bool
  pub read_closed : Bool
  pub closed : Bool

abbrev pub close : Conn → Conn
close c = record c { closed = true }

-- What copybytes does to the destination.
unfoldable pub shut_write : Conn → Conn
shut_write dst = if dst.has_close_write then record dst { write_closed = true } else close dst

-- What copybytes does to the source.
unfoldable pub shut_read : Conn → Conn
shut_read src = if src.has_close_read then record src { read_closed = true } else src

-- The destination and the source after copybytes.
unfoldable pub copybytes : Conn → Conn → Conn × Conn
copybytes dst src = (shut_write dst, shut_read src)

-- How far a goroutine that copies is.
pub data Copy : Type 0 where
  copying dst_shut src_shut sent : Copy

-- How many errors doProxy has received from the channel.
pub data Wait : Type 0 where
  received : ℕ → Wait
  returned : Wait

pub record Relay : Type 0 where
  pub conn : Conn
  pub back_conn : Conn
  -- `copybytes(…, backConn, conn)` and `copybytes(…, conn, backConn)`
  pub forward : Copy
  pub backward : Copy
  -- the errors in the channel `done`
  pub done : ℕ
  pub wait : Wait

abbrev pub begin : Conn → Conn → Relay
begin conn back_conn = record {
  conn = conn;
  back_conn = back_conn;
  forward = copying;
  backward = copying;
  done = 0;
  wait = received 0;
}

pub data Move : Type 0 where
  forward_moves backward_moves main_moves : Move

-- The channel holds two errors; a third blocks.
unfoldable pub move_forward : Copy → Relay → Option Relay
move_forward copying y = some (record y { forward = dst_shut; back_conn = shut_write y.back_conn })
move_forward dst_shut y = some (record y { forward = src_shut; conn = shut_read y.conn })
move_forward src_shut y =
    if ltb y.done 2 then some (record y { forward = sent; done = suc y.done }) else none
move_forward sent y = none

unfoldable pub move_backward : Copy → Relay → Option Relay
move_backward copying y = some (record y { backward = dst_shut; conn = shut_write y.conn })
move_backward dst_shut y =
    some (record y { backward = src_shut; back_conn = shut_read y.back_conn })
move_backward src_shut y =
    if ltb y.done 2 then some (record y { backward = sent; done = suc y.done }) else none
move_backward sent y = none

-- A receive blocks on an empty channel. After the second one the deferred `conn.Close()` runs.
unfoldable pub receive : ℕ → ℕ → Relay → Option Relay
receive n zero y = none
receive n (suc left) y = some (record y { done = left; wait = received (suc n) })

unfoldable pub move_main : Wait → Relay → Option Relay
unfolding receive
move_main (received n) y =
    if ltb n 2 then receive n y.done y else some (record y { conn = close y.conn; wait = returned })
move_main returned y = none

unfoldable pub move : Move → Relay → Option Relay
unfolding move_forward move_backward move_main
move forward_moves y = move_forward y.forward y
move backward_moves y = move_backward y.backward y
move main_moves y = move_main y.wait y

unfoldable pub run : List Move → Relay → Option Relay
run [] y = some y
run (m ∷ ms) y = do y' ← move m y; run ms y'

-- The two copies one after the other, and the deferred close.
unfoldable pub in_turn : Conn → Conn → Conn × Conn
unfolding copybytes
in_turn conn back_conn =
    let (back_conn', conn') = copybytes back_conn conn in
    let (conn'', back_conn'') = copybytes conn' back_conn' in (close conn'', back_conn'')
