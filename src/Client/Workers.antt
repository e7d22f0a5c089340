-- ===== src/Client/Workers.antt =====
-- The goroutines of NewMuxTunnelClient, each of which adds one backend connection after the other,
-- addBackendConnection in the parts between which the client can be closed, and Close:
-- pkg/muxtunnelClient.go.
use goreverselb.Base.{
  Bool, Bytes, List, Option, [], get_elem?, if◌then◌else◌, none, some, suc, zero, ℕ, ◌&&◌, ◌>>=◌,
  ◌∷◌,
}
use goreverselb.Types.{TunnelData}
use goreverselb.Client.{
  MuxTunnelClient, Link, Added, ready, after_answer, new_mux_tunnel_client, close,
  update_target_addresses, update_target_port,
}
pub mod Rest
pub mod Closing
mod Tests

-- Where a goroutine is: before the test of `closed`, before the session and the tunnel data, before
-- the answer, in the loop that watches the session, before the `select` of its own loop, in its
-- sleep of ten seconds, and at its end.
pub data Worker : Type 0 where
  begins dials awaits attached between sleeps gone : Worker

unfoldable pub after_added : Added × MuxTunnelClient → Worker × MuxTunnelClient
after_added (ready, tc) = (attached, tc)
after_added (_, tc) = (between, tc)

-- What the network does with the connection is an argument, and so is whether the session is
-- closed after five seconds. A receive from `closeCh` is ready once the channel is closed.
unfoldable pub advance : Link → Bool → MuxTunnelClient → Worker → Worker × MuxTunnelClient
unfolding after_added
advance link is_closed tc begins = (if tc.closed then between else dials, tc)
advance link is_closed tc dials = (if link.connects && link.encodes then awaits else between, tc)
advance link is_closed tc awaits = after_added (after_answer link.answered tc)
advance link is_closed tc attached =
    (if tc.closed then between else if is_closed then between else attached, tc)
advance link is_closed tc between = (if tc.closed then gone else sleeps, tc)
advance link is_closed tc sleeps = (begins, tc)
advance link is_closed tc gone = (gone, tc)

pub record Workers : Type 0 where
  pub client : MuxTunnelClient
  pub workers : List Worker

pub data Event : Type 0 where
  moves : ℕ → Link → Bool → Event
  closes : Event
  updates_addresses : List Bytes → Event
  updates_port : ℕ → Event

abbrev pub set_elem : List Worker → ℕ → Worker → List Worker
set_elem [] i w = []
set_elem (x ∷ ws) zero w = w ∷ ws
set_elem (x ∷ ws) (suc i) w = x ∷ set_elem ws i w

unfoldable pub after_move : ℕ → Link → Bool → Option Worker → Workers → Workers
unfolding advance
after_move i link is_closed none y = y
after_move i link is_closed (some w) y =
    let (w', tc) = advance link is_closed y.client w in
    record { client = tc; workers = set_elem y.workers i w' }

-- `none` is the panic of a second Close.
unfoldable pub step : Event → Workers → Option Workers
unfolding after_move close
step (moves i link is_closed) y = some (after_move i link is_closed (get_elem? y.workers i) y)
step closes y = do tc ← close y.client; some (record y { client = tc })
step (updates_addresses addrs) y =
    some (record y { client = update_target_addresses addrs y.client })
step (updates_port port) y = some (record y { client = update_target_port port y.client })

unfoldable pub run : List Event → Workers → Option Workers
run [] y = some y
run (e ∷ es) y = do y' ← step e y; run es y'

abbrev pub spawn : ℕ → List Worker
spawn zero = []
spawn (suc n) = begins ∷ spawn n

-- `for i := 0; i < tc.connectionCount; i++ { go func() … }`
unfoldable pub start : Bytes → TunnelData → Option Workers
unfolding new_mux_tunnel_client
start api_endpoint td = do
  tc ← new_mux_tunnel_client api_endpoint td
  some (record { client = tc; workers = spawn tc.connection_count })
