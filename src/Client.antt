-- ===== src/Client.antt =====
-- MuxTunnelClient of pkg/muxtunnelClient.go. What the network and the JSON decoder answer is an
-- argument; the copies of doProxy are the network's.
use goreverselb.Base.{
  Bool, Bytes, List, Option, codes, false, get_elem?, if◌then◌else◌, length, none, not, some, true,
  ℕ, ◌++◌, ◌==◌, ◌>>=◌,
}
use goreverselb.Types.{TunnelData, TunnelDataResponse}
use goreverselb.Client.Address.{split_host_port, decimal}
pub mod Address
pub mod Joined
pub mod Workers
pub mod Stream
mod Tests

pub record MuxTunnelClient : Type 0 where
  pub api_endpoint : Bytes
  pub api_endpoint_host : Bytes
  pub tunnel_data : TunnelData
  pub connection_count : ℕ
  pub closed : Bool

unfoldable pub new_mux_tunnel_client : Bytes → TunnelData → Option MuxTunnelClient
new_mux_tunnel_client api_endpoint td = do
  host ← split_host_port api_endpoint
  some (record {
    api_endpoint = api_endpoint;
    api_endpoint_host = host;
    tunnel_data = td;
    connection_count = if td.backend_accept_backlog == 0 then 1 else td.backend_accept_backlog;
    closed = false;
  })

-- `close(tc.closeCh)` panics on a closed channel.
unfoldable pub close : MuxTunnelClient → Option MuxTunnelClient
close tc = if tc.closed then none else some (record tc { closed = true })

abbrev pub target_addresses : MuxTunnelClient → List Bytes
target_addresses tc = tc.tunnel_data.target_addresses

abbrev pub target_port : MuxTunnelClient → ℕ
target_port tc = tc.tunnel_data.target_port

abbrev pub update_target_addresses : List Bytes → MuxTunnelClient → MuxTunnelClient
update_target_addresses addrs tc = record tc {
  tunnel_data = record tc.tunnel_data { target_addresses = addrs };
}

abbrev pub update_target_port : ℕ → MuxTunnelClient → MuxTunnelClient
update_target_port port tc = record tc {
  tunnel_data = record tc.tunnel_data { target_port = port };
}

abbrev pub frontend_port : MuxTunnelClient → ℕ
frontend_port tc = tc.tunnel_data.frontend_data.port

-- How far addBackendConnection gets: whether there is a session with its stream, whether the
-- tunnel data is sent, and what is decoded of the answer.
pub record Link : Type 0 where
  pub connects : Bool
  pub encodes : Bool
  pub answered : Option TunnelDataResponse

pub data Added : Type 0 where
  already_closed not_connected not_sent not_decoded : Added
  setup_failed : Bytes → Added
  ready : Added

unfoldable pub after_answer : Option TunnelDataResponse → MuxTunnelClient → Added × MuxTunnelClient
after_answer none tc = (not_decoded, tc)
after_answer (some tdr) tc =
    if length tdr.error == 0
    then (
      ready,
      record tc {
        tunnel_data = record tc.tunnel_data {
          frontend_data = record tc.tunnel_data.frontend_data { port = tdr.frontend_port };
        };
      },
    )
    else (setup_failed tdr.error, tc)

-- addBackendConnection, to the wait for the end of the session.
unfoldable pub add_backend_connection : Link → MuxTunnelClient → Added × MuxTunnelClient
unfolding after_answer
add_backend_connection link tc =
    if tc.closed
    then (already_closed, tc)
    else if not link.connects
    then (not_connected, tc)
    else if not link.encodes
    then (not_sent, tc)
    else after_answer link.answered tc

-- The address that doProxy dials, with the random number below the number of addresses; `none`
-- where there is no address.
unfoldable pub target_address : ℕ → MuxTunnelClient → Option Bytes
target_address i tc = do
  addr ← get_elem? tc.tunnel_data.target_addresses i
  some (addr ++ (codes ":" ++ decimal tc.tunnel_data.target_port))
