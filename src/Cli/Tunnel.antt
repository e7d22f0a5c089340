-- ===== src/Cli/Tunnel.antt =====
-- The tunnel command, cmd/goreverselb/client.go.
use goreverselb.Base.{Bytes, Option, [], false, none, some, suc, ℕ, ◌>>=◌, ◌∷◌}
use goreverselb.Types.{TunnelData}
use goreverselb.Client.Address.{split_host_port, split_last}
use goreverselb.Cli.{Config, tunnel_service_name}
use goreverselb.Cli.Number.{ℤ, pos, negsuc, atoi}
pub mod Contract

-- The host and the port of `net.SplitHostPort`.
unfoldable pub split_endpoint : Bytes → Option (Bytes × Bytes)
split_endpoint endpoint = do
  host ← split_host_port endpoint
  parts ← split_last b':' endpoint
  some (host, parts.1)

unfoldable pub tunnel_data : Config → Bytes → ℕ → TunnelData
tunnel_data cfg h port = record {
  id = [];
  service_name = tunnel_service_name cfg.service_name cfg.instance_name;
  token = cfg.token;
  allowed_sources = [];
  frontend_data = record {
    port = cfg.frontend_port;
    auto = false;
    tls_wrap = cfg.wrap_tls;
    ssh_wrap = cfg.wrap_ssh;
  };
  backend_accept_backlog = 1;
  target_port = port;
  target_addresses = h ∷ [];
}

pub data Command : Type 0 where
  wrong_format : Command
  -- A port below zero, which is not followed further.
  negative_port : ℕ → Command
  -- `NewMuxTunnelClient` with the endpoint and the data.
  tunnels : Bytes → TunnelData → Command

unfoldable pub after_atoi : Config → Bytes → ℤ → Command
unfolding tunnel_data
after_atoi cfg h (pos port) = tunnels cfg.api_endpoint (tunnel_data cfg h port)
after_atoi cfg h (negsuc n) = negative_port (suc n)

unfoldable pub client : Config → Command
unfolding after_atoi split_endpoint
client cfg = elim (split_endpoint cfg.service_endpoint) [
  | none ↦ wrong_format
  | some (h, p) ↦ after_atoi cfg h (atoi p)
]
