-- ===== src/Cli/Trial.antt =====
-- The program for trials, cmd/main.go: its configuration and the tunnels that it opens to itself.
use goreverselb.Base.{Bytes, [], codes, false, none, ℕ, ◌*◌, ◌∷◌}
use goreverselb.Types.{ConfigData, UserData, TunnelData}
use goreverselb.Server.State.{MuxTunnelService, new_mux_tunnel_service}
mod Tests

user_of : Bytes → UserData
user_of user_id = record {
  user_id = user_id;
  token = [];
  role = [];
  services = [];
  allowed_sources = codes "*";
}

unfoldable pub config_data : ConfigData
unfolding user_of
config_data = record {
  users =
      ([], user_of (codes "default@none"))
      ∷ (codes "dario@dd.com", user_of (codes "dario@dd.com"))
      ∷ [];
}

-- `port` is 9999, or that of the environment.
unfoldable pub ts : ℕ → MuxTunnelService
unfolding config_data new_mux_tunnel_service
ts port = new_mux_tunnel_service config_data port (codes "1234") 8000 2

unfoldable pub td : TunnelData
td = record {
  id = [];
  service_name = codes "web8888";
  token = codes "dario@dd.com:1234";
  allowed_sources = [];
  frontend_data = record { port = 8000; auto = false; tls_wrap = false; ssh_wrap = false };
  backend_accept_backlog = 1;
  target_port = 80;
  target_addresses = codes "www.google.com" ∷ [];
}

unfoldable pub td1 : TunnelData
td1 = record {
  id = [];
  service_name = codes "web888899:";
  token = codes "1234";
  allowed_sources = [];
  frontend_data = record { port = 0; auto = false; tls_wrap = false; ssh_wrap = false };
  backend_accept_backlog = 0;
  target_port = 80;
  target_addresses = codes "www.microsoft.com" ∷ [];
}
