-- ===== src/Rest/Tests.antt =====
-- The list of a service with one frontend.
use goreverselb.Base.{Bytes, List, Map, [], bytes_key, codes, false, nat_key, some, true, ℕ, ◌∷◌}
use goreverselb.Types.{default_user_id}
use goreverselb.Server.State.{MuxTunnelService}
use goreverselb.Server.System.{Event, start, run, opens}
use goreverselb.Server.Register.{Env}
use goreverselb.Types.{TunnelData}
use goreverselb.Types.{ConfigData}

abbrev config : ConfigData
config = record {
  users =
      (
        default_user_id,
        record {
          user_id = default_user_id;
          token = codes "secret";
          role = [];
          services = [];
          allowed_sources = [];
        },
      )
      ∷ [];
}

abbrev works : Env
works = record { pick = 0; listens = true; sends = true }

abbrev web : TunnelData
web = record {
  id = [];
  service_name = codes "web";
  token = codes "secret";
  allowed_sources = [];
  frontend_data = record { port = 0; auto = false; tls_wrap = false; ssh_wrap = false };
  backend_accept_backlog = 1;
  target_port = 80;
  target_addresses = [];
}

abbrev events : List Event
events = opens works (record { ident = 1; remote_addr = codes "10.0.0.1:5" }) (some web) ∷ []

abbrev service : MuxTunnelService
service = (run (start config 9000 [] 4000 3) events).service

abbrev services : Map Bytes ℕ
services = (codes "web", 0) ∷ []
