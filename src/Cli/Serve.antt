-- ===== src/Cli/Serve.antt =====
-- The server command, cmd/goreverselb/server.go, and what NewMuxTunnelService of pkg/muxtunnel.go does
-- where it fails.
use goreverselb.Base.{Bool, Bytes, Map, Result, err, if◌then◌else◌, none, not, ok, some, ◌==◌}
use goreverselb.Types.{ConfigData}
use goreverselb.Config.{Codecs, World, start_up}
use goreverselb.Ssh.{KeyError}
use goreverselb.Server.State.{MuxTunnelService, new_mux_tunnel_service}
use goreverselb.Cli.{Config}
pub mod Authorized
mod Tests

pub data Started : Type 0 where
  no_key : KeyError → Started
  -- `log.Fatal` where the listener does not start
  exits : Started
  service : MuxTunnelService → Started

-- The first argument is what loadOrCreateSSHKey returns, the second whether tls.Listen succeeds.
unfoldable pub start_service :
    {Signer : Type 0} → Result KeyError Signer → Bool → ConfigData → Config → Started
start_service (err e) listens config_data cfg = no_key e
start_service (ok signer) listens config_data cfg =
    if listens
    then service
        (new_mux_tunnel_service config_data cfg.port cfg.token cfg.dyn_port cfg.dyn_port_count)
    else exits

pub data Served : Type 0 where
  -- There is no default user in the store.
  crashed : Served
  no_certificate : Served
  no_service : Served
  -- The service, and whether NATS and the REST interface are started.
  serves : MuxTunnelService → Bool → Bool → Served

unfoldable pub after_start : Started → Config → Served
after_start (no_key e) cfg = no_service
after_start exits cfg = no_service
after_start (service ts) cfg = serves ts (not (cfg.nats_port == 0)) (not (cfg.http_port == 0))

-- `certifies` tells whether the certificate is made.
unfoldable pub server :
    {Signer : Type 0}
    → Codecs
    → Bool
    → Bool
    → Result KeyError Signer
    → Bool
    → Config
    → Map Bytes Bytes
    → Served
unfolding after_start start_service
server k writes certifies signer listens cfg disk = elim (start_up k writes cfg.token disk) [
  | none ↦ crashed
  | some w ↦
      if certifies
      then after_start (start_service signer listens w.config cfg) cfg
      else no_certificate
]
