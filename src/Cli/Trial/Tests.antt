-- ===== src/Cli/Trial/Tests.antt =====
-- Neither tunnel is admitted by the service.
use goreverselb.Base.{bytes_dec, bytes_key, codes, get, nat_key, refl, some, true, ◌≡◌}
use goreverselb.Server.State.{Session, new_mux_tunnel_service}
use goreverselb.Server.Access.{parse_service_context, authorize, split, response}
use goreverselb.Server.Register.{Env}
use goreverselb.Server.Stream.{open_stream, refused, not_authorized}
use goreverselb.Cli.Trial.{ts, td, td1, config_data}

abbrev works : Env
works = record { pick = 0; listens = true; sends = true }

abbrev localhost : Session
localhost = record { ident = 1; remote_addr = codes "127.0.0.1:50000" }

td_refused :
    open_stream works localhost (some td) (ts 9999)
    ≡ (refused (response td (not_authorized td)), ts 9999)
unfolding open_stream authorize parse_service_context split get bytes_dec ts td config_data
    new_mux_tunnel_service
td_refused = refl

td1_refused :
    open_stream works localhost (some td1) (ts 9999)
    ≡ (refused (response td1 (not_authorized td1)), ts 9999)
unfolding open_stream authorize parse_service_context split get bytes_dec ts td1 config_data
    new_mux_tunnel_service
td1_refused = refl
