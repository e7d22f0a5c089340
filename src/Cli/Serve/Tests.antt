-- ===== src/Cli/Serve/Tests.antt =====
-- A server that starts without a store.
use goreverselb.Base.{
  Bytes, Result, [], arith, bytes_dec, bytes_key, codes, delete, false, get, nat_key, none, ok, put,
  refl, some, true, ℕ, ◌∷◌, ◌≡◌,
}
use goreverselb.Types.{ConfigData, UserData, TunnelData, default_user_id}
use goreverselb.Config.{Codec, Codecs, start_up}
use goreverselb.Ssh.{KeyError}
use goreverselb.Server.State.{MuxTunnelService, new_mux_tunnel_service}
use goreverselb.Server.Access.{parse_service_context, authorize, same}
use goreverselb.Cli.{Config}
use goreverselb.Cli.Serve.{serves, start_service, after_start, server}
use goreverselb.Cli.Serve.Authorized.{server-authorize}

-- An encoder that no text comes back from; there is nothing to read.
abbrev codec : Codec
codec = record { marshal = λ a. some []; unmarshal = λ b config. (config, false) }

abbrev codecs : Codecs
codecs = record { yaml = codec; json = codec }

abbrev cfg : Config
cfg = record {
  log_level = codes "info";
  token = codes "secret";
  port = 9000;
  auto_cert_subject_name = codes "lb.example";
  http_port = 9100;
  nats_port = 0;
  dyn_port = 4000;
  dyn_port_count = 3;
  api_endpoint = [];
  frontend_port = 0;
  wrap_tls = false;
  wrap_ssh = false;
  service_endpoint = [];
  service_name = [];
  instance_name = [];
  insecure_tls = false;
  service_group_json = [];
}

abbrev config : ConfigData
config = record {
  users =
      (
        default_user_id,
        record {
          user_id = default_user_id;
          token = codes "secret";
          role = [];
          services = [];
          allowed_sources = codes "*";
        },
      )
      ∷ [];
}

abbrev ts : MuxTunnelService
ts = new_mux_tunnel_service config 9000 (codes "secret") 4000 3

abbrev with_token : Bytes → TunnelData
with_token token = record {
  id = [];
  service_name = codes "web";
  token = token;
  allowed_sources = [];
  frontend_data = record { port = 0; auto = false; tls_wrap = false; ssh_wrap = false };
  backend_accept_backlog = 1;
  target_port = 80;
  target_addresses = [];
}

abbrev signed : Result KeyError ℕ
signed = ok 7

serving : server codecs true true signed true cfg [] ≡ serves ts false true
unfolding server after_start start_service start_up get put delete bytes_dec
serving = refl

no_services :
    (u : UserData)
    → get default_user_id ts.config_data.users ≡ some u
    → get (parse_service_context (with_token (codes "guess"))).service_name u.services ≡ none
unfolding new_mux_tunnel_service get bytes_dec
no_services u h = ground (arith, h)

no_dario : get (codes "dario") ts.config_data.users ≡ none
unfolding new_mux_tunnel_service get bytes_dec
no_dario = refl

server-authorize_example :
    (authorize
        (parse_service_context (with_token (codes "guess"))).user_id
        (parse_service_context (with_token (codes "guess"))).service_name
        (with_token (codes "guess"))
        ts
      ≡ same (codes "guess") (codes "secret"))
    × (authorize
          (parse_service_context (with_token (codes "dario:secret"))).user_id
          (parse_service_context (with_token (codes "dario:secret"))).service_name
          (with_token (codes "dario:secret"))
          ts
        ≡ false)
server-authorize_example =
    server-authorize codecs true true signed true cfg [] ts false true (with_token (codes "guess"))
      (with_token (codes "dario:secret")) (codes "dario") (codes "secret") serving no_services
      (ground arith) (ground arith) refl no_dario
