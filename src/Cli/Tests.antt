-- ===== src/Cli/Tests.antt =====
-- The commands at concrete parameters.
use goreverselb.Base.{Bytes, [], arith, codes, false, none, refl, some, true, ◌≡◌}
use goreverselb.Client.{MuxTunnelClient, target_address}
use goreverselb.Client.Address.{
  has_byte, split_last, host_of, split_host_port, decimal, decimal_digits,
}
use goreverselb.Server.Access.{parse_service_context}
use goreverselb.Cli.{Config}
use goreverselb.Cli.Number.{atoi, digits, magnitude}
use goreverselb.Cli.Tunnel.{split_endpoint, tunnel_data, tunnels, after_atoi, client}
use goreverselb.Cli.Tunnel.Contract.{IsPlain, client-tunnel}
use goreverselb.Cli.StdinProxy.{over_tcp, nil_dereference, stdin_proxy, do_proxy, instance_of}
use goreverselb.Sniff.Preamble.{preamble}

abbrev parameters : Bytes → Config
parameters service_endpoint = record {
  log_level = codes "info";
  token = codes "dario:1234";
  port = 0;
  auto_cert_subject_name = [];
  http_port = 0;
  nats_port = 0;
  dyn_port = 8000;
  dyn_port_count = 100;
  api_endpoint = codes "lb.example:9000";
  frontend_port = 0;
  wrap_tls = false;
  wrap_ssh = false;
  service_endpoint = service_endpoint;
  service_name = codes "web";
  instance_name = codes "first";
  insecure_tls = false;
  service_group_json = [];
}

abbrev cfg : Config
cfg = parameters (codes "localhost:80")

abbrev tc : MuxTunnelClient
tc = record {
  api_endpoint = codes "lb.example:9000";
  api_endpoint_host = codes "lb.example";
  tunnel_data = tunnel_data cfg (codes "localhost") 80;
  connection_count = 1;
  closed = false;
}

localhost : IsPlain (codes "localhost")
unfolding has_byte
localhost = record { colon = refl; opening = refl; closing = refl }

port_80 : decimal 80 ≡ codes "80"
unfolding decimal decimal_digits
port_80 = refl

client-tunnel_example :
    (client cfg ≡ tunnels cfg.api_endpoint tc.tunnel_data)
    × ((parse_service_context tc.tunnel_data).service_name ≡ cfg.service_name)
    × ((parse_service_context tc.tunnel_data).instance_name ≡ cfg.instance_name)
    × ((parse_service_context tc.tunnel_data).user_id ≡ codes "dario")
    × (target_address 0 tc ≡ some cfg.service_endpoint)
client-tunnel_example =
    client-tunnel cfg (codes "localhost") 80 (codes "dario") (codes "1234") tc localhost
      (omega arith) (rw port_80 refl) (ground arith) (ground arith) (ground arith) refl refl

-- A port that is no number becomes 0.
named_port :
    client (parameters (codes "localhost:http"))
    ≡ tunnels
        (codes "lb.example:9000")
        (tunnel_data (parameters (codes "localhost:http")) (codes "localhost") 0)
unfolding client split_endpoint split_host_port split_last host_of has_byte atoi magnitude digits
    after_atoi
named_port = refl

-- The host of an address of the sixth version loses its brackets, and is then no address any more.
brackets :
    (split_endpoint (codes "[::1]:80") ≡ some (codes "::1", codes "80"))
    × (split_host_port (codes "::1:80") ≡ none)
unfolding split_endpoint split_host_port split_last host_of has_byte
brackets = (refl, refl)

-- The preamble is sent for the endpoint where no instance is given.
endpoint_instance :
    stdin_proxy
      (record { resolves = true; dials = true; writes = true })
      (record cfg { instance_name = [] })
    ≡ over_tcp (preamble (codes "localhost:80"))
unfolding stdin_proxy do_proxy instance_of
endpoint_instance = refl

no_connection :
    stdin_proxy (record { resolves = true; dials = false; writes = true }) cfg ≡ nil_dereference
unfolding stdin_proxy do_proxy instance_of
no_connection = refl
