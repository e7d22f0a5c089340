-- ===== src/Server/Tests/Deliveries.antt =====
-- A connection at a server with one session, and the client at the other end of the stream.
use goreverselb.Base.{
  Bytes, Option, [], bytes_key, codes, drop, false, length, nat_key, none, some, take, ◌++◌, ◌∷◌,
}
use goreverselb.Types.{TunnelConnecData}
use goreverselb.Client.{MuxTunnelClient}
use goreverselb.Server.Proxy.{tunnel_connect}
use goreverselb.Server.Tests.{web, first}

-- An encoding: the lengths of two fields, and the fields.
abbrev marshal : TunnelConnecData → Bytes
marshal td = length td.id ∷ length td.service_name ∷ td.id ++ (td.service_name ++ td.source_address)

abbrev unmarshal : Bytes → Option TunnelConnecData
unmarshal (i ∷ n ∷ b) =
    some (record {
      id = take i b;
      service_name = take n (drop i b);
      source_address = drop n (drop i b);
    })
unmarshal _ = none

abbrev resolve : Bytes → Option Bytes
resolve addr = some addr

abbrev client : MuxTunnelClient
client = record {
  api_endpoint = codes "lb.example:9000";
  api_endpoint_host = codes "lb.example";
  tunnel_data = record {
    id = [];
    service_name = codes "web:first";
    token = codes "secret";
    allowed_sources = [];
    frontend_data = record { port = 0; auto = false; tls_wrap = false; ssh_wrap = false };
    backend_accept_backlog = 1;
    target_port = 80;
    target_addresses = codes "10.1.0.1" ∷ codes "10.1.0.2" ∷ [];
  };
  connection_count = 1;
  closed = false;
}

abbrev told : TunnelConnecData
told = tunnel_connect web first (codes "10.0.0.9:7")
