-- ===== src/ServiceGroup/Tests.antt =====
-- A group that is reconciled twice.
use goreverselb.Base.{
  Bytes, List, Map, Option, [], bytes_dec, bytes_key, codes, delete, false, get, nat_key, none, put,
  refl, some, ℕ, ◌∷◌, ◌≡◌,
}
use goreverselb.Client.{MuxTunnelClient}
use goreverselb.Client.Address.{decimal}
use goreverselb.ServiceGroup.{
  reconcile_services, reconcile_ports, reconcile_port, tunnels_of, finish, close_gone, all_gone,
  remove_services, names_gone, port_key, refresh, after_find, after_make, deep_equal,
  refresh_addresses, keep_tunnel, enter_service, tunnel_data,
}
use goreverselb.Client.{new_mux_tunnel_client}
use goreverselb.Client.Address.{split_host_port}
use goreverselb.ServiceGroup.{
  PortData, ServiceInfo, Group, new_group, reconcile_tunnels, reconcile_service_group,
}
use goreverselb.ServiceGroup.Reconciled.{Reconciled}
use goreverselb.ServiceGroup.Services.{reconcile_tunnels-Reconciled}
use goreverselb.ServiceGroup.Settled.{IsSettled}
use mathlib.Core.List.{Permᴰ}
use goreverselb.ServiceGroup.Order.{Agree, DistinctNames, reconcile_service_group-reordered}
use goreverselb.ServiceGroup.Contract.{
  reconcile_service_group-nil, new_group-IsSettled, reconcile_all, reconcile_all-new_group,
}

abbrev endpoint : Bytes
endpoint = codes "lb.example:9000"

abbrev lb_host : Bytes
lb_host = codes "lb.example"

is_reachable : split_host_port endpoint ≡ some lb_host
unfolding split_host_port
is_reachable = refl

abbrev tcp : ℕ → PortData
tcp port = record {
  port = port;
  protocol = codes "tcp";
  target_port = 80;
  ssh_wrap = false;
  tls_wrap = false;
}

abbrev web_on : List PortData → ServiceInfo
web_on ports = record {
  name = codes "web";
  ports = ports;
  backend_ips = codes "10.0.0.9" ∷ [];
  deleted = false;
  tunnel_endpoint_api = [];
  token = [];
}

abbrev services : List PortData → Map Bytes (Option ServiceInfo)
services ports = (codes "web", some (web_on ports)) ∷ []

abbrev at_first : Group
at_first = new_group endpoint (codes "secret")

reconcile_all-new_group_example :
    (c : Group) × (reconcile_all
        (services (tcp 8000 ∷ []) ∷ services (tcp 8001 ∷ []) ∷ [] ∷ [])
        (new_group endpoint (codes "secret"))
      ≡ some c)
    × IsSettled c
reconcile_all-new_group_example =
    reconcile_all-new_group endpoint (codes "secret") lb_host
      (services (tcp 8000 ∷ []) ∷ services (tcp 8001 ∷ []) ∷ [] ∷ []) is_reachable
      (tt, (tt, (tt, tt)))

abbrev web_service : ServiceInfo
web_service = record (web_on (tcp 8000 ∷ [])) {
  tunnel_endpoint_api = endpoint;
  token = codes "secret";
}

reconcile_tunnels-Reconciled_example :
    Reconciled web_service at_first (reconcile_tunnels web_service at_first)
unfolding new_group
reconcile_tunnels-Reconciled_example =
    reconcile_tunnels-Reconciled web_service at_first lb_host is_reachable
      (new_group-IsSettled endpoint (codes "secret")).tidy

abbrev client : MuxTunnelClient
client = record {
  api_endpoint = endpoint;
  api_endpoint_host = lb_host;
  tunnel_data = record {
    id = [];
    service_name = codes "web";
    token = codes "secret";
    allowed_sources = [];
    frontend_data = record { port = 8000; auto = false; tls_wrap = false; ssh_wrap = false };
    backend_accept_backlog = 1;
    target_port = 80;
    target_addresses = codes "10.0.0.9" ∷ [];
  };
  connection_count = 1;
  closed = false;
}

abbrev served : Group
served = record at_first {
  service_map = (codes "web", web_service) ∷ [];
  tunnels = (codes "web", (codes "tcp-8000", client) ∷ []) ∷ [];
}

first_reconciliation : reconcile_service_group (services (tcp 8000 ∷ [])) at_first ≡ some served
unfolding reconcile_service_group reconcile_services reconcile_tunnels get new_group reconcile_ports
    reconcile_port tunnels_of new_mux_tunnel_client split_host_port finish close_gone delete
    all_gone remove_services names_gone put port_key refresh bytes_dec decimal after_find after_make
    deep_equal refresh_addresses keep_tunnel enter_service tunnel_data
first_reconciliation = refl

-- `{"a": null}`
nil_panics : reconcile_service_group ((codes "a", none) ∷ []) at_first ≡ none
nil_panics = reconcile_service_group-nil ((codes "a", none) ∷ []) at_first tt

abbrev web_entry : Bytes × Option ServiceInfo
web_entry = (codes "web", some (web_on (tcp 8000 ∷ [])))

abbrev dns_entry : Bytes × Option ServiceInfo
dns_entry = (codes "dns", some (record (web_on (tcp 53 ∷ [])) { name = codes "dns" }))

names_differ : DistinctNames (web_entry ∷ dns_entry ∷ [])
unfolding bytes_dec
names_differ = (refl, (refl, tt))

reconcile_service_group-reordered_example :
    (a : Group) × (b : Group) × (reconcile_service_group (web_entry ∷ dns_entry ∷ []) at_first
      ≡ some a)
    × (reconcile_service_group (dns_entry ∷ web_entry ∷ []) at_first ≡ some b)
    × Agree a b
unfolding new_group
reconcile_service_group-reordered_example =
    reconcile_service_group-reordered (web_entry ∷ dns_entry ∷ []) (dns_entry ∷ web_entry ∷ [])
      at_first lb_host is_reachable tt (new_group-IsSettled endpoint (codes "secret"))
      (Permᴰ.swap refl refl) names_differ
