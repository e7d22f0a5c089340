-- ===== src/Rest.antt =====
-- GetServices of pkg/muxtunnel.go and getServices of pkg/restapi/restapi.go.
use goreverselb.Base.{
  Bytes, Map, Option, [], bytes_dec, bytes_key, get, if◌then◌else◌, ite, length, nat_key, none, not,
  put, some, ℕ, ◌==◌, ◌∷◌,
}
use goreverselb.Types.{default_user_id}
use goreverselb.Server.State.{MuxTunnelService, Frontend}
pub mod Listing
pub mod Api
mod Tests

pub record TunnelFrontendServices : Type 0 where
  pub name : Bytes
  pub address : Bytes
  pub port : ℕ

abbrev pub listed : Frontend → TunnelFrontendServices
listed val = record { name = val.service_name; address = []; port = val.port }

-- `srvs[val.serviceName] = …`; a pointer that leads nowhere does not occur.
unfoldable pub add_listed :
    Option Frontend → Map Bytes TunnelFrontendServices → Map Bytes TunnelFrontendServices
add_listed none srvs = srvs
add_listed (some val) srvs = put val.service_name (listed val) srvs

-- The loop over the user's services.
unfoldable pub list_services : Map ℕ Frontend → Map Bytes ℕ → Map Bytes TunnelFrontendServices
unfolding add_listed
list_services heap [] = []
list_services heap ((k, pointer) ∷ services) =
    add_listed (get pointer heap) (list_services heap services)

-- A read of a nil map finds nothing.
unfoldable pub services_of :
    Option (Map Bytes ℕ) → Map ℕ Frontend → Map Bytes TunnelFrontendServices
services_of none heap = []
services_of (some services) heap = list_services heap services

unfoldable pub get_services : Bytes → MuxTunnelService → Map Bytes TunnelFrontendServices
unfolding services_of list_services
get_services user_id ts = services_of (get user_id ts.frontend_map) ts.heap

-- What is sent as JSON.
pub data Reply : Type 0 where
  all_services : Map Bytes TunnelFrontendServices → Reply
  one_service : TunnelFrontendServices → Reply
  not_found : Bytes → Reply

-- The loop with its `break`; `ret` is the whole map before it.
unfoldable pub choose : Bytes → Map Bytes TunnelFrontendServices → Reply → Reply
choose name [] ret = ret
choose name ((k, v) ∷ services) ret =
    let rest = choose name services ret in ite (bytes_dec name k) (one_service v) rest

-- `ret == nil`, which an interface that holds a map never is.
reply_to : Bytes → Option Reply → Reply
reply_to name none = not_found name
reply_to name (some ret) = ret

unfoldable pub answer_services : Bytes → MuxTunnelService → Reply
unfolding reply_to choose get_services
answer_services name ts =
    let services = get_services default_user_id ts in
    reply_to name (
      some (
        if not (length name == 0)
        then choose name services (all_services services)
        else all_services services))
