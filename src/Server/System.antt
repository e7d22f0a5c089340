-- ===== src/Server/System.antt =====
-- The tunnel service with the handlers that wait, pkg/muxtunnel.go. The mutex makes each locked
-- section one step; the steps of the handlers and of the accept loops come in any order.
use goreverselb.Base.{Bytes, List, Option, [], get_elem?, none, some, suc, zero, ℕ, ◌∷◌}
use goreverselb.Types.{TunnelData, ConfigData}
use goreverselb.Server.State.{MuxTunnelService, Session, new_mux_tunnel_service}
use goreverselb.Server.Register.{Env}
use goreverselb.Server.Stream.{Handler, Opened, waiting, open_stream, close_stream, end_accept}
pub mod Reach

pub record System : Type 0 where
  pub service : MuxTunnelService
  pub handlers : List Handler

pub data Event : Type 0 where
  opens : Env → Session → Option TunnelData → Event
  closes : ℕ → Event
  accept_ends : ℕ → Event

abbrev pub remove_at : ℕ → List Handler → List Handler
remove_at i [] = []
remove_at zero (h ∷ hs) = hs
remove_at (suc i) (h ∷ hs) = h ∷ remove_at i hs

unfoldable pub after_open : Opened → List Handler → List Handler
after_open (waiting response h) hs = h ∷ hs
after_open _ hs = hs

unfoldable pub after_close : Option Handler → ℕ → System → System
after_close none i y = y
after_close (some h) i y = record {
  service = close_stream h y.service;
  handlers = remove_at i y.handlers;
}

unfoldable pub step : Event → System → System
unfolding after_open after_close
step (opens env session td) y =
    let (opened, s) = open_stream env session td y.service in
    record { service = s; handlers = after_open opened y.handlers }
step (closes i) y = after_close (get_elem? y.handlers i) i y
step (accept_ends pointer) y = record y { service = end_accept pointer y.service }

unfoldable pub run : System → List Event → System
run y [] = y
run y (e ∷ es) = run (step e y) es

unfoldable pub start : ConfigData → ℕ → Bytes → ℕ → ℕ → System
start config service_port token dynport dynportcount = record {
  service = new_mux_tunnel_service config service_port token dynport dynportcount;
  handlers = [];
}
