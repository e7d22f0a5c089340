-- ===== src/Server/Idle.antt =====
-- Whether a handler waits for every session that is registered, and every frontend that listens or
-- is found has a session: MuxTunnelService and handleStream of pkg/muxtunnel.go.
use goreverselb.Base.{
  Bytes, List, Map, [], bytes_key, get, length, nat_key, some, true, ℕ, ◌<◌, ◌∷◌, ◌≡◌, ◌⊎◌,
}
use goreverselb.Types.{UserData}
use goreverselb.Server.State.{Backends, MuxTunnelService, Session, Frontend, find_pointer}
use goreverselb.Server.Stream.{Handler}
use goreverselb.Server.View.{backend_at}
pub mod Kept
pub mod Joining
pub mod Registering
pub mod Opening
pub mod Leaving
pub mod Closing
pub mod Drain

-- Some session is registered.
pub record HasSession (b : Backends) : Type 0 where
  pub instance_name : Bytes
  pub addr : Bytes
  pub session : Session
  pub registered : backend_at instance_name addr b ≡ some session

abbrev pub IsFull : Backends → Type 0
IsFull b = (i : Bytes) (m : Map Bytes Session) → get i b ≡ some m → 0 < length m

pub record WaitsFor (p : ℕ) (i a : Bytes) (h : Handler) : Type 0 where
  pub pointer : h.pointer ≡ p
  pub instance_name : h.request.instance_name ≡ i
  pub addr : h.request.session.remote_addr ≡ a

-- Some handler waits for the session.
abbrev pub Attends : List Handler → ℕ → Bytes → Bytes → Type 0
Attends [] p i a = ⊥
Attends (h ∷ hs) p i a = WaitsFor p i a h ⊎ Attends hs p i a

-- The handler's pointer leads to a frontend of its user and service.
pub record IsHeld (s : MuxTunnelService) (h : Handler) : Type 0 where
  pub frontend : Frontend
  pub stored : get h.pointer s.heap ≡ some frontend
  pub user : frontend.user_id ≡ h.request.user_id
  pub service : frontend.service_name ≡ h.request.service_name

abbrev pub AllHeld : MuxTunnelService → List Handler → Type 0
AllHeld s [] = Unit {0}
AllHeld s (h ∷ hs) = IsHeld s h × AllHeld s hs

-- `but` holds of the pointers that may lead to a frontend without a session.
pub record IsAttendedBut (but : ℕ → Type 0) (hs : List Handler) (s : MuxTunnelService)
    : Type 0 where
  pub mapped :
      (u : Bytes) (user : UserData)
      → get u s.config_data.users ≡ some user
      → (m : Map Bytes ℕ) × (get u s.frontend_map ≡ some m)
  pub held : AllHeld s hs
  pub full : (p : ℕ) (f : Frontend) → get p s.heap ≡ some f → IsFull f.backend_conn_map
  pub attended :
      (p : ℕ) (f : Frontend) (i a : Bytes) (x : Session)
      → get p s.heap ≡ some f
      → backend_at i a f.backend_conn_map ≡ some x
      → Attends hs p i a
  pub listening :
      (p : ℕ) (f : Frontend)
      → get p s.heap ≡ some f
      → f.listener.is_open ≡ true
      → but p ⊎ HasSession f.backend_conn_map
  pub found :
      (u v : Bytes) (p : ℕ) (f : Frontend)
      → find_pointer u v s.frontend_map ≡ some p
      → get p s.heap ≡ some f
      → but p ⊎ HasSession f.backend_conn_map

abbrev pub Nowhere : ℕ → Type 0
Nowhere p = ⊥

abbrev pub IsAttended : List Handler → MuxTunnelService → Type 0
IsAttended = IsAttendedBut Nowhere
