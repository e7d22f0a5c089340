-- ===== src/Server/Sound.antt =====
-- What holds of the state of the tunnel service at every moment, pkg/muxtunnel.go.
use goreverselb.Base.{Bytes, Map, bytes_key, get, nat_key, some, true, ℕ, ◌<◌, ◌≡◌}
use goreverselb.Pool.Invariant.{IsValid}
use goreverselb.Server.State.{MuxTunnelService, Frontend, find_pointer, modify, port_in_use}
pub mod Heap
pub mod Frontends
pub mod Steps

-- `pointer` is that of the user's service.
pub record IsOwned (user_id service_name : Bytes) (pointer : ℕ) (heap : Map ℕ Frontend)
    : Type 0 where
  pub frontend : Frontend
  pub stored : get pointer heap ≡ some frontend
  pub user : frontend.user_id ≡ user_id
  pub service : frontend.service_name ≡ service_name

pub record IsSound (s : MuxTunnelService) : Type 0 where
  pub fresh : (p : ℕ) (f : Frontend) → get p s.heap ≡ some f → p < s.next
  pub owned :
      (u v : Bytes) (p : ℕ) → find_pointer u v s.frontend_map ≡ some p → IsOwned u v p s.heap
  -- Two open listeners have two ports.
  pub exclusive :
      (p q : ℕ) (f g : Frontend)
      → get p s.heap ≡ some f
      → get q s.heap ≡ some g
      → f.listener.is_open ≡ true
      → g.listener.is_open ≡ true
      → f.port ≡ g.port
      → p ≡ q

-- A change of one frontend that leaves its names and its port, and opens no listener.
pub record Keeps (f : Frontend → Frontend) : Type 0 where
  pub user : (x : Frontend) → (f x).user_id ≡ x.user_id
  pub service : (x : Frontend) → (f x).service_name ≡ x.service_name
  pub port : (x : Frontend) → (f x).port ≡ x.port
  pub no_open : (x : Frontend) → (f x).listener.is_open ≡ true → x.listener.is_open ≡ true
