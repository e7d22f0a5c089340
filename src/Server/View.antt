-- ===== src/Server/View.antt =====
-- What the state of MuxTunnelService, pkg/muxtunnel.go, tells a client that looks for a backend:
-- the session behind a user, a service, an instance and a remote address.
use goreverselb.Base.{
  Bytes, Option, Option-cases, arith, bytes_key, get, inl, inr, nat_key, none, some, ℕ, ◌>>=◌, ◌≡◌,
  ◌≢◌, ◌⊎◌,
}
use goreverselb.Server.State.{
  MuxTunnelService, Frontend, Session, Backends, find_pointer, find_frontend, modify,
  close_listener,
}
use goreverselb.Server.Register.{instance_sessions}
use goreverselb.Server.Sound.{IsOwned, IsSound, Keeps}
use goreverselb.Server.Sound.Heap.{get-modify_self, get-modify_ne, modify-none}
pub mod Joining
pub mod Starting
pub mod Settling
pub mod Excuses
pub mod Registering
pub mod Leaving
pub mod Closing

unfoldable pub backend_at : Bytes → Bytes → Backends → Option Session
backend_at instance_name addr backends = do sessions ← get instance_name backends; get addr sessions

unfoldable pub session_at : Bytes → Bytes → Bytes → Bytes → MuxTunnelService → Option Session
session_at user_id service_name instance_name addr s = do
  found ← find_frontend user_id service_name s
  backend_at instance_name addr found.1.backend_conn_map

-- The pair of a user and a service differs from another.
abbrev pub Elsewhere : Bytes → Bytes → Bytes → Bytes → Type 0
Elsewhere u v u' v' = (u ≢ u') ⊎ (v ≢ v')

module _ {s : MuxTunnelService} (i : IsSound s) where
  -- Two services have two pointers.
  pub pointers_apart :
      (u v u' v' : Bytes) (p q : ℕ)
      → find_pointer u v s.frontend_map ≡ some p
      → find_pointer u' v' s.frontend_map ≡ some q
      → Elsewhere u v u' v'
      → p ≢ q
  pointers_apart u v u' v' p q hp hq d e =
      let o = i.owned u v p hp in
      let o' = i.owned u' v' q hq in
      ground (arith, o.user, o'.user, o.service, o'.service, o.stored, o'.stored, d, e)

pub find_frontend-stored :
    (u v : Bytes) (p : ℕ) (f : Frontend) (s : MuxTunnelService)
    → find_pointer u v s.frontend_map ≡ some p
    → get p s.heap ≡ some f
    → find_frontend u v s ≡ some (p, f)
unfolding find_frontend
find_frontend-stored u v p f s h g = ground arith

pub find_frontend-missing :
    (u v : Bytes) (s : MuxTunnelService)
    → find_pointer u v s.frontend_map ≡ none
    → find_frontend u v s ≡ none
unfolding find_frontend
find_frontend-missing u v s h = ground arith

-- Two states that agree at the pointer of a service show the same frontend there.
pub find_frontend-agree :
    (u v : Bytes) (s t : MuxTunnelService)
    → find_pointer u v s.frontend_map ≡ find_pointer u v t.frontend_map
    → ((q : ℕ) → find_pointer u v s.frontend_map ≡ some q → get q s.heap ≡ get q t.heap)
    → find_frontend u v s ≡ find_frontend u v t
unfolding find_frontend
find_frontend-agree u v s t e h = elim (Option-cases (find_pointer u v s.frontend_map)) [
  | inl n ↦ ground arith
  | inr (q, n) ↦ ground (arith, h q)
]

pub session_at-stored :
    (u v i a : Bytes) (p : ℕ) (f : Frontend) (s : MuxTunnelService)
    → find_frontend u v s ≡ some (p, f)
    → session_at u v i a s ≡ backend_at i a f.backend_conn_map
unfolding session_at
session_at-stored u v i a p f s h = rw h

pub session_at-missing :
    (u v i a : Bytes) (s : MuxTunnelService)
    → find_frontend u v s ≡ none
    → session_at u v i a s ≡ none
unfolding session_at
session_at-missing u v i a s h = rw h

pub session_at-agree :
    (u v i a : Bytes) (s t : MuxTunnelService)
    → find_frontend u v s ≡ find_frontend u v t
    → session_at u v i a s ≡ session_at u v i a t
unfolding session_at
session_at-agree u v i a s t h = rw h
