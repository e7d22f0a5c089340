-- ===== src/Server/Sound/Steps.antt =====
-- Every step of handleStream and of an accept loop keeps the state of the service sound.
use goreverselb.Server.Access.{authorize}
use goreverselb.Types.{TunnelData}
use goreverselb.Base.{
  Bool-cases, Option, Option-cases, arith, bytes_key, get, get-put_self, inl, inr, nat_key, none,
  not, refl, some, ℕ, ◌&&◌, ◌==◌, ◌≡◌,
}
use goreverselb.Pool.{get_element, return_element}
use goreverselb.Server.State.{
  find_frontend, MuxTunnelService, Frontend, Session, port_in_use, close_listener, shut,
}
use goreverselb.Server.Register.{
  allot, default_port, new_frontend, start_frontend, set_frontend, Env, Request, asked, add_session,
  add_backend, after_start, after_set, ensure_frontend, after_allot, register,
}
use goreverselb.Server.Stream.{
  request_of, after_drop, has_backends, drop_session, close_stream, stop, end_accept, Handler,
  open_stream,
}
use goreverselb.Server.Sound.{IsOwned, IsSound, Keeps}
use goreverselb.Server.Sound.Heap.{modify-IsSound}
use goreverselb.Server.Sound.Frontends.{
  pool-IsSound, start-IsSound, set_frontend-IsSound, remove_frontend-IsSound,
}

shut-Keeps : Keeps shut
shut-Keeps = record {
  user = λ x. refl;
  service = λ x. refl;
  port = λ x. refl;
  no_open = λ x h. absurd (cc);
}

stop-Keeps : Keeps stop
stop-Keeps = record { user = λ x. refl; service = λ x. refl; port = λ x. refl; no_open = λ x h. h }

add_session-Keeps : (r : Request) → Keeps (add_session r)
add_session-Keeps r = record {
  user = λ x. refl;
  service = λ x. refl;
  port = λ x. refl;
  no_open = λ x h. h;
}

pub drop_session-Keeps : (r : Request) → Keeps (drop_session r)
drop_session-Keeps r = record {
  user = λ x. refl;
  service = λ x. refl;
  port = λ x. refl;
  no_open = λ x h. h;
}

pub close_listener-IsSound :
    {s : MuxTunnelService} (p : ℕ) → IsSound s → IsSound (close_listener p s)
unfolding close_listener
close_listener-IsSound p i = modify-IsSound i p shut shut-Keeps

add_backend-IsSound :
    {s : MuxTunnelService} (p : ℕ) (r : Request) → IsSound s → IsSound (add_backend p r s).1
unfolding add_backend
add_backend-IsSound p r i = modify-IsSound i p (add_session r) (add_session-Keeps r)

after_set-IsSound :
    (p : ℕ) (r : Request) (s : MuxTunnelService)
    → IsSound s
    → IsOwned r.user_id r.service_name p s.heap
    → (o : Option MuxTunnelService) → set_frontend r.user_id r.service_name p s ≡ o
    → IsSound (after_set p r s o).1
unfolding after_set
after_set-IsSound p r s i own none h = i
after_set-IsSound p r s i own (some s') h =
    add_backend-IsSound p r (set_frontend-IsSound i r.user_id r.service_name p own s' h)

after_start-IsSound :
    (env : Env) (r : Request) (s : MuxTunnelService)
    → IsSound s
    → IsSound (after_start r s (start_frontend env r s)).1
unfolding after_start start_frontend
after_start-IsSound env r s i =
    elim (Bool-cases (env.listens && not (port_in_use (asked r) s.heap))) [
      | inl e ↦ rw e (
          after_set-IsSound s.next r _ (start-IsSound i r (ground arith))
            (record {
              frontend = new_frontend r;
              stored = get-put_self s.next (new_frontend r) s.heap;
              user = refl;
              service = refl;
            })
            _ refl)
      | inr e ↦ rw e (pool-IsSound i (return_element (asked r) s.frontend_port_pool))
    ]

ensure_frontend-IsSound :
    (env : Env) (val : Option (ℕ × Frontend)) (r : Request) (s : MuxTunnelService)
    → IsSound s
    → IsSound (ensure_frontend env val r s).1
unfolding ensure_frontend
ensure_frontend-IsSound env none r s i = after_start-IsSound env r s i
ensure_frontend-IsSound env (some (p, val)) r s i = elim (Bool-cases (val.port == asked r)) [
  | inl e ↦ rw e (add_backend-IsSound p r i)
  | inr e ↦ rw e (after_start-IsSound env r (close_listener p s) (close_listener-IsSound p i))
]

after_allot-IsSound :
    (env : Env) (val : Option (ℕ × Frontend)) (r : Request) (o : Option Request)
    (s : MuxTunnelService)
    → IsSound s
    → IsSound (after_allot env val r o s).1
unfolding after_allot
after_allot-IsSound env val r none s i = i
after_allot-IsSound env val r (some r') s i = ensure_frontend-IsSound env val r' s i

pub register-IsSound :
    (env : Env) (r : Request) (s : MuxTunnelService) → IsSound s → IsSound (register env r s).1
unfolding register
register-IsSound env r s i =
    let val = find_frontend r.user_id r.service_name s in
    let r' = default_port val r in
    let (got, pool) = get_element env.pick (asked r') s.frontend_port_pool in
    after_allot-IsSound env val r' (allot got r') (record s { frontend_port_pool = pool })
      (pool-IsSound i pool)

pub close_stream-IsSound :
    (h : Handler) (s : MuxTunnelService) → IsSound s → IsSound (close_stream h s)
unfolding close_stream
close_stream-IsSound h s i =
    let dropped =
      modify-IsSound i h.pointer (drop_session h.request) (drop_session-Keeps h.request) in
    elim (Bool-cases (has_backends h.pointer (after_drop h s))) [
      | inl e ↦ rw e dropped
      | inr e ↦ rw e (
          remove_frontend-IsSound (close_listener-IsSound h.pointer dropped) h.request.user_id
            h.request.service_name)
    ]

pub end_accept-IsSound : (p : ℕ) (s : MuxTunnelService) → IsSound s → IsSound (end_accept p s)
unfolding end_accept
end_accept-IsSound p s i = elim (Option-cases (get p s.heap)) [
  | inl e ↦ rw e i
  | inr (f, e) ↦ rw e (elim (Bool-cases f.listener.accepting) [
    | inl a ↦ rw a (pool-IsSound (modify-IsSound i p stop stop-Keeps) _)
    | inr a ↦ rw a i
  ])
]

pub open_stream-IsSound :
    (env : Env) (session : Session) (td : Option TunnelData) (s : MuxTunnelService)
    → IsSound s
    → IsSound (open_stream env session td s).1
unfolding open_stream
open_stream-IsSound env session none s i = i
open_stream-IsSound env session (some td) s i =
    let r = request_of session td in
    elim (Bool-cases (authorize r.user_id r.service_name td s)) [
      | inl e ↦ rw e (register-IsSound env r s i)
      | inr e ↦ rw e i
    ]
