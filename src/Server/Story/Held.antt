-- ===== src/Server/Story/Held.antt =====
-- Every handler that waits holds a frontend of its user and service, whatever happens:
-- handleStream of pkg/muxtunnel.go.
use goreverselb.Server.View.Leaving.{remove_frontend-heap}
use goreverselb.Server.Access.{authorize}
use goreverselb.Server.Idle.Closing.{stop-Renames}
use goreverselb.Types.{TunnelData}
use goreverselb.Server.Idle.Leaving.{drop_session-Renames, AllHeld-remove_at}
use goreverselb.Server.System.{
  accept_ends, closes, opens, Event, System, step, after_open, after_close,
}
use goreverselb.Base.{
  Bool-cases, List, Option, Option-cases, arith, bytes_key, get, get-put_ne, get-put_self,
  get_elem?, inl, inr, nat_key, none, not, put, refl, some, subst, suc, sym, ℕ, ◌&&◌, ◌==◌, ◌∙◌,
  ◌∷◌, ◌≡◌,
}
use goreverselb.Pool.{get_element, return_element}
use goreverselb.Server.State.{
  modify, Session, MuxTunnelService, Frontend, find_frontend, port_in_use, close_listener, shut,
}
use goreverselb.Server.Register.{
  Env, Request, Outcome, joined, out_of_ports, start_failed, nil_map_write, asked, new_frontend,
  add_session, add_backend, set_frontend, start_frontend, after_set, after_start, ensure_frontend,
  after_allot, default_port, allot, register, with_port,
}
use goreverselb.Server.Stream.{
  remove_frontend, has_backends, request_of, stop, drop_session, answer, after_drop, close_stream,
  open_stream, end_accept, Handler,
}
use goreverselb.Server.Sound.{IsSound}
use goreverselb.Server.Sound.Frontends.{pool-IsSound}
use goreverselb.Server.Sound.Steps.{close_listener-IsSound}
use goreverselb.Server.View.Joining.{set_frontend-heap}
use goreverselb.Server.View.Registering.{
  find_frontend-inv, Renumbered, default_port-Renumbered, allot-Renumbered,
}
use goreverselb.Server.Idle.{IsHeld, AllHeld}
use goreverselb.Server.Idle.Kept.{modify-AllHeld, AllHeld-agree}
use goreverselb.Server.Idle.Joining.{shut-Renames, add_session-Renames}

-- The handler of a request that joins holds its frontend too.
abbrev Holds : List Handler → Outcome × MuxTunnelService → Type 0
Holds hs (joined p r, t) = AllHeld t (record { pointer = p; request = r } ∷ hs)
Holds hs (out_of_ports r, t) = AllHeld t hs
Holds hs (start_failed, t) = AllHeld t hs
Holds hs (nil_map_write, t) = AllHeld t hs

module _ (hs : List Handler) where
  add_backend-Holds :
      (p : ℕ) (r : Request) (s : MuxTunnelService)
      → IsHeld s (record { pointer = p; request = r })
      → AllHeld s hs
      → Holds hs (add_backend p r s)
  unfolding add_backend
  add_backend-Holds p r s held all =
      modify-AllHeld p (add_session r) (add_session-Renames r) s
        (record { pointer = p; request = r } ∷ hs) (held, all)

  module _ (r : Request) (s : MuxTunnelService) (i : IsSound s) (all : AllHeld s hs) where
    begun : MuxTunnelService
    begun = record s { heap = put s.next (new_frontend r) s.heap; next = suc s.next }

    begun-AllHeld : AllHeld begun hs
    unfolding begun
    begun-AllHeld =
        AllHeld-agree s begun hs
          (λ p f h.
            let below = i.fresh p f h in
            get-put_ne s.next p (new_frontend r) s.heap (λ e. absurd (omega arith)) ∙ h)
          all

    after_set-Holds :
        (o : Option MuxTunnelService)
        → set_frontend r.user_id r.service_name s.next begun ≡ o
        → Holds hs (after_set s.next r begun o)
    unfolding after_set begun
    after_set-Holds none e = begun-AllHeld
    after_set-Holds (some t) e =
        let same = set_frontend-heap r.user_id r.service_name s.next begun t e in
        add_backend-Holds s.next r t
          (record {
            frontend = new_frontend r;
            stored = rw same (get-put_self s.next (new_frontend r) s.heap);
            user = refl;
            service = refl;
          })
          (AllHeld-agree begun t hs (λ p f h. rw same h) begun-AllHeld)

    after_start-Holds : (env : Env) → Holds hs (after_start r s (start_frontend env r s))
    unfolding after_start start_frontend begun
    after_start-Holds env = elim (Bool-cases (env.listens && not (port_in_use (asked r) s.heap))) [
      | inl e ↦ rw e (after_set-Holds _ refl)
      | inr e ↦ rw e (
          AllHeld-agree s
            (record s { frontend_port_pool = return_element (asked r) s.frontend_port_pool }) hs
            (λ p f h. h) all)
    ]

  ensure_frontend-Holds :
      (env : Env) (val : Option (ℕ × Frontend)) (r : Request) (s : MuxTunnelService)
      → IsSound s
      → AllHeld s hs
      → find_frontend r.user_id r.service_name s ≡ val
      → Holds hs (ensure_frontend env val r s)
  unfolding ensure_frontend close_listener
  ensure_frontend-Holds env none r s i all h = after_start-Holds r s i all env
  ensure_frontend-Holds env (some (p, val)) r s i all h = elim (Bool-cases (val.port == asked r)) [
    | inl e ↦
        let (points, stored) = find_frontend-inv r.user_id r.service_name s p val h in
        let o = i.owned r.user_id r.service_name p points in
        rw e (
          add_backend-Holds p r s
            (record {
              frontend = o.frontend;
              stored = o.stored;
              user = o.user;
              service = o.service;
            })
            all)
    | inr e ↦ rw e (
        after_start-Holds r (close_listener p s) (close_listener-IsSound p i)
          (modify-AllHeld p shut shut-Renames s hs all) env)
  ]

  after_allot-Holds :
      (env : Env) (val : Option (ℕ × Frontend)) (r : Request) (o : Option Request)
      (s : MuxTunnelService)
      → IsSound s
      → AllHeld s hs
      → find_frontend r.user_id r.service_name s ≡ val
      → ((r' : Request) → o ≡ some r' → Renumbered r r')
      → Holds hs (after_allot env val r o s)
  unfolding after_allot
  after_allot-Holds env val r none s i all h k = all
  after_allot-Holds env val r (some r') s i all h k =
      let (n, b, e) = k r' refl in rw e (ensure_frontend-Holds env val (with_port r n b) s i all h)

  register-Holds :
      (env : Env) (r : Request) (s : MuxTunnelService)
      → IsSound s
      → AllHeld s hs
      → Holds hs (register env r s)
  unfolding register find_frontend
  register-Holds env r s i all =
      let val = find_frontend r.user_id r.service_name s in
      let r' = default_port val r in
      let (got, pool) = get_element env.pick (asked r') s.frontend_port_pool in
      let (n, b, e) = default_port-Renumbered val r in
      after_allot-Holds env val r' (allot got r') (record s { frontend_port_pool = pool })
        (pool-IsSound i pool)
        (AllHeld-agree s (record s { frontend_port_pool = pool }) hs (λ p f h. h) all)
        (subst (λ (x : Request). find_frontend x.user_id x.service_name s ≡ val) (sym e) refl)
        (λ r''. allot-Renumbered got r' r'')

after_open-AllHeld :
    (env : Env) (hs : List Handler) (x : Outcome × MuxTunnelService)
    → Holds hs x
    → AllHeld x.1 (after_open (answer env x.0) hs)
unfolding after_open answer
after_open-AllHeld env hs (out_of_ports r, t) h = h
after_open-AllHeld env hs (start_failed, t) h = h
after_open-AllHeld env hs (nil_map_write, t) h = h
after_open-AllHeld env hs (joined p r, t) h = elim (Bool-cases env.sends) [
  | inl e ↦ rw e h
  | inr e ↦ rw e h.1
]

open_stream-AllHeld :
    (env : Env) (session : Session) (td : Option TunnelData) (s : MuxTunnelService)
    (hs : List Handler)
    → IsSound s
    → AllHeld s hs
    → AllHeld (open_stream env session td s).1 (after_open (open_stream env session td s).0 hs)
unfolding open_stream after_open
open_stream-AllHeld env session none s hs i all = all
open_stream-AllHeld env session (some td) s hs i all =
    let r = request_of session td in
    elim (Bool-cases (authorize r.user_id r.service_name td s)) [
      | inl e ↦
          rw e (after_open-AllHeld env hs (register env r s) (register-Holds hs env r s i all))
      | inr e ↦ rw e all
    ]

close_stream-AllHeld :
    (h : Handler) (s : MuxTunnelService) (hs : List Handler)
    → AllHeld s hs
    → AllHeld (close_stream h s) hs
unfolding close_stream after_drop close_listener
close_stream-AllHeld h s hs all =
    let dropped =
      modify-AllHeld h.pointer (drop_session h.request) (drop_session-Renames h.request) s hs all in
    elim (Bool-cases (has_backends h.pointer (after_drop h s))) [
      | inl e ↦ rw e dropped
      | inr e ↦
          let t = close_listener h.pointer (after_drop h s) in
          rw e (
            AllHeld-agree t (remove_frontend h.request.user_id h.request.service_name t) hs
              (λ p f g. rw (remove_frontend-heap h.request.user_id h.request.service_name t) g)
              (modify-AllHeld h.pointer shut shut-Renames (after_drop h s) hs dropped))
    ]

after_close-AllHeld :
    (o : Option Handler) (i : ℕ) (y : System)
    → AllHeld y.service y.handlers
    → AllHeld (after_close o i y).service (after_close o i y).handlers
unfolding after_close
after_close-AllHeld none i y all = all
after_close-AllHeld (some h) i y all =
    AllHeld-remove_at (close_stream h y.service) y.handlers i
      (close_stream-AllHeld h y.service y.handlers all)

end_accept-AllHeld :
    (p : ℕ) (s : MuxTunnelService) (hs : List Handler) → AllHeld s hs → AllHeld (end_accept p s) hs
unfolding end_accept
end_accept-AllHeld p s hs all = elim (Option-cases (get p s.heap)) [
  | inl e ↦ rw e all
  | inr (f, e) ↦ rw e (elim (Bool-cases f.listener.accepting) [
    | inl b ↦ rw b (
        AllHeld-agree (record s { heap = modify p stop s.heap })
          (record s {
            heap = modify p stop s.heap;
            frontend_port_pool = return_element f.fed.port s.frontend_port_pool;
          })
          hs (λ q x h. h) (modify-AllHeld p stop stop-Renames s hs all))
    | inr b ↦ rw b all
  ])
]

-- Every step keeps it.
pub step-AllHeld :
    (e : Event) (y : System)
    → IsSound y.service
    → AllHeld y.service y.handlers
    → AllHeld (step e y).service (step e y).handlers
unfolding step
step-AllHeld (opens env session td) y i all =
    open_stream-AllHeld env session td y.service y.handlers i all
step-AllHeld (closes n) y i all = after_close-AllHeld (get_elem? y.handlers n) n y all
step-AllHeld (accept_ends p) y i all = end_accept-AllHeld p y.service y.handlers all
