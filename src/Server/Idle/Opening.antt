-- ===== src/Server/Idle/Opening.antt =====
-- handleStream of pkg/muxtunnel.go, to its wait, keeps every session attended.
use goreverselb.Base.{
  Bool-cases, Bytes, List, Option, Option-cases, arith, bytes_key, get, inl, inr, nat_key, none,
  refl, some, subst, sym, true, ℕ, ◌≡◌,
}
use goreverselb.Types.{UserData, TunnelData}
use goreverselb.Pool.{get_element}
use goreverselb.Server.State.{MuxTunnelService, Session, Frontend, find_frontend}
use goreverselb.Server.Register.{
  asked, Env, Request, Outcome, out_of_ports, start_failed, nil_map_write, joined, after_allot,
  default_port, allot, register, with_port,
}
use goreverselb.Server.Stream.{Handler, open_stream, request_of, answer}
use goreverselb.Server.System.{after_open}
use goreverselb.Server.Access.{authorize, authorize_user}
use goreverselb.Server.Sound.{IsSound}
use goreverselb.Server.Sound.Frontends.{pool-IsSound}
use goreverselb.Server.View.Registering.{Renumbered, default_port-Renumbered, allot-Renumbered}
use goreverselb.Server.Idle.{IsAttended}
use goreverselb.Server.Idle.Kept.{pool-IsAttendedBut}
use goreverselb.Server.Idle.Registering.{Attended, ensure_frontend-Attended}

module _ {hs : List Handler} (env : Env) (user : UserData) where
  after_allot-Attended :
      (val : Option (ℕ × Frontend)) (r : Request) (o : Option Request) (s : MuxTunnelService)
      → IsAttended hs s
      → IsSound s
      → get r.user_id s.config_data.users ≡ some user
      → find_frontend r.user_id r.service_name s ≡ val
      → ((r' : Request) → o ≡ some r' → Renumbered r r')
      → Attended hs (after_allot env val r o s)
  unfolding after_allot
  after_allot-Attended val r none s i z known h k = i
  after_allot-Attended val r (some r') s i z known h k =
      let (n, b, e) = k r' refl in
      rw e (ensure_frontend-Attended env user val (with_port r n b) s i z known h)

  register-Attended :
      (r : Request) (s : MuxTunnelService)
      → IsAttended hs s
      → IsSound s
      → get r.user_id s.config_data.users ≡ some user
      → Attended hs (register env r s)
  unfolding register find_frontend
  register-Attended r s i z known =
      let val = find_frontend r.user_id r.service_name s in
      let r' = default_port val r in
      let (got, pool) = get_element env.pick (asked r') s.frontend_port_pool in
      let (n, b, e) = default_port-Renumbered val r in
      after_allot-Attended val r' (allot got r') (record s { frontend_port_pool = pool })
        (pool-IsAttendedBut i pool) (pool-IsSound z pool)
        (subst (λ (x : Request). get x.user_id s.config_data.users ≡ some user) (sym e) known)
        (subst (λ (x : Request). find_frontend x.user_id x.service_name s ≡ val) (sym e) refl)
        (λ r''. allot-Renumbered got r' r'')

after_open-IsAttended :
    (hs : List Handler) (env : Env) (x : Outcome × MuxTunnelService)
    → env.sends ≡ true
    → Attended hs x
    → IsAttended (after_open (answer env x.0) hs) x.1
unfolding after_open answer
after_open-IsAttended hs env (out_of_ports r, s) h a = a
after_open-IsAttended hs env (start_failed, s) h a = a
after_open-IsAttended hs env (nil_map_write, s) h a = absurd a
after_open-IsAttended hs env (joined p r, s) h a = rw h a

authorize-user :
    (u v : Bytes) (td : TunnelData) (s : MuxTunnelService)
    → authorize u v td s ≡ true
    → (user : UserData) × (get u s.config_data.users ≡ some user)
unfolding authorize authorize_user
authorize-user u v td s h = elim (Option-cases (get u s.config_data.users)) [
  | inl e ↦ absurd (ground arith)
  | inr (user, e) ↦ (user, e)
]

pub open_stream-IsAttended :
    (hs : List Handler) (env : Env) (session : Session) (td : Option TunnelData)
    (s : MuxTunnelService)
    → env.sends ≡ true
    → IsAttended hs s
    → IsSound s
    → IsAttended (after_open (open_stream env session td s).0 hs) (open_stream env session td s).1
unfolding open_stream after_open
open_stream-IsAttended hs env session none s h i z = i
open_stream-IsAttended hs env session (some td) s h i z =
    let r = request_of session td in
    elim (Bool-cases (authorize r.user_id r.service_name td s)) [
      | inl e ↦ rw e (
          let (user, known) = authorize-user r.user_id r.service_name td s e in
          after_open-IsAttended hs env (register env r s) h
            (register-Attended env user r s i z known))
      | inr e ↦ rw e i
    ]
