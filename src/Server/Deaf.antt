-- ===== src/Server/Deaf.antt =====
-- A service whose move to another port fails, pkg/muxtunnel.go: the locked section of handleStream.
use goreverselb.Base.{Bytes, arith, false, refl, some, subst, sym, true, ℕ, ◌==◌, ◌∙◌, ◌≡◌, ◌≢◌}
use goreverselb.Pool.{return_element, get_element}
use goreverselb.Server.State.{
  MuxTunnelService, Frontend, find_frontend, close_listener, modify, shut,
}
use goreverselb.Server.Register.{
  Env, Request, joined, start_failed, with_port, asked, default_port, ensure_frontend, after_start,
  start_frontend, add_backend, add_session, after_allot, register,
}
use goreverselb.Server.Sound.Heap.{get-modify_self}
use goreverselb.Server.View.{find_frontend-stored}
use goreverselb.Server.View.Starting.{pool-agrees}
use goreverselb.Server.View.Registering.{find_frontend-inv}

find_frontend-modify :
    (u v : Bytes) (p : ℕ) (f : Frontend) (g : Frontend → Frontend) (s : MuxTunnelService)
    → find_frontend u v s ≡ some (p, f)
    → find_frontend u v (record s { heap = modify p g s.heap }) ≡ some (p, g f)
find_frontend-modify u v p f g s h =
    let (points, stored) = find_frontend-inv u v s p f h in
    find_frontend-stored u v p (g f) (record s { heap = modify p g s.heap }) points
      (get-modify_self p g s.heap f stored)

module _ (env : Env) (r r' : Request) (s : MuxTunnelService) (p : ℕ) (f : Frontend)
    (h : find_frontend r.user_id r.service_name s ≡ some (p, f))
    (d : default_port (some (p, f)) r ≡ r') (n : asked r' ≢ 0) where
  abbrev asking : MuxTunnelService
  asking = record s {
    frontend_port_pool = (get_element env.pick (asked r') s.frontend_port_pool).1;
  }

  register-there : register env r s ≡ ensure_frontend env (some (p, f)) r' asking
  unfolding register after_allot
  register-there =
      let nonzero : (asked r' == 0) ≡ false = ground arith in
      rw (h, register) (rw (d, nonzero) refl)

default_port-asked :
    (p : ℕ) (f : Frontend) (r : Request) → asked r ≢ 0 → default_port (some (p, f)) r ≡ r
unfolding default_port
default_port-asked p f r n = let nonzero : (asked r == 0) ≡ false = ground arith in rw nonzero refl

default_port-auto :
    (p : ℕ) (f : Frontend) (r : Request)
    → asked r ≡ 0
    → default_port (some (p, f)) r ≡ with_port r f.port r.td.frontend_data.auto
unfolding default_port
default_port-auto p f r z =
    let zero_asked : (asked r == 0) ≡ true = ground arith in rw zero_asked refl

-- The state after a failed move to another port.
moves_nowhere :
    (env : Env) (r : Request) (s : MuxTunnelService) (p : ℕ) (f : Frontend)
    → find_frontend r.user_id r.service_name s ≡ some (p, f)
    → asked r ≢ 0
    → f.port ≢ asked r
    → env.listens ≡ false
    → ((register env r s).0 ≡ start_failed)
      × (find_frontend r.user_id r.service_name (register env r s).1 ≡ some (p, shut f))
unfolding ensure_frontend after_start start_frontend close_listener
moves_nowhere env r s p f h n m l =
    let d = default_port-asked p f r n in
    let other : (f.port == asked r) ≡ false = ground arith in
    rw (register-there env r r s p f h d n, other, l)
      (
        refl,
        (let pool =
              return_element (asked r) (get_element env.pick (asked r) s.frontend_port_pool).1 in
            find_frontend-modify r.user_id r.service_name p f shut
              (record s { frontend_port_pool = pool })
              (pool-agrees r.user_id r.service_name pool s ∙ h)),
      )

joins_at :
    (env : Env) (r : Request) (s : MuxTunnelService) (p : ℕ) (f : Frontend)
    → find_frontend r.user_id r.service_name s ≡ some (p, f)
    → asked r ≡ 0
    → f.port ≢ 0
    → (r' : Request) × ((register env r s).0 ≡ joined p r')
      × (asked r' ≡ f.port)
      × (find_frontend r.user_id r.service_name (register env r s).1 ≡ some (p, add_session r' f))
unfolding ensure_frontend add_backend
joins_at env r s p f h z n =
    let r' = with_port r f.port r.td.frontend_data.auto in
    let d : default_port (some (p, f)) r ≡ r' = default_port-auto p f r z in
    let same : (f.port == f.port) ≡ true = ground arith in
    rw (register-there env r r' s p f h d n, same)
      (
        r',
        refl,
        refl,
        find_frontend-modify r.user_id r.service_name p f (add_session r')
            (asking env r r' s p f h d n)
            (pool-agrees r.user_id r.service_name
                (get_element env.pick (asked r') s.frontend_port_pool).1 s
              ∙ h),
      )

-- A service is found, and a request asks it to move to another port, where no listener starts. The
-- request ends without an answer, the service is still found, with its listener closed; a later
-- request that leaves the port open joins it and is answered with its port, although the listener
-- of that service is still closed.
pub register-closed_listener :
    (env env' : Env) (r r' : Request) (s : MuxTunnelService) (p : ℕ) (f : Frontend)
    → find_frontend r.user_id r.service_name s ≡ some (p, f)
    → asked r ≢ 0
    → f.port ≢ asked r
    → f.port ≢ 0
    → env.listens ≡ false
    → r'.user_id ≡ r.user_id
    → r'.service_name ≡ r.service_name
    → asked r' ≡ 0
    → ((register env r s).0 ≡ start_failed)
      × (r'' : Request) × (g : Frontend) × ((register env' r' (register env r s).1).0
          ≡ joined p r'')
      × (asked r'' ≡ f.port)
      × (find_frontend r.user_id r.service_name (register env' r' (register env r s).1).1
          ≡ some (p, g))
      × (g.listener.is_open ≡ false)
register-closed_listener env env' r r' s p f h n m k l eu ev z =
    let (failed, there) = moves_nowhere env r s p f h n m l in
    let (r'', joins, port, there') =
      joins_at env' r' (register env r s).1 p (shut f)
        (subst
          (λ (u : Bytes). find_frontend u r'.service_name (register env r s).1 ≡ some (p, shut f))
          (sym eu)
          (subst (λ (v : Bytes). find_frontend r.user_id v (register env r s).1 ≡ some (p, shut f))
            (sym ev) there))
        z k in
    (
      failed,
      r'',
      add_session r'' (shut f),
      joins,
      port,
      subst
          (λ (u : Bytes).
            find_frontend u r.service_name (register env' r' (register env r s).1).1
            ≡ some (p, add_session r'' (shut f)))
          eu
          (subst
            (λ (v : Bytes).
              find_frontend r'.user_id v (register env' r' (register env r s).1).1
              ≡ some (p, add_session r'' (shut f)))
            ev there'),
      refl,
    )
