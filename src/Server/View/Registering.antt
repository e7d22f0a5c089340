-- ===== src/Server/View/Registering.antt =====
-- The locked section of handleStream against the view, branch by branch, pkg/muxtunnel.go.
use goreverselb.Base.{
  Bool, Bool-cases, Bytes, Option, Option-cases, Result, ap, arith, bytes_key, err, get, inl, inr,
  nat_key, none, ok, refl, some, subst, sym, true, ℕ, ◌==◌, ◌∙◌, ◌≡◌,
}
use goreverselb.Pool.{PoolInts, PoolError, get_element}
use goreverselb.Server.State.{
  MuxTunnelService, Frontend, find_pointer, find_frontend, modify, close_listener, shut,
}
use goreverselb.Server.Register.{
  allot, default_port, register, after_allot, with_port, Request, Env, Outcome, joined,
  out_of_ports, start_failed, nil_map_write, asked, ensure_frontend,
}
use goreverselb.Server.Sound.{IsSound}
use goreverselb.Server.Sound.Heap.{get-modify_self}
use goreverselb.Server.Sound.Frontends.{pool-IsSound}
use goreverselb.Server.Sound.Steps.{close_listener-IsSound}
use goreverselb.Server.View.{session_at, find_frontend-stored, session_at-stored}
use goreverselb.Server.View.Joining.{
  place_of, Shows, Settles, Isolated, SameSessions, Reports, modify-Isolated, add_backend-IsJoined,
  add_backend-session_at, add_backend-Isolated,
}
use goreverselb.Server.View.Settling.{allot-Settles}
use goreverselb.Server.View.Excuses.{Excused, register-Excused}
use goreverselb.Server.View.Starting.{after_start-Shows}

-- What is shown of a state where the service is found at the same place with the same sessions is
-- shown of the one before.
Shows-before :
    (r : Request) (s t : MuxTunnelService) (x : Outcome × MuxTunnelService)
    → Isolated r.user_id r.service_name s t
    → SameSessions r.user_id r.service_name s t
    → place_of (find_frontend r.user_id r.service_name t)
      ≡ place_of (find_frontend r.user_id r.service_name s)
    → Shows r t x
    → Shows r s x
Shows-before r s t (joined p r', y) k m e (c, j, inl (at, o), q) =
    (λ u v d. c u v d ∙ k u v d, j, inl (sym e ∙ at, λ b a d. o b a d ∙ m b a), q)
Shows-before r s t (joined p r', y) k m e (c, j, inr (moves, o), q) =
    (λ u v d. c u v d ∙ k u v d, j, inr (λ n h. moves n (e ∙ h), o), q)
Shows-before r s t (out_of_ports r', y) k m e (c, o) =
    (λ u v d. c u v d ∙ k u v d, λ b a. o b a ∙ m b a)
Shows-before r s t (start_failed, y) k m e (c, o) =
    (λ u v d. c u v d ∙ k u v d, λ b a. o b a ∙ m b a)
Shows-before r s t (nil_map_write, y) k m e (c, o) =
    (λ u v d. c u v d ∙ k u v d, λ b a. o b a ∙ m b a)

-- The report of a request whose port is settled.
settled-Reports :
    (r : Request) (k : ℕ) (b : Bool) (s : MuxTunnelService) (x : Outcome × MuxTunnelService)
    → Settles r (find_frontend r.user_id r.service_name s) (with_port r k b)
    → Shows (with_port r k b) s x
    → Reports r s x
settled-Reports r k b s (joined p r', y) z (c, j, o, q) = (
  c,
  record { frontend = j.frontend; found = j.found; port = j.port; registered = j.registered },
  o,
  subst (λ (x : Request). Settles r (find_frontend r.user_id r.service_name s) x) (sym q) z,
)
settled-Reports r k b s (out_of_ports r', y) z h = h
settled-Reports r k b s (start_failed, y) z h = h
settled-Reports r k b s (nil_map_write, y) z h = h

-- A request that joins is registered.
pub Reports-registered :
    (r : Request) (s : MuxTunnelService) (x : Outcome × MuxTunnelService) (p : ℕ) (r' : Request)
    → x.0 ≡ joined p r'
    → Reports r s x
    → session_at r.user_id r.service_name r.instance_name r.session.remote_addr x.1 ≡ some r.session
Reports-registered r s (joined q r'', t) p r' e (c, j, o, z) =
    session_at-stored r.user_id r.service_name r.instance_name r.session.remote_addr q j.frontend t
      j.found
    ∙ j.registered
Reports-registered r s (out_of_ports r'', t) p r' e h = absurd (cc)
Reports-registered r s (start_failed, t) p r' e h = absurd (cc)
Reports-registered r s (nil_map_write, t) p r' e h = absurd (cc)

pub find_frontend-inv :
    (u v : Bytes) (s : MuxTunnelService) (p : ℕ) (f : Frontend)
    → find_frontend u v s ≡ some (p, f)
    → (find_pointer u v s.frontend_map ≡ some p) × (get p s.heap ≡ some f)
unfolding find_frontend
find_frontend-inv u v s p f h = elim (Option-cases (find_pointer u v s.frontend_map)) [
  | inl e ↦ absurd (ground arith)
  | inr (q, e) ↦ elim (Option-cases (get q s.heap)) [
    | inl g ↦ absurd (ground arith)
    | inr (x, g) ↦ (ground arith, ground arith)
  ]
]

module _ {s : MuxTunnelService} (i : IsSound s) (r : Request) where
  open r use {user_id, service_name}

  shut-SameSessions :
      (p : ℕ) (f : Frontend)
      → find_frontend user_id service_name s ≡ some (p, f)
      → SameSessions user_id service_name s (close_listener p s)
  unfolding close_listener
  shut-SameSessions p f h j a =
      let (points, stored) = find_frontend-inv user_id service_name s p f h in
      session_at-stored user_id service_name j a p (shut f)
        (record s { heap = modify p shut s.heap })
        (find_frontend-stored user_id service_name p (shut f)
          (record s { heap = modify p shut s.heap }) points
          (get-modify_self p shut s.heap f stored))
      ∙ sym (session_at-stored user_id service_name j a p f s h)

  shut-Isolated :
      (p : ℕ) (f : Frontend)
      → find_frontend user_id service_name s ≡ some (p, f)
      → Isolated user_id service_name s (close_listener p s)
  unfolding close_listener
  shut-Isolated p f h =
      modify-Isolated i user_id service_name p shut
        (find_frontend-inv user_id service_name s p f h).0

  shut-place :
      (p : ℕ) (f : Frontend)
      → find_frontend user_id service_name s ≡ some (p, f)
      → place_of (find_frontend user_id service_name (close_listener p s))
        ≡ place_of (find_frontend user_id service_name s)
  unfolding close_listener
  shut-place p f h =
      let (points, stored) = find_frontend-inv user_id service_name s p f h in
      ap place_of (
        find_frontend-stored user_id service_name p (shut f)
          (record s { heap = modify p shut s.heap }) points
          (get-modify_self p shut s.heap f stored))
      ∙ sym (ap place_of h)

  ensure_frontend-Shows :
      (env : Env) (val : Option (ℕ × Frontend))
      → find_frontend user_id service_name s ≡ val
      → Shows r s (ensure_frontend env val r s)
  unfolding ensure_frontend
  ensure_frontend-Shows env none h =
      after_start-Shows i r (λ q g. absurd (ground (arith, sym (ap place_of h) ∙ g))) env
  ensure_frontend-Shows env (some (p, val)) h = elim (Bool-cases (val.port == asked r)) [
    | inl e ↦
        let (points, stored) = find_frontend-inv user_id service_name s p val h in
        let same : val.port ≡ asked r = ground (arith, e) in
        rw e (
          add_backend-Isolated i p r points,
          add_backend-IsJoined i p r val points stored same,
          inl (
            ap place_of h ∙ ap (λ k. some (p, k)) same,
            λ j a d.
                add_backend-session_at i p r val j a points stored d
                ∙ sym (session_at-stored user_id service_name j a p val s h),
          ),
          refl,
        )
    | inr e ↦
        let place = shut-place p val h in
        rw e (
          Shows-before r s (close_listener p s) _ (shut-Isolated p val h)
            (shut-SameSessions p val h) place
            (after_start-Shows (close_listener-IsSound p i) r
              (λ q g. absurd (ground (arith, e, sym (place ∙ ap place_of h) ∙ g))) env))
  ]

-- The request with another port.
abbrev pub Renumbered : Request → Request → Type 0
Renumbered r r' = (k : ℕ) × (b : Bool) × (r' ≡ with_port r k b)

pub default_port-Renumbered :
    (val : Option (ℕ × Frontend)) (r : Request) → Renumbered r (default_port val r)
unfolding default_port
default_port-Renumbered none r = (asked r, r.td.frontend_data.auto, refl)
default_port-Renumbered (some (p, val)) r = elim (Bool-cases (asked r == 0)) [
  | inl e ↦ (val.port, r.td.frontend_data.auto, rw e refl)
  | inr e ↦ (asked r, r.td.frontend_data.auto, rw e refl)
]

pub allot-Renumbered :
    (got : Result PoolError ℕ) (r r' : Request) → allot got r ≡ some r' → Renumbered r r'
unfolding allot
allot-Renumbered (ok k) r r' h = elim (Bool-cases (asked r == 0)) [
  | inl e ↦ (k, true, ground arith)
  | inr e ↦ (asked r, r.td.frontend_data.auto, ground arith)
]
allot-Renumbered (err x) r r' h = elim (Bool-cases (asked r == 0)) [
  | inl e ↦ absurd (ground arith)
  | inr e ↦ (asked r, r.td.frontend_data.auto, ground arith)
]

module _ {s : MuxTunnelService} (i : IsSound s) (r : Request) (env : Env) where
  open r use {user_id, service_name}

  after_allot-Reports :
      (val : Option (ℕ × Frontend)) (r' : Request) (o : Option Request)
      → find_frontend user_id service_name s ≡ val
      → ((r'' : Request) → o ≡ some r'' → Settles r val r'')
      → Reports r s (after_allot env val r' o s)
  unfolding after_allot
  after_allot-Reports val r' none h m = (λ u v d. refl, λ j a. refl)
  after_allot-Reports val r' (some r'') h m =
      let z = m r'' refl in
      let z' : Settles r (find_frontend user_id service_name s) (with_port r z.port z.auto) =
        subst (λ (x : Request). Settles r (find_frontend user_id service_name s) x) z.renumbered
          (subst (λ (o : Option (ℕ × Frontend)). Settles r o r'') (sym h) z) in
      rw z.renumbered (
        settled-Reports r z.port z.auto s (ensure_frontend env val (with_port r z.port z.auto) s) z'
          (ensure_frontend-Shows i (with_port r z.port z.auto) env val h))

-- The report does not look at the pool.
Reports-before :
    (r : Request) (s : MuxTunnelService) (pool : PoolInts) (x : Outcome × MuxTunnelService)
    → Reports r (record s { frontend_port_pool = pool }) x
    → Reports r s x
unfolding find_frontend session_at
Reports-before r s pool (joined p r', y) h = h
Reports-before r s pool (out_of_ports r', y) h = h
Reports-before r s pool (start_failed, y) h = h
Reports-before r s pool (nil_map_write, y) h = h

-- The report without the reasons of a failure.
pub register_report :
    (env : Env) (r : Request) (s : MuxTunnelService) → IsSound s → Reports r s (register env r s)
unfolding register find_frontend
register_report env r s i =
    let val = find_frontend r.user_id r.service_name s in
    let r' = default_port val r in
    let (got, pool) = get_element env.pick (asked r') s.frontend_port_pool in
    let t = record s { frontend_port_pool = pool } in
    Reports-before r s pool (after_allot env val r' (allot got r') t) (
      after_allot-Reports {s = t} (pool-IsSound i pool) r env val r' (allot got r') refl
        (allot-Settles r val got))

-- What a registration does to a sound state. Frontends of other services stay as they are, in
-- every outcome. If the request joins, its port is settled: it is the one that it asks for, if that
-- is not zero, and else that of the frontend of the service, if there is one with a port. Its
-- service leads to a frontend with that port, and the session is registered there under its
-- instance and address. The other sessions of the service all stay where the frontend was there
-- with that port, and are all gone where the service had no frontend or one with another port. If
-- the request does not join, no session appears or goes, and either it asks for no port, its
-- service has none and no port is free, or the system refuses the listener or the settled port is
-- in use, or the user has no map of services.
pub register-Reports :
    (env : Env) (r : Request) (s : MuxTunnelService)
    → IsSound s
    → Reports r s (register env r s) × Excused env r s (register env r s).0
register-Reports env r s i = (register_report env r s i, register-Excused env r s)
