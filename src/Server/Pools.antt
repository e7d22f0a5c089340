-- ===== src/Server/Pools.antt =====
-- The steps of the tunnel service use the port pool by its two methods only, pkg/muxtunnel.go.
use goreverselb.Base.{
  Bool-cases, Bytes, List, Option, Option-cases, [], arith, bytes_key, get, get_elem?, inl, inr,
  nat_key, none, not, put, refl, some, suc, ℕ, ◌&&◌, ◌==◌, ◌∷◌, ◌≡◌,
}
use goreverselb.Pool.{get_element}
use goreverselb.Pool.Invariant.{IsValid, get_element-IsValid, return_element-IsValid}
use goreverselb.Pool.History.{new_pool_for_range-IsValid}
use goreverselb.Types.{TunnelData, ConfigData}
use goreverselb.Server.State.{
  port_in_use, MuxTunnelService, Frontend, Session, find_frontend, close_listener,
  new_mux_tunnel_service,
}
use goreverselb.Server.Access.{authorize}
use goreverselb.Server.Register.{
  new_frontend, start_frontend, set_frontend, Env, Request, asked, add_backend, after_start,
  after_set, ensure_frontend, after_allot, default_port, allot, register,
}
use goreverselb.Server.Stream.{
  remove_frontend, close_stream, end_accept, Handler, open_stream, request_of, has_backends,
  after_drop,
}
use goreverselb.Server.System.{
  System, Event, opens, closes, accept_ends, step, run, start, after_close,
}

module _ (lower_bound cap : ℕ) where
  abbrev pub PoolIsValid : MuxTunnelService → Type 0
  PoolIsValid s = IsValid lower_bound cap s.frontend_port_pool

  set_frontend-pool :
      (u v : Bytes) (p : ℕ) (s s' : MuxTunnelService)
      → set_frontend u v p s ≡ some s'
      → s'.frontend_port_pool ≡ s.frontend_port_pool
  unfolding set_frontend
  set_frontend-pool u v p s s' h = ground arith

  after_set-PoolIsValid :
      (p : ℕ) (r : Request) (s : MuxTunnelService) (o : Option MuxTunnelService)
      → PoolIsValid s
      → set_frontend r.user_id r.service_name p s ≡ o
      → PoolIsValid (after_set p r s o).1
  unfolding after_set add_backend
  after_set-PoolIsValid p r s none i h = i
  after_set-PoolIsValid p r s (some s') i h =
      rw (set_frontend-pool r.user_id r.service_name p s s' h) i

  after_start-PoolIsValid :
      (env : Env) (r : Request) (s : MuxTunnelService)
      → PoolIsValid s
      → PoolIsValid (after_start r s (start_frontend env r s)).1
  unfolding after_start start_frontend
  after_start-PoolIsValid env r s i =
      elim (Bool-cases (env.listens && not (port_in_use (asked r) s.heap))) [
        | inl e ↦ rw e (
            after_set-PoolIsValid s.next r
              (record s { heap = put s.next (new_frontend r) s.heap; next = suc s.next })
              (set_frontend r.user_id r.service_name s.next
                (record s { heap = put s.next (new_frontend r) s.heap; next = suc s.next }))
              i refl)
        | inr e ↦ rw e (return_element-IsValid (asked r) s.frontend_port_pool i)
      ]

  ensure_frontend-PoolIsValid :
      (env : Env) (val : Option (ℕ × Frontend)) (r : Request) (s : MuxTunnelService)
      → PoolIsValid s
      → PoolIsValid (ensure_frontend env val r s).1
  unfolding ensure_frontend add_backend close_listener
  ensure_frontend-PoolIsValid env none r s i = after_start-PoolIsValid env r s i
  ensure_frontend-PoolIsValid env (some (p, val)) r s i = elim (Bool-cases (val.port == asked r)) [
    | inl e ↦ rw e i
    | inr e ↦ rw e (after_start-PoolIsValid env r (close_listener p s) i)
  ]

  after_allot-PoolIsValid :
      (env : Env) (val : Option (ℕ × Frontend)) (r : Request) (o : Option Request)
      (s : MuxTunnelService)
      → PoolIsValid s
      → PoolIsValid (after_allot env val r o s).1
  unfolding after_allot
  after_allot-PoolIsValid env val r none s i = i
  after_allot-PoolIsValid env val r (some r') s i = ensure_frontend-PoolIsValid env val r' s i

  register-PoolIsValid :
      (env : Env) (r : Request) (s : MuxTunnelService)
      → PoolIsValid s
      → PoolIsValid (register env r s).1
  unfolding register
  register-PoolIsValid env r s i =
      let val = find_frontend r.user_id r.service_name s in
      let r' = default_port val r in
      let (got, pool) = get_element env.pick (asked r') s.frontend_port_pool in
      after_allot-PoolIsValid env val r' (allot got r') (record s { frontend_port_pool = pool })
        (get_element-IsValid env.pick (asked r') s.frontend_port_pool i)

  open_stream-PoolIsValid :
      (env : Env) (session : Session) (td : Option TunnelData) (s : MuxTunnelService)
      → PoolIsValid s
      → PoolIsValid (open_stream env session td s).1
  unfolding open_stream
  open_stream-PoolIsValid env session none s i = i
  open_stream-PoolIsValid env session (some td) s i =
      let r = request_of session td in
      elim (Bool-cases (authorize r.user_id r.service_name td s)) [
        | inl e ↦ rw e (register-PoolIsValid env r s i)
        | inr e ↦ rw e i
      ]

  remove_frontend-pool :
      (u v : Bytes) (s : MuxTunnelService)
      → (remove_frontend u v s).frontend_port_pool ≡ s.frontend_port_pool
  unfolding remove_frontend
  remove_frontend-pool u v s = ground arith

  close_stream-PoolIsValid :
      (h : Handler) (s : MuxTunnelService) → PoolIsValid s → PoolIsValid (close_stream h s)
  unfolding close_stream close_listener
  close_stream-PoolIsValid h s i = elim (Bool-cases (has_backends h.pointer (after_drop h s))) [
    | inl e ↦ rw e i
    | inr e ↦ rw e (
        rw
          (remove_frontend-pool h.request.user_id h.request.service_name
            (close_listener h.pointer (after_drop h s)))
          i)
  ]

  end_accept-PoolIsValid :
      (p : ℕ) (s : MuxTunnelService) → PoolIsValid s → PoolIsValid (end_accept p s)
  unfolding end_accept
  end_accept-PoolIsValid p s i = elim (Option-cases (get p s.heap)) [
    | inl e ↦ rw e i
    | inr (f, e) ↦ rw e (elim (Bool-cases f.listener.accepting) [
      | inl a ↦ rw a (return_element-IsValid f.fed.port s.frontend_port_pool i)
      | inr a ↦ rw a i
    ])
  ]

  after_close-PoolIsValid :
      (o : Option Handler) (i : ℕ) (y : System)
      → PoolIsValid y.service
      → PoolIsValid (after_close o i y).service
  unfolding after_close
  after_close-PoolIsValid none i y h = h
  after_close-PoolIsValid (some x) i y h = close_stream-PoolIsValid x y.service h

  step-PoolIsValid :
      (e : Event) (y : System) → PoolIsValid y.service → PoolIsValid (step e y).service
  unfolding step
  step-PoolIsValid (opens env session td) y h = open_stream-PoolIsValid env session td y.service h
  step-PoolIsValid (closes i) y h = after_close-PoolIsValid (get_elem? y.handlers i) i y h
  step-PoolIsValid (accept_ends pointer) y h = end_accept-PoolIsValid pointer y.service h

  run-PoolIsValid :
      (y : System) (es : List Event) → PoolIsValid y.service → PoolIsValid (run y es).service
  unfolding run
  run-PoolIsValid y [] h = h
  run-PoolIsValid y (e ∷ es) h = run-PoolIsValid (step e y) es (step-PoolIsValid e y h)

-- Whatever the clients, the listeners and the accept loops do, the port pool of the service stays
-- a partition of the configured range into free and allocated ports.
pub run-start-PoolIsValid :
    (config : ConfigData) (service_port : ℕ) (token : Bytes) (dynport dynportcount : ℕ)
    (es : List Event)
    → IsValid dynport dynportcount
        (run (start config service_port token dynport dynportcount) es).service.frontend_port_pool
unfolding start new_mux_tunnel_service
run-start-PoolIsValid config service_port token dynport dynportcount es =
    run-PoolIsValid dynport dynportcount (start config service_port token dynport dynportcount) es
      (new_pool_for_range-IsValid dynport dynportcount)
