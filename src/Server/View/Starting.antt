-- ===== src/Server/View/Starting.antt =====
-- The start of a frontend against the view: start and what follows it in handleStream,
-- pkg/muxtunnel.go.
use goreverselb.Base.{
  Bool-cases, Bytes, Map, Option, [], arith, bytes_key, false, get, get-nil, get-put_self, inl, inr,
  nat_key, none, not, refl, some, ℕ, ◌&&◌, ◌∙◌, ◌≡◌, ◌≢◌,
}
use goreverselb.Pool.{PoolInts, return_element}
use goreverselb.Server.State.{MuxTunnelService, Session, find_frontend, port_in_use}
use goreverselb.Server.Register.{
  Request, Env, asked, new_frontend, set_frontend, start_frontend, after_set, after_start,
}
use goreverselb.Server.Sound.{IsSound}
use goreverselb.Server.Sound.Frontends.{started, start-IsSound, set_frontend-IsSound}
use goreverselb.Server.View.{backend_at, session_at-agree}
use goreverselb.Server.View.Joining.{
  place_of, Shows, start-agrees, set_frontend-heap, set_frontend-points, set_frontend-Isolated,
  add_backend-IsJoined, add_backend-session_at, add_backend-Isolated,
}

backend_at-nil : (j a : Bytes) → backend_at j a [] ≡ none
unfolding backend_at
backend_at-nil j a = rw (get-nil {V = Map Bytes Session} j) refl

pub pool-agrees :
    (u v : Bytes) (pool : PoolInts) (s : MuxTunnelService)
    → find_frontend u v (record s { frontend_port_pool = pool }) ≡ find_frontend u v s
unfolding find_frontend
pool-agrees u v pool s = refl

-- A service that is not found, or is found with another port.
module _ {s : MuxTunnelService} (i : IsSound s) (r : Request)
    (moves : (q : ℕ)
      → place_of (find_frontend r.user_id r.service_name s) ≢ some (q, asked r)) where
  open r use {user_id, service_name}

  module _ (free : port_in_use (asked r) s.heap ≡ false) where
    after_set-Shows :
        (o : Option MuxTunnelService)
        → set_frontend user_id service_name s.next (started i r free) ≡ o
        → Shows r s (after_set s.next r (started i r free) o)
    unfolding after_set
    after_set-Shows none h = (
      λ u v d. start-agrees i r u v,
      λ j a.
          session_at-agree user_id service_name j a (started i r free) s
            (start-agrees i r user_id service_name),
    )
    after_set-Shows (some s') h =
        let t = started i r free in
        let stored : get s.next s'.heap ≡ some (new_frontend r) =
          rw (set_frontend-heap user_id service_name s.next t s' h)
            (get-put_self s.next (new_frontend r) s.heap) in
        let points = set_frontend-points user_id service_name s.next t s' h in
        let sound =
          set_frontend-IsSound (start-IsSound i r free) user_id service_name s.next
            (record {
              frontend = new_frontend r;
              stored = get-put_self s.next (new_frontend r) s.heap;
              user = refl;
              service = refl;
            })
            s' h in
        (
          λ u v d.
              add_backend-Isolated sound s.next r points u v d
              ∙ set_frontend-Isolated user_id service_name s.next t s' h u v d
              ∙ start-agrees i r u v,
          add_backend-IsJoined sound s.next r (new_frontend r) points stored refl,
          inr (
            moves,
            λ j a d.
                add_backend-session_at sound s.next r (new_frontend r) j a points stored d
                ∙ backend_at-nil j a,
          ),
          refl,
        )

  pub after_start-Shows : (env : Env) → Shows r s (after_start r s (start_frontend env r s))
  unfolding after_start start_frontend
  after_start-Shows env = elim (Bool-cases (env.listens && not (port_in_use (asked r) s.heap))) [
    | inl e ↦ rw e (after_set-Shows (ground arith) _ refl)
    | inr e ↦ rw e (
      λ u v d. pool-agrees u v (return_element (asked r) s.frontend_port_pool) s,
      λ j a.
          session_at-agree user_id service_name j a
            (record s { frontend_port_pool = return_element (asked r) s.frontend_port_pool }) s
            (pool-agrees user_id service_name (return_element (asked r) s.frontend_port_pool) s),
    )
  ]
