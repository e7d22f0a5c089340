-- ===== src/Server/Ports.antt =====
-- What a registration does to the pool of ports where the listener does not start,
-- pkg/muxtunnel.go and pkg/pool.go.
use goreverselb.Base.{
  Bool-cases, arith, bytes_key, err, false, get-put_self, inl, inr, length, nat_key, none, refl,
  true, ℕ, ◌==◌, ◌≡◌, ◌≢◌,
}
use goreverselb.Pool.{PoolInts, PoolError, get_element, return_element, holds}
use goreverselb.Pool.Invariant.{Status, status}
use goreverselb.Server.State.{MuxTunnelService, find_frontend, port_in_use}
use goreverselb.Server.Register.{Env, Request, start_failed, asked, register}

-- A request for a port that is taken gets no port from the pool and leaves it as it is.
get_element-taken :
    (pick v : ℕ) (p : PoolInts)
    → v ≢ 0
    → holds v p.free ≡ false
    → (e : PoolError) × (get_element pick v p ≡ (err e, p))
unfolding get_element
get_element-taken pick v p n h = elim (Bool-cases (length p.free == 0)) [
  | inl z ↦ (PoolError.no_more_elements, rw z refl)
  | inr z ↦ (PoolError.explicit_not_available, rw z (ground arith))
]

register-refused :
    (env : Env) (r : Request) (s : MuxTunnelService)
    → find_frontend r.user_id r.service_name s ≡ none
    → asked r ≢ 0
    → holds (asked r) s.frontend_port_pool.free ≡ false
    → port_in_use (asked r) s.heap ≡ true
    → register env r s ≡ (
      start_failed,
      record s { frontend_port_pool = return_element (asked r) s.frontend_port_pool },
    )
unfolding register
register-refused env r s missing n notfree used =
    let (e, g) = get_element-taken env.pick (asked r) s.frontend_port_pool n notfree in
    let nonzero : (asked r == 0) ≡ false = ground arith in
    rw (missing, g, register) (ground (arith, nonzero, used))

status-returned :
    (v : ℕ) (p : PoolInts)
    → holds v p.allocated ≡ true
    → status (return_element v p) v ≡ Status.free
unfolding return_element status
status-returned v p h = ground (arith, get-put_self v true p.free)

-- A service that is not there asks for a port that is not 0, that is allocated and not free, and on
-- which a listener is open. Then the listener does not start, and the pool has the port as free,
-- while the other listener is open as before.
pub register-frees_used_port :
    (env : Env) (r : Request) (s : MuxTunnelService)
    → find_frontend r.user_id r.service_name s ≡ none
    → asked r ≢ 0
    → holds (asked r) s.frontend_port_pool.free ≡ false
    → holds (asked r) s.frontend_port_pool.allocated ≡ true
    → port_in_use (asked r) s.heap ≡ true
    → ((register env r s).0 ≡ start_failed)
      × (status (register env r s).1.frontend_port_pool (asked r) ≡ Status.free)
      × (port_in_use (asked r) (register env r s).1.heap ≡ true)
register-frees_used_port env r s missing n notfree taken used =
    rw (register-refused env r s missing n notfree used)
      (refl, status-returned (asked r) s.frontend_port_pool taken, used)
