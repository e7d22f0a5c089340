-- ===== src/Server/View/Excuses.antt =====
-- Why a request does not join: the failures in the locked section of handleStream, pkg/muxtunnel.go.
use goreverselb.Base.{
  Bool, Bool-cases, Bytes, Map, Option, Option-cases, Result, [], ap, arith, bytes_key, delete, err,
  false, get, inl, inr, length, nat_key, none, not, ok, put, refl, some, subst, sym, true, ℕ,
  ℕ_discrete, ◌&&◌, ◌==◌, ◌∙◌, ◌∷◌, ◌≡◌, ◌⊎◌,
}
use goreverselb.Pool.{PoolError, PoolInts, get_element}
use goreverselb.Server.State.{
  MuxTunnelService, Frontend, find_frontend, port_in_use, modify, shut, close_listener,
}
use goreverselb.Server.Register.{
  Env, Request, Outcome, joined, out_of_ports, start_failed, nil_map_write, asked, with_port,
  add_backend, set_frontend, start_frontend, after_set, after_start, ensure_frontend, after_allot,
  default_port, allot, register,
}
use goreverselb.Server.View.Joining.{Settles}
use goreverselb.Server.View.Settling.{allot-Settles}

-- With a port that is settled: the port is in use or the system refuses the listener, or the user
-- has no map.
abbrev FailsAt : Env → Request → MuxTunnelService → Outcome → Type 0
FailsAt env r s (joined p r') = Unit {0}
FailsAt env r s (out_of_ports r') = ⊥
FailsAt env r s start_failed = (env.listens ≡ false) ⊎ (port_in_use (asked r) s.heap ≡ true)
FailsAt env r s nil_map_write = get r.user_id s.frontend_map ≡ none

-- A request that does not join: an automatic one finds no frontend with a port and no free port, or
-- the system refuses the listener, where the settled port is in use or for another reason, or the
-- user has no map.
abbrev pub Excused : Env → Request → MuxTunnelService → Outcome → Type 0
Excused env r s (joined p r') = Unit {0}
Excused env r s (out_of_ports r') =
    (asked r ≡ 0)
    × (length s.frontend_port_pool.free ≡ 0)
    × ((p : ℕ) (f : Frontend) → find_frontend r.user_id r.service_name s ≡ some (p, f) → f.port ≡ 0)
Excused env r s start_failed =
    (env.listens ≡ false)
    ⊎ ((r' : Request) × Settles r (find_frontend r.user_id r.service_name s) r'
        × (port_in_use (asked r') s.heap ≡ true))
Excused env r s nil_map_write = get r.user_id s.frontend_map ≡ none

port_in_use-delete :
    (k p : ℕ) (heap : Map ℕ Frontend)
    → port_in_use k (delete p heap) ≡ true
    → port_in_use k heap ≡ true
unfolding port_in_use delete
port_in_use-delete k p [] h = h
port_in_use-delete k p ((q, f) ∷ heap) h = ground (arith, h, port_in_use-delete k p heap)

-- A listener that is closed frees its port, and no other is taken.
port_in_use-shut :
    (k p : ℕ) (heap : Map ℕ Frontend)
    → port_in_use k (modify p shut heap) ≡ true
    → port_in_use k heap ≡ true
unfolding port_in_use modify put
port_in_use-shut k p heap h = elim (Option-cases (get p heap)) [
  | inl e ↦ ground (arith, e, h)
  | inr (f, e) ↦ port_in_use-delete k p heap (ground (arith, e, h))
]

set_frontend-none :
    (u v : Bytes) (p : ℕ) (s : MuxTunnelService)
    → set_frontend u v p s ≡ none
    → get u s.frontend_map ≡ none
unfolding set_frontend
set_frontend-none u v p s h = elim (Option-cases (get u s.frontend_map)) [
  | inl e ↦ e
  | inr (m, e) ↦ absurd (ground (arith, e, h))
]

module _ (env : Env) (r : Request) where
  after_set-FailsAt :
      (p : ℕ) (s t : MuxTunnelService) (o : Option MuxTunnelService)
      → t.frontend_map ≡ s.frontend_map
      → set_frontend r.user_id r.service_name p t ≡ o
      → FailsAt env r s (after_set p r t o).0
  unfolding after_set add_backend
  after_set-FailsAt p s t none e h =
      ap (get r.user_id) (sym e) ∙ set_frontend-none r.user_id r.service_name p t h
  after_set-FailsAt p s t (some t') e h = tt

  after_start-FailsAt :
      (s : MuxTunnelService) → FailsAt env r s (after_start r s (start_frontend env r s)).0
  unfolding after_start start_frontend
  after_start-FailsAt s = elim (Bool-cases (env.listens && not (port_in_use (asked r) s.heap))) [
    | inl e ↦ rw e (after_set-FailsAt s.next s _ _ refl refl)
    | inr e ↦
        rw e (elim (Bool-cases env.listens) [ inl l ↦ inr (ground (arith, e, l)) | inr l ↦ inl l ])
  ]

  -- The listener that is closed first changes nothing here.
  shut-FailsAt :
      (p : ℕ) (s : MuxTunnelService) (o : Outcome)
      → FailsAt env r (close_listener p s) o
      → FailsAt env r s o
  unfolding close_listener
  shut-FailsAt p s (joined q r') h = tt
  shut-FailsAt p s (out_of_ports r') h = h
  shut-FailsAt p s start_failed (inl e) = inl e
  shut-FailsAt p s start_failed (inr e) = inr (port_in_use-shut (asked r) p s.heap e)
  shut-FailsAt p s nil_map_write h = h

  ensure_frontend-FailsAt :
      (val : Option (ℕ × Frontend)) (s : MuxTunnelService)
      → FailsAt env r s (ensure_frontend env val r s).0
  unfolding ensure_frontend add_backend
  ensure_frontend-FailsAt none s = after_start-FailsAt s
  ensure_frontend-FailsAt (some (p, val)) s = elim (Bool-cases (val.port == asked r)) [
    | inl e ↦ rw e tt
    | inr e ↦ rw e (shut-FailsAt p s _ (after_start-FailsAt (close_listener p s)))
  ]

default_port-zero :
    (r : Request) (val : Option (ℕ × Frontend))
    → asked (default_port val r) ≡ 0
    → (asked r ≡ 0) × ((p : ℕ) (f : Frontend) → val ≡ some (p, f) → f.port ≡ 0)
unfolding default_port
default_port-zero r none h = (h, λ p f e. absurd (ground (arith, e)))
default_port-zero r (some (q, g)) h = elim (ℕ_discrete (asked r) 0) [
  | yes e ↦ (e, λ p f k. ground (arith, e, h, k))
  | no n ↦ absurd (ground (arith, n, h))
]

get_element-zero :
    (pick v : ℕ) (pool : PoolInts) (e : PoolError)
    → v ≡ 0
    → (get_element pick v pool).0 ≡ err e
    → length pool.free ≡ 0
unfolding get_element
get_element-zero pick v pool e z h = elim (Bool-cases (length pool.free == 0)) [
  | inl k ↦ ground (arith, k)
  | inr k ↦ absurd (ground (arith, k, z, h))
]

allot-none :
    (got : Result PoolError ℕ) (r : Request)
    → allot got r ≡ none
    → (asked r ≡ 0) × (e : PoolError) × (got ≡ err e)
unfolding allot
allot-none (ok k) r h = absurd (ground (arith, h))
allot-none (err e) r h = (ground (arith, h), e, refl)

module _ (env : Env) (r : Request) (s : MuxTunnelService) where
  settled-Excused :
      (k : ℕ) (b : Bool) (o : Outcome)
      → Settles r (find_frontend r.user_id r.service_name s) (with_port r k b)
      → FailsAt env (with_port r k b) s o
      → Excused env r s o
  settled-Excused k b (joined q r') z h = tt
  settled-Excused k b (out_of_ports r') z h = absurd h
  settled-Excused k b start_failed z (inl e) = inl e
  settled-Excused k b start_failed z (inr e) = inr (with_port r k b, z, e)
  settled-Excused k b nil_map_write z h = h

  after_allot-Excused :
      (pool : PoolInts) (got : Result PoolError ℕ) (o : Option Request)
      → (get_element env.pick
          (asked (default_port (find_frontend r.user_id r.service_name s) r))
          s.frontend_port_pool).0
        ≡ got
      → allot got (default_port (find_frontend r.user_id r.service_name s) r) ≡ o
      → Excused env r s
          (after_allot env
            (find_frontend r.user_id r.service_name s)
            (default_port (find_frontend r.user_id r.service_name s) r)
            o
            (record s { frontend_port_pool = pool })).0
  unfolding after_allot
  after_allot-Excused pool got none g h =
      let val = find_frontend r.user_id r.service_name s in
      let (z, e, q) = allot-none got (default_port val r) h in
      let (a, f) = default_port-zero r val z in
      (
        a,
        get_element-zero env.pick (asked (default_port val r)) s.frontend_port_pool e z (g ∙ q),
        f,
      )
  after_allot-Excused pool got (some r') g h =
      let val = find_frontend r.user_id r.service_name s in
      let z = allot-Settles r val got r' h in
      let z' = subst (λ (x : Request). Settles r val x) z.renumbered z in
      rw z.renumbered (
        settled-Excused z.port z.auto _ z' (
          ensure_frontend-FailsAt env (with_port r z.port z.auto) val
            (record s { frontend_port_pool = pool })))

  pub register-Excused : Excused env r s (register env r s).0
  unfolding register
  register-Excused = after_allot-Excused _ _ _ refl refl
