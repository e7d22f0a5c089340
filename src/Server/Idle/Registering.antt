-- ===== src/Server/Idle/Registering.antt =====
-- register and open_stream, handleStream of pkg/muxtunnel.go, keep every session attended.
use goreverselb.Types.{UserData}
use goreverselb.Server.Sound.Steps.{close_listener-IsSound}
use goreverselb.Pool.{return_element}
use goreverselb.Server.View.Registering.{find_frontend-inv}
use goreverselb.Server.View.Joining.{set_frontend-heap}
use goreverselb.Base.{
  Bool-cases, Bytes, List, Map, Option, [], arith, bytes_dec, bytes_key, get, get-nil, get-put,
  get-put_ne, get-put_self, inl, inr, nat_key, none, not, put, refl, some, subst, suc, sym, ℕ,
  ℕ_discrete, ◌&&◌, ◌==◌, ◌∙◌, ◌∷◌, ◌≡◌, ◌≢◌, ◌⊎◌,
}
use goreverselb.Server.State.{
  find_frontend, close_listener, port_in_use, MuxTunnelService, Session, Frontend,
}
use goreverselb.Server.Register.{
  asked, start_frontend, add_backend, ensure_frontend, after_start, after_set, Env, Request,
  Outcome, out_of_ports, start_failed, nil_map_write, joined, new_frontend, set_frontend,
}
use goreverselb.Server.Stream.{Handler}
use goreverselb.Server.Sound.{IsSound}
use goreverselb.Server.Sound.Frontends.{set_frontend-some, find_pointer-put}
use goreverselb.Server.View.{backend_at}
use goreverselb.Server.Idle.{IsFull, IsAttendedBut, IsAttended}
use goreverselb.Server.Idle.Kept.{pool-IsAttendedBut, AllHeld-agree}
use goreverselb.Server.Idle.Joining.{close_listener-IsAttended, joins-IsAttended, handler_of}

-- After the outcome, with the handler of a request that joins; no write to a nil map occurs.
abbrev pub Attended : List Handler → Outcome × MuxTunnelService → Type 0
Attended hs (joined p r, s) = IsAttended (handler_of p r ∷ hs) s
Attended hs (nil_map_write, s) = ⊥
Attended hs (out_of_ports r, s) = IsAttended hs s
Attended hs (start_failed, s) = IsAttended hs s

backend_at-nil : (i a : Bytes) → backend_at i a [] ≡ none
unfolding backend_at get
backend_at-nil i a = refl

weaken :
    {hs : List Handler} {s : MuxTunnelService} (p : ℕ)
    → IsAttended hs s
    → IsAttendedBut (λ q. q ≡ p) hs s
weaken p i = record {
  mapped = i.mapped;
  held = i.held;
  full = i.full;
  attended = i.attended;
  listening = λ q f h o. elim (i.listening q f h o) [ inl e ↦ absurd e | inr b ↦ inr b ];
  found = λ u v q f h g. elim (i.found u v q f h g) [ inl e ↦ absurd e | inr b ↦ inr b ];
}

module _ {hs : List Handler} (u v : Bytes) (p : ℕ) (s s' : MuxTunnelService)
    (i : IsAttendedBut (λ q. q ≡ p) hs s) (h : set_frontend u v p s ≡ some s') where
  set_frontend-IsAttendedBut : IsAttendedBut (λ q. q ≡ p) hs s'
  set_frontend-IsAttendedBut =
      let (m, e, t) = set_frontend-some u v p s s' h in
      let fm = put u (put v p m) s.frontend_map in
      subst (λ (x : MuxTunnelService). IsAttendedBut (λ q. q ≡ p) hs x) (sym t)
        (record {
          mapped = λ w user g. elim (bytes_dec u w) [
            | yes q ↦ (put v p m, ground (arith, get-put u w (put v p m) s.frontend_map, q))
            | no n ↦
                let (k, a) = i.mapped w user g in
                (k, ground (arith, get-put u w (put v p m) s.frontend_map, n, a))
          ];
          held = AllHeld-agree s (record s { frontend_map = fm }) hs (λ q f g. g) i.held;
          full = i.full;
          attended = i.attended;
          listening = i.listening;
          found = λ u' v' q f a g. elim (ℕ_discrete q p) [
            | yes z ↦ inl z
            | no n ↦ i.found u' v' q f (ground (arith, find_pointer-put u v u' v' p m s e, a, n)) g
          ];
        })

module _ {hs : List Handler} {s : MuxTunnelService} (i : IsAttended hs s) (z : IsSound s)
    (r : Request) where
  abbrev started : MuxTunnelService
  started = record s { heap = put s.next (new_frontend r) s.heap; next = suc s.next }

  at_old :
      (p : ℕ) (f : Frontend)
      → get p s.heap ≡ some f
      → get p (put s.next (new_frontend r) s.heap) ≡ some f
  at_old p f h =
      let below = z.fresh p f h in
      get-put_ne s.next p (new_frontend r) s.heap (λ e. absurd (omega arith)) ∙ h

  at_new :
      (p : ℕ) (f : Frontend)
      → get p (put s.next (new_frontend r) s.heap) ≡ some f
      → ((p ≡ s.next) × (new_frontend r ≡ f)) ⊎ (get p s.heap ≡ some f)
  at_new p f h = elim (ℕ_discrete s.next p) [
    | yes e ↦ inl (sym e, ground (arith, get-put s.next p (new_frontend r) s.heap, h, e))
    | no n ↦ inr (sym (get-put_ne s.next p (new_frontend r) s.heap n) ∙ h)
  ]

  started-IsAttendedBut : IsAttendedBut (λ q. q ≡ s.next) hs started
  started-IsAttendedBut =
      let w = weaken s.next i in
      record {
        mapped = i.mapped;
        held = AllHeld-agree s started hs at_old i.held;
        full = λ p f h. elim (at_new p f h) [
          | inl (e, q) ↦
              subst (λ (x : Frontend). IsFull x.backend_conn_map) q
                (λ j m g. absurd (ground (arith, get-nil {V = Map Bytes Session} j, g)))
          | inr g ↦ i.full p f g
        ];
        attended = λ p f j c x h b. elim (at_new p f h) [
          | inl (e, q) ↦ absurd (ground (arith, backend_at-nil j c, q, b))
          | inr g ↦ i.attended p f j c x g b
        ];
        listening =
            λ p f h o. elim (at_new p f h) [ inl (e, q) ↦ inl e | inr g ↦ w.listening p f g o ];
        found =
            λ u v p f a h. elim (at_new p f h) [ inl (e, q) ↦ inl e | inr g ↦ w.found u v p f a g ];
      }

set_frontend-none :
    (u v : Bytes) (p : ℕ) (s : MuxTunnelService) (m : Map Bytes ℕ)
    → get u s.frontend_map ≡ some m
    → set_frontend u v p s ≢ none
unfolding set_frontend
set_frontend-none u v p s m e h = ground arith

module _ {hs : List Handler} (p : ℕ) (r : Request) (s : MuxTunnelService) (f : Frontend)
    (i : IsAttendedBut (λ q. q ≡ p) hs s) (g : get p s.heap ≡ some f) (eu : f.user_id ≡ r.user_id)
    (ev : f.service_name ≡ r.service_name) (user : UserData)
    (known : get r.user_id s.config_data.users ≡ some user) where
  after_set-Attended :
      (o : Option MuxTunnelService)
      → set_frontend r.user_id r.service_name p s ≡ o
      → Attended hs (after_set p r s o)
  unfolding after_set add_backend
  after_set-Attended none h =
      let (m, e) = i.mapped r.user_id user known in
      set_frontend-none r.user_id r.service_name p s m e h
  after_set-Attended (some s') h =
      joins-IsAttended p r f (set_frontend-IsAttendedBut r.user_id r.service_name p s s' i h)
        (rw (set_frontend-heap r.user_id r.service_name p s s' h) g) eu ev

module _ {hs : List Handler} (env : Env) (user : UserData) where
  after_start-Attended :
      (r : Request) (s : MuxTunnelService)
      → IsAttended hs s
      → IsSound s
      → get r.user_id s.config_data.users ≡ some user
      → Attended hs (after_start r s (start_frontend env r s))
  unfolding after_start start_frontend
  after_start-Attended r s i z known =
      elim (Bool-cases (env.listens && not (port_in_use (asked r) s.heap))) [
        | inl e ↦ rw e (
            after_set-Attended s.next r (started i z r) (new_frontend r)
              (started-IsAttendedBut i z r) (get-put_self s.next (new_frontend r) s.heap) refl refl
              user known _ refl)
        | inr e ↦ rw e (pool-IsAttendedBut i (return_element (asked r) s.frontend_port_pool))
      ]

  pub ensure_frontend-Attended :
      (val : Option (ℕ × Frontend)) (r : Request) (s : MuxTunnelService)
      → IsAttended hs s
      → IsSound s
      → get r.user_id s.config_data.users ≡ some user
      → find_frontend r.user_id r.service_name s ≡ val
      → Attended hs (ensure_frontend env val r s)
  unfolding ensure_frontend add_backend close_listener
  ensure_frontend-Attended none r s i z known h = after_start-Attended r s i z known
  ensure_frontend-Attended (some (p, val)) r s i z known h =
      elim (Bool-cases (val.port == asked r)) [
        | inl e ↦ rw e (
            let (points, stored) = find_frontend-inv r.user_id r.service_name s p val h in
            let own = z.owned r.user_id r.service_name p points in
            joins-IsAttended p r val (weaken p i) stored
              (ground (arith, own.stored, own.user, stored))
              (ground (arith, own.stored, own.service, stored)))
        | inr e ↦ rw e (
            after_start-Attended r (close_listener p s) (close_listener-IsAttended p i)
              (close_listener-IsSound p z) known)
      ]
