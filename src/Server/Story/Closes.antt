-- ===== src/Server/Story/Closes.antt =====
-- A session that ends and an accept loop that ends, as handleStream and startFrontend of
-- pkg/muxtunnel.go show them to others.
use goreverselb.Base.{
  Bool-cases, Bytes, Option, Option-cases, ap, arith, bytes_key, false, get, get_elem?, inl, inr,
  length, nat_key, none, refl, some, sym, ℕ, ℕ_discrete, ◌∙◌, ◌≡◌, ◌≢◌, ◌⊎◌,
}
use goreverselb.Server.State.{
  MuxTunnelService, Frontend, find_frontend, find_pointer, modify, close_listener, shut,
}
use goreverselb.Pool.{return_element}
use goreverselb.Server.Stream.{
  Handler, close_stream, end_accept, stop, after_drop, drop_session, remove_frontend, has_backends,
}
use goreverselb.Server.System.{System, closes, accept_ends, step, after_close, remove_at}
use goreverselb.Server.Sound.{IsSound}
use goreverselb.Server.Sound.Heap.{get-modify_ne, get-modify_self}
use goreverselb.Server.Idle.{IsHeld, AllHeld}
use goreverselb.Server.Idle.Leaving.{AllHeld-get}
use goreverselb.Server.View.Starting.{pool-agrees}
use goreverselb.Server.View.{
  backend_at, session_at-agree, session_at-stored, session_at-missing, find_frontend-agree,
  find_frontend-missing, find_frontend-stored,
}
use goreverselb.Server.View.Leaving.{
  backend_at-none, backend_at-drop_backend_ne, remove_frontend-Isolated,
  find_pointer-remove_frontend,
}
use goreverselb.Server.View.Closing.{close_stream-Drops}
use goreverselb.Server.Story.{
  SameView, IsStale, Explains, nobody, leaves, aside, takes_along, stops,
}

-- A change of a frontend that no service leads to shows nowhere.
modify-hidden :
    (s : MuxTunnelService) (p : ℕ) (f : Frontend → Frontend) (u v : Bytes)
    → find_pointer u v s.frontend_map ≢ some p
    → find_frontend u v (record s { heap = modify p f s.heap }) ≡ find_frontend u v s
modify-hidden s p f u v n =
    find_frontend-agree u v (record s { heap = modify p f s.heap }) s refl
      (λ q g. get-modify_ne p f s.heap q (λ e. n (ground (arith, g, e))))

module _ (h : Handler) (s : MuxTunnelService) (i : IsSound s) (held : IsHeld s h) where
  open h use {request as r, pointer as p}

  module _ (stale : IsStale h s) where
    -- No service leads to the frontend of a stale handler.
    hidden : (u v : Bytes) → find_pointer u v s.frontend_map ≢ some p
    hidden u v e =
        let o = i.owned u v p e in
        stale held.frontend (
          find_frontend-stored r.user_id r.service_name p held.frontend s
            (ground (arith, e, o.user, o.service, o.stored, held.stored, held.user, held.service))
            held.stored)

    after_drop-hidden : (u v : Bytes) → find_frontend u v (after_drop h s) ≡ find_frontend u v s
    unfolding after_drop
    after_drop-hidden u v = modify-hidden s p (drop_session r) u v (hidden u v)

    close_listener-hidden :
        (u v : Bytes) → find_frontend u v (close_listener p (after_drop h s)) ≡ find_frontend u v s
    unfolding close_listener after_drop
    close_listener-hidden u v =
        modify-hidden (after_drop h s) p shut u v (hidden u v) ∙ after_drop-hidden u v

  current :
      (o : Option (ℕ × Frontend))
      → find_frontend r.user_id r.service_name s ≡ o
      → IsStale h s ⊎ ((f : Frontend) × (find_frontend r.user_id r.service_name s ≡ some (p, f)))
  current none e = inl (λ f g. absurd (ground (arith, e, g)))
  current (some (q, f)) e = elim (ℕ_discrete q p) [
    | yes k ↦ inr (f, ground (arith, e, k))
    | no n ↦ inl (λ f' g. n (ground (arith, e, g)))
  ]

module _ (n : ℕ) (h : Handler) (y : System) (i : IsSound y.service) (held : IsHeld y.service h)
    (at : get_elem? y.handlers n ≡ some h) where
  open h use {request as r, pointer as p}

  ended : System
  ended = record { service = close_stream h y.service; handlers = remove_at n y.handlers }

  dropped_empty :
      has_backends p (after_drop h y.service) ≡ false
      → length (drop_session r held.frontend).backend_conn_map ≡ 0
  unfolding after_drop
  dropped_empty e =
      let stored = get-modify_self p (drop_session r) y.service.heap held.frontend held.stored in
      ground (arith, e, stored)

  stale-Explains : IsStale h y.service → Explains y (closes n) ended
  unfolding ended close_stream
  stale-Explains stale =
      let shut_view = close_listener-hidden h y.service i held stale in
      elim (Bool-cases (has_backends p (after_drop h y.service))) [
        | inl e ↦ rw e (
            aside h at refl stale (λ u v j a.
              session_at-agree u v j a (after_drop h y.service) y.service
                (after_drop-hidden h y.service i held stale u v)))
        | inr e ↦
            let t = close_listener p (after_drop h y.service) in
            rw e (
              takes_along h at refl (record {
                stale = stale;
                frontend = held.frontend;
                stored = held.stored;
                emptied = λ j a d.
                    sym (
                      backend_at-drop_backend_ne r.instance_name r.session.remote_addr
                        held.frontend.backend_conn_map j a d)
                    ∙ backend_at-none r.instance_name r.session.remote_addr
                        held.frontend.backend_conn_map (dropped_empty e) j a;
                isolated = λ u v d.
                    remove_frontend-Isolated r.user_id r.service_name t u v d ∙ shut_view u v;
                gone = λ j a.
                    session_at-missing r.user_id r.service_name j a
                      (remove_frontend r.user_id r.service_name t)
                      (find_frontend-missing r.user_id r.service_name
                        (remove_frontend r.user_id r.service_name t)
                        (find_pointer-remove_frontend r.user_id r.service_name t));
              }))
      ]

  ended-Explains : Explains y (closes n) ended
  unfolding ended
  ended-Explains =
      elim (current h y.service i held (find_frontend r.user_id r.service_name y.service) refl) [
        | inl stale ↦ stale-Explains stale
        | inr (f, e) ↦ leaves h at refl (close_stream-Drops h y.service f i e)
      ]

pub closes-Explains :
    (n : ℕ) (y : System)
    → IsSound y.service
    → AllHeld y.service y.handlers
    → Explains y (closes n) (step (closes n) y)
unfolding step after_close ended
closes-Explains n y i held = elim (Option-cases (get_elem? y.handlers n)) [
  | inl e ↦ rw e (nobody e refl)
  | inr (h, e) ↦ rw e (ended-Explains n h y i (AllHeld-get y.service y.handlers n h e held) e)
]

-- A change of a frontend that leaves its sessions shows nowhere.
modify-SameView :
    (s : MuxTunnelService) (p : ℕ) (f : Frontend → Frontend)
    → IsSound s
    → ((x : Frontend) → (f x).backend_conn_map ≡ x.backend_conn_map)
    → SameView s (record s { heap = modify p f s.heap })
modify-SameView s p f i keeps u v j a =
    let t : MuxTunnelService = record s { heap = modify p f s.heap } in
    elim (Option-cases (find_pointer u v s.frontend_map)) [
      | inl e ↦
          session_at-missing u v j a t (find_frontend-missing u v t e)
          ∙ sym (session_at-missing u v j a s (find_frontend-missing u v s e))
      | inr (q, e) ↦
          let o = i.owned u v q e in
          let before = find_frontend-stored u v q o.frontend s e o.stored in
          elim (ℕ_discrete p q) [
            | no n ↦ session_at-agree u v j a t s (
                find_frontend-stored u v q o.frontend t e (get-modify_ne p f s.heap q n ∙ o.stored)
                ∙ sym before)
            | yes k ↦
                session_at-stored u v j a q (f o.frontend) t (
                  find_frontend-stored u v q (f o.frontend) t e (
                    ap (λ x. get x (modify p f s.heap)) (sym k)
                    ∙ get-modify_self p f s.heap o.frontend (ap (λ x. get x s.heap) k ∙ o.stored)))
                ∙ ap (backend_at j a) (keeps o.frontend)
                ∙ sym (session_at-stored u v j a q o.frontend s before)
          ]
    ]

end_accept-SameView : (p : ℕ) (s : MuxTunnelService) → IsSound s → SameView s (end_accept p s)
unfolding end_accept
end_accept-SameView p s i = elim (Option-cases (get p s.heap)) [
  | inl e ↦ rw e (λ u v j a. refl)
  | inr (f, e) ↦ rw e (elim (Bool-cases f.listener.accepting) [
    | inl b ↦ rw b (λ u v j a.
        session_at-agree u v j a
          (record s {
            heap = modify p stop s.heap;
            frontend_port_pool = return_element f.fed.port s.frontend_port_pool;
          })
          (record s { heap = modify p stop s.heap })
          (pool-agrees u v (return_element f.fed.port s.frontend_port_pool)
            (record s { heap = modify p stop s.heap }))
        ∙ modify-SameView s p stop i (λ x. refl) u v j a)
    | inr b ↦ rw b (λ u v j a. refl)
  ])
]

pub accept_ends-Explains :
    (p : ℕ) (y : System) → IsSound y.service → Explains y (accept_ends p) (step (accept_ends p) y)
unfolding step
accept_ends-Explains p y i = stops (end_accept-SameView p y.service i) refl
