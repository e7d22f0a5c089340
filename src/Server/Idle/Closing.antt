-- ===== src/Server/Idle/Closing.antt =====
-- A frontend whose last session leaves is closed and removed, and the end of an accept loop:
-- handleStream and startFrontend of pkg/muxtunnel.go keep every session attended.
use goreverselb.Base.{
  Bool-cases, Bytes, List, Map, Option-cases, ap, arith, bytes_dec, bytes_key, delete, false, get,
  get-put, get_elem?, inl, inr, length, nat_key, not, refl, some, subst, sym, ℕ, ◌==◌, ◌∙◌, ◌≡◌,
  ◌≢◌,
}
use goreverselb.Server.State.{MuxTunnelService, Frontend, find_pointer, shut, close_listener}
use goreverselb.Server.Stream.{
  Handler, after_drop, close_stream, end_accept, stop, has_backends, remove_frontend,
}
use goreverselb.Server.System.{remove_at}
use goreverselb.Server.Sound.{IsSound}
use goreverselb.Server.Sound.Heap.{get-modify_self}
use goreverselb.Server.View.{Elsewhere}
use goreverselb.Server.View.Leaving.{
  remove_frontend-nothing, remove_frontend-found, find_pointer-remove_frontend,
  find_pointer-remove_frontend_ne,
}
use goreverselb.Server.Idle.{HasSession, IsAttendedBut, IsAttended}
use goreverselb.Server.Idle.Kept.{Renames, modify-IsAttendedBut, pool-IsAttendedBut, AllHeld-agree}
use goreverselb.Server.Idle.Joining.{shut-Renames}
use goreverselb.Server.Idle.Leaving.{
  full-HasSession, after_drop-IsAttendedBut, AllHeld-get, at_dropped, without,
}

module _ {hs : List Handler} (p : ℕ) (s : MuxTunnelService)
    (i : IsAttendedBut (λ q. q ≡ p) hs s) where
  -- The exception goes where the frontend has a session.
  busy-IsAttended :
      (f : Frontend) → get p s.heap ≡ some f → HasSession f.backend_conn_map → IsAttended hs s
  busy-IsAttended f g b = record {
    mapped = i.mapped;
    held = i.held;
    full = i.full;
    attended = i.attended;
    listening = λ q y e o. elim (i.listening q y e o) [
      | inl z ↦ inr (
          let w : f ≡ y = ground (arith, g, e, z) in
          subst (λ (x : Frontend). HasSession x.backend_conn_map) w b)
      | inr b' ↦ inr b'
    ];
    found = λ u v q y a e. elim (i.found u v q y a e) [
      | inl z ↦ inr (
          let w : f ≡ y = ground (arith, g, e, z) in
          subst (λ (x : Frontend). HasSession x.backend_conn_map) w b)
      | inr b' ↦ inr b'
    ];
  }

  module _ (u v : Bytes) where
    removed-mapped :
        (w : Bytes) (m : Map Bytes ℕ)
        → get w s.frontend_map ≡ some m
        → (m' : Map Bytes ℕ) × (get w (remove_frontend u v s).frontend_map ≡ some m')
    removed-mapped w m e = elim (Option-cases (get u s.frontend_map)) [
      | inl z ↦ (m, rw (remove_frontend-nothing u v s z) e)
      | inr (k, z) ↦ elim (bytes_dec u w) [
        | yes t ↦ (
          delete v k,
          rw (remove_frontend-found u v s k z)
              (ground (arith, get-put u w (delete v k) s.frontend_map, t)),
        )
        | no t ↦ (
          m,
          rw (remove_frontend-found u v s k z)
              (ground (arith, get-put u w (delete v k) s.frontend_map, t, e)),
        )
      ]
    ]

    removed-eq :
        record s { frontend_map = (remove_frontend u v s).frontend_map } ≡ remove_frontend u v s
    removed-eq = elim (Option-cases (get u s.frontend_map)) [
      | inl z ↦ rw (remove_frontend-nothing u v s z) refl
      | inr (k, z) ↦ rw (remove_frontend-found u v s k z) refl
    ]

    -- Or where its listener is closed and no other service has it.
    removed-IsAttended :
        (f : Frontend)
        → get p s.heap ≡ some f
        → f.listener.is_open ≡ false
        → ((u' v' : Bytes) → Elsewhere u v u' v' → find_pointer u' v' s.frontend_map ≢ some p)
        → IsAttended hs (remove_frontend u v s)
    removed-IsAttended f g closed lone =
        subst (λ (x : MuxTunnelService). IsAttended hs x) removed-eq
          (record {
            mapped = λ w user e. let (m, t) = i.mapped w user e in removed-mapped w m t;
            held =
                AllHeld-agree s (record s { frontend_map = (remove_frontend u v s).frontend_map })
                  hs (λ q y e. e) i.held;
            full = i.full;
            attended = i.attended;
            listening = λ q y e o. elim (i.listening q y e o) [
              | inl z ↦ absurd (ground (arith, g, e, z, o, closed))
              | inr b ↦ inr b
            ];
            found = λ u' v' q y a e.
                let away : Elsewhere u v u' v' = elim (bytes_dec u u') [
                  | no z ↦ inl z
                  | yes z ↦ elim (bytes_dec v v') [
                    | no z' ↦ inr z'
                    | yes z' ↦ absurd (ground (arith, find_pointer-remove_frontend u v s, a, z, z'))
                  ]
                ] in
                let before = sym (find_pointer-remove_frontend_ne u v s u' v' away) ∙ a in
                elim (i.found u' v' q y before e) [
                  | inl z ↦ absurd (lone u' v' away (before ∙ ap some z))
                  | inr b ↦ inr b
                ];
          })

has_backends-stored :
    (p : ℕ) (s : MuxTunnelService) (f : Frontend)
    → get p s.heap ≡ some f
    → has_backends p s ≡ not (length f.backend_conn_map == 0)
has_backends-stored p s f g = rw (g, has_backends)

pub close_stream-IsAttended :
    {hs : List Handler} {s : MuxTunnelService} (n : ℕ) (h : Handler)
    → get_elem? hs n ≡ some h
    → IsAttended hs s
    → IsSound s
    → IsAttended (remove_at n hs) (close_stream h s)
unfolding close_stream close_listener after_drop
close_stream-IsAttended {hs} {s} n h here i z =
    let held = AllHeld-get s hs n h here i.held in
    let f = held.frontend in
    let dropped = after_drop-IsAttendedBut n h f here i held.stored in
    let stored = at_dropped n h f here i held.stored in
    elim (Bool-cases (has_backends h.pointer (after_drop h s))) [
      | inl e ↦ rw e (
          busy-IsAttended h.pointer (after_drop h s) dropped (without n h f here i held.stored)
            stored
            (full-HasSession (without n h f here i held.stored).backend_conn_map
              (dropped.full h.pointer (without n h f here i held.stored) stored)
              (ground (
                arith,
                has_backends-stored h.pointer (after_drop h s) (without n h f here i held.stored)
                    stored,
                e,
              ))))
      | inr e ↦ rw e (
          removed-IsAttended h.pointer (close_listener h.pointer (after_drop h s))
            (modify-IsAttendedBut dropped h.pointer shut shut-Renames (λ x. refl)
              (λ x t. absurd (cc)))
            h.request.user_id h.request.service_name (shut (without n h f here i held.stored))
            (get-modify_self h.pointer shut (after_drop h s).heap (without n h f here i held.stored)
              stored)
            refl
            (λ u v away a.
              let own = z.owned u v h.pointer a in
              ground (
                arith, own.stored, own.user, own.service, held.stored, held.user, held.service,
                away,
              )))
    ]

pub stop-Renames : Renames stop
stop-Renames = record { user = λ x. refl; service = λ x. refl }

pub end_accept-IsAttended :
    {hs : List Handler} {s : MuxTunnelService} (p : ℕ)
    → IsAttended hs s
    → IsAttended hs (end_accept p s)
unfolding end_accept
end_accept-IsAttended {hs} {s} p i = elim (Option-cases (get p s.heap)) [
  | inl e ↦ rw e i
  | inr (f, e) ↦ rw e (elim (Bool-cases f.listener.accepting) [
    | inl a ↦
        rw a
          (pool-IsAttendedBut (modify-IsAttendedBut i p stop stop-Renames (λ x. refl) (λ x t. t)) _)
    | inr a ↦ rw a i
  ])
]
