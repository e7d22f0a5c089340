-- ===== src/Relay/Ends.antt =====
-- How the two copies of doProxy, pkg/muxtunnel.go, end.
use goreverselb.Base.{
  Bool-cases, List, Option, Option-cases, [], arith, inl, inr, length, ltb, none, refl, some, subst,
  suc, true, ℕ, ◌+◌, ◌-◌, ◌<◌, ◌∷◌, ◌≡◌, ◌≢◌, ◌⊎◌,
}
use goreverselb.Relay.{
  copybytes, in_turn, Conn, Copy, copying, dst_shut, src_shut, sent, Wait, received, returned,
  Relay, begin, Move, forward_moves, backward_moves, main_moves, move_forward, move_backward,
  receive, move_main, move, run,
}
use goreverselb.Relay.Orders.{
  shut_comm, left_to, left_of, IsAt, writes_of, reads_of, finish, sends, sends-le, got, left,
  Follows, move-Follows,
}

begin-IsAt : (f b : Conn) → IsAt f b (begin f b)
unfolding finish writes_of reads_of sends got
begin-IsAt f b = record { conn = refl; back = refl; count = refl }

module _ {f b : Conn} where
  run-IsAt :
      (ms : List Move) (y y' : Relay)
      → IsAt f b y
      → run ms y ≡ some y'
      → IsAt f b y' × (left y' + length ms ≡ left y)
  unfolding run
  run-IsAt [] y y' i h =
      let e : y ≡ y' = ground (arith, h) in
      (subst (λ (x : Relay). IsAt f b x) e i, ground (arith, e))
  run-IsAt (m ∷ ms) y y' i h = elim (Option-cases (move m y)) [
    | inl e ↦ absurd (ground (arith, e, h))
    | inr (y1, e) ↦
        let (i1, l1) = subst (λ (o : Option Relay). Follows f b y o) e (move-Follows y i m) in
        let (i2, l2) = run-IsAt ms y1 y' i1 (ground (arith, e, h)) in (i2, omega arith)
  ]

abbrev pub Can : Relay → Type 0
Can y = (m : Move) × (y' : Relay) × (move m y ≡ some y')

made : (m : Move) (y : Relay) → move m y ≢ none → Can y
made m y n = elim (Option-cases (move m y)) [ inl e ↦ absurd (n e) | inr (y', e) ↦ (m, y', e) ]

module _ {f b : Conn} (y : Relay) (i : IsAt f b y) where
  forward-Can : (p : Copy) → y.forward ≡ p → p ≢ sent → Can y
  unfolding move move_forward sends got
  forward-Can copying e n = made forward_moves y (λ h. ground (arith, e, h))
  forward-Can dst_shut e n = made forward_moves y (λ h. ground (arith, e, h))
  forward-Can src_shut e n =
      let few = sends-le y.backward in
      let l : ltb y.done 2 ≡ true = ground (arith, i.count, e, few) in
      made forward_moves y (λ h. ground (arith, e, l, h))
  forward-Can sent e n = absurd (n refl)

  backward-Can : (p : Copy) → y.backward ≡ p → p ≢ sent → Can y
  unfolding move move_backward sends got
  backward-Can copying e n = made backward_moves y (λ h. ground (arith, e, h))
  backward-Can dst_shut e n = made backward_moves y (λ h. ground (arith, e, h))
  backward-Can src_shut e n =
      let few = sends-le y.forward in
      let l : ltb y.done 2 ≡ true = ground (arith, i.count, e, few) in
      made backward_moves y (λ h. ground (arith, e, l, h))
  backward-Can sent e n = absurd (n refl)

  main-Can : (w : Wait) → y.wait ≡ w → w ≢ returned → y.forward ≡ sent → y.backward ≡ sent → Can y
  unfolding move move_main receive sends got
  main-Can (received n) w k e e' = elim (Bool-cases (ltb n 2)) [
    | inl l ↦
        let (d, q) : (d : ℕ) × (y.done ≡ suc d) =
          (y.done - 1, ground (arith, i.count, w, e, e', l)) in
        made main_moves y (λ h. ground (arith, w, l, q, h))
    | inr l ↦ made main_moves y (λ h. ground (arith, w, l, h))
  ]
  main-Can returned w k e e' = absurd (k refl)

  sent-or : (p : Copy) → (p ≡ sent) ⊎ (p ≢ sent)
  sent-or copying = inr (λ h. cc)
  sent-or dst_shut = inr (λ h. cc)
  sent-or src_shut = inr (λ h. cc)
  sent-or sent = inl refl

  returned-or : (w : Wait) → (w ≡ returned) ⊎ (w ≢ returned)
  returned-or (received n) = inr (λ h. cc)
  returned-or returned = inl refl

  -- Some goroutine can move until doProxy has returned.
  moves : (y.wait ≡ returned) ⊎ Can y
  moves = elim (returned-or y.wait) [
    | inl e ↦ inl e
    | inr k ↦ elim (sent-or y.forward) [
      | inr n ↦ inr (forward-Can y.forward refl n)
      | inl e ↦ elim (sent-or y.backward) [
        | inr n ↦ inr (backward-Can y.backward refl n)
        | inl e' ↦ inr (main-Can y.wait refl k e e')
      ]
    ]
  ]

  all_sent : y.wait ≡ returned → (y.forward ≡ sent) × (y.backward ≡ sent)
  unfolding sends got
  all_sent h = elim (sent-or y.forward) [
    | inl e ↦ elim (sent-or y.backward) [
      | inl e' ↦ (e, e')
      | inr n ↦ absurd (ground (arith, i.count, h, e, n, sends-le y.forward))
    ]
    | inr n ↦ absurd (ground (arith, i.count, h, n, sends-le y.backward))
  ]

  -- Then no move is left, and the connections are those of the copies one after the other.
  over : y.wait ≡ returned → (left y ≡ 0) × ((y.conn, y.back_conn) ≡ in_turn f b)
  unfolding left left_of left_to in_turn copybytes finish reads_of writes_of
  over h =
      let (e, e') = all_sent h in
      (ground (arith, h, e, e'), ground (arith, i.conn, i.back, h, e, e', shut_comm f))

  some_left : (w : Wait) → y.wait ≡ w → w ≢ returned → 0 < left y
  unfolding left left_to sends got
  some_left (received k) e n = ground (arith, i.count, e, sends-le y.forward, sends-le y.backward)
  some_left returned e n = absurd (n refl)

-- However the moves of the two copies and of doProxy alternate: either doProxy has returned, after
-- nine moves, and the two connections are as if one copy had followed the other, or fewer than
-- nine moves are made and one of the goroutines can move, so that none waits for ever.
pub run-in_turn :
    (conn back_conn : Conn) (ms : List Move) (y : Relay)
    → run ms (begin conn back_conn) ≡ some y
    → ((y.wait ≡ returned) × (length ms ≡ 9) × ((y.conn, y.back_conn) ≡ in_turn conn back_conn))
      ⊎ ((length ms < 9) × Can y)
unfolding left left_of left_to
run-in_turn conn back_conn ms y h =
    let (i, l) = run-IsAt ms (begin conn back_conn) y (begin-IsAt conn back_conn) h in
    elim (moves y i) [
      | inl e ↦ let (z, c) = over y i e in inl (e, omega arith, c)
      | inr can ↦ elim (returned-or y i y.wait) [
        | inl e ↦ let (z, c) = over y i e in inl (e, omega arith, c)
        | inr n ↦ let few = some_left y i y.wait refl n in inr (omega arith, can)
      ]
    ]
