-- ===== src/Relay/Orders.antt =====
-- The orders in which the goroutines of doProxy, pkg/muxtunnel.go, move.
use goreverselb.Base.{
  Bool-cases, Option, ap, arith, inl, inr, ltb, none, refl, some, suc, zero, ℕ, ◌+◌, ◌-◌, ◌<◌, ◌∙◌,
  ◌≡◌, ◌≤◌,
}
use goreverselb.Relay.{
  Conn, close, shut_write, shut_read, Copy, copying, dst_shut, src_shut, sent, Wait, received,
  returned, Relay, Move, forward_moves, backward_moves, main_moves, move_forward, move_backward,
  receive, move_main, move,
}

unfoldable pub writes_of : Copy → Conn → Conn
writes_of copying c = c
writes_of _ c = shut_write c

unfoldable pub reads_of : Copy → Conn → Conn
reads_of copying c = c
reads_of dst_shut c = c
reads_of _ c = shut_read c

unfoldable pub finish : Wait → Conn → Conn
finish (received n) c = c
finish returned c = close c

unfoldable pub sends : Copy → ℕ
sends sent = 1
sends _ = 0

unfoldable pub got : Wait → ℕ
got (received n) = n
got returned = 2

-- What the two connections and the channel are at each point of the three goroutines.
pub record IsAt (f b : Conn) (y : Relay) : Type 0 where
  pub conn : y.conn ≡ finish y.wait (reads_of y.forward (writes_of y.backward f))
  pub back : y.back_conn ≡ reads_of y.backward (writes_of y.forward b)
  pub count : y.done + got y.wait ≡ sends y.forward + sends y.backward

pub shut_comm : (c : Conn) → shut_write (shut_read c) ≡ shut_read (shut_write c)
unfolding shut_write shut_read
shut_comm c = elim (Bool-cases c.has_close_write) [
  | inl e ↦ elim (Bool-cases c.has_close_read) [
    | inl e' ↦ rw (e, e') refl
    | inr e' ↦ rw (e, e') refl
  ]
  | inr e ↦ elim (Bool-cases c.has_close_read) [
    | inl e' ↦ rw (e, e') refl
    | inr e' ↦ rw (e, e') refl
  ]
]

shut_write-reads_of : (p : Copy) (c : Conn) → shut_write (reads_of p c) ≡ reads_of p (shut_write c)
unfolding reads_of
shut_write-reads_of copying c = refl
shut_write-reads_of dst_shut c = refl
shut_write-reads_of src_shut c = shut_comm c
shut_write-reads_of sent c = shut_comm c

pub sends-le : (p : Copy) → sends p ≤ 1
unfolding sends
sends-le copying = omega arith
sends-le dst_shut = omega arith
sends-le src_shut = omega arith
sends-le sent = omega arith

open_yet : (w : Wait) (c : Conn) → got w < 2 → finish w c ≡ c
unfolding finish got
open_yet (received n) c h = refl
open_yet returned c h = absurd (omega arith)

-- The moves that are left.
unfoldable pub left_of : Copy → ℕ
left_of copying = 3
left_of dst_shut = 2
left_of src_shut = 1
left_of sent = 0

unfoldable pub left_to : Wait → ℕ
left_to (received n) = 3 - n
left_to returned = 0

unfoldable pub left : Relay → ℕ
left y = left_of y.forward + left_of y.backward + left_to y.wait

-- What a move that is made leads to.
abbrev pub Follows : (f b : Conn) → Relay → Option Relay → Type 0
Follows f b y none = Unit {0}
Follows f b y (some y') = IsAt f b y' × (suc (left y') ≡ left y)

module _ {f b : Conn} (y : Relay) (i : IsAt f b y) where
  forward-Follows : (p : Copy) → y.forward ≡ p → Follows f b y (move_forward p y)
  unfolding move_forward writes_of reads_of sends left left_of
  forward-Follows copying e = (
    record {
      conn = ground (arith, i.conn, e);
      back = ap shut_write i.back ∙ rw e (shut_write-reads_of y.backward b);
      count = ground (arith, i.count, e);
    },
    ground (arith, e),
  )
  forward-Follows dst_shut e = (
    record {
      conn =
          let x = writes_of y.backward f in
          let few = sends-le y.backward in
          let l : got y.wait < 2 = ground (arith, i.count, e, few) in
          ground (arith, i.conn, e, open_yet y.wait x l, open_yet y.wait (shut_read x) l);
      back = ground (arith, i.back, e);
      count = ground (arith, i.count, e);
    },
    ground (arith, e),
  )
  forward-Follows src_shut e = elim (Bool-cases (ltb y.done 2)) [
    | inl l ↦ rw l (
      record {
        conn = ground (arith, i.conn, e);
        back = ground (arith, i.back, e);
        count = ground (arith, i.count, e);
      },
      ground (arith, e),
    )
    | inr l ↦ rw l tt
  ]
  forward-Follows sent e = tt

  backward-Follows : (p : Copy) → y.backward ≡ p → Follows f b y (move_backward p y)
  unfolding move_backward writes_of reads_of sends left left_of
  backward-Follows copying e = (
    record {
      conn =
          let few = sends-le y.forward in
          let l : got y.wait < 2 = ground (arith, i.count, e, few) in
          ground (
            arith,
            i.conn,
            e,
            open_yet y.wait (reads_of y.forward f) l,
            open_yet y.wait (reads_of y.forward (shut_write f)) l,
            shut_write-reads_of y.forward f,
          );
      back = ground (arith, i.back, e);
      count = ground (arith, i.count, e);
    },
    ground (arith, e),
  )
  backward-Follows dst_shut e = (
    record {
      conn = ground (arith, i.conn, e);
      back = ground (arith, i.back, e);
      count = ground (arith, i.count, e);
    },
    ground (arith, e),
  )
  backward-Follows src_shut e = elim (Bool-cases (ltb y.done 2)) [
    | inl l ↦ rw l (
      record {
        conn = ground (arith, i.conn, e);
        back = ground (arith, i.back, e);
        count = ground (arith, i.count, e);
      },
      ground (arith, e),
    )
    | inr l ↦ rw l tt
  ]
  backward-Follows sent e = tt

  receive-Follows :
      (n d : ℕ) → y.done ≡ d → y.wait ≡ received n → n < 2 → Follows f b y (receive n d y)
  unfolding receive left left_to got finish
  receive-Follows n zero e w l = tt
  receive-Follows n (suc d) e w l = (
    record {
      conn = ground (arith, i.conn, w);
      back = i.back;
      count = ground (arith, i.count, e, w);
    },
    ground (arith, w),
  )

  main-Follows : (w : Wait) → y.wait ≡ w → Follows f b y (move_main w y)
  unfolding move_main left left_to got finish
  main-Follows (received n) w = elim (Bool-cases (ltb n 2)) [
    | inl l ↦ rw l (receive-Follows n y.done refl w (ground (arith, l)))
    | inr l ↦ rw l (
      let few = sends-le y.forward in
          let few' = sends-le y.backward in
          let n2 : n ≡ 2 = ground (arith, i.count, w, l) in
          record {
            conn = ground (arith, i.conn, w);
            back = i.back;
            count = ground (arith, i.count, w, n2);
          },
      ground (arith, w, l, i.count, sends-le y.forward, sends-le y.backward),
    )
  ]
  main-Follows returned w = tt

  pub move-Follows : (m : Move) → Follows f b y (move m y)
  unfolding move
  move-Follows forward_moves = forward-Follows y.forward refl
  move-Follows backward_moves = backward-Follows y.backward refl
  move-Follows main_moves = main-Follows y.wait refl
