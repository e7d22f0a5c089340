-- ===== src/Server/Idle/Leaving.antt =====
-- The end of a session, in handleStream of pkg/muxtunnel.go, keeps the other sessions attended.
use goreverselb.Base.{
  Bool-cases, Bytes, List, Map, [], arith, bytes_dec, bytes_key, get, get-delete, get-put,
  get_elem?, inl, inr, length, nat_key, refl, some, subst, suc, sym, zero, ℕ, ℕ_discrete, ◌<◌, ◌==◌,
  ◌∙◌, ◌∷◌, ◌≡◌, ◌≢◌, ◌⊎◌,
}
use goreverselb.Server.State.{Backends, MuxTunnelService, Session, Frontend}
use goreverselb.Server.Register.{Request}
use goreverselb.Server.Stream.{Handler, drop_backend, drop_session, after_drop}
use goreverselb.Server.System.{remove_at}
use goreverselb.Server.Sound.Heap.{get-modify_self, get-modify_ne}
use goreverselb.Server.View.{backend_at, Elsewhere}
use goreverselb.Server.View.Leaving.{
  left, drop_backend_empty, drop_backend_more, backend_at-drop_backend, backend_at-drop_backend_ne,
}
use goreverselb.Server.Idle.{
  HasSession, IsFull, AllHeld, IsHeld, Attends, WaitsFor, IsAttendedBut, IsAttended,
}
use goreverselb.Server.Idle.Kept.{Renames, modify-AllHeld}

drop_backend-IsFull : (i a : Bytes) (b : Backends) → IsFull b → IsFull (drop_backend i a b)
drop_backend-IsFull i a b k j m = elim (Bool-cases (length (left i a b) == 0)) [
  | inl e ↦ rw (drop_backend_empty i a b e) (λ h. k j m (ground (arith, get-delete i j b, h)))
  | inr e ↦ rw (drop_backend_more i a b e) (λ h. elim (bytes_dec i j) [
    | yes q ↦
        let same : left i a b ≡ m = ground (arith, get-put i j (left i a b) b, h, q) in
        subst (λ (x : Map Bytes Session). 0 < length x) same (ground (arith, e))
    | no n ↦ k j m (ground (arith, get-put i j (left i a b) b, h, n))
  ])
]

get-head : {V : Type 0} (k : Bytes) (v : V) (m : Map Bytes V) → get k ((k, v) ∷ m) ≡ some v
unfolding get
get-head k v m = ground arith

-- A map of sessions that is not empty, and has no empty map in it, has a session.
pub full-HasSession : (b : Backends) → IsFull b → 0 < length b → HasSession b
unfolding backend_at
full-HasSession [] k h = absurd (omega arith)
full-HasSession ((i, []) ∷ b) k h = absurd (let z = k i [] (get-head i [] b) in omega arith)
full-HasSession ((i, (a, x) ∷ m) ∷ b) k h = record {
  instance_name = i;
  addr = a;
  session = x;
  registered = rw (get-head i ((a, x) ∷ m) b) (get-head a x m);
}

-- Who waits for a session still waits, or it is the handler that goes.
Attends-remove_at :
    (hs : List Handler) (n p : ℕ) (i a : Bytes) (h : Handler)
    → get_elem? hs n ≡ some h
    → Attends hs p i a
    → Attends (remove_at n hs) p i a ⊎ WaitsFor p i a h
Attends-remove_at [] n p i a h e w = absurd w
Attends-remove_at (x ∷ hs) zero p i a h e (inl w) =
    inr (subst (λ (y : Handler). WaitsFor p i a y) (ground (arith, e)) w)
Attends-remove_at (x ∷ hs) zero p i a h e (inr w) = inl w
Attends-remove_at (x ∷ hs) (suc n) p i a h e (inl w) = inl (inl w)
Attends-remove_at (x ∷ hs) (suc n) p i a h e (inr w) = elim (Attends-remove_at hs n p i a h e w) [
  | inl w' ↦ inl (inr w')
  | inr w' ↦ inr w'
]

pub AllHeld-remove_at :
    (s : MuxTunnelService) (hs : List Handler) (n : ℕ) → AllHeld s hs → AllHeld s (remove_at n hs)
AllHeld-remove_at s [] n a = a
AllHeld-remove_at s (h ∷ hs) zero (held, rest) = rest
AllHeld-remove_at s (h ∷ hs) (suc n) (held, rest) = (held, AllHeld-remove_at s hs n rest)

pub AllHeld-get :
    (s : MuxTunnelService) (hs : List Handler) (n : ℕ) (h : Handler)
    → get_elem? hs n ≡ some h
    → AllHeld s hs
    → IsHeld s h
AllHeld-get s [] n h e a = absurd (ground (arith, e))
AllHeld-get s (x ∷ hs) zero h e (held, rest) =
    subst (λ (y : Handler). IsHeld s y) (ground (arith, e)) held
AllHeld-get s (x ∷ hs) (suc n) h e (held, rest) = AllHeld-get s hs n h e rest

pub drop_session-Renames : (r : Request) → Renames (drop_session r)
drop_session-Renames r = record { user = λ x. refl; service = λ x. refl }

module _ {hs : List Handler} {s : MuxTunnelService} (n : ℕ) (h : Handler) (f : Frontend)
    (here : get_elem? hs n ≡ some h) (i : IsAttended hs s) (g : get h.pointer s.heap ≡ some f) where
  abbrev pub without : Frontend
  without = drop_session h.request f

  pub at_dropped : get h.pointer (after_drop h s).heap ≡ some without
  unfolding after_drop
  at_dropped = get-modify_self h.pointer (drop_session h.request) s.heap f g

  pub after_drop-cases :
      (q : ℕ) (y : Frontend)
      → get q (after_drop h s).heap ≡ some y
      → ((q ≡ h.pointer) × (without ≡ y)) ⊎ ((h.pointer ≢ q) × (get q s.heap ≡ some y))
  unfolding after_drop
  after_drop-cases q y e = elim (ℕ_discrete h.pointer q) [
    | yes z ↦ inl (sym z, ground (arith, at_dropped, e, z))
    | no z ↦ inr (z, sym (get-modify_ne h.pointer (drop_session h.request) s.heap q z) ∙ e)
  ]

  left_attended :
      (j c : Bytes) (x : Session)
      → backend_at j c without.backend_conn_map ≡ some x
      → Attends (remove_at n hs) h.pointer j c
  left_attended j c x b =
      let k = h.request.instance_name in
      let a = h.request.session.remote_addr in
      let away : Elsewhere k a j c = elim (bytes_dec k j) [
        | no z ↦ inl z
        | yes z ↦ elim (bytes_dec a c) [
          | no z' ↦ inr z'
          | yes z' ↦
              absurd (ground (arith, backend_at-drop_backend k a f.backend_conn_map, b, z, z'))
        ]
      ] in
      let before =
        i.attended h.pointer f j c x g
          (sym (backend_at-drop_backend_ne k a f.backend_conn_map j c away) ∙ b) in
      elim (Attends-remove_at hs n h.pointer j c h here before) [
        | inl w ↦ w
        | inr w ↦ absurd (elim away [ inl z ↦ z w.instance_name | inr z ↦ z w.addr ])
      ]

  other_attended :
      (q : ℕ) (y : Frontend) (j c : Bytes) (x : Session)
      → h.pointer ≢ q
      → get q s.heap ≡ some y
      → backend_at j c y.backend_conn_map ≡ some x
      → Attends (remove_at n hs) q j c
  other_attended q y j c x z e b =
      elim (Attends-remove_at hs n q j c h here (i.attended q y j c x e b)) [
        | inl w ↦ w
        | inr w ↦ absurd (z w.pointer)
      ]

  -- All but the frontend of the session that leaves.
  pub after_drop-IsAttendedBut :
      IsAttendedBut (λ q. q ≡ h.pointer) (remove_at n hs) (after_drop h s)
  unfolding after_drop
  after_drop-IsAttendedBut = record {
    mapped = i.mapped;
    held = AllHeld-remove_at (after_drop h s) hs n (
        modify-AllHeld h.pointer (drop_session h.request) (drop_session-Renames h.request) s hs
          i.held);
    full = λ q y e. elim (after_drop-cases q y e) [
      | inl (z, w) ↦
          subst (λ (x : Frontend). IsFull x.backend_conn_map) w
            (drop_backend-IsFull h.request.instance_name h.request.session.remote_addr
              f.backend_conn_map (i.full h.pointer f g))
      | inr (z, e') ↦ i.full q y e'
    ];
    attended = λ q y j c x e b. elim (after_drop-cases q y e) [
      | inl (z, w) ↦
          subst (λ (t : ℕ). Attends (remove_at n hs) t j c) (sym z)
            (left_attended j c x
              (subst (λ (t : Frontend). backend_at j c t.backend_conn_map ≡ some x) (sym w) b))
      | inr (z, e') ↦ other_attended q y j c x z e' b
    ];
    listening = λ q y e o. elim (after_drop-cases q y e) [
      | inl (z, w) ↦ inl z
      | inr (z, e') ↦ elim (i.listening q y e' o) [ inl t ↦ absurd t | inr b ↦ inr b ]
    ];
    found = λ u v q y a e. elim (after_drop-cases q y e) [
      | inl (z, w) ↦ inl z
      | inr (z, e') ↦ elim (i.found u v q y a e') [ inl t ↦ absurd t | inr b ↦ inr b ]
    ];
  }
