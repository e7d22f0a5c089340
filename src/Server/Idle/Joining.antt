-- ===== src/Server/Idle/Joining.antt =====
-- The locked section of handleStream, pkg/muxtunnel.go, keeps every session attended.
use goreverselb.Base.{
  Bytes, List, Map, arith, bytes_dec, bytes_key, get, get-put, get-put_self, inl, inr, length,
  length-pos_of_get, nat_key, put, refl, some, subst, sym, ℕ, ℕ_discrete, ◌<◌, ◌∙◌, ◌∷◌, ◌≡◌, ◌≢◌,
  ◌⊎◌,
}
use goreverselb.Server.State.{MuxTunnelService, Session, Frontend, modify, shut, close_listener}
use goreverselb.Server.Register.{Request, instance_sessions, add_session}
use goreverselb.Server.Stream.{Handler}
use goreverselb.Server.Sound.Heap.{get-modify_self, get-modify_ne}
use goreverselb.Server.View.{backend_at}
use goreverselb.Server.View.Joining.{backend_at-add_session, backend_at-add_session_ne}
use goreverselb.Server.Idle.{HasSession, IsFull, IsAttendedBut, IsAttended, Nowhere}
use goreverselb.Server.Idle.Kept.{Renames, modify-AllHeld, modify-IsAttendedBut}

pub shut-Renames : Renames shut
shut-Renames = record { user = λ x. refl; service = λ x. refl }

pub close_listener-IsAttended :
    {hs : List Handler} {s : MuxTunnelService} (p : ℕ)
    → IsAttended hs s
    → IsAttended hs (close_listener p s)
unfolding close_listener
close_listener-IsAttended p i =
    modify-IsAttendedBut i p shut shut-Renames (λ x. refl) (λ x h. absurd (cc))

add_session-IsFull :
    (r : Request) (f : Frontend)
    → IsFull f.backend_conn_map
    → IsFull (add_session r f).backend_conn_map
add_session-IsFull r f k j m h =
    let sessions =
      put r.session.remote_addr r.session (instance_sessions r.instance_name f.backend_conn_map) in
    elim (bytes_dec r.instance_name j) [
      | yes e ↦
          let q : sessions ≡ m =
            ground (arith, get-put r.instance_name j sessions f.backend_conn_map, h, e) in
          subst (λ (x : Map Bytes Session). 0 < length x) q
            (length-pos_of_get r.session.remote_addr sessions (
              get-put_self r.session.remote_addr r.session
                (instance_sessions r.instance_name f.backend_conn_map)))
      | no n ↦ k j m (ground (arith, get-put r.instance_name j sessions f.backend_conn_map, h, n))
    ]

-- The session that joins, or one that was there.
add_session-cases :
    (r : Request) (f : Frontend) (j c : Bytes) (x : Session)
    → backend_at j c (add_session r f).backend_conn_map ≡ some x
    → ((r.instance_name ≡ j) × (r.session.remote_addr ≡ c))
      ⊎ (backend_at j c f.backend_conn_map ≡ some x)
add_session-cases r f j c x h = elim (bytes_dec r.instance_name j) [
  | no n ↦ inr (sym (backend_at-add_session_ne r f j c (inl n)) ∙ h)
  | yes e ↦ elim (bytes_dec r.session.remote_addr c) [
    | no n ↦ inr (sym (backend_at-add_session_ne r f j c (inr n)) ∙ h)
    | yes g ↦ inl (e, g)
  ]
]

abbrev pub handler_of : ℕ → Request → Handler
handler_of p r = record { pointer = p; request = r }

pub add_session-Renames : (r : Request) → Renames (add_session r)
add_session-Renames r = record { user = λ x. refl; service = λ x. refl }

module _ {hs : List Handler} {s : MuxTunnelService} (p : ℕ) (r : Request) (f : Frontend)
    (i : IsAttendedBut (λ q. q ≡ p) hs s) (g : get p s.heap ≡ some f) where
  joins : MuxTunnelService
  joins = record s { heap = modify p (add_session r) s.heap }

  at_joined : get p (modify p (add_session r) s.heap) ≡ some (add_session r f)
  at_joined = get-modify_self p (add_session r) s.heap f g

  at_other :
      (q : ℕ) (y : Frontend)
      → p ≢ q
      → get q (modify p (add_session r) s.heap) ≡ some y
      → get q s.heap ≡ some y
  at_other q y n h = sym (get-modify_ne p (add_session r) s.heap q n) ∙ h

  has_joined : HasSession (add_session r f).backend_conn_map
  has_joined = record {
    instance_name = r.instance_name;
    addr = r.session.remote_addr;
    session = r.session;
    registered = backend_at-add_session r f;
  }

  same_frontend :
      (q : ℕ) (y : Frontend)
      → p ≡ q
      → get q (modify p (add_session r) s.heap) ≡ some y
      → add_session r f ≡ y
  same_frontend q y e h = ground (arith, at_joined, e, h)

  busy :
      (q : ℕ) (y : Frontend)
      → get q (modify p (add_session r) s.heap) ≡ some y
      → ((p ≢ q) → (q ≡ p) ⊎ HasSession y.backend_conn_map)
      → Nowhere q ⊎ HasSession y.backend_conn_map
  busy q y h k = elim (ℕ_discrete p q) [
    | yes e ↦
        inr (
          subst (λ (z : Frontend). HasSession z.backend_conn_map) (same_frontend q y e h)
            has_joined)
    | no n ↦ elim (k n) [ inl e ↦ absurd (n (sym e)) | inr b ↦ inr b ]
  ]

  pub joins-IsAttended :
      f.user_id ≡ r.user_id
      → f.service_name ≡ r.service_name
      → IsAttended (handler_of p r ∷ hs) (record s { heap = modify p (add_session r) s.heap })
  joins-IsAttended eu ev = record {
    mapped = i.mapped;
    held = (
      record { frontend = add_session r f; stored = at_joined; user = eu; service = ev },
      modify-AllHeld p (add_session r) (add_session-Renames r) s hs i.held,
    );
    full = λ q y h. elim (ℕ_discrete p q) [
      | yes e ↦
          subst (λ (z : Frontend). IsFull z.backend_conn_map) (same_frontend q y e h)
            (add_session-IsFull r f (i.full p f g))
      | no n ↦ i.full q y (at_other q y n h)
    ];
    attended = λ q y j c x h b. elim (ℕ_discrete p q) [
      | yes e ↦
          let b' : backend_at j c (add_session r f).backend_conn_map ≡ some x =
            subst (λ (z : Frontend). backend_at j c z.backend_conn_map ≡ some x)
              (sym (same_frontend q y e h)) b in
          elim (add_session-cases r f j c x b') [
            | inl (ej, ec) ↦ inl (record { pointer = e; instance_name = ej; addr = ec })
            | inr b'' ↦ inr (i.attended q f j c x (ground (arith, g, e)) b'')
          ]
      | no n ↦ inr (i.attended q y j c x (at_other q y n h) b)
    ];
    listening = λ q y h o. busy q y h (λ n. i.listening q y (at_other q y n h) o);
    found = λ u v q y e h. busy q y h (λ n. i.found u v q y e (at_other q y n h));
  }
