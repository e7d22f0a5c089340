-- ===== src/Server/View/Leaving.antt =====
-- What the end of a session does to the view: the second part of handleStream, pkg/muxtunnel.go.
use goreverselb.Base.{
  Bool-cases, Bytes, Map, Option-cases, arith, bytes_key, delete, false, get, get-delete,
  get-delete_self, get-length-zero, get-nil, get-put, get-put_self, inl, inr, length, nat_key, none,
  put, refl, some, true, ℕ, ◌==◌, ◌≡◌,
}
use goreverselb.Server.State.{Backends, MuxTunnelService, Session, find_pointer}
use goreverselb.Server.Register.{instance_sessions}
use goreverselb.Server.Stream.{drop_backend, remove_frontend}
use goreverselb.Server.View.{Elsewhere, backend_at, find_frontend-agree}
use goreverselb.Server.View.Joining.{Isolated}

module _ (i a : Bytes) (b : Backends) where
  abbrev pub left : Map Bytes Session
  left = delete a (instance_sessions i b)

  pub drop_backend_empty : (length left == 0) ≡ true → drop_backend i a b ≡ delete i b
  unfolding drop_backend
  drop_backend_empty h = rw h refl

  pub drop_backend_more : (length left == 0) ≡ false → drop_backend i a b ≡ put i left b
  unfolding drop_backend
  drop_backend_more h = rw h refl

  pub backend_at-drop_backend : backend_at i a (drop_backend i a b) ≡ none
  unfolding backend_at
  backend_at-drop_backend = elim (Bool-cases (length left == 0)) [
    | inl e ↦ rw (drop_backend_empty e) (rw (get-delete_self i b) refl)
    | inr e ↦
        rw (drop_backend_more e)
          (rw (get-put_self i left b) (get-delete_self a (instance_sessions i b)))
  ]

  pub backend_at-drop_backend_ne :
      (j c : Bytes) → Elsewhere i a j c → backend_at j c (drop_backend i a b) ≡ backend_at j c b
  unfolding backend_at
  backend_at-drop_backend_ne j c d = elim (Bool-cases (length left == 0)) [
    | inl e ↦ rw (drop_backend_empty e) (
        ground (
          arith,
          d,
          get-delete i j b,
          get-delete a c (instance_sessions i b),
          get-length-zero c left (ground arith),
        ))
    | inr e ↦ rw (drop_backend_more e) (
        ground (
          arith,
          d,
          get-put i j left b,
          get-delete a c (instance_sessions i b),
          get-nil {V = Session} c,
        ))
  ]

  -- Where nothing is left, there was only the session that goes.
  pub backend_at-none :
      length (drop_backend i a b) ≡ 0 → (j c : Bytes) → backend_at j c (drop_backend i a b) ≡ none
  unfolding backend_at
  backend_at-none h j c = rw (get-length-zero j (drop_backend i a b) h) refl

module _ (u v : Bytes) (s : MuxTunnelService) where
  pub remove_frontend-found :
      (m : Map Bytes ℕ)
      → get u s.frontend_map ≡ some m
      → remove_frontend u v s ≡ record s { frontend_map = put u (delete v m) s.frontend_map }
  unfolding remove_frontend
  remove_frontend-found m e = rw (e, remove_frontend)

  pub remove_frontend-nothing : get u s.frontend_map ≡ none → remove_frontend u v s ≡ s
  unfolding remove_frontend
  remove_frontend-nothing e = rw (e, remove_frontend)

  pub remove_frontend-heap : (remove_frontend u v s).heap ≡ s.heap
  remove_frontend-heap = elim (Option-cases (get u s.frontend_map)) [
    | inl e ↦ rw (remove_frontend-nothing e) refl
    | inr (m, e) ↦ rw (remove_frontend-found m e) refl
  ]

  pub find_pointer-remove_frontend : find_pointer u v (remove_frontend u v s).frontend_map ≡ none
  unfolding find_pointer
  find_pointer-remove_frontend = elim (Option-cases (get u s.frontend_map)) [
    | inl e ↦ rw (remove_frontend-nothing e) (rw e refl)
    | inr (m, e) ↦
        rw (remove_frontend-found m e)
          (rw (get-put_self u (delete v m) s.frontend_map) (get-delete_self v m))
  ]

  pub find_pointer-remove_frontend_ne :
      (u' v' : Bytes)
      → Elsewhere u v u' v'
      → find_pointer u' v' (remove_frontend u v s).frontend_map ≡ find_pointer u' v' s.frontend_map
  unfolding find_pointer
  find_pointer-remove_frontend_ne u' v' d = elim (Option-cases (get u s.frontend_map)) [
    | inl e ↦ rw (remove_frontend-nothing e) refl
    | inr (m, e) ↦
        rw (remove_frontend-found m e)
          (ground (arith, d, e, get-put u u' (delete v m) s.frontend_map, get-delete v v' m))
  ]

  pub remove_frontend-Isolated : Isolated u v s (remove_frontend u v s)
  remove_frontend-Isolated u' v' d =
      find_frontend-agree u' v' (remove_frontend u v s) s (find_pointer-remove_frontend_ne u' v' d)
        (λ q g. rw remove_frontend-heap refl)
