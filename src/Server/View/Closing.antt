-- ===== src/Server/View/Closing.antt =====
-- The end of a session, seen by a handler whose frontend is still that of its service, and by one
-- whose frontend has been replaced in the meantime: the second part of handleStream,
-- pkg/muxtunnel.go.
use goreverselb.Server.Sound.Steps.{drop_session-Keeps}
use goreverselb.Base.{
  Bool-cases, Bytes, arith, bytes_key, false, get, inl, inr, length, nat_key, none, not, refl, some,
  sym, ℕ, ◌==◌, ◌∙◌, ◌≡◌, ◌≢◌,
}
use goreverselb.Server.State.{
  shut, close_listener, MuxTunnelService, Frontend, find_frontend, modify,
}
use goreverselb.Server.Register.{Request}
use goreverselb.Server.Stream.{
  remove_frontend, close_stream, Handler, drop_session, drop_backend, after_drop, has_backends,
}
use goreverselb.Server.Sound.{IsSound}
use goreverselb.Server.Sound.Heap.{get-modify_ne, modify-IsSound, get-modify_self}
use goreverselb.Server.View.{
  find_frontend-missing, session_at-missing, Elsewhere, backend_at, session_at,
  find_frontend-stored, session_at-stored,
}
use goreverselb.Server.View.Joining.{Isolated, modify-Isolated}
use goreverselb.Server.View.Registering.{find_frontend-inv}
use goreverselb.Server.View.Leaving.{
  backend_at-none, remove_frontend-heap, remove_frontend-Isolated, find_pointer-remove_frontend,
  backend_at-drop_backend, backend_at-drop_backend_ne,
}

-- The one session is gone, and no other at any service.
abbrev pub Drops : Request → MuxTunnelService → MuxTunnelService → Type 0
Drops r s t =
    Isolated r.user_id r.service_name s t
    × (session_at r.user_id r.service_name r.instance_name r.session.remote_addr t ≡ none)
    × ((i a : Bytes)
        → Elsewhere r.instance_name r.session.remote_addr i a
        → session_at r.user_id r.service_name i a t ≡ session_at r.user_id r.service_name i a s)

has_backends-stored :
    (p : ℕ) (s : MuxTunnelService) (x : Frontend)
    → get p s.heap ≡ some x
    → has_backends p s ≡ not (length x.backend_conn_map == 0)
has_backends-stored p s x h = rw (h, has_backends)

module _ {s : MuxTunnelService} (i : IsSound s) (h : Handler) (f : Frontend) where
  open h use {request as r, pointer as p}
  open r use {user_id as u, service_name as v}

  module _ (found : find_frontend u v s ≡ some (p, f)) where
    dropped-found : find_frontend u v (after_drop h s) ≡ some (p, drop_session r f)
    unfolding after_drop
    dropped-found =
        let (points, stored) = find_frontend-inv u v s p f found in
        find_frontend-stored u v p (drop_session r f)
          (record s { heap = modify p (drop_session r) s.heap }) points
          (get-modify_self p (drop_session r) s.heap f stored)

    dropped-session_at :
        (j a : Bytes)
        → session_at u v j a (after_drop h s)
          ≡ backend_at j a (drop_backend r.instance_name r.session.remote_addr f.backend_conn_map)
    dropped-session_at j a =
        session_at-stored u v j a p (drop_session r f) (after_drop h s) dropped-found

    dropped-Drops : Drops r s (after_drop h s)
    unfolding after_drop
    dropped-Drops = (
      modify-Isolated i u v p (drop_session r) (find_frontend-inv u v s p f found).0,
      dropped-session_at r.instance_name r.session.remote_addr
          ∙ backend_at-drop_backend r.instance_name r.session.remote_addr f.backend_conn_map,
      λ j a d.
          dropped-session_at j a
          ∙ backend_at-drop_backend_ne r.instance_name r.session.remote_addr f.backend_conn_map j a
              d
          ∙ sym (session_at-stored u v j a p f s found),
    )

    has_backends-dropped :
        has_backends p (after_drop h s) ≡ not (length (drop_session r f).backend_conn_map == 0)
    has_backends-dropped =
        has_backends-stored p (after_drop h s) (drop_session r f)
          (find_frontend-inv u v (after_drop h s) p (drop_session r f) dropped-found).1

    shut-Isolated : Isolated u v (after_drop h s) (close_listener p (after_drop h s))
    unfolding after_drop close_listener
    shut-Isolated =
        modify-Isolated (modify-IsSound i p (drop_session r) (drop_session-Keeps r)) u v p shut
          (find_frontend-inv u v s p f found).0

    close_stream-Drops_at : Drops r s (close_stream h s)
    unfolding close_stream
    close_stream-Drops_at = elim (Bool-cases (has_backends p (after_drop h s))) [
      | inl e ↦ rw e dropped-Drops
      | inr e ↦
          let t = close_listener p (after_drop h s) in
          let gone : (j a : Bytes) → session_at u v j a (remove_frontend u v t) ≡ none = λ j a.
            session_at-missing u v j a (remove_frontend u v t) (
              find_frontend-missing u v (remove_frontend u v t)
                (find_pointer-remove_frontend u v t)) in
          let (isolated, own, others) = dropped-Drops in
          rw e (
            λ u' v' d.
                remove_frontend-Isolated u v t u' v' d ∙ shut-Isolated u' v' d ∙ isolated u' v' d,
            gone r.instance_name r.session.remote_addr,
            λ j a d.
                gone j a
                ∙ sym (
                    sym (others j a d)
                    ∙ dropped-session_at j a
                    ∙ backend_at-none r.instance_name r.session.remote_addr f.backend_conn_map
                        (ground (arith, has_backends-dropped, e)) j a),
          )
    ]

-- When a session ends whose handler holds the frontend that its service still leads to, exactly
-- that session goes: it is not found any more, and every other session of the service and every
-- frontend of another service is found as before.
pub close_stream-Drops :
    (h : Handler) (s : MuxTunnelService) (f : Frontend)
    → IsSound s
    → find_frontend h.request.user_id h.request.service_name s ≡ some (h.pointer, f)
    → Drops h.request s (close_stream h s)
close_stream-Drops h s f i found = close_stream-Drops_at i h f found

module _ (h : Handler) (s : MuxTunnelService) (f g : Frontend) (q : ℕ) where
  open h use {request as r, pointer as p}

  module _ (old : get p s.heap ≡ some f) (empty : length (drop_session r f).backend_conn_map ≡ 0)
      (apart : p ≢ q) (new : find_frontend r.user_id r.service_name s ≡ some (q, g)) where
    stale_state : MuxTunnelService
    stale_state = close_listener p (after_drop h s)

    stale_none : has_backends p (after_drop h s) ≡ false
    unfolding after_drop
    stale_none =
        has_backends-stored p (record s { heap = modify p (drop_session r) s.heap })
          (drop_session r f) (get-modify_self p (drop_session r) s.heap f old)
        ∙ ground (arith, empty)

    stale_heap : get q stale_state.heap ≡ some g
    unfolding stale_state after_drop close_listener
    stale_heap =
        get-modify_ne p shut (modify p (drop_session r) s.heap) q apart
        ∙ get-modify_ne p (drop_session r) s.heap q apart
        ∙ (find_frontend-inv r.user_id r.service_name s q g new).1

    stale_close : close_stream h s ≡ remove_frontend r.user_id r.service_name stale_state
    unfolding close_stream stale_state
    stale_close = rw stale_none refl

-- When the last session of a frontend ends after its service has moved to another frontend, the
-- handler takes that other frontend out of the map: its service is not found any more, while the
-- frontend itself is left as it was, its listener and its sessions with it.
pub close_stream-stale :
    (h : Handler) (s : MuxTunnelService) (f g : Frontend) (q : ℕ)
    → get h.pointer s.heap ≡ some f
    → length (drop_session h.request f).backend_conn_map ≡ 0
    → h.pointer ≢ q
    → find_frontend h.request.user_id h.request.service_name s ≡ some (q, g)
    → (find_frontend h.request.user_id h.request.service_name (close_stream h s) ≡ none)
      × (get q (close_stream h s).heap ≡ some g)
close_stream-stale h s f g q old empty apart new =
    let t = stale_state h s f g q old empty apart new in
    let u = h.request.user_id in
    let v = h.request.service_name in
    rw (stale_close h s f g q old empty apart new) (
      find_frontend-missing u v (remove_frontend u v t) (find_pointer-remove_frontend u v t),
      rw (remove_frontend-heap u v t) (stale_heap h s f g q old empty apart new),
    )
