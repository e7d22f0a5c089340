-- ===== src/Server/View/Joining.antt =====
-- What the locked section of handleStream does to the view, pkg/muxtunnel.go.
use goreverselb.Base.{
  Bool, Bytes, Option, arith, bytes_dec, bytes_key, get, get-nil, get-put, get-put_ne, get-put_self,
  ite, nat_key, none, put, refl, some, suc, ℕ, ◌∙◌, ◌≡◌, ◌≢◌, ◌⊎◌,
}
use goreverselb.Server.State.{
  MuxTunnelService, Frontend, Session, find_pointer, find_frontend, modify,
}
use goreverselb.Server.Register.{
  with_port, instance_sessions, Request, Outcome, joined, out_of_ports, start_failed, nil_map_write,
  asked, add_session, add_backend, new_frontend, set_frontend,
}
use goreverselb.Server.Sound.{IsSound}
use goreverselb.Server.Sound.Heap.{get-modify_self, get-modify_ne}
use goreverselb.Server.Sound.Frontends.{set_frontend-some, find_pointer-put}
use goreverselb.Server.View.{
  Elsewhere, backend_at, session_at, pointers_apart, find_frontend-agree, find_frontend-stored,
  session_at-stored,
}

-- Nothing changes at other services.
abbrev pub Isolated : Bytes → Bytes → MuxTunnelService → MuxTunnelService → Type 0
Isolated u v s t =
    (u' v' : Bytes) → Elsewhere u v u' v' → find_frontend u' v' t ≡ find_frontend u' v' s

-- No session appears or goes at the service.
abbrev pub SameSessions : Bytes → Bytes → MuxTunnelService → MuxTunnelService → Type 0
SameSessions u v s t = (i a : Bytes) → session_at u v i a t ≡ session_at u v i a s

pub modify-Isolated :
    {s : MuxTunnelService} (i : IsSound s) (u v : Bytes) (p : ℕ) (f : Frontend → Frontend)
    → find_pointer u v s.frontend_map ≡ some p
    → Isolated u v s (record s { heap = modify p f s.heap })
modify-Isolated {s} i u v p f h u' v' d =
    find_frontend-agree u' v' (record s { heap = modify p f s.heap }) s refl
      (λ q g. get-modify_ne p f s.heap q (pointers_apart i u v u' v' p q h g d))

pub start-agrees :
    {s : MuxTunnelService} (i : IsSound s) (r : Request) (u v : Bytes)
    → find_frontend u v (record s { heap = put s.next (new_frontend r) s.heap; next = suc s.next })
      ≡ find_frontend u v s
start-agrees {s} i r u v =
    find_frontend-agree u v
      (record s { heap = put s.next (new_frontend r) s.heap; next = suc s.next }) s refl
      (λ q g.
        let o = i.owned u v q g in
        let below = i.fresh q o.frontend o.stored in
        get-put_ne s.next q (new_frontend r) s.heap (λ e. absurd (omega arith)))

module _ (u v : Bytes) (p : ℕ) (s s' : MuxTunnelService) (h : set_frontend u v p s ≡ some s') where
  pub set_frontend-heap : s'.heap ≡ s.heap
  set_frontend-heap = let (m, e, t) = set_frontend-some u v p s s' h in rw t refl

  find_pointer-set_frontend :
      (u' v' : Bytes)
      → find_pointer u' v' s'.frontend_map
        ≡ ite
            (bytes_dec u u')
            (ite (bytes_dec v v') (some p) (find_pointer u' v' s.frontend_map))
            (find_pointer u' v' s.frontend_map)
  find_pointer-set_frontend u' v' =
      let (m, e, t) = set_frontend-some u v p s s' h in rw t (find_pointer-put u v u' v' p m s e)

  pub set_frontend-points : find_pointer u v s'.frontend_map ≡ some p
  set_frontend-points = ground (arith, find_pointer-set_frontend u v)

  pub set_frontend-Isolated : Isolated u v s s'
  set_frontend-Isolated u' v' d =
      find_frontend-agree u' v' s' s (ground (arith, find_pointer-set_frontend u' v', d))
        (λ q g. rw set_frontend-heap refl)

pub backend_at-add_session :
    (r : Request) (f : Frontend)
    → backend_at r.instance_name r.session.remote_addr (add_session r f).backend_conn_map
      ≡ some r.session
unfolding backend_at
backend_at-add_session r f =
    rw
      (get-put_self r.instance_name
        (put r.session.remote_addr r.session (instance_sessions r.instance_name f.backend_conn_map))
        f.backend_conn_map)
      (get-put_self r.session.remote_addr r.session
        (instance_sessions r.instance_name f.backend_conn_map))

pub backend_at-add_session_ne :
    (r : Request) (f : Frontend) (i a : Bytes)
    → Elsewhere r.instance_name r.session.remote_addr i a
    → backend_at i a (add_session r f).backend_conn_map ≡ backend_at i a f.backend_conn_map
unfolding backend_at
backend_at-add_session_ne r f i a d = ground (
  arith,
  d,
  get-nil {V = Session} a,
  get-put r.instance_name i
      (put r.session.remote_addr r.session (instance_sessions r.instance_name f.backend_conn_map))
      f.backend_conn_map,
  get-put r.session.remote_addr a r.session (instance_sessions r.instance_name f.backend_conn_map),
)

-- A frontend that a request has joined.
pub record IsJoined (p : ℕ) (r : Request) (k : ℕ) (t : MuxTunnelService) : Type 0 where
  pub frontend : Frontend
  pub found : find_frontend r.user_id r.service_name t ≡ some (p, frontend)
  pub port : frontend.port ≡ k
  pub registered :
      backend_at r.instance_name r.session.remote_addr frontend.backend_conn_map ≡ some r.session

-- Where a service is found: the pointer of its frontend, and the port.
abbrev pub place_of : Option (ℕ × Frontend) → Option (ℕ × ℕ)
place_of none = none
place_of (some (p, f)) = some (p, f.port)

-- The sessions of a service but the one that joins at the frontend `p` with the port `k`: where that
-- frontend is the one that was found, with that port, all stay; where none was found or one with
-- another port, all are gone.
abbrev pub Others : ℕ → Request → ℕ → MuxTunnelService → MuxTunnelService → Type 0
Others p r k s t =
    ((place_of (find_frontend r.user_id r.service_name s) ≡ some (p, k))
      × ((i a : Bytes)
          → Elsewhere r.instance_name r.session.remote_addr i a
          → session_at r.user_id r.service_name i a t ≡ session_at r.user_id r.service_name i a s))
    ⊎ (((q : ℕ) → place_of (find_frontend r.user_id r.service_name s) ≢ some (q, k))
        × ((i a : Bytes)
            → Elsewhere r.instance_name r.session.remote_addr i a
            → session_at r.user_id r.service_name i a t ≡ none))

-- The request with the port that is settled: the one that it asks for, if it is not zero, and else
-- that of the frontend that is found.
pub record Settles (r : Request) (val : Option (ℕ × Frontend)) (r' : Request) : Type 0 where
  pub port : ℕ
  pub auto : Bool
  pub renumbered : r' ≡ with_port r port auto
  pub explicit : asked r ≢ 0 → asked r' ≡ asked r
  pub automatic :
      (p : ℕ) (f : Frontend) → asked r ≡ 0 → val ≡ some (p, f) → f.port ≢ 0 → asked r' ≡ f.port

-- What is shown of a registration whose port is settled.
abbrev pub Shows : Request → MuxTunnelService → Outcome × MuxTunnelService → Type 0
Shows r s (joined p r', t) =
    Isolated r.user_id r.service_name s t
    × IsJoined p r (asked r') t
    × Others p r (asked r') s t
    × (r' ≡ r)
Shows r s (out_of_ports r', t) =
    Isolated r.user_id r.service_name s t × SameSessions r.user_id r.service_name s t
Shows r s (start_failed, t) =
    Isolated r.user_id r.service_name s t × SameSessions r.user_id r.service_name s t
Shows r s (nil_map_write, t) =
    Isolated r.user_id r.service_name s t × SameSessions r.user_id r.service_name s t

abbrev pub Reports : Request → MuxTunnelService → Outcome × MuxTunnelService → Type 0
Reports r s (joined p r', t) =
    Isolated r.user_id r.service_name s t
    × IsJoined p r (asked r') t
    × Others p r (asked r') s t
    × Settles r (find_frontend r.user_id r.service_name s) r'
Reports r s (out_of_ports r', t) =
    Isolated r.user_id r.service_name s t × SameSessions r.user_id r.service_name s t
Reports r s (start_failed, t) =
    Isolated r.user_id r.service_name s t × SameSessions r.user_id r.service_name s t
Reports r s (nil_map_write, t) =
    Isolated r.user_id r.service_name s t × SameSessions r.user_id r.service_name s t

module _ {s : MuxTunnelService} (i : IsSound s) (p : ℕ) (r : Request) where
  pub add_backend-IsJoined :
      (f : Frontend)
      → find_pointer r.user_id r.service_name s.frontend_map ≡ some p
      → get p s.heap ≡ some f
      → f.port ≡ asked r
      → IsJoined p r (asked r) (add_backend p r s).1
  unfolding add_backend
  add_backend-IsJoined f h g e = record {
    frontend = add_session r f;
    found =
        find_frontend-stored r.user_id r.service_name p (add_session r f)
          (record s { heap = modify p (add_session r) s.heap }) h
          (get-modify_self p (add_session r) s.heap f g);
    port = e;
    registered = backend_at-add_session r f;
  }

  pub add_backend-session_at :
      (f : Frontend) (j a : Bytes)
      → find_pointer r.user_id r.service_name s.frontend_map ≡ some p
      → get p s.heap ≡ some f
      → Elsewhere r.instance_name r.session.remote_addr j a
      → session_at r.user_id r.service_name j a (add_backend p r s).1
        ≡ backend_at j a f.backend_conn_map
  unfolding add_backend
  add_backend-session_at f j a h g d =
      session_at-stored r.user_id r.service_name j a p (add_session r f)
        (record s { heap = modify p (add_session r) s.heap })
        (find_frontend-stored r.user_id r.service_name p (add_session r f)
          (record s { heap = modify p (add_session r) s.heap }) h
          (get-modify_self p (add_session r) s.heap f g))
      ∙ backend_at-add_session_ne r f j a d

  pub add_backend-Isolated :
      find_pointer r.user_id r.service_name s.frontend_map ≡ some p
      → Isolated r.user_id r.service_name s (add_backend p r s).1
  unfolding add_backend
  add_backend-Isolated h = modify-Isolated i r.user_id r.service_name p (add_session r) h
