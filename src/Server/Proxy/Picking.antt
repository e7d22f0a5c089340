-- ===== src/Server/Proxy/Picking.antt =====
-- The backend that doProxy picks, pkg/muxtunnel.go.
use goreverselb.Server.View.{session_at-stored, session_at, backend_at}
use goreverselb.Base.{
  Bytes, Distinct, Map, Option, [], arith, bytes_dec, bytes_key, get, get_elem?, get_elem?-some,
  length, nat_key, none, ok, refl, some, suc, zero, ℕ, ◌<◌, ◌∙◌, ◌∷◌, ◌≡◌,
}
use goreverselb.Server.State.{Session}
use goreverselb.Server.Proxy.{
  find_frontend, Frontend, pick_backend, pick_session, MuxTunnelService, pick_loop,
}

pick_loop-elem :
    (i : ℕ) (current : Option (Bytes × Session)) (m : Map Bytes Session)
    → i < length m
    → pick_loop i current m ≡ get_elem? m i
unfolding pick_loop
pick_loop-elem i current [] h = absurd (omega arith)
pick_loop-elem zero current (e ∷ m) h = refl
pick_loop-elem (suc i) current (e ∷ m) h = pick_loop-elem i (some e) m (omega arith)

get-elem :
    (i : ℕ) (m : Map Bytes Session) (id : Bytes) (session : Session)
    → Distinct m
    → get_elem? m i ≡ some (id, session)
    → get id m ≡ some session
unfolding get
get-elem i [] id session d h = absurd (cc)
get-elem zero ((k, v) ∷ m) id session d h = ground arith
get-elem (suc i) ((k, v) ∷ m) id session d h = ground (arith, d.0, get-elem i m id session d.1 h)

-- No session stands under the empty address.
abbrev pub NoEmpty : Map Bytes Session → Type 0
NoEmpty [] = Unit {0}
NoEmpty ((id, session) ∷ m) = (0 < length id) × NoEmpty m

NoEmpty-elem :
    (i : ℕ) (m : Map Bytes Session) (id : Bytes) (session : Session)
    → NoEmpty m
    → get_elem? m i ≡ some (id, session)
    → 0 < length id
NoEmpty-elem i [] id session n h = absurd (cc)
NoEmpty-elem zero ((k, v) ∷ m) id session n h = ground (arith, n.0)
NoEmpty-elem (suc i) ((k, v) ∷ m) id session n h = NoEmpty-elem i m id session n.1 h

pick_session-elem :
    (i : ℕ) (m : Map Bytes Session) (id : Bytes) (session : Session)
    → i < length m
    → 0 < length id
    → get_elem? m i ≡ some (id, session)
    → pick_session i m ≡ ok (id, session)
unfolding pick_session
pick_session-elem i m id session h n e = ground (arith, pick_loop-elem i none m h)

pick_backend-session :
    (i : ℕ) (u v instance_name : Bytes) (s : MuxTunnelService) (p : ℕ) (f : Frontend)
    (m : Map Bytes Session)
    → find_frontend u v s ≡ some (p, f)
    → get instance_name f.backend_conn_map ≡ some m
    → pick_backend i u v instance_name s ≡ pick_session i m
unfolding pick_backend
pick_backend-session i u v instance_name s p f m found e = rw (found, e, pick_backend)

-- With a random number below the number of an instance's sessions, which stand under distinct
-- addresses that are not empty, a session is picked, and it is one that is registered for that
-- user, service and instance under the id that is picked.
pub pick_backend-registered :
    (i : ℕ) (u v instance_name : Bytes) (s : MuxTunnelService) (p : ℕ) (f : Frontend)
    (m : Map Bytes Session)
    → find_frontend u v s ≡ some (p, f)
    → get instance_name f.backend_conn_map ≡ some m
    → Distinct m
    → NoEmpty m
    → i < length m
    → (id : Bytes) × (session : Session) × (pick_backend i u v instance_name s ≡ ok (id, session))
      × (session_at u v instance_name id s ≡ some session)
unfolding backend_at
pick_backend-registered i u v instance_name s p f m found e d n h =
    let ((id, session), g) = get_elem?-some m i h in
    (
      id,
      session,
      rw (pick_backend-session i u v instance_name s p f m found e)
          (pick_session-elem i m id session h (NoEmpty-elem i m id session n g) g),
      session_at-stored u v instance_name id p f s found ∙ rw e (get-elem i m id session d g),
    )

-- The place of a key.
place :
    (id : Bytes) (m : Map Bytes Session) (session : Session)
    → get id m ≡ some session
    → (i : ℕ) × (i < length m) × (get_elem? m i ≡ some (id, session))
unfolding get
place id [] session h = absurd (cc)
place id ((k, v) ∷ m) session h = elim (bytes_dec k id) [
  | yes e ↦ (0, omega arith, ground arith)
  | no n ↦ let (i, lt, g) = place id m session (ground arith) in (suc i, omega arith, g)
]

-- Every session of an instance that is registered under an address that is not empty can be picked:
-- some random number below the number of sessions picks it.
pub pick_backend-any :
    (u v instance_name id : Bytes) (session : Session) (s : MuxTunnelService) (p : ℕ) (f : Frontend)
    (m : Map Bytes Session)
    → find_frontend u v s ≡ some (p, f)
    → get instance_name f.backend_conn_map ≡ some m
    → get id m ≡ some session
    → 0 < length id
    → (i : ℕ) × (i < length m) × (pick_backend i u v instance_name s ≡ ok (id, session))
pick_backend-any u v instance_name id session s p f m found e g n =
    let (i, lt, at) = place id m session g in
    (
      i,
      lt,
      rw (pick_backend-session i u v instance_name s p f m found e)
          (pick_session-elem i m id session lt n at),
    )
