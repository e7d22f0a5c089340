-- ===== src/Server/Story.antt =====
-- The tunnel service of pkg/muxtunnel.go as its clients see it: what each event may do to the map
-- from a user, a service, an instance and a remote address to a session.
use goreverselb.Base.{
  Bytes, List, Option, [], bytes_key, false, get, get_elem?, nat_key, none, some, true, ℕ, ◌∷◌, ◌≡◌,
  ◌≢◌,
}
use goreverselb.Types.{TunnelData}
use goreverselb.Server.State.{MuxTunnelService, Frontend, Session, find_frontend}
use goreverselb.Server.Register.{Env, asked, Request, Outcome, joined}
use goreverselb.Server.View.Excuses.{Excused}
use goreverselb.Server.Stream.{Handler, request_of}
use goreverselb.Server.System.{System, Event, opens, closes, accept_ends, step, remove_at}
use goreverselb.Server.Admission.{IsAdmitted}
use goreverselb.Server.View.{Elsewhere, backend_at, session_at}
use goreverselb.Server.View.Joining.{Isolated, Others, Settles}
use goreverselb.Server.View.Closing.{Drops}
pub mod Held
pub mod Opens
pub mod Closes
pub mod Run

-- No session appears or goes.
abbrev pub SameView : MuxTunnelService → MuxTunnelService → Type 0
SameView s t = (u v i a : Bytes) → session_at u v i a t ≡ session_at u v i a s

-- The service of the handler leads to another frontend than the handler's, or to none.
abbrev pub IsStale : Handler → MuxTunnelService → Type 0
IsStale h s =
    (f : Frontend) → find_frontend h.request.user_id h.request.service_name s ≢ some (h.pointer, f)

-- The session of an admitted client is registered at the frontend that its service leads to, with
-- the port that is settled for its request. Other services stay as they are; the other sessions of
-- the service stay where the frontend was there with that port, and are gone where it was not.
pub record Registers (session : Session) (td : TunnelData) (h : Handler) (y z : System)
    : Type 0 where
  pub admitted : IsAdmitted td y.service
  pub settled :
      Settles
        (request_of session td)
        (find_frontend
          (request_of session td).user_id
          (request_of session td).service_name
          y.service)
        h.request
  pub frontend : Frontend
  pub found :
      find_frontend (request_of session td).user_id (request_of session td).service_name z.service
      ≡ some (h.pointer, frontend)
  pub port : frontend.port ≡ asked h.request
  pub registered :
      session_at
        (request_of session td).user_id
        (request_of session td).service_name
        (request_of session td).instance_name
        session.remote_addr
        z.service
      ≡ some session
  pub isolated :
      Isolated
        (request_of session td).user_id
        (request_of session td).service_name
        y.service
        z.service
  pub others : Others h.pointer (request_of session td) (asked h.request) y.service z.service

-- The handler's frontend had no other session, and the service is taken out of the map with another
-- frontend, if it had one.
pub record TakesAlong (h : Handler) (y z : System) : Type 0 where
  pub stale : IsStale h y.service
  pub frontend : Frontend
  pub stored : get h.pointer y.service.heap ≡ some frontend
  pub emptied :
      (i a : Bytes)
      → Elsewhere h.request.instance_name h.request.session.remote_addr i a
      → backend_at i a frontend.backend_conn_map ≡ none
  pub isolated : Isolated h.request.user_id h.request.service_name y.service z.service
  pub gone :
      (i a : Bytes) → session_at h.request.user_id h.request.service_name i a z.service ≡ none

-- Why a client is turned away: its tunnel data is not read, it has not the token, or its request
-- does not join.
pub data TurnedAway (env : Env) (session : Session) (s : MuxTunnelService)
    : Option TunnelData → Type 0 where
  undecoded : TurnedAway env session s none
  without_token : {td : TunnelData} → ¬ IsAdmitted td s → TurnedAway env session s (some td)
  excused :
      {td : TunnelData} (o : Outcome)
      → ((p : ℕ) (r : Request) → o ≢ joined p r)
      → Excused env (request_of session td) s o
      → TurnedAway env session s (some td)

-- What an event may do.
pub data Explains (y : System) : Event → System → Type 0 where
  turned_away :
      {env : Env} {session : Session} {td : Option TunnelData} {z : System}
      → TurnedAway env session y.service td
      → SameView y.service z.service
      → z.handlers ≡ y.handlers
      → Explains y (opens env session td) z
  joins :
      {env : Env} {session : Session} {td : TunnelData} {z : System} (h : Handler)
      → env.sends ≡ true
      → Registers session td h y z
      → z.handlers ≡ h ∷ y.handlers
      → Explains y (opens env session (some td)) z
  -- The response is not written and the handler does not wait for the session.
  lost :
      {env : Env} {session : Session} {td : TunnelData} {z : System} (h : Handler)
      → env.sends ≡ false
      → Registers session td h y z
      → z.handlers ≡ y.handlers
      → Explains y (opens env session (some td)) z
  nobody : {i : ℕ} {z : System} → get_elem? y.handlers i ≡ none → z ≡ y → Explains y (closes i) z
  leaves :
      {i : ℕ} {z : System} (h : Handler)
      → get_elem? y.handlers i ≡ some h
      → z.handlers ≡ remove_at i y.handlers
      → Drops h.request y.service z.service
      → Explains y (closes i) z
  aside :
      {i : ℕ} {z : System} (h : Handler)
      → get_elem? y.handlers i ≡ some h
      → z.handlers ≡ remove_at i y.handlers
      → IsStale h y.service
      → SameView y.service z.service
      → Explains y (closes i) z
  takes_along :
      {i : ℕ} {z : System} (h : Handler)
      → get_elem? y.handlers i ≡ some h
      → z.handlers ≡ remove_at i y.handlers
      → TakesAlong h y z
      → Explains y (closes i) z
  stops :
      {p : ℕ} {z : System}
      → SameView y.service z.service
      → z.handlers ≡ y.handlers
      → Explains y (accept_ends p) z

-- Every event of a run is explained.
abbrev pub Story : System → List Event → Type 0
Story y [] = Unit {0}
Story y (e ∷ es) = Explains y e (step e y) × Story (step e y) es
