-- ===== src/Server/Admission.antt =====
-- Who may register a backend, and what a lost response leaves behind: authorize and handleStream
-- of pkg/muxtunnel.go.
use goreverselb.Base.{
  Bool-cases, Bytes, Option-cases, arith, bytes_key, false, get, inl, inr, nat_key, none, refl,
  some, true, ℕ, ◌≡◌, ◌⊎◌,
}
use goreverselb.Types.{TunnelData, UserData, ServiceData}
use goreverselb.Server.State.{MuxTunnelService, Session}
use goreverselb.Server.Access.{parse_service_context, authorize, authorize_user, response}
use goreverselb.Server.Register.{Env, Request, joined, register}
use goreverselb.Server.Stream.{open_stream, request_of, refused, not_authorized, response_lost}
use goreverselb.Server.Sound.{IsSound}
use goreverselb.Server.View.{session_at}
use goreverselb.Server.View.Registering.{Reports-registered, register_report}

-- The token is that of the service where the user's configuration has the service, and otherwise
-- that of the user.
pub data HasToken (u : UserData) (service_name token : Bytes) : Type 0 where
  of_service :
      (s : ServiceData)
      → get service_name u.services ≡ some s
      → token ≡ s.token
      → HasToken u service_name token
  of_user : get service_name u.services ≡ none → token ≡ u.token → HasToken u service_name token

pub record IsAdmitted (td : TunnelData) (s : MuxTunnelService) : Type 0 where
  pub user : UserData
  pub known : get (parse_service_context td).user_id s.config_data.users ≡ some user
  pub token : HasToken user (parse_service_context td).service_name td.token

authorize_user-HasToken :
    (u : UserData) (service_name : Bytes) (td : TunnelData)
    → authorize_user (some u) service_name td ≡ true
    → HasToken u service_name td.token
unfolding authorize_user
authorize_user-HasToken u service_name td h = elim (Option-cases (get service_name u.services)) [
  | inl e ↦ of_user e (ground arith)
  | inr (s, e) ↦ of_service s e (ground arith)
]

pub authorize-IsAdmitted :
    (td : TunnelData) (s : MuxTunnelService)
    → authorize (parse_service_context td).user_id (parse_service_context td).service_name td s
      ≡ true
    → IsAdmitted td s
unfolding authorize
authorize-IsAdmitted td s h =
    elim (Option-cases (get (parse_service_context td).user_id s.config_data.users)) [
      | inl e ↦ absurd (ground arith)
      | inr (u, e) ↦ record {
        user = u;
        known = e;
        token = authorize_user-HasToken u (parse_service_context td).service_name td (ground arith);
      }
    ]

authorize_user-true :
    (u : UserData) (service_name : Bytes) (td : TunnelData)
    → HasToken u service_name td.token
    → authorize_user (some u) service_name td ≡ true
unfolding authorize_user
authorize_user-true u service_name td (of_service s e t) = ground (arith, e, t)
authorize_user-true u service_name td (of_user e t) = ground (arith, e, t)

pub refused-IsAdmitted :
    (td : TunnelData) (s : MuxTunnelService)
    → authorize (parse_service_context td).user_id (parse_service_context td).service_name td s
      ≡ false
    → ¬ IsAdmitted td s
unfolding authorize
refused-IsAdmitted td s h a =
    let t = authorize_user-true a.user (parse_service_context td).service_name td a.token in
    ground (arith, a.known, t, h)

-- A request that a client sends has the token that the configuration asks for, or it is answered by
-- a refusal and changes nothing.
pub open_stream-IsAdmitted :
    (env : Env) (session : Session) (td : TunnelData) (s : MuxTunnelService)
    → IsAdmitted td s
      ⊎ (open_stream env session (some td) s ≡ (refused (response td (not_authorized td)), s))
unfolding open_stream
open_stream-IsAdmitted env session td s =
    elim (Bool-cases
      (authorize (parse_service_context td).user_id (parse_service_context td).service_name td s)) [
        | inl e ↦ inl (authorize-IsAdmitted td s e)
        | inr e ↦ inr (rw e refl)
      ]

-- In a sound state, where an authorized request joins and the response cannot be sent, the handler
-- ends and its session is found as registered.
pub open_stream-lost :
    (env : Env) (session : Session) (td : TunnelData) (s : MuxTunnelService) (p : ℕ) (r : Request)
    → IsSound s
    → authorize (parse_service_context td).user_id (parse_service_context td).service_name td s
      ≡ true
    → env.sends ≡ false
    → (register env (request_of session td) s).0 ≡ joined p r
    → ((open_stream env session (some td) s).0 ≡ response_lost)
      × (session_at
            (parse_service_context td).user_id
            (parse_service_context td).service_name
            (parse_service_context td).instance_name
            session.remote_addr
            (open_stream env session (some td) s).1
          ≡ some session)
unfolding open_stream
open_stream-lost env session td s p r i a l j =
    let reports = register_report env (request_of session td) s i in
    rw a (
      rw j (rw l refl),
      Reports-registered (request_of session td) s (register env (request_of session td) s) p r j
          reports,
    )
