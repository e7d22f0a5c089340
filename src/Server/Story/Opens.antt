-- ===== src/Server/Story/Opens.antt =====
-- A client that registers, as handleStream of pkg/muxtunnel.go shows it to others.
use goreverselb.Base.{
  Bool-cases, Bytes, Option, arith, bytes_dec, inl, inr, none, refl, some, ℕ, ◌∙◌,
}
use goreverselb.Types.{TunnelData}
use goreverselb.Server.State.{MuxTunnelService, Session}
use goreverselb.Server.Register.{
  Env, Request, Outcome, joined, out_of_ports, start_failed, nil_map_write, register,
}
use goreverselb.Server.Stream.{request_of, answer, open_stream}
use goreverselb.Server.System.{System, opens, step, after_open}
use goreverselb.Server.Admission.{IsAdmitted, authorize-IsAdmitted, refused-IsAdmitted}
use goreverselb.Server.Access.{authorize}
use goreverselb.Server.Sound.{IsSound}
use goreverselb.Server.View.{session_at-agree, session_at-stored}
use goreverselb.Server.View.Excuses.{Excused, register-Excused}
use goreverselb.Server.View.Joining.{Isolated, Reports, SameSessions}
use goreverselb.Server.View.Registering.{register_report}
use goreverselb.Server.Story.{
  SameView, Registers, Explains, turned_away, joins, lost, undecoded, without_token, excused,
}

-- Where nothing changes at a service and at others, nothing changes.
pub same_view :
    (u v : Bytes) (s t : MuxTunnelService) → Isolated u v s t → SameSessions u v s t → SameView s t
same_view u v s t isolated same u' v' i a = elim (bytes_dec u u') [
  | no n ↦ session_at-agree u' v' i a t s (isolated u' v' (inl n))
  | yes e ↦ elim (bytes_dec v v') [
    | no n ↦ session_at-agree u' v' i a t s (isolated u' v' (inr n))
    | yes e' ↦ ground (arith, same i a, e, e')
  ]
]

module _ (env : Env) (session : Session) (td : TunnelData) (y : System)
    (admitted : IsAdmitted td y.service) where
  abbrev r : Request
  r = request_of session td

  opened : Outcome × MuxTunnelService → System
  opened (o, s) = record { service = s; handlers = after_open (answer env o) y.handlers }

  joined-Registers :
      (p : ℕ) (r' : Request) (z : System)
      → Reports r y.service (joined p r', z.service)
      → Registers session td (record { pointer = p; request = r' }) y z
  joined-Registers p r' z (isolated, j, others, settled) = record {
    settled = settled;
    port = j.port;
    admitted = admitted;
    frontend = j.frontend;
    found = j.found;
    registered =
        session_at-stored r.user_id r.service_name r.instance_name session.remote_addr p j.frontend
          z.service j.found
        ∙ j.registered;
    isolated = isolated;
    others = others;
  }

  opened-Explains :
      (x : Outcome × MuxTunnelService)
      → Reports r y.service x
      → Excused env r y.service x.0
      → Explains y (opens env session (some td)) (opened x)
  unfolding opened after_open answer
  opened-Explains (joined p r', t) h x = elim (Bool-cases env.sends) [
    | inl e ↦
        joins (record { pointer = p; request = r' }) e (joined-Registers p r' _ h)
          (ground (arith, e))
    | inr e ↦
        lost (record { pointer = p; request = r' }) e (joined-Registers p r' _ h)
          (ground (arith, e))
  ]
  opened-Explains (out_of_ports r', t) (isolated, same) x =
      turned_away (excused (out_of_ports r') (λ p q e. cc) x)
        (same_view r.user_id r.service_name y.service t isolated same) refl
  opened-Explains (start_failed, t) (isolated, same) x =
      turned_away (excused start_failed (λ p q e. cc) x)
        (same_view r.user_id r.service_name y.service t isolated same) refl
  opened-Explains (nil_map_write, t) (isolated, same) x =
      turned_away (excused nil_map_write (λ p q e. cc) x)
        (same_view r.user_id r.service_name y.service t isolated same) refl

pub opens-Explains :
    (env : Env) (session : Session) (td : Option TunnelData) (y : System)
    → IsSound y.service
    → Explains y (opens env session td) (step (opens env session td) y)
unfolding step open_stream after_open opened
opens-Explains env session none y i = turned_away undecoded (λ u v j a. refl) refl
opens-Explains env session (some td) y i =
    let r = request_of session td in
    elim (Bool-cases (authorize r.user_id r.service_name td y.service)) [
      | inr e ↦
          rw e
            (turned_away (without_token (refused-IsAdmitted td y.service e)) (λ u v j a. refl) refl)
      | inl e ↦ rw e (
          opened-Explains env session td y (authorize-IsAdmitted td y.service e)
            (register env r y.service) (register_report env r y.service i)
            (register-Excused env r y.service))
    ]
