-- ===== src/Server/Tests/Choices.antt =====
-- The choice of a backend, the admission and the names, at concrete states.
use goreverselb.Base.{
  Bytes, Distinct, Map, [], arith, bytes_dec, bytes_key, get, length, nat_key, ok, refl, some, ℕ,
  ◌<◌, ◌∷◌, ◌≡◌, ◌⊎◌,
}
use goreverselb.Server.Access.{response}
use goreverselb.Server.Stream.{refused, not_authorized}
use goreverselb.Server.View.{session_at}
use goreverselb.Server.Proxy.{pick_backend}
use goreverselb.Server.Proxy.Picking.{pick_backend-registered, pick_backend-any}
use goreverselb.Server.Admission.{IsAdmitted, open_stream-IsAdmitted}
use goreverselb.Types.{default_user_id}
use goreverselb.Server.State.{Session}
use goreverselb.Server.Stream.{open_stream}
use goreverselb.Server.Tests.{
  works, alice, web, first, web_first, after, one_opened, joined_frontend, found,
}

abbrev sessions : Map Bytes Session
sessions = (alice.remote_addr, alice) ∷ []

at_first : get first joined_frontend.backend_conn_map ≡ some sessions
unfolding get bytes_dec
at_first = refl

alone : get alice.remote_addr sessions ≡ some alice
unfolding get bytes_dec
alone = refl

distinct : Distinct sessions
unfolding get
distinct = (refl, tt)

pick_backend-registered_example :
    (id : Bytes) × (session : Session) × (pick_backend 0 default_user_id web first
        (after one_opened)
      ≡ ok (id, session))
    × (session_at default_user_id web first id (after one_opened) ≡ some session)
pick_backend-registered_example =
    pick_backend-registered 0 default_user_id web first (after one_opened) 0 joined_frontend
      sessions found at_first distinct (omega arith, tt) (omega arith)

pick_backend-any_example :
    (i : ℕ) × (i < length sessions)
    × (pick_backend i default_user_id web first (after one_opened) ≡ ok (alice.remote_addr, alice))
pick_backend-any_example =
    pick_backend-any default_user_id web first alice.remote_addr alice (after one_opened) 0
      joined_frontend sessions found at_first alone (omega arith)

open_stream-IsAdmitted_example :
    IsAdmitted web_first (after [])
    ⊎ (open_stream works alice (some web_first) (after [])
        ≡ (refused (response web_first (not_authorized web_first)), after []))
open_stream-IsAdmitted_example = open_stream-IsAdmitted works alice web_first (after [])
