-- ===== src/Server/Tests/Moves.antt =====
-- A service that is asked to move to a port where nothing listens then.
use goreverselb.Base.{arith, codes, false, refl, some, true, ◌≡◌}
use goreverselb.Types.{default_user_id}
use goreverselb.Server.State.{Frontend, find_frontend}
use goreverselb.Server.Access.{parse_service_context, split}
use goreverselb.Server.Register.{Env, Request, start_failed, joined, register, asked}
use goreverselb.Server.Stream.{request_of}
use goreverselb.Server.Deaf.{register-closed_listener}
use goreverselb.Server.Tests.{
  works, bob, tunnel, web, web_first, after, one_opened, joined_frontend, found,
}

abbrev no_listener : Env
no_listener = record { pick = 0; listens = false; sends = true }

abbrev elsewhere : Request
elsewhere = request_of bob (tunnel (codes "web:first") 4001)

abbrev anywhere : Request
anywhere = request_of bob web_first

names : (elsewhere.user_id ≡ default_user_id) × (elsewhere.service_name ≡ web)
unfolding parse_service_context split
names = (refl, refl)

found_there :
    find_frontend elsewhere.user_id elsewhere.service_name (after one_opened)
    ≡ some (0, joined_frontend)
found_there = rw (names.0, names.1) found

same_user : anywhere.user_id ≡ elsewhere.user_id
unfolding parse_service_context split
same_user = refl

same_service : anywhere.service_name ≡ elsewhere.service_name
unfolding parse_service_context split
same_service = refl

register-closed_listener_example :
    ((register no_listener elsewhere (after one_opened)).0 ≡ start_failed)
    × (r : Request) × (g : Frontend) × ((register works anywhere
          (register no_listener elsewhere (after one_opened)).1).0
        ≡ joined 0 r)
    × (asked r ≡ 4002)
    × (find_frontend elsewhere.user_id elsewhere.service_name
          (register works anywhere (register no_listener elsewhere (after one_opened)).1).1
        ≡ some (0, g))
    × (g.listener.is_open ≡ false)
register-closed_listener_example =
    register-closed_listener no_listener works elsewhere anywhere (after one_opened) 0
      joined_frontend found_there (omega arith) (omega arith) (omega arith) refl same_user
      same_service refl
