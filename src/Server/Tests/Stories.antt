-- ===== src/Server/Tests/Stories.antt =====
-- Two clients of one service, the second of which moves its listener, and one whose response is
-- lost; then the first session ends, and the second.
use goreverselb.Base.{List, [], codes, some, ◌∷◌}
use goreverselb.Server.System.{Event, opens, closes, accept_ends}
use goreverselb.Server.Story.{Story}
use goreverselb.Server.Tests.{works, silent, alice, bob, web_first, tunnel}

abbrev moves_and_ends : List Event
moves_and_ends =
    opens works alice (some web_first)
    ∷ opens works bob (some (tunnel (codes "web:first") 4000))
    ∷ opens silent alice (some (tunnel (codes "mail") 0))
    ∷ accept_ends 0
    ∷ closes 1
    ∷ closes 0
    ∷ []
