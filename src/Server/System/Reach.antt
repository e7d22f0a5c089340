-- ===== src/Server/System/Reach.antt =====
-- What holds of the tunnel service after any events.
use goreverselb.Base.{
  Bytes, List, Map, Option, Option-cases, [], arith, bytes_key, get, get-nil, get-put, get_elem?,
  inl, inr, nat_key, none, put, some, ℕ, ◌>>=◌, ◌∷◌, ◌≡◌, ◌≢◌,
}
use goreverselb.Types.{ConfigData, UserData}
use goreverselb.Server.State.{Frontend, new_mux_tunnel_service, user_maps, find_pointer}
use goreverselb.Server.Stream.{Handler}
use goreverselb.Server.System.{
  System, Event, opens, closes, accept_ends, step, run, start, after_close,
}
use goreverselb.Server.Sound.{IsSound}
use goreverselb.Server.Sound.Steps.{open_stream-IsSound, close_stream-IsSound, end_accept-IsSound}

after_close-IsSound :
    (o : Option Handler) (i : ℕ) (y : System)
    → IsSound y.service
    → IsSound (after_close o i y).service
unfolding after_close
after_close-IsSound none i y h = h
after_close-IsSound (some x) i y h = close_stream-IsSound x y.service h

pub step-IsSound : (e : Event) (y : System) → IsSound y.service → IsSound (step e y).service
unfolding step
step-IsSound (opens env session td) y h = open_stream-IsSound env session td y.service h
step-IsSound (closes i) y h = after_close-IsSound (get_elem? y.handlers i) i y h
step-IsSound (accept_ends pointer) y h = end_accept-IsSound pointer y.service h

pub run-IsSound : (y : System) (es : List Event) → IsSound y.service → IsSound (run y es).service
unfolding run
run-IsSound y [] h = h
run-IsSound y (e ∷ es) h = run-IsSound (step e y) es (step-IsSound e y h)

-- At first every user's map is empty.
user_maps-empty :
    (users : Map Bytes UserData) (fm : Map Bytes (Map Bytes ℕ)) (u v : Bytes)
    → ((m : Map Bytes ℕ) → get u fm ≡ some m → m ≡ [])
    → (m : Map Bytes ℕ) → get u (user_maps users fm) ≡ some m
    → m ≡ []
unfolding user_maps
user_maps-empty [] fm u v h = h
user_maps-empty ((k, x) ∷ users) fm u v h =
    user_maps-empty users (put x.user_id [] fm) u v
      (λ m e. ground (arith, get-put x.user_id u [] fm, h m))

no_pointer :
    (users : Map Bytes UserData) (u v : Bytes) (p : ℕ)
    → (get u (user_maps users []) >>= get v) ≢ some p
no_pointer users u v p h = elim (Option-cases (get u (user_maps users []))) [
  | inl e ↦ ground (arith, e, h)
  | inr (m, e) ↦
      let empty =
        user_maps-empty users [] u v (λ m' e'. absurd (ground (arith, get-nil {V = Map Bytes ℕ} u)))
          m e in
      ground (arith, e, empty, h, get-nil {V = ℕ} v)
]

pub start-IsSound :
    (config : ConfigData) (service_port : ℕ) (token : Bytes) (dynport dynportcount : ℕ)
    → IsSound (start config service_port token dynport dynportcount).service
unfolding start new_mux_tunnel_service find_pointer
start-IsSound config service_port token dynport dynportcount = record {
  fresh = λ p f h. absurd (ground (arith, get-nil {V = Frontend} p));
  owned = λ u v p h. absurd (no_pointer config.users u v p h);
  exclusive = λ p q f g h. absurd (ground (arith, get-nil {V = Frontend} p));
}

-- After any events, in any order: pointers are fresh, every service's pointer leads to a frontend
-- of that user and that service, and no two open listeners have one port.
pub run-start-IsSound :
    (config : ConfigData) (service_port : ℕ) (token : Bytes) (dynport dynportcount : ℕ)
    (es : List Event)
    → IsSound (run (start config service_port token dynport dynportcount) es).service
run-start-IsSound config service_port token dynport dynportcount es =
    run-IsSound (start config service_port token dynport dynportcount) es
      (start-IsSound config service_port token dynport dynportcount)
