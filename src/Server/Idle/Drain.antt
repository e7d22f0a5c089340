-- ===== src/Server/Idle/Drain.antt =====
-- The tunnel service of pkg/muxtunnel.go when its sessions have all ended.
use goreverselb.Base.{
  Bool-cases, Bytes, List, Map, Option, Option-cases, [], ap, arith, bytes_dec, bytes_key, false,
  get, get-nil, get-put, get_elem?, get_elem?-some, inl, inr, length, nat_key, none, put, refl,
  some, subst, suc, true, zero, ℕ, ◌<◌, ◌∙◌, ◌∷◌, ◌≡◌,
}
use goreverselb.Types.{UserData, ConfigData}
use goreverselb.Server.State.{
  MuxTunnelService, Frontend, find_frontend, find_pointer, user_maps, new_mux_tunnel_service,
}
use goreverselb.Server.Stream.{Handler}
use goreverselb.Server.System.{
  System, Event, opens, closes, accept_ends, step, run, start, remove_at, after_close,
}
use goreverselb.Server.System.Reach.{start-IsSound, step-IsSound, run-IsSound}
use goreverselb.Server.Sound.{IsSound}
use goreverselb.Server.View.{find_frontend-missing}
use goreverselb.Server.Idle.{IsAttended, HasSession}
use goreverselb.Server.Idle.Opening.{open_stream-IsAttended}
use goreverselb.Server.Idle.Closing.{close_stream-IsAttended, end_accept-IsAttended}

-- Each user's key is the user's id.
abbrev pub IsKeyed : ConfigData → Type 0
IsKeyed config = (k : Bytes) (user : UserData) → get k config.users ≡ some user → user.user_id ≡ k

-- A response that is written.
abbrev pub IsAnswered : Event → Type 0
IsAnswered (opens env session td) = env.sends ≡ true
IsAnswered (closes i) = Unit {0}
IsAnswered (accept_ends pointer) = Unit {0}

abbrev pub AllAnswered : List Event → Type 0
AllAnswered [] = Unit {0}
AllAnswered (e ∷ es) = IsAnswered e × AllAnswered es

after_close-IsAttended :
    (o : Option Handler) (i : ℕ) (y : System)
    → get_elem? y.handlers i ≡ o
    → IsAttended y.handlers y.service
    → IsSound y.service
    → IsAttended (after_close o i y).handlers (after_close o i y).service
unfolding after_close
after_close-IsAttended none i y e a z = a
after_close-IsAttended (some h) i y e a z = close_stream-IsAttended i h e a z

step-IsAttended :
    (e : Event) (y : System)
    → IsAnswered e
    → IsAttended y.handlers y.service
    → IsSound y.service
    → IsAttended (step e y).handlers (step e y).service
unfolding step
step-IsAttended (opens env session td) y h a z =
    open_stream-IsAttended y.handlers env session td y.service h a z
step-IsAttended (closes i) y h a z = after_close-IsAttended (get_elem? y.handlers i) i y refl a z
step-IsAttended (accept_ends p) y h a z = end_accept-IsAttended p a

pub run-IsAttended :
    (y : System) (es : List Event)
    → AllAnswered es
    → IsAttended y.handlers y.service
    → IsSound y.service
    → IsAttended (run y es).handlers (run y es).service
unfolding run
run-IsAttended y [] h a z = a
run-IsAttended y (e ∷ es) (h, hs) a z =
    run-IsAttended (step e y) es hs (step-IsAttended e y h a z) (step-IsSound e y z)

user_maps-keeps :
    (users : Map Bytes UserData) (fm : Map Bytes (Map Bytes ℕ)) (u : Bytes) (m : Map Bytes ℕ)
    → get u fm ≡ some m
    → (m' : Map Bytes ℕ) × (get u (user_maps users fm) ≡ some m')
unfolding user_maps
user_maps-keeps [] fm u m h = (m, h)
user_maps-keeps ((k, x) ∷ users) fm u m h = elim (bytes_dec x.user_id u) [
  | yes e ↦
      user_maps-keeps users (put x.user_id [] fm) u []
        (ground (arith, get-put x.user_id u [] fm, e))
  | no n ↦
      user_maps-keeps users (put x.user_id [] fm) u m
        (ground (arith, get-put x.user_id u [] fm, n, h))
]

user_maps-mapped :
    (users : Map Bytes UserData) (fm : Map Bytes (Map Bytes ℕ)) (u : Bytes) (x : UserData)
    → get u users ≡ some x
    → x.user_id ≡ u
    → (m : Map Bytes ℕ) × (get u (user_maps users fm) ≡ some m)
unfolding user_maps get
user_maps-mapped [] fm u x h e = absurd (cc)
user_maps-mapped ((k, y) ∷ users) fm u x h e = elim (bytes_dec k u) [
  | yes q ↦
      user_maps-keeps users (put y.user_id [] fm) u [] (ground (arith, get-put y.user_id u [] fm))
  | no n ↦ user_maps-mapped users (put y.user_id [] fm) u x (ground arith) e
]

module _ (config : ConfigData) (service_port : ℕ) (token : Bytes) (dynport dynportcount : ℕ) where
  abbrev initial : System
  initial = start config service_port token dynport dynportcount

  start-IsAttended : IsKeyed config → IsAttended initial.handlers initial.service
  unfolding start new_mux_tunnel_service
  start-IsAttended k = record {
    mapped = λ u x h. user_maps-mapped config.users [] u x h (k u x h);
    held = tt;
    full = λ p f h. absurd (ground (arith, get-nil {V = Frontend} p, h));
    attended = λ p f i a x h b. absurd (ground (arith, get-nil {V = Frontend} p, h));
    listening = λ p f h o. absurd (ground (arith, get-nil {V = Frontend} p, h));
    found = λ u v p f a h. absurd (ground (arith, get-nil {V = Frontend} p, h));
  }

-- No handler waits, no listener is open and no service has a frontend.
pub record IsIdle (y : System) : Type 0 where
  pub handlers : y.handlers ≡ []
  pub listeners :
      (p : ℕ) (f : Frontend) → get p y.service.heap ≡ some f → f.listener.is_open ≡ false
  pub frontends : (u v : Bytes) → find_frontend u v y.service ≡ none

module _ {s : MuxTunnelService} (a : IsAttended [] s) (z : IsSound s) where
  lone : (p : ℕ) (f : Frontend) → get p s.heap ≡ some f → ¬ HasSession f.backend_conn_map
  lone p f h b = a.attended p f b.instance_name b.addr b.session h b.registered

  shut_listener : (p : ℕ) (f : Frontend) → get p s.heap ≡ some f → f.listener.is_open ≡ false
  shut_listener p f h = elim (Bool-cases f.listener.is_open) [
    | inl o ↦ elim (a.listening p f h o) [ inl e ↦ absurd e | inr b ↦ absurd (lone p f h b) ]
    | inr o ↦ o
  ]

  no_frontend : (u v : Bytes) → find_frontend u v s ≡ none
  no_frontend u v = elim (Option-cases (find_pointer u v s.frontend_map)) [
    | inl e ↦ find_frontend-missing u v s e
    | inr (p, e) ↦
        let own = z.owned u v p e in
        elim (a.found u v p own.frontend e own.stored) [
          | inl t ↦ absurd t
          | inr b ↦ absurd (lone p own.frontend own.stored b)
        ]
  ]

pub idle :
    (y : System) → y.handlers ≡ [] → IsAttended y.handlers y.service → IsSound y.service → IsIdle y
idle y e a z =
    let a' = subst (λ (hs : List Handler). IsAttended hs y.service) e a in
    record { handlers = e; listeners = shut_listener a' z; frontends = no_frontend a' z }

-- The indices at which n handlers end, one after the other, in some order.
pub data Order : ℕ → List ℕ → Type 0 where
  done : Order 0 []
  next : {i n : ℕ} {order : List ℕ} → i < suc n → Order n order → Order (suc n) (i ∷ order)

abbrev pub ends : List ℕ → List Event
ends [] = []
ends (i ∷ order) = closes i ∷ ends order

ends-AllAnswered : (order : List ℕ) → AllAnswered (ends order)
ends-AllAnswered [] = tt
ends-AllAnswered (i ∷ order) = (tt, ends-AllAnswered order)

length-remove_at :
    (hs : List Handler) (i n : ℕ) → i < suc n → length hs ≡ suc n → length (remove_at i hs) ≡ n
length-remove_at [] i n l e = absurd (omega arith)
length-remove_at (h ∷ hs) zero n l e = omega arith
length-remove_at (h ∷ []) (suc i) n l e = absurd (omega arith)
length-remove_at (h ∷ k ∷ hs) (suc i) zero l e = absurd (omega arith)
length-remove_at (h ∷ k ∷ hs) (suc i) (suc n) l e =
    ap suc (length-remove_at (k ∷ hs) i n (omega arith) (omega arith))

step-closes-handlers :
    (i : ℕ) (y : System)
    → i < length y.handlers
    → (step (closes i) y).handlers ≡ remove_at i y.handlers
unfolding step after_close
step-closes-handlers i y l = let (h, e) = get_elem?-some y.handlers i l in rw e refl

nil_of_length : (hs : List Handler) → length hs ≡ 0 → hs ≡ []
nil_of_length [] e = refl
nil_of_length (h ∷ hs) e = absurd (omega arith)

ends-none :
    (n : ℕ) (order : List ℕ) (y : System)
    → Order n order
    → length y.handlers ≡ n
    → (run y (ends order)).handlers ≡ []
unfolding run
ends-none zero [] y done e = nil_of_length y.handlers e
ends-none zero (i ∷ order) y o e = elim o [ ]
ends-none (suc n) [] y o e = elim o [ ]
ends-none (suc n) (i ∷ order) y (next l o) e =
    ends-none n order (step (closes i) y) o
      (ap length (step-closes-handlers i y (omega arith)) ∙ length-remove_at y.handlers i n l e)

-- From the start, where each user's key in the configuration is its id, after any events in which
-- every response is written: once the sessions of the handlers that wait have ended, in whatever
-- order, no handler waits, no listener is open and no service has a frontend.
pub run-ends-IsIdle :
    (config : ConfigData) (service_port : ℕ) (token : Bytes) (dynport dynportcount : ℕ)
    (es : List Event) (order : List ℕ)
    → IsKeyed config
    → AllAnswered es
    → Order (length (run (start config service_port token dynport dynportcount) es).handlers) order
    → IsIdle (run (run (start config service_port token dynport dynportcount) es) (ends order))
run-ends-IsIdle config service_port token dynport dynportcount es order k h o =
    let y0 = start config service_port token dynport dynportcount in
    let z0 = start-IsSound config service_port token dynport dynportcount in
    let y = run y0 es in
    let a =
      run-IsAttended y0 es h (start-IsAttended config service_port token dynport dynportcount k)
        z0 in
    let z = run-IsSound y0 es z0 in
    idle (run y (ends order)) (ends-none (length y.handlers) order y o refl)
      (run-IsAttended y (ends order) (ends-AllAnswered order) a z) (run-IsSound y (ends order) z)
