-- ===== src/Server/Idle/Kept.antt =====
-- Changes of one frontend that keep every session attended, pkg/muxtunnel.go.
use goreverselb.Base.{
  List, [], arith, bytes_key, get, nat_key, some, subst, true, ℕ, ℕ_discrete, ◌∙◌, ◌∷◌, ◌≡◌, ◌⊎◌,
}
use goreverselb.Pool.{PoolInts}
use goreverselb.Server.State.{Backends, MuxTunnelService, Frontend, modify}
use goreverselb.Server.Stream.{Handler}
use goreverselb.Server.Sound.Heap.{get-modify_self, get-modify_ne, get-modify-some}
use goreverselb.Server.Idle.{HasSession, IsFull, AllHeld, IsAttendedBut}

-- A change of one frontend that leaves its names.
pub record Renames (f : Frontend → Frontend) : Type 0 where
  pub user : (x : Frontend) → (f x).user_id ≡ x.user_id
  pub service : (x : Frontend) → (f x).service_name ≡ x.service_name

pub modify-AllHeld :
    (p : ℕ) (f : Frontend → Frontend) (k : Renames f) (s : MuxTunnelService) (hs : List Handler)
    → AllHeld s hs
    → AllHeld (record s { heap = modify p f s.heap }) hs
modify-AllHeld p f k s [] a = tt
modify-AllHeld p f k s (h ∷ hs) (held, rest) = (
  elim (ℕ_discrete p h.pointer) [
    | yes e ↦ record {
      frontend = f held.frontend;
      stored = ground (arith, get-modify_self p f s.heap held.frontend, held.stored, e);
      user = k.user held.frontend ∙ held.user;
      service = k.service held.frontend ∙ held.service;
    }
    | no n ↦ record {
      frontend = held.frontend;
      stored = ground (arith, get-modify_ne p f s.heap h.pointer n, held.stored);
      user = held.user;
      service = held.service;
    }
  ],
  modify-AllHeld p f k s hs rest,
)

-- Two states whose frontends are the same at the handlers' pointers.
pub AllHeld-agree :
    (s t : MuxTunnelService) (hs : List Handler)
    → ((p : ℕ) (f : Frontend) → get p s.heap ≡ some f → get p t.heap ≡ some f)
    → AllHeld s hs
    → AllHeld t hs
AllHeld-agree s t [] k a = tt
AllHeld-agree s t (h ∷ hs) k (held, rest) = (
  record {
    frontend = held.frontend;
    stored = k h.pointer held.frontend held.stored;
    user = held.user;
    service = held.service;
  },
  AllHeld-agree s t hs k rest,
)

module _ {but : ℕ → Type 0} {hs : List Handler} {s : MuxTunnelService}
    (i : IsAttendedBut but hs s) where
  pub pool-IsAttendedBut :
      (pool : PoolInts) → IsAttendedBut but hs (record s { frontend_port_pool = pool })
  pool-IsAttendedBut pool = record {
    mapped = i.mapped;
    held = AllHeld-agree s (record s { frontend_port_pool = pool }) hs (λ p f h. h) i.held;
    full = i.full;
    attended = i.attended;
    listening = i.listening;
    found = i.found;
  }

  -- A change that leaves the sessions and opens no listener.
  pub modify-IsAttendedBut :
      (p : ℕ) (f : Frontend → Frontend)
      → Renames f
      → ((x : Frontend) → (f x).backend_conn_map ≡ x.backend_conn_map)
      → ((x : Frontend) → (f x).listener.is_open ≡ true → x.listener.is_open ≡ true)
      → IsAttendedBut but hs (record s { heap = modify p f s.heap })
  modify-IsAttendedBut p f k b o = record {
    mapped = i.mapped;
    held = modify-AllHeld p f k s hs i.held;
    full = λ q y h.
        let (x, g, c) = get-modify-some p q f s.heap y h in
        subst (λ (m : Backends). IsFull m) (ground (arith, b x, c)) (i.full q x g);
    attended = λ q y j a z h r.
        let (x, g, c) = get-modify-some p q f s.heap y h in
        i.attended q x j a z g (ground (arith, b x, c, r));
    listening = λ q y h l.
        let (x, g, c) = get-modify-some p q f s.heap y h in
        subst (λ (m : Backends). but q ⊎ HasSession m) (ground (arith, b x, c))
          (i.listening q x g (ground (arith, o x, c, l)));
    found = λ u v q y e h.
        let (x, g, c) = get-modify-some p q f s.heap y h in
        subst (λ (m : Backends). but q ⊎ HasSession m) (ground (arith, b x, c))
          (i.found u v q x e g);
  }
