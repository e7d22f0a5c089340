-- ===== src/Server/Sound/Heap.antt =====
-- A write through a pointer and a new frontend keep the state of the service sound.
use goreverselb.Base.{
  Bytes, Map, Option-cases, [], arith, bytes_key, false, get, get-put_ne, get-put_self, inl, inr,
  nat_key, none, put, refl, some, true, ℕ, ℕ_discrete, ◌∷◌, ◌≡◌, ◌≢◌, ◌⊎◌,
}
use goreverselb.Server.State.{MuxTunnelService, Frontend, find_pointer, modify, port_in_use}
use goreverselb.Server.Sound.{IsOwned, IsSound, Keeps}

module _ (p : ℕ) (f : Frontend → Frontend) (heap : Map ℕ Frontend) where
  modify-some : (x : Frontend) → get p heap ≡ some x → modify p f heap ≡ put p (f x) heap
  unfolding modify
  modify-some x e = rw (e, modify)

  pub modify-none : get p heap ≡ none → modify p f heap ≡ heap
  unfolding modify
  modify-none e = rw (e, modify)

  pub get-modify_self : (x : Frontend) → get p heap ≡ some x → get p (modify p f heap) ≡ some (f x)
  get-modify_self x e = rw (modify-some x e) (get-put_self p (f x) heap)

  pub get-modify_ne : (j : ℕ) → p ≢ j → get j (modify p f heap) ≡ get j heap
  get-modify_ne j h = elim (Option-cases (get p heap)) [
    | inl e ↦ rw (modify-none e) refl
    | inr (x, e) ↦ rw (modify-some x e) (get-put_ne p j (f x) heap h)
  ]

-- A frontend after the write is one before it, written or not.
pub get-modify-some :
    (p j : ℕ) (f : Frontend → Frontend) (heap : Map ℕ Frontend) (y : Frontend)
    → get j (modify p f heap) ≡ some y
    → ((x : Frontend) × (get j heap ≡ some x) × ((y ≡ f x) ⊎ (y ≡ x)))
get-modify-some p j f heap y h = elim (ℕ_discrete p j) [
  | yes e ↦ elim (Option-cases (get p heap)) [
    | inl n ↦ absurd (ground (arith, h, e, n, modify-none p f heap n))
    | inr (x, g) ↦ (x, ground arith, inl (ground (arith, get-modify_self p f heap x g)))
  ]
  | no n ↦ (y, ground (arith, get-modify_ne p f heap j n), inr refl)
]

pub port_in_use-false :
    (port : ℕ) (heap : Map ℕ Frontend) (p : ℕ) (f : Frontend)
    → port_in_use port heap ≡ false
    → get p heap ≡ some f
    → f.listener.is_open ≡ true
    → f.port ≢ port
unfolding port_in_use get
port_in_use-false port [] p f h e o = absurd (cc)
port_in_use-false port ((q, x) ∷ heap) p f h e o = ground (arith, port_in_use-false port heap p f)

module _ {s : MuxTunnelService} (i : IsSound s) where
  module _ (p : ℕ) (f : Frontend → Frontend) (k : Keeps f) where
    modify-exclusive :
        (q r : ℕ) (y z : Frontend)
        → get q (modify p f s.heap) ≡ some y
        → get r (modify p f s.heap) ≡ some z
        → y.listener.is_open ≡ true
        → z.listener.is_open ≡ true
        → y.port ≡ z.port
        → q ≡ r
    modify-exclusive q r y z hy hz oy oz e =
        let (x, gx, cx) = get-modify-some p q f s.heap y hy in
        let (w, gw, cw) = get-modify-some p r f s.heap z hz in
        i.exclusive q r x w gx gw (ground (arith, cx, k.no_open x))
          (ground (arith, cw, k.no_open w)) (ground (arith, cx, cw, k.port x, k.port w))

    modify-IsOwned :
        (u v : Bytes) (q : ℕ)
        → find_pointer u v s.frontend_map ≡ some q
        → IsOwned u v q (modify p f s.heap)
    modify-IsOwned u v q h =
        let o = i.owned u v q h in
        elim (ℕ_discrete p q) [
          | yes e ↦ record {
            frontend = f o.frontend;
            stored = ground (arith, get-modify_self p f s.heap o.frontend, o.stored, e);
            user = ground (arith, k.user o.frontend, o.user);
            service = ground (arith, k.service o.frontend, o.service);
          }
          | no n ↦ record {
            frontend = o.frontend;
            stored = ground (arith, get-modify_ne p f s.heap q n, o.stored);
            user = o.user;
            service = o.service;
          }
        ]

    pub modify-IsSound : IsSound (record s { heap = modify p f s.heap })
    unfolding find_pointer
    modify-IsSound = record {
      fresh = λ q y h. let (x, g, c) = get-modify-some p q f s.heap y h in i.fresh q x g;
      owned = modify-IsOwned;
      exclusive = modify-exclusive;
    }
