-- ===== src/Server/Sound/Frontends.antt =====
-- startFrontend and the writes of frontendMap keep the state of the service sound.
use goreverselb.Server.Stream.{remove_frontend}
use goreverselb.Base.{
  Bytes, Map, Option-cases, arith, bytes_dec, bytes_key, delete, false, get, get-delete, get-put,
  get-put_ne, if_neg, if_pos, inl, inr, ite, nat_key, put, some, suc, ℕ, ℕ_discrete, ◌∙◌, ◌≡◌,
}
use goreverselb.Pool.{PoolInts}
use goreverselb.Server.State.{MuxTunnelService, find_pointer, port_in_use}
use goreverselb.Server.Register.{new_frontend, set_frontend, Request, asked}
use goreverselb.Server.Sound.{IsOwned, IsSound}
use goreverselb.Server.Sound.Heap.{port_in_use-false}

pub set_frontend-some :
    (u v : Bytes) (p : ℕ) (s s' : MuxTunnelService)
    → set_frontend u v p s ≡ some s'
    → (m : Map Bytes ℕ) × (get u s.frontend_map ≡ some m)
      × (s' ≡ record s { frontend_map = put u (put v p m) s.frontend_map })
unfolding set_frontend
set_frontend-some u v p s s' h = elim (Option-cases (get u s.frontend_map)) [
  | inl e ↦ absurd (ground arith)
  | inr (m, e) ↦ (m, e, ground arith)
]

pub find_pointer-put :
    (u v u' v' : Bytes) (p : ℕ) (m : Map Bytes ℕ) (s : MuxTunnelService)
    → get u s.frontend_map ≡ some m
    → find_pointer u' v' (put u (put v p m) s.frontend_map)
      ≡ ite
          (bytes_dec u u')
          (ite (bytes_dec v v') (some p) (find_pointer u' v' s.frontend_map))
          (find_pointer u' v' s.frontend_map)
unfolding find_pointer
find_pointer-put u v u' v' p m s e = elim (bytes_dec u u') [
  | yes h ↦
      rw (if_pos _ h)
        (ground (arith, e, h, get-put u u' (put v p m) s.frontend_map, get-put v v' p m))
  | no h ↦ rw (if_neg _ h) (ground (arith, get-put_ne u u' (put v p m) s.frontend_map h))
]

module _ {s : MuxTunnelService} (i : IsSound s) where
  pub pool-IsSound : (pool : PoolInts) → IsSound (record s { frontend_port_pool = pool })
  unfolding find_pointer
  pool-IsSound pool = record { fresh = i.fresh; owned = i.owned; exclusive = i.exclusive }

  module _ (r : Request) (free : port_in_use (asked r) s.heap ≡ false) where
    abbrev pub started : MuxTunnelService
    started = record s { heap = put s.next (new_frontend r) s.heap; next = suc s.next }

    get-started :
        (p : ℕ)
        → get p started.heap ≡ ite (ℕ_discrete s.next p) (some (new_frontend r)) (get p s.heap)
    get-started p = get-put s.next p (new_frontend r) s.heap

    pub start-IsSound : IsSound started
    unfolding find_pointer
    start-IsSound = record {
      fresh = λ p f h. ground (arith, get-started p, i.fresh p f);
      owned = λ u v p h.
          let o = i.owned u v p h in
          record {
            frontend = o.frontend;
            stored = ground (arith, get-started p, i.fresh p o.frontend o.stored, o.stored);
            user = o.user;
            service = o.service;
          };
      exclusive = λ p q f g hp hq op oq e. ground (
        arith,
        get-started p,
        get-started q,
        i.exclusive p q f g,
        port_in_use-false (asked r) s.heap p f free,
        port_in_use-false (asked r) s.heap q g free,
      );
    }

  module _ (u v : Bytes) (p : ℕ) (own : IsOwned u v p s.heap) where
    put-IsOwned :
        (m : Map Bytes ℕ)
        → get u s.frontend_map ≡ some m
        → (u' v' : Bytes) (q : ℕ) → find_pointer u' v' (put u (put v p m) s.frontend_map) ≡ some q
        → IsOwned u' v' q s.heap
    put-IsOwned m e u' v' q h = elim (bytes_dec u u') [
      | yes hu ↦ elim (bytes_dec v v') [
        | yes hv ↦ record {
          frontend = own.frontend;
          stored = ground (arith, own.stored, find_pointer-put u v u' v' p m s e);
          user = own.user ∙ hu;
          service = own.service ∙ hv;
        }
        | no hv ↦ i.owned u' v' q (ground (arith, find_pointer-put u v u' v' p m s e))
      ]
      | no hu ↦ i.owned u' v' q (ground (arith, find_pointer-put u v u' v' p m s e))
    ]

    pub set_frontend-IsSound : (s' : MuxTunnelService) → set_frontend u v p s ≡ some s' → IsSound s'
    set_frontend-IsSound s' h =
        let (m, e, t) = set_frontend-some u v p s s' h in
        rw t (record { fresh = i.fresh; owned = put-IsOwned m e; exclusive = i.exclusive })

  module _ (u v : Bytes) where
    delete-owned :
        (m : Map Bytes ℕ)
        → get u s.frontend_map ≡ some m
        → (u' v' : Bytes) (q : ℕ) → find_pointer u' v' (put u (delete v m) s.frontend_map) ≡ some q
        → find_pointer u' v' s.frontend_map ≡ some q
    unfolding find_pointer
    delete-owned m e u' v' q h =
        ground (arith, e, get-put u u' (delete v m) s.frontend_map, get-delete v v' m)

    pub remove_frontend-IsSound : IsSound (remove_frontend u v s)
    unfolding remove_frontend
    remove_frontend-IsSound = elim (Option-cases (get u s.frontend_map)) [
      | inl e ↦ rw (e, remove_frontend) i
      | inr (m, e) ↦
          rw (e, remove_frontend)
            (record {
              fresh = i.fresh;
              owned = λ u' v' q h. i.owned u' v' q (delete-owned m e u' v' q h);
              exclusive = i.exclusive;
            })
    ]
