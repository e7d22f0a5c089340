-- ===== src/Server/View/Settling.antt =====
-- The port of a request that joins, in the locked section of handleStream, pkg/muxtunnel.go.
use goreverselb.Base.{
  Option, Result, arith, err, none, ok, refl, some, subst, true, ℕ, ℕ_discrete, ◌≡◌, ◌≢◌,
}
use goreverselb.Pool.{PoolError}
use goreverselb.Server.State.{Frontend}
use goreverselb.Server.Register.{allot, default_port, with_port, Request, asked}
use goreverselb.Server.View.Joining.{Settles}

module _ (r : Request) (val : Option (ℕ × Frontend)) where
  asked-Settles : asked r ≢ 0 → Settles r val r
  asked-Settles n = record {
    port = asked r;
    auto = r.td.frontend_data.auto;
    renumbered = refl;
    explicit = λ m. refl;
    automatic = λ p f e g m. absurd (n e);
  }

  drawn-Settles :
      (k : ℕ)
      → asked r ≡ 0
      → ((p : ℕ) (f : Frontend) → val ≡ some (p, f) → f.port ≡ 0)
      → Settles r val (with_port r k true)
  drawn-Settles k e z = record {
    port = k;
    auto = true;
    renumbered = refl;
    explicit = λ n. absurd (n e);
    automatic = λ p f e' g m. absurd (m (z p f g));
  }

  found-Settles :
      (p : ℕ) (f : Frontend)
      → asked r ≡ 0
      → val ≡ some (p, f)
      → Settles r val (with_port r f.port r.td.frontend_data.auto)
  found-Settles p f e g = record {
    port = f.port;
    auto = r.td.frontend_data.auto;
    renumbered = refl;
    explicit = λ n. absurd (n e);
    automatic = λ q f' e' g' m. ground (arith, g, g');
  }

-- The automatic allocation.
allot-automatic :
    (got : Result PoolError ℕ) (x r' : Request)
    → asked x ≡ 0
    → allot got x ≡ some r'
    → (k : ℕ) × (with_port x k true ≡ r')
unfolding allot
allot-automatic (ok k) x r' e h = (k, ground (arith, e, h))
allot-automatic (err o) x r' e h = absurd (ground (arith, e, h))

allot-explicit :
    (got : Result PoolError ℕ) (x r' : Request) → asked x ≢ 0 → allot got x ≡ some r' → x ≡ r'
unfolding allot
allot-explicit got x r' n h = ground (arith, n, h)

-- The port that default_port and allot settle.
pub allot-Settles :
    (r : Request) (val : Option (ℕ × Frontend)) (got : Result PoolError ℕ) (r' : Request)
    → allot got (default_port val r) ≡ some r'
    → Settles r val r'
unfolding default_port
allot-Settles r none got r' h = elim (ℕ_discrete (asked r) 0) [
  | yes e ↦
      let (k, q) = allot-automatic got r r' e h in
      subst (λ (x : Request). Settles r none x) q
        (drawn-Settles r none k e (λ p f g. absurd (ground (arith, g))))
  | no n ↦
      subst (λ (x : Request). Settles r none x) (allot-explicit got r r' n h)
        (asked-Settles r none n)
]
allot-Settles r (some (p, f)) got r' h = elim (ℕ_discrete (asked r) 0) [
  | yes e ↦
      let x = with_port r f.port r.td.frontend_data.auto in
      let h' : allot got x ≡ some r' = ground (arith, e, h) in
      elim (ℕ_discrete f.port 0) [
        | yes z ↦
            let (k, q) = allot-automatic got x r' z h' in
            subst (λ (y : Request). Settles r (some (p, f)) y) q
              (drawn-Settles r (some (p, f)) k e (λ q' f' g. ground (arith, z, g)))
        | no m ↦
            subst (λ (y : Request). Settles r (some (p, f)) y) (allot-explicit got x r' m h')
              (found-Settles r (some (p, f)) p f e refl)
      ]
  | no n ↦
      let h' : allot got r ≡ some r' = ground (arith, n, h) in
      subst (λ (x : Request). Settles r (some (p, f)) x) (allot-explicit got r r' n h')
        (asked-Settles r (some (p, f)) n)
]
