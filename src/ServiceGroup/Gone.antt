-- ===== src/ServiceGroup/Gone.antt =====
-- The loop over the ports that are gone in reconcileTunnels of
-- pkg/muxtunnelClientServiceGroup.go.
use goreverselb.Base.{
  Bool, Bytes, Distinct, List, Map, Option, Option-cases, [], ap, arith, bytes_dec, bytes_key,
  delete, delete-Distinct, false, get, get-delete, get-delete_ne, get-delete_self, inl, inr, length,
  nat_key, none, refl, some, sym, true, ◌+◌, ◌∙◌, ◌∷◌, ◌≡◌, ◌≢◌, ◌⊎◌,
}
use goreverselb.Client.{MuxTunnelClient, close}
use goreverselb.ServiceGroup.{Tunnels, close_tunnel, close_gone, all_gone}
use goreverselb.ServiceGroup.Ports.{Open}

-- Every key of `gone` is one of the map.
abbrev pub Within : Map Bytes Bool → Tunnels → Type 0
Within gone m =
    (k : Bytes) (b : Bool) → get k gone ≡ some b → (t : MuxTunnelClient) × (get k m ≡ some t)

abbrev pub Among : MuxTunnelClient → List MuxTunnelClient → Type 0
Among t [] = ⊥
Among t (x ∷ xs) = (t ≡ x) ⊎ Among t xs

-- What the loop leaves: the keys of `gone` are out of the map, the rest is as it was, and the
-- clients of these keys are closed.
pub record Emptied (gone : Map Bytes Bool) (m : Tunnels) (closed : List MuxTunnelClient)
    (w : Option (Option Tunnels × List MuxTunnelClient)) : Type 0 where
  pub after : Tunnels
  pub all_closed : List MuxTunnelClient
  pub result : w ≡ some (some after, all_closed)
  pub still_open : Open after
  pub keys : Distinct after
  pub removed : (k : Bytes) (b : Bool) → get k gone ≡ some b → get k after ≡ none
  pub kept : (k : Bytes) → get k gone ≡ none → get k after ≡ get k m
  pub count : length all_closed ≡ length gone + length closed
  pub closes :
      (k : Bytes) (b : Bool) (t : MuxTunnelClient)
      → get k gone ≡ some b
      → get k m ≡ some t
      → Among (record t { closed = true }) all_closed
  pub still_closed : (t : MuxTunnelClient) → Among t closed → Among t all_closed

close_tunnel-some :
    (k : Bytes) (m : Tunnels) (t : MuxTunnelClient)
    → get k m ≡ some t
    → t.closed ≡ false
    → close_tunnel k (some m) ≡ some (delete k m, record t { closed = true })
unfolding close_tunnel close
close_tunnel-some k m t g o = rw (g, o) refl

delete-Open : (k : Bytes) (m : Tunnels) → Open m → Open (delete k m)
delete-Open k m o j t h = ground (arith, get-delete k j m, o j t)

delete-Within :
    (k : Bytes) (b : Bool) (gone : Map Bytes Bool) (m : Tunnels)
    → get k gone ≡ none
    → Within ((k, b) ∷ gone) m
    → Within gone (delete k m)
unfolding get
delete-Within k b gone m absent w j c h =
    let apart : k ≢ j = λ e. ground (arith, absent, h, e) in
    let (t, g) = w j c (ground (arith, apart, h)) in
    (t, ground (arith, get-delete_ne k j m apart, g))

pub close_gone-Emptied :
    (gone : Map Bytes Bool) (m : Tunnels) (closed : List MuxTunnelClient)
    → Distinct gone
    → Distinct m
    → Open m
    → Within gone m
    → Emptied gone m closed (close_gone gone (some m) closed)
unfolding close_gone get
close_gone-Emptied [] m closed d n o w = record {
  after = m;
  all_closed = closed;
  result = refl;
  still_open = o;
  keys = n;
  removed = λ k b h. absurd (cc);
  kept = λ k h. refl;
  count = omega arith;
  closes = λ k b t h. absurd (cc);
  still_closed = λ t h. h;
}
close_gone-Emptied ((k, b) ∷ gone) m closed d n o w =
    let (t, g) = w k b (ground arith) in
    let e = close_tunnel-some k m t g (o k t g) in
    let r =
      close_gone-Emptied gone (delete k m) (record t { closed = true } ∷ closed) d.1
        (delete-Distinct k m n) (delete-Open k m o) (delete-Within k b gone m d.0 w) in
    record {
      after = r.after;
      all_closed = r.all_closed;
      result = rw e r.result;
      still_open = r.still_open;
      keys = r.keys;
      removed = λ j c h. elim (bytes_dec k j) [
        | yes q ↦ ground (arith, r.kept j, q, d.0, get-delete_self k m)
        | no q ↦ r.removed j c (ground (arith, h, q))
      ];
      kept = λ j h. ground (arith, r.kept j, get-delete k j m, h);
      count = omega (arith, r.count);
      closes = λ j c u h g'. elim (bytes_dec k j) [
        | yes q ↦
            let same : t ≡ u = ground (arith, g, g', q) in
            r.still_closed (record u { closed = true })
              (inl (ap {A = MuxTunnelClient} (λ x. record x { closed = true }) (sym same)))
        | no q ↦ r.closes j c u (ground (arith, h, q)) (get-delete_ne k j m q ∙ g')
      ];
      still_closed = λ u h. r.still_closed u (inr h);
    }

pub all_gone-get :
    (k : Bytes) (m : Tunnels) (t : MuxTunnelClient)
    → get k m ≡ some t
    → get k (all_gone m) ≡ some true
unfolding all_gone get
all_gone-get k [] t h = absurd (cc)
all_gone-get k ((j, u) ∷ m) t h = ground (arith, all_gone-get k m t)

pub all_gone-absent : (k : Bytes) (m : Tunnels) → get k m ≡ none → get k (all_gone m) ≡ none
unfolding all_gone get
all_gone-absent k [] h = refl
all_gone-absent k ((j, u) ∷ m) h = ground (arith, all_gone-absent k m)

pub all_gone-Distinct : (m : Tunnels) → Distinct m → Distinct (all_gone m)
unfolding all_gone
all_gone-Distinct [] d = tt
all_gone-Distinct ((k, t) ∷ m) d = (all_gone-absent k m d.0, all_gone-Distinct m d.1)

pub all_gone-Within : (m : Tunnels) → Within (all_gone m) m
all_gone-Within m k b h = elim (Option-cases (get k m)) [
  | inl e ↦ absurd (ground (arith, all_gone-absent k m e, h))
  | inr (t, e) ↦ (t, e)
]
