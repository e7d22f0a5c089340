-- ===== src/Client/Workers/Closing.antt =====
-- What a Close of the client leads to, pkg/muxtunnelClient.go.
use goreverselb.Base.{
  Bool, List, Option, Option-cases, [], ap, arith, get_elem?, get_elem?-some, if◌then◌else◌, inl,
  inr, length, none, refl, some, subst, suc, sym, true, zero, ℕ, ℕ_discrete, ◌+◌, ◌-◌, ◌<◌, ◌==◌,
  ◌∙◌, ◌∷◌, ◌≡◌, ◌≢◌, ◌≤◌,
}
use goreverselb.Client.{Link, close, update_target_addresses, update_target_port}
use goreverselb.Client.Workers.{
  after_move, step, run, Workers, Worker, gone, Event, moves, closes, updates_addresses,
  updates_port, advance, set_elem,
}
use goreverselb.Client.Workers.Rest.{rest, advance-closed, advance-rest, rest-le, rest-zero}

-- How often the worker moves.
unfoldable pub turns : ℕ → List Event → ℕ
turns i [] = 0
turns i (moves j link is_closed ∷ es) = if i == j then suc (turns i es) else turns i es
turns i (closes ∷ es) = turns i es
turns i (updates_addresses addrs ∷ es) = turns i es
turns i (updates_port port ∷ es) = turns i es

get_elem?-set_elem :
    (ws : List Worker) (i : ℕ) (w x : Worker)
    → get_elem? ws i ≡ some x
    → get_elem? (set_elem ws i w) i ≡ some w
get_elem?-set_elem [] i w x h = absurd (cc)
get_elem?-set_elem (y ∷ ws) zero w x h = refl
get_elem?-set_elem (y ∷ ws) (suc i) w x h = get_elem?-set_elem ws i w x h

get_elem?-set_elem_ne :
    (ws : List Worker) (i j : ℕ) (w : Worker)
    → i ≢ j
    → get_elem? (set_elem ws i w) j ≡ get_elem? ws j
get_elem?-set_elem_ne [] i j w n = refl
get_elem?-set_elem_ne (y ∷ ws) zero zero w n = absurd (n refl)
get_elem?-set_elem_ne (y ∷ ws) zero (suc j) w n = refl
get_elem?-set_elem_ne (y ∷ ws) (suc i) zero w n = refl
get_elem?-set_elem_ne (y ∷ ws) (suc i) (suc j) w n =
    get_elem?-set_elem_ne ws i j w (λ e. n (ap suc e))

-- What a step leaves of a worker of a closed client, where it moved `n` times.
record Nears (j : ℕ) (w : Worker) (n : ℕ) (y : Workers) : Type 0 where
  shut : y.client.closed ≡ true
  worker : Worker
  there : get_elem? y.workers j ≡ some worker
  near : rest worker ≤ rest w - n

module _ (j : ℕ) (w : Worker) (y : Workers) (shut : y.client.closed ≡ true)
    (there : get_elem? y.workers j ≡ some w) where
  after_move-Nears :
      (i : ℕ) (link : Link) (is_closed : Bool) (o : Option Worker)
      → get_elem? y.workers i ≡ o
      → Nears j w (if j == i then 1 else 0) (after_move i link is_closed o y)
  unfolding after_move
  after_move-Nears i link is_closed none h = record {
    shut = shut;
    worker = w;
    there = there;
    near = ground (arith, h, there);
  }
  after_move-Nears i link is_closed (some x) h =
      let c = advance-closed link is_closed y.client x ∙ shut in
      elim (ℕ_discrete i j) [
        | yes e ↦
            let same : w ≡ x = ground (arith, h, there, e) in
            record {
              shut = c;
              worker = (advance link is_closed y.client x).0;
              there = rw (sym e) (get_elem?-set_elem y.workers i _ x h);
              near = ground (arith, advance-rest link is_closed y.client x shut, same, e);
            }
        | no n ↦ record {
          shut = c;
          worker = w;
          there = get_elem?-set_elem_ne y.workers i j _ n ∙ there;
          near = ground (arith, n);
        }
      ]

  step-Nears : (e : Event) (y' : Workers) → step e y ≡ some y' → Nears j w (turns j (e ∷ [])) y'
  unfolding step turns close
  step-Nears (moves i link is_closed) y' h =
      subst (λ (x : Workers). Nears j w (if j == i then 1 else 0) x) (ground (arith, h))
        (after_move-Nears i link is_closed (get_elem? y.workers i) refl)
  step-Nears closes y' h = absurd (ground (arith, h, shut))
  step-Nears (updates_addresses addrs) y' h =
      let e : record y { client = update_target_addresses addrs y.client } ≡ y' =
        ground (arith, h) in
      subst (λ (x : Workers). Nears j w 0 x) e
        (record { shut = shut; worker = w; there = there; near = omega arith })
  step-Nears (updates_port port) y' h =
      let e : record y { client = update_target_port port y.client } ≡ y' = ground (arith, h) in
      subst (λ (x : Workers). Nears j w 0 x) e
        (record { shut = shut; worker = w; there = there; near = omega arith })

turns-cons :
    (j : ℕ) (e : Event) (es : List Event) → turns j (e ∷ es) ≡ turns j (e ∷ []) + turns j es
unfolding turns
turns-cons j (moves i link is_closed) es = ground arith
turns-cons j closes es = omega arith
turns-cons j (updates_addresses addrs) es = omega arith
turns-cons j (updates_port port) es = omega arith

run-Nears :
    (j : ℕ) (es : List Event) (w : Worker) (y y' : Workers)
    → y.client.closed ≡ true
    → get_elem? y.workers j ≡ some w
    → run es y ≡ some y'
    → Nears j w (turns j es) y'
unfolding run turns
run-Nears j [] w y y' shut there h =
    let e : y ≡ y' = ground (arith, h) in
    subst (λ (x : Workers). Nears j w (turns j []) x) e
      (record { shut = shut; worker = w; there = there; near = omega arith })
run-Nears j (e ∷ es) w y y' shut there h = elim (Option-cases (step e y)) [
  | inl n ↦ absurd (ground (arith, n, h))
  | inr (y1, n) ↦
      let k = step-Nears j w y shut there e y1 n in
      let k' = run-Nears j es k.worker y1 y' k.shut k.there (ground (arith, n, h)) in
      record {
        shut = k'.shut;
        worker = k'.worker;
        there = k'.there;
        near = ground (arith, k.near, k'.near, turns-cons j e es);
      }
]

-- Close, where it does not panic, ends every goroutine of the client, wherever it was and whatever
-- the network does and is updated meanwhile: once it has moved four times it is gone.
pub run-closes-gone :
    (y y' y'' : Workers) (es : List Event)
    → step closes y ≡ some y'
    → run es y' ≡ some y''
    → (j : ℕ) → j < length y.workers
    → 4 ≤ turns j es
    → get_elem? y''.workers j ≡ some gone
unfolding step close
run-closes-gone y y' y'' es c h j l t =
    let (w, there) = get_elem?-some y.workers j l in
    let k = run-Nears j es w y' y'' (ground (arith, c)) (ground (arith, c, there)) h in
    ground (arith, k.there, rest-zero k.worker (ground (arith, k.near, t, rest-le w)))
