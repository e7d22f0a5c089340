-- ===== src/Pool/Contract.antt =====
-- pkg/pool.go: what the pool promises a client, in terms of the status of each port.
use goreverselb.Base.{
  Bool-cases, Result, arith, bytes_key, err, false, get, get-delete, get-length-zero, get-put, inl,
  inr, ite, length, nat_key, ok, refl, some, true, ℕ, ℕ_discrete, ◌==◌, ◌≡◌, ◌≢◌, ◌⊎◌,
}
use goreverselb.Pool.{
  PoolInts, PoolError, get_element, return_element, holds, some_key, move_to_allocated,
}
use goreverselb.Pool.Invariant.{not_free, Status, status, IsValid, free_of_some_key, get_of_holds}

abbrev pub Table : Type 0
Table = ℕ → Status

-- One port changes its status.
abbrev pub Sets : Table → ℕ → Status → Table → Type 0
Sets s k st s' = (j : ℕ) → s' j ≡ ite (ℕ_discrete k j) st (s j)

-- What a request for `v` may answer: a free port, which is `v` if `v` is not 0 and is taken from
-- then on; or an error that is true of the table, which then stays as it is.
abbrev pub Grants : Table → ℕ → Result PoolError ℕ → Table → Type 0
Grants s v (ok k) s' = (s k ≡ Status.free) × (v ≢ 0 → k ≡ v) × Sets s k Status.taken s'
Grants s v (err PoolError.no_more_elements) s' =
    ((j : ℕ) → s j ≢ Status.free) × ((j : ℕ) → s' j ≡ s j)
Grants s v (err PoolError.explicit_not_available) s' =
    (v ≢ 0) × (s v ≢ Status.free) × ((j : ℕ) → s' j ≡ s j)

abbrev pub Returns : Table → ℕ → Table → Type 0
Returns s v s' =
    ((s v ≡ Status.taken) × Sets s v Status.free s')
    ⊎ ((s v ≢ Status.taken) × ((j : ℕ) → s' j ≡ s j))

module _ {lower_bound cap : ℕ} (p : PoolInts) (i : IsValid lower_bound cap p) where
  status-move_to_allocated :
      (k : ℕ)
      → get k p.free ≡ some true
      → (status p k ≡ Status.free) × Sets (status p) k Status.taken (status (move_to_allocated k p))
  unfolding status move_to_allocated
  status-move_to_allocated k h =
      (ground arith, λ j. ground (arith, get-delete k j p.free, get-put k j true p.allocated))

  none_free : length p.free ≡ 0 → (j : ℕ) → status p j ≢ Status.free
  unfolding status
  none_free h j = ground (arith, get-length-zero j p.free h)

  status-eq-free_iff : (v : ℕ) → (holds v p.free ≡ false) → status p v ≢ Status.free
  unfolding status
  status-eq-free_iff v h = ground arith

  get_element-Grants_at :
      (pick v : ℕ) → Grants (status p) v (get_element pick v p).0 (status (get_element pick v p).1)
  unfolding get_element
  get_element-Grants_at pick v = elim (Bool-cases (length p.free == 0)) [
    | inl e ↦ rw e (none_free (ground arith), λ j. refl)
    | inr n ↦ rw n (elim (Bool-cases (v == 0)) [
      | inl e ↦
          let r =
            status-move_to_allocated (some_key pick p.free)
              (free_of_some_key p pick i (ground arith)) in
          rw e (r.0, λ ne. absurd (ne (ground arith)), r.1)
      | inr m ↦ rw m (elim (Bool-cases (holds v p.free)) [
        | inl e ↦
            let r = status-move_to_allocated v (get_of_holds v p.free e) in
            rw e (r.0, λ ne. refl, r.1)
        | inr k ↦ rw k (ground arith, status-eq-free_iff v k, λ j. refl)
      ])
    ])
  ]

  return_element-Returns_at : (v : ℕ) → Returns (status p) v (status (return_element v p))
  unfolding return_element status
  return_element-Returns_at v = elim (Bool-cases (holds v p.allocated)) [
    | inl e ↦
        let gone = not_free p i v (get_of_holds v p.allocated e) in
        rw e (
          inl (
            ground arith,
            λ j. ground (arith, get-put v j true p.free, get-delete v j p.allocated),
          ))
    | inr n ↦ rw n (inr (ground arith, λ j. refl))
  ]

-- A valid pool answers each request as `Grants` says, in whatever order `range` visits the ports:
-- an answer is a port that was free, the one asked for unless 0 is asked for, and no other port
-- changes; `no_more_elements` means that no port is free, `explicit_not_available` that the one
-- asked for is not, and an error changes nothing.
pub get_element-Grants :
    {lower_bound cap : ℕ} (p : PoolInts) (pick v : ℕ)
    → IsValid lower_bound cap p
    → Grants (status p) v (get_element pick v p).0 (status (get_element pick v p).1)
get_element-Grants p pick v i = get_element-Grants_at p i pick v

-- Returning a port of a valid pool frees it if it is taken, and otherwise changes nothing; no
-- other port changes.
pub return_element-Returns :
    {lower_bound cap : ℕ} (p : PoolInts) (v : ℕ)
    → IsValid lower_bound cap p
    → Returns (status p) v (status (return_element v p))
return_element-Returns p v i = return_element-Returns_at p i v
