-- ===== src/Pool/Invariant.antt =====
-- pkg/pool.go: the free and the allocated ports split the range that the pool was made for.
use goreverselb.Base.{
  Bool, Bool-cases, Distinct, Map, Option-cases, [], arith, bytes_key, delete, delete-Distinct, get,
  get-delete, get-put, if◌then◌else◌, inl, inr, is_some, leb, length, length-delete, length-put,
  ltb, nat_key, none, put, put-Distinct, some, suc, true, zero, ℕ, ℕ_discrete, ◌&&◌, ◌+◌, ◌<◌, ◌==◌,
  ◌||◌, ◌∷◌, ◌≡◌,
}
use goreverselb.Pool.{get_element, return_element, PoolInts, holds, some_key, move_to_allocated}

unfoldable pub in_range : ℕ → ℕ → ℕ → Bool
in_range lower_bound cap v = leb lower_bound v && ltb v (lower_bound + cap)

-- Where a port stands, for a client that sees neither map.
pub data Status : Type 0 where
  outside free taken : Status

unfoldable pub status : PoolInts → ℕ → Status
unfolding holds
status p v = if holds v p.free then free else if holds v p.allocated then taken else outside

pub record IsValid (lower_bound cap : ℕ) (p : PoolInts) : Type 0 where
  pub free_true : (v : ℕ) (b : Bool) → get v p.free ≡ some b → b ≡ true
  pub allocated_true : (v : ℕ) (b : Bool) → get v p.allocated ≡ some b → b ≡ true
  pub disjoint : (v : ℕ) → get v p.free ≡ some true → get v p.allocated ≡ none
  pub covers :
      (v : ℕ) → (is_some (get v p.free) || is_some (get v p.allocated)) ≡ in_range lower_bound cap v
  pub free_distinct : Distinct p.free
  pub allocated_distinct : Distinct p.allocated
  pub total : length p.free + length p.allocated ≡ cap

-- The key that `range` visits first is a key.
pub get-some_key :
    (pick : ℕ) (m : Map ℕ Bool) → 0 < length m → (b : Bool) × (get (some_key pick m) m ≡ some b)
unfolding some_key get
get-some_key pick [] h = absurd (omega arith)
get-some_key zero ((k, b) ∷ m) h = (b, ground arith)
get-some_key (suc pick) ((k, b) ∷ []) h = (b, ground arith)
get-some_key (suc pick) ((k, b) ∷ (j, c) ∷ m) h = elim (ℕ_discrete k (some_key pick ((j, c) ∷ m))) [
  | yes p ↦ (b, ground arith)
  | no n ↦ let (d, e) = get-some_key pick ((j, c) ∷ m) (omega arith) in (d, ground arith)
]

pub get_of_holds : (v : ℕ) (m : Map ℕ Bool) → holds v m ≡ true → get v m ≡ some true
unfolding holds
get_of_holds v m h = ground arith

module _ {lower_bound cap : ℕ} (p : PoolInts) (i : IsValid lower_bound cap p) (v : ℕ) where
  module _ (h : get v p.free ≡ some true) where
    move_to_allocated-IsValid : IsValid lower_bound cap (move_to_allocated v p)
    unfolding move_to_allocated
    move_to_allocated-IsValid = record {
      free_true = λ j b e. ground (arith, get-delete v j p.free, i.free_true j b);
      allocated_true = λ j b e. ground (arith, get-put v j true p.allocated, i.allocated_true j b);
      disjoint =
          λ j e. ground (arith, get-delete v j p.free, get-put v j true p.allocated, i.disjoint j);
      covers = λ j. ground (arith, get-delete v j p.free, get-put v j true p.allocated, i.covers j);
      free_distinct = delete-Distinct v p.free i.free_distinct;
      allocated_distinct = put-Distinct v true p.allocated i.allocated_distinct;
      total = omega (
        arith,
        i.total,
        length-delete v true p.free i.free_distinct h,
        length-put v true p.allocated (i.disjoint v h),
      );
    }

  module _ (h : get v p.allocated ≡ some true) where
    pub not_free : get v p.free ≡ none
    not_free = elim (Option-cases (get v p.free)) [
      | inl e ↦ e
      | inr (b, e) ↦ ground (arith, i.disjoint v, i.free_true v b e)
    ]

    move_to_free-IsValid :
        IsValid lower_bound cap
          (record p { allocated = delete v p.allocated; free = put v true p.free })
    move_to_free-IsValid = record {
      free_true = λ j b e. ground (arith, get-put v j true p.free, i.free_true j b);
      allocated_true = λ j b e. ground (arith, get-delete v j p.allocated, i.allocated_true j b);
      disjoint =
          λ j e. ground (arith, get-delete v j p.allocated, get-put v j true p.free, i.disjoint j);
      covers = λ j. ground (arith, get-delete v j p.allocated, get-put v j true p.free, i.covers j);
      free_distinct = put-Distinct v true p.free i.free_distinct;
      allocated_distinct = delete-Distinct v p.allocated i.allocated_distinct;
      total = omega (
        arith,
        i.total,
        length-delete v true p.allocated i.allocated_distinct h,
        length-put v true p.free not_free,
      );
    }

  return_element-IsValid_at : IsValid lower_bound cap (return_element v p)
  unfolding return_element
  return_element-IsValid_at = elim (Bool-cases (holds v p.allocated)) [
    | inl e ↦ rw e (move_to_free-IsValid (get_of_holds v p.allocated e))
    | inr n ↦ rw n i
  ]

-- The key that `range` visits first, or one that is asked for and free, is in the map with `true`.
pub free_of_some_key :
    {lower_bound cap : ℕ} (p : PoolInts) (pick : ℕ)
    → IsValid lower_bound cap p
    → 0 < length p.free
    → get (some_key pick p.free) p.free ≡ some true
free_of_some_key p pick i h =
    let (b, e) = get-some_key pick p.free h in ground (arith, e, i.free_true _ b e)

-- Both methods keep the pool valid, on every branch: free and allocated ports stay disjoint, cover
-- the range exactly, and their numbers add up to its size.
pub get_element-IsValid :
    {lower_bound cap : ℕ} (pick v : ℕ) (p : PoolInts)
    → IsValid lower_bound cap p
    → IsValid lower_bound cap (get_element pick v p).1
unfolding get_element
get_element-IsValid pick v p i = elim (Bool-cases (length p.free == 0)) [
  | inl e ↦ rw e i
  | inr n ↦ rw n (elim (Bool-cases (v == 0)) [
    | inl e ↦ rw e (
        move_to_allocated-IsValid p i (some_key pick p.free)
          (free_of_some_key p pick i (ground arith)))
    | inr m ↦ rw m (elim (Bool-cases (holds v p.free)) [
      | inl e ↦ rw e (move_to_allocated-IsValid p i v (get_of_holds v p.free e))
      | inr k ↦ rw k i
    ])
  ])
]

pub return_element-IsValid :
    {lower_bound cap : ℕ} (v : ℕ) (p : PoolInts)
    → IsValid lower_bound cap p
    → IsValid lower_bound cap (return_element v p)
return_element-IsValid v p i = return_element-IsValid_at p i v
