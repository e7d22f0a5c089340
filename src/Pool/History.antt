-- ===== src/Pool/History.antt =====
-- pkg/pool.go: the pool that NewPoolForRange makes is valid, and stays so whatever is called.
use goreverselb.Base.{
  Bool, Distinct, List, Map, [], arith, bytes_key, get, get-nil, get-put, if◌then◌else◌, length,
  length-put, nat_key, none, put, put-Distinct, some, suc, true, zero, ℕ, ◌+◌, ◌∷◌, ◌≡◌, ◌≤◌,
}
use goreverselb.Pool.Invariant.{IsValid, in_range, get_element-IsValid, return_element-IsValid}
use goreverselb.Pool.{PoolInts, fill, new_pool_for_range, get_element, return_element}

get-fill :
    (lower_bound rounds i v : ℕ) (m : Map ℕ Bool)
    → get v (fill lower_bound rounds i m)
      ≡ (if in_range (lower_bound + i) rounds v then some true else get v m)
unfolding fill in_range
get-fill lower_bound zero i v m = ground arith
get-fill lower_bound (suc rounds) i v m = ground (
  arith,
  get-fill lower_bound rounds (suc i) v (put (lower_bound + i) true m),
  get-put (lower_bound + i) v true m,
)

fill-Distinct :
    (lower_bound rounds i : ℕ) (m : Map ℕ Bool)
    → Distinct m
    → Distinct (fill lower_bound rounds i m)
unfolding fill
fill-Distinct lower_bound zero i m d = d
fill-Distinct lower_bound (suc rounds) i m d =
    fill-Distinct lower_bound rounds (suc i) _ (put-Distinct (lower_bound + i) true m d)

length-fill :
    (lower_bound rounds i : ℕ) (m : Map ℕ Bool)
    → ((j : ℕ) → lower_bound + i ≤ j → get j m ≡ none)
    → length (fill lower_bound rounds i m) ≡ length m + rounds
unfolding fill
length-fill lower_bound zero i m h = omega arith
length-fill lower_bound (suc rounds) i m h = omega (
  arith,
  length-put (lower_bound + i) true m (h (lower_bound + i) (omega arith)),
  length-fill lower_bound rounds (suc i) (put (lower_bound + i) true m)
      (λ j k. ground (arith, get-put (lower_bound + i) j true m, h j)),
)

-- A new pool holds exactly the ports from `lower_bound` up to `lower_bound + cap`, all of them free.
pub new_pool_for_range-IsValid :
    (lower_bound cap : ℕ) → IsValid lower_bound cap (new_pool_for_range lower_bound cap)
unfolding new_pool_for_range in_range
new_pool_for_range-IsValid lower_bound cap = record {
  free_true = λ v b e. ground (arith, get-fill lower_bound cap 0 v [], get-nil {V = Bool} v);
  allocated_true = λ v b e. absurd (cc (get-nil {V = Bool} v));
  disjoint = λ v e. get-nil v;
  covers = λ v. ground (arith, get-fill lower_bound cap 0 v [], get-nil {V = Bool} v);
  free_distinct = fill-Distinct lower_bound cap 0 [] tt;
  allocated_distinct = tt;
  total = omega (arith, length-fill lower_bound cap 0 [] (λ j k. get-nil j));
}

pub data Call : Type 0 where
  take_port : ℕ → ℕ → Call
  give_back : ℕ → Call

pub run : PoolInts → List Call → PoolInts
run p [] = p
run p (take_port pick v ∷ cs) = run (get_element pick v p).1 cs
run p (give_back v ∷ cs) = run (return_element v p) cs

run-IsValid :
    {lower_bound cap : ℕ} (p : PoolInts) (cs : List Call)
    → IsValid lower_bound cap p
    → IsValid lower_bound cap (run p cs)
unfolding run
run-IsValid p [] i = i
run-IsValid p (take_port pick v ∷ cs) i =
    run-IsValid (get_element pick v p).1 cs (get_element-IsValid pick v p i)
run-IsValid p (give_back v ∷ cs) i =
    run-IsValid (return_element v p) cs (return_element-IsValid v p i)

-- After any sequence of calls on a new pool, in any order of `range`, no port is both free and
-- allocated, exactly the ports of the range are one or the other, and their numbers add up to
-- the size of the range.
pub run-new_pool-IsValid :
    (lower_bound cap : ℕ) (cs : List Call)
    → IsValid lower_bound cap (run (new_pool_for_range lower_bound cap) cs)
run-new_pool-IsValid lower_bound cap cs =
    run-IsValid (new_pool_for_range lower_bound cap) cs (new_pool_for_range-IsValid lower_bound cap)
