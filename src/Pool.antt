-- ===== src/Pool.antt =====
-- The pool of frontend ports, pkg/pool.go. The mutex makes each method one step. `range` may
-- visit the free ports in any order: the argument `pick` says where the one visited first stands.
pub mod Invariant
pub mod History
pub mod Contract
mod Tests
use goreverselb.Base.{
  Bool, Map, Result, [], bytes_key, delete, err, false, get, if◌then◌else◌, length, nat_key, none,
  ok, put, some, suc, true, zero, ℕ, ◌+◌, ◌==◌, ◌∷◌,
}

pub record PoolInts : Type 0 where
  pub free : Map ℕ Bool
  pub allocated : Map ℕ Bool
  pub tail : ℕ

pub data PoolError : Type 0 where
  no_more_elements explicit_not_available : PoolError

-- `m[v]`: the zero value of a missing key is `false`.
unfoldable pub holds : ℕ → Map ℕ Bool → Bool
holds v m = elim (get v m) [ none ↦ false | some b ↦ b ]

-- The rounds left, and the index `i`.
unfoldable pub fill : ℕ → ℕ → ℕ → Map ℕ Bool → Map ℕ Bool
fill lower_bound zero i free = free
fill lower_bound (suc rounds) i free =
    fill lower_bound rounds (suc i) (put (lower_bound + i) true free)

unfoldable pub new_pool_for_range : ℕ → ℕ → PoolInts
unfolding fill
new_pool_for_range lower_bound cap = record {
  free = fill lower_bound cap 0 [];
  allocated = [];
  tail = 0;
}

-- The key that `range` visits first.
unfoldable pub some_key : ℕ → Map ℕ Bool → ℕ
some_key pick [] = 0
some_key zero ((k, b) ∷ m) = k
some_key (suc pick) ((k, b) ∷ []) = k
some_key (suc pick) ((k, b) ∷ e ∷ m) = some_key pick (e ∷ m)

unfoldable pub move_to_allocated : ℕ → PoolInts → PoolInts
move_to_allocated v p = record p { free = delete v p.free; allocated = put v true p.allocated }

unfoldable pub get_element : ℕ → ℕ → PoolInts → Result PoolError ℕ × PoolInts
unfolding holds some_key move_to_allocated
get_element pick v p =
    if length p.free == 0
    then (err no_more_elements, p)
    else if v == 0
    then (ok (some_key pick p.free), move_to_allocated (some_key pick p.free) p)
    else if holds v p.free
    then (ok v, move_to_allocated v p)
    else (err explicit_not_available, p)

unfoldable pub return_element : ℕ → PoolInts → PoolInts
unfolding holds
return_element v p =
    if holds v p.allocated
    then record p { allocated = delete v p.allocated; free = put v true p.free }
    else p
