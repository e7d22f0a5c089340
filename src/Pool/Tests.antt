-- ===== src/Pool/Tests.antt =====
-- Runs of the pool, and its theorems at a pool of two ports.
use goreverselb.Base.{
  List, [], bytes_key, delete, err, get, nat_key, ok, put, refl, ℕ_discrete, ◌∷◌, ◌≡◌,
}
use goreverselb.Pool.{PoolInts, new_pool_for_range, get_element, return_element, PoolError}
use goreverselb.Pool.Invariant.{status}
use goreverselb.Pool.History.{new_pool_for_range-IsValid, Call, take_port, give_back}
use goreverselb.Pool.Contract.{Grants, Returns, get_element-Grants, return_element-Returns}

abbrev two : PoolInts
two = new_pool_for_range 8000 2

first_port : (get_element 0 0 two).0 ≡ ok 8001
unfolding new_pool_for_range get_element get put delete ℕ_discrete
first_port = refl

other_port : (get_element 5 0 two).0 ≡ ok 8000
unfolding new_pool_for_range get_element get put delete ℕ_discrete
other_port = refl

taken_port :
    (get_element 0 8001 (get_element 0 8001 two).1).0 ≡ err PoolError.explicit_not_available
unfolding new_pool_for_range get_element get put delete ℕ_discrete
taken_port = refl

abbrev script : List Call
script = take_port 0 0 ∷ take_port 0 8000 ∷ give_back 8001 ∷ take_port 0 9000 ∷ []

get_element-Grants_example :
    Grants (status two) 8001 (get_element 0 8001 two).0 (status (get_element 0 8001 two).1)
get_element-Grants_example = get_element-Grants two 0 8001 (new_pool_for_range-IsValid 8000 2)

return_element-Returns_example : Returns (status two) 8001 (status (return_element 8001 two))
return_element-Returns_example = return_element-Returns two 8001 (new_pool_for_range-IsValid 8000 2)
