-- ===== src/Cli/Number.antt =====
-- strconv.Atoi, as cmd/goreverselb/client.go uses it: the value where its error is dropped.
pub mod Printed
use goreverselb.Base.{
  Bytes, Option, [], if◌then◌else◌, leb, ltb, none, some, suc, zero, ℕ, ◌&&◌, ◌*◌, ◌+◌, ◌-◌, ◌==◌,
  ◌^◌, ◌∷◌,
}

pub data ℤ : Type 0 where
  pos negsuc : ℕ → ℤ

-- A number that does not fit in 64 bits ends the loop.
unfoldable pub digits : ℕ → Bytes → Option ℕ
digits n [] = some n
digits n (c ∷ s) =
    let m = n * 10 + (c - 48) in
    if leb 48 c && leb c 57
    then (if ltb m (2 ^ 64) then digits m s else some (2 ^ 64 - 1))
    else none

-- An error is a 0, or the last number for one that is too large.
unfoldable pub magnitude : ℕ → Bytes → ℕ
unfolding digits
magnitude last [] = 0
magnitude last (c ∷ s) = elim (digits 0 (c ∷ s)) [
  | none ↦ 0
  | some n ↦ if ltb last n then last else n
]

unfoldable pub negate : ℕ → ℤ
negate zero = pos 0
negate (suc n) = negsuc n

unfoldable pub atoi : Bytes → ℤ
unfolding magnitude negate
atoi [] = pos 0
atoi (c ∷ s) =
    if c == b'-'
    then negate (magnitude (2 ^ 63) s)
    else if c == b'+'
    then pos (magnitude (2 ^ 63 - 1) s)
    else pos (magnitude (2 ^ 63 - 1) (c ∷ s))
