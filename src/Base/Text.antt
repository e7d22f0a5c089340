-- ===== src/Base/Text.antt =====
-- A Go string is a sequence of bytes; so is a `[]byte`, which is a value here.
use Prim.Native.Char.{code}
use Prim.Native.Nat.{ℕ}
use Prim.Native.String.{String}
use mathlib.Core.Path.{◌≡◌, refl}
use mathlib.Core.Logic.{◌≢◌}
use mathlib.Core.List.{List, [], ◌∷◌}
use native.Mathlib.Decide.{ℕ_discrete}

abbrev pub Bytes : Type 0
Bytes = List ℕ

-- The bytes of an ASCII literal.
abbrev pub codes : String → Bytes
codes String.[] = []
codes (String.◌∷◌ c s) = code c ∷ codes s

-- The byte does not stand in the text.
abbrev pub Without : ℕ → Bytes → Type 0
Without sep [] = Unit {0}
Without sep (c ∷ s) = (c ≢ sep) × Without sep s

join : {x y : ℕ} {xs ys : Bytes} → Dec (x ≡ y) → Dec (xs ≡ ys) → Dec ((x ∷ xs) ≡ (y ∷ ys))
join (yes p) (yes q) = yes (cc)
join (yes p) (no q) = no (λ e. q (cc))
join (no p) q = no (λ e. p (cc))

-- Go's `==` on strings.
unfoldable pub bytes_dec : Discrete Bytes
unfolding join ℕ_discrete
bytes_dec [] [] = yes refl
bytes_dec [] (y ∷ ys) = no (λ e. cc)
bytes_dec (x ∷ xs) [] = no (λ e. cc)
bytes_dec (x ∷ xs) (y ∷ ys) = join (ℕ_discrete x y) (bytes_dec xs ys)
