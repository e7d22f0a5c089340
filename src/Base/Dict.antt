-- ===== src/Base/Dict.antt =====
-- Go's `map`: an association list. The order of the list is the order in which `range` visits the
-- keys; Go leaves that order open, and a statement over all lists speaks of all orders.
use Prim.Native.Nat.{ℕ, ◌+◌, ◌≤◌, ◌<◌}
use mathlib.Core.Path.{◌≡◌, refl}
use mathlib.Core.Logic.{◌≢◌, ite}
use mathlib.Core.List.{List, [], ◌∷◌}
use mathlib.Core.Option.{Option, none, some}
use native.Mathlib.Omega.{arith}
use native.Mathlib.Decide.{ℕ_discrete}
use goreverselb.Base.Lists.{length}
use goreverselb.Base.Text.{Bytes, bytes_dec}

-- The comparison of keys.
pub record Key {ℓ} (K : Type ℓ) : Type ℓ where
  pub dec : Discrete K

instance abbrev pub nat_key : Key ℕ
nat_key = record { dec = ℕ_discrete }

instance abbrev pub bytes_key : Key Bytes
bytes_key = record { dec = bytes_dec }

abbrev pub Map : Type 0 → Type 0 → Type 0
Map K V = List (K × V)

module _ {K V : Type 0} ⦃o : Key K⦄ where
  -- `v, ok := m[k]`
  unfoldable pub get : K → Map K V → Option V
  get k [] = none
  get k ((j, v) ∷ m) = ite (o.dec j k) (some v) (get k m)

  -- `delete(m, k)`
  unfoldable pub delete : K → Map K V → Map K V
  delete k [] = []
  delete k ((j, v) ∷ m) = let rest = delete k m in ite (o.dec j k) rest ((j, v) ∷ rest)

  -- `m[k] = v`
  unfoldable pub put : K → V → Map K V → Map K V
  unfolding delete
  put k v m = (k, v) ∷ delete k m

  pub get-delete : (k j : K) (m : Map K V) → get j (delete k m) ≡ ite (o.dec k j) none (get j m)
  unfolding get delete
  get-delete k j [] = ground arith
  get-delete k j ((i, v) ∷ m) = ground (arith, get-delete k j m)

  pub get-delete_self : (k : K) (m : Map K V) → get k (delete k m) ≡ none
  get-delete_self k m = ground (arith, get-delete k k m)

  pub get-delete_ne : (k j : K) (m : Map K V) → k ≢ j → get j (delete k m) ≡ get j m
  get-delete_ne k j m h = ground (arith, get-delete k j m)

  pub get-put :
      (k j : K) (v : V) (m : Map K V) → get j (put k v m) ≡ ite (o.dec k j) (some v) (get j m)
  unfolding get put
  get-put k j v m = ground (arith, get-delete k j m)

  pub get-put_self : (k : K) (v : V) (m : Map K V) → get k (put k v m) ≡ some v
  get-put_self k v m = ground (arith, get-put k k v m)

  pub get-put_ne : (k j : K) (v : V) (m : Map K V) → k ≢ j → get j (put k v m) ≡ get j m
  get-put_ne k j v m h = ground (arith, get-put k j v m)

  pub length-delete-le : (k : K) (m : Map K V) → length (delete k m) ≤ length m
  unfolding delete
  length-delete-le k [] = omega arith
  length-delete-le k ((j, v) ∷ m) = ground (arith, length-delete-le k m)

  pub delete_absent : (k : K) (m : Map K V) → get k m ≡ none → delete k m ≡ m
  unfolding get delete
  delete_absent k [] h = refl
  delete_absent k ((j, v) ∷ m) h = ground (arith, delete_absent k m)

  -- No key stands twice, as in every Go map.
  abbrev pub Distinct : Map K V → Type 0
  Distinct [] = Unit {0}
  Distinct ((k, v) ∷ m) = (get k m ≡ none) × Distinct m

  pub delete-Distinct : (k : K) (m : Map K V) → Distinct m → Distinct (delete k m)
  unfolding delete
  delete-Distinct k [] d = tt
  delete-Distinct k ((j, v) ∷ m) d = ground (arith, delete-Distinct k m d.1, get-delete k j m)

  pub put-Distinct : (k : K) (v : V) (m : Map K V) → Distinct m → Distinct (put k v m)
  unfolding put
  put-Distinct k v m d = (get-delete_self k m, delete-Distinct k m d)

  pub length-delete :
      (k : K) (v : V) (m : Map K V)
      → Distinct m
      → get k m ≡ some v
      → length (delete k m) + 1 ≡ length m
  unfolding get delete
  length-delete k v [] d h = cc
  length-delete k v ((j, w) ∷ m) d h = ground (arith, length-delete k v m d.1, delete_absent k m)

  pub length-put :
      (k : K) (v : V) (m : Map K V) → get k m ≡ none → length (put k v m) ≡ length m + 1
  unfolding put
  length-put k v m h = ground (arith, delete_absent k m h)

  -- A map of length zero has no key.
  pub get-length-zero : (k : K) (m : Map K V) → length m ≡ 0 → get k m ≡ none
  unfolding get
  get-length-zero k [] h = refl
  get-length-zero k (e ∷ m) h = absurd (omega arith)

  pub length-pos_of_get : (k : K) (m : Map K V) {v : V} → get k m ≡ some v → 0 < length m
  unfolding get
  length-pos_of_get k [] h = absurd (cc)
  length-pos_of_get k (e ∷ m) h = omega arith

pub get-nil : {K V : Type 0} ⦃o : Key K⦄ (k : K) → get {V = V} k [] ≡ none
unfolding get
get-nil k = refl

pub ruleset map_laws = (get-delete, get-put, get-delete_self, get-put_self)
