-- ===== src/Cli/Number/Printed.antt =====
-- Atoi reads what `%d` prints.
use goreverselb.Base.{
  Bytes, [], ap, arith, length, refl, some, subst, suc, sym, zero, ℕ, ℕ_discrete, ◌%◌, ◌*◌, ◌++◌,
  ◌+◌, ◌-◌, ◌/◌, ◌<◌, ◌^◌, ◌∙◌, ◌∷◌, ◌≡◌, ◌≤◌,
}
use mathlib.Core.List.{append_assoc, append-nil}
use goreverselb.Client.Address.{decimal, decimal_digits}
use goreverselb.Cli.Number.{pos, digits, magnitude, atoi}

digits_last :
    (n k : ℕ) (t : Bytes)
    → k < 10
    → n * 10 + k < 2 ^ 64
    → digits n ((48 + k) ∷ t) ≡ digits (n * 10 + k) t
unfolding digits
digits_last n k t l h = let e : 48 + k - 48 ≡ k = omega arith in ground (arith, e)

one_digit : (fuel n : ℕ) → n / 10 ≡ 0 → decimal_digits (suc fuel) n ≡ (48 + n % 10) ∷ []
unfolding decimal_digits
one_digit fuel n h = rw (h, decimal_digits)

more_digits :
    (fuel n m : ℕ)
    → n / 10 ≡ suc m
    → decimal_digits (suc fuel) n ≡ decimal_digits fuel (suc m) ++ ((48 + n % 10) ∷ [])
unfolding decimal_digits
more_digits fuel n m h = rw (h, decimal_digits)

digits_nil : (n : ℕ) → digits n [] ≡ some n
unfolding digits
digits_nil n = refl

-- The printed digits are read as the number that they print.
digits-decimal_digits :
    (fuel n : ℕ) (t : Bytes)
    → n < fuel
    → n < 2 ^ 64
    → digits 0 (decimal_digits fuel n ++ t) ≡ digits n t
digits-decimal_digits zero n t f h = absurd (omega arith)
digits-decimal_digits (suc fuel) n t f h =
    let small : n % 10 < 10 = omega arith in
    let whole : n / 10 * 10 + n % 10 ≡ n = omega arith in
    elim (ℕ_discrete (n / 10) 0) [
      | yes e ↦
          rw (one_digit fuel n e)
            (digits_last 0 (n % 10) t small (omega arith) ∙ ap (λ x. digits x t) (omega arith))
      | no k ↦
          let e : n / 10 ≡ suc (n / 10 - 1) = omega arith in
          rw (more_digits fuel n (n / 10 - 1) e) (
            ap (digits 0)
              (append_assoc (decimal_digits fuel (suc (n / 10 - 1))) ((48 + n % 10) ∷ []) t)
            ∙ digits-decimal_digits fuel (suc (n / 10 - 1)) ((48 + n % 10) ∷ t) (omega arith)
                (omega arith)
            ∙ ap (λ x. digits x ((48 + n % 10) ∷ t)) (sym e)
            ∙ digits_last (n / 10) (n % 10) t small (omega arith)
            ∙ ap (λ x. digits x t) whole)
    ]

abbrev pub AllDigits : Bytes → Type 0
AllDigits [] = Unit {0}
AllDigits (c ∷ s) = (48 ≤ c) × (c ≤ 57) × AllDigits s

append-AllDigits : (s : Bytes) (c : ℕ) → AllDigits s → 48 ≤ c → c ≤ 57 → AllDigits (s ++ (c ∷ []))
append-AllDigits [] c a l h = (l, h, tt)
append-AllDigits (x ∷ s) c (l', h', a) l h = (l', h', append-AllDigits s c a l h)

decimal_digits-AllDigits : (fuel n : ℕ) → AllDigits (decimal_digits fuel n)
unfolding decimal_digits
decimal_digits-AllDigits zero n = tt
decimal_digits-AllDigits (suc fuel) n = elim (ℕ_discrete (n / 10) 0) [
  | yes e ↦
      subst (λ (s : Bytes). AllDigits s) (sym (one_digit fuel n e)) (omega arith, omega arith, tt)
  | no k ↦
      let e : n / 10 ≡ suc (n / 10 - 1) = omega arith in
      subst (λ (s : Bytes). AllDigits s) (sym (more_digits fuel n (n / 10 - 1) e))
        (append-AllDigits (decimal_digits fuel (suc (n / 10 - 1))) (48 + n % 10)
          (decimal_digits-AllDigits fuel (suc (n / 10 - 1))) (omega arith) (omega arith))
]

pub decimal-AllDigits : (n : ℕ) → AllDigits (decimal n)
unfolding decimal
decimal-AllDigits n = decimal_digits-AllDigits (suc n) n

atoi-digits :
    (n : ℕ) (s : Bytes)
    → AllDigits s
    → 0 < length s
    → n < 2 ^ 63
    → digits 0 s ≡ some n
    → atoi s ≡ pos n
unfolding atoi magnitude
atoi-digits n [] a l h d = absurd (omega arith)
atoi-digits n (c ∷ s) (low, high, a) l h d = ground (arith, d)

length-append_pos : (s t : Bytes) → 0 < length t → 0 < length (s ++ t)
length-append_pos [] t h = h
length-append_pos (c ∷ s) t h = omega arith

length-decimal_digits : (fuel n : ℕ) → 0 < length (decimal_digits (suc fuel) n)
length-decimal_digits fuel n = elim (ℕ_discrete (n / 10) 0) [
  | yes e ↦ rw (one_digit fuel n e) (omega arith)
  | no k ↦ rw (more_digits fuel n (n / 10 - 1) (omega arith)) (
      length-append_pos (decimal_digits fuel (suc (n / 10 - 1))) ((48 + n % 10) ∷ []) (omega arith))
]

pub atoi-decimal : (n : ℕ) → n < 2 ^ 63 → atoi (decimal n) ≡ pos n
unfolding decimal
atoi-decimal n h = atoi-digits n (decimal n) (decimal-AllDigits n) (length-decimal_digits n n) h (
    ap (digits 0) (sym (append-nil (decimal_digits (suc n) n)))
    ∙ digits-decimal_digits (suc n) n [] (omega arith) (omega arith)
    ∙ digits_nil n)
