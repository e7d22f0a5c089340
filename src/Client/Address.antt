-- ===== src/Client/Address.antt =====
-- What pkg/muxtunnelClient.go and pkg/muxtunnelClientServiceGroup.go use of Go's library for
-- addresses: net.SplitHostPort and the formatting of numbers.
use goreverselb.Base.{
  Bool, Bytes, Option, [], false, if◌then◌else◌, length, none, not, some, suc, zero, ℕ, ◌%◌, ◌&&◌,
  ◌++◌, ◌+◌, ◌/◌, ◌==◌, ◌>>=◌, ◌||◌, ◌∷◌,
}

unfoldable pub has_byte : ℕ → Bytes → Bool
has_byte c [] = false
has_byte c (x ∷ s) = x == c || has_byte c s

-- The text in front of the first such byte, and that behind it.
split_first : ℕ → Bytes → Option (Bytes × Bytes)
split_first c [] = none
split_first c (x ∷ s) =
    let rest = split_first c s in
    if x == c then some ([], s) else (do parts ← rest; some (x ∷ parts.0, parts.1))

unfoldable pub split_last : ℕ → Bytes → Option (Bytes × Bytes)
split_last c [] = none
split_last c (x ∷ s) = elim (split_last c s) [
  | some (before, behind) ↦ some (x ∷ before, behind)
  | none ↦ if x == c then some ([], s) else none
]

-- What stands between the brackets and behind them, and the port.
within : Option (Bytes × Bytes) → Bytes → Option Bytes
unfolding has_byte
within none port = none
within (some (host, behind)) port =
    if length behind == 0
      && not (has_byte b'[' host)
      && not (has_byte b'[' port)
      && not (has_byte b']' port)
    then some host
    else none

-- A host in brackets, whose opening bracket is read.
bracketed : Bytes → Bytes → Option Bytes
unfolding split_first within
bracketed before port = within (split_first b']' before) port

unfoldable pub host_of : Bytes → Bytes → Option Bytes
unfolding bracketed has_byte
host_of [] port = if has_byte b'[' port || has_byte b']' port then none else some []
host_of (c ∷ before) port =
    if c == b'['
    then bracketed before port
    else if has_byte b':' (c ∷ before)
        || has_byte b'[' (c ∷ before)
        || has_byte b']' (c ∷ before)
        || has_byte b'[' port
        || has_byte b']' port
    then none
    else some (c ∷ before)

-- The host that `net.SplitHostPort` returns; `none` for an error.
unfoldable pub split_host_port : Bytes → Option Bytes
unfolding split_last host_of
split_host_port hostport = do parts ← split_last b':' hostport; host_of parts.0 parts.1

unfoldable pub decimal_digits : ℕ → ℕ → Bytes
decimal_digits zero n = []
decimal_digits (suc fuel) n = elim (n / 10) [
  | zero ↦ (48 + n % 10) ∷ []
  | suc m ↦ decimal_digits fuel (suc m) ++ ((48 + n % 10) ∷ [])
]

-- `%d`; a number has no more digits than itself plus one.
unfoldable pub decimal : ℕ → Bytes
unfolding decimal_digits
decimal n = decimal_digits (suc n) n
