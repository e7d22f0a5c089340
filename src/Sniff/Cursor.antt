-- ===== src/Sniff/Cursor.antt =====
-- golang.org/x/crypto/cryptobyte, which is not this repository's code: the reads that the decoders
-- of pkg/muxtunnel.go use, as a parameter, and what its documentation says of them. A read that
-- succeeds gives what it read and the rest.
pub mod Concrete
use goreverselb.Base.{Bytes, Option, length, some, ℕ, ◌*◌, ◌++◌, ◌+◌, ◌<◌, ◌∷◌, ◌≡◌}

pub record Cryptobyte : Type 0 where
  pub skip : ℕ → Bytes → Option Bytes
  pub read_bytes : ℕ → Bytes → Option (Bytes × Bytes)
  pub read_uint8 : Bytes → Option (ℕ × Bytes)
  pub read_uint16 : Bytes → Option (ℕ × Bytes)
  pub read_uint8_length_prefixed : Bytes → Option (Bytes × Bytes)
  pub read_uint16_length_prefixed : Bytes → Option (Bytes × Bytes)

-- A number in two bytes, the high one first.
abbrev pub big_endian : ℕ → ℕ → ℕ
big_endian hi lo = hi * 256 + lo

-- The documented reads: each succeeds exactly where the text begins with what it is to read.
pub record IsDocumented (c : Cryptobyte) : Type 0 where
  pub skips : (s t : Bytes) → c.skip (length s) (s ++ t) ≡ some t
  pub reads_bytes : (s t : Bytes) → c.read_bytes (length s) (s ++ t) ≡ some (s, t)
  pub reads_uint8 : (x : ℕ) (t : Bytes) → c.read_uint8 (x ∷ t) ≡ some (x, t)
  pub reads_uint16 :
      (hi lo : ℕ) (t : Bytes) → c.read_uint16 (hi ∷ lo ∷ t) ≡ some (big_endian hi lo, t)
  pub reads_uint8_length_prefixed :
      (s t : Bytes)
      → length s < 256
      → c.read_uint8_length_prefixed (length s ∷ (s ++ t)) ≡ some (s, t)
  pub reads_uint16_length_prefixed :
      (hi lo : ℕ) (s t : Bytes)
      → big_endian hi lo ≡ length s
      → c.read_uint16_length_prefixed (hi ∷ lo ∷ (s ++ t)) ≡ some (s, t)
  pub read_bytes_only :
      (n : ℕ) (b s t : Bytes) → c.read_bytes n b ≡ some (s, t) → (b ≡ s ++ t) × (length s ≡ n)
  pub read_uint8_only : (b : Bytes) (x : ℕ) (t : Bytes) → c.read_uint8 b ≡ some (x, t) → b ≡ x ∷ t
  pub read_uint16_only :
      (b : Bytes) (x : ℕ) (t : Bytes) → c.read_uint16 b ≡ some (x, t) → length b ≡ length t + 2
  pub read_uint16_length_prefixed_only :
      (b s t : Bytes)
      → c.read_uint16_length_prefixed b ≡ some (s, t)
      → length b ≡ length s + length t + 2
