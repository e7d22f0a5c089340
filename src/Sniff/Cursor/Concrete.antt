-- ===== src/Sniff/Cursor/Concrete.antt =====
-- Reads that behave as documented: they show that the hypotheses on the package can hold.
use goreverselb.Base.{
  Bytes, Option, [], ap, arith, drop, drop-length-append, if◌then◌else◌, leb, length, length-append,
  length-take_of_le, none, refl, some, take, take-append-drop, take-length-append, ℕ, ◌++◌, ◌+◌,
  ◌∷◌, ◌≡◌,
}
use goreverselb.Sniff.Cursor.{Cryptobyte, IsDocumented, big_endian}

split_at : ℕ → Bytes → Option (Bytes × Bytes)
split_at n s = if leb n (length s) then some (take n s, drop n s) else none

skip_bytes : ℕ → Bytes → Option Bytes
skip_bytes n s = if leb n (length s) then some (drop n s) else none

read_byte : Bytes → Option (ℕ × Bytes)
read_byte [] = none
read_byte (x ∷ t) = some (x, t)

read_pair : Bytes → Option (ℕ × Bytes)
read_pair (hi ∷ lo ∷ t) = some (big_endian hi lo, t)
read_pair _ = none

read_prefixed8 : Bytes → Option (Bytes × Bytes)
unfolding split_at
read_prefixed8 [] = none
read_prefixed8 (n ∷ t) = split_at n t

read_prefixed16 : Bytes → Option (Bytes × Bytes)
unfolding split_at
read_prefixed16 (hi ∷ lo ∷ t) = split_at (big_endian hi lo) t
read_prefixed16 _ = none

unfoldable pub concrete : Cryptobyte
unfolding split_at skip_bytes read_byte read_pair read_prefixed8 read_prefixed16
concrete = record {
  skip = skip_bytes;
  read_bytes = split_at;
  read_uint8 = read_byte;
  read_uint16 = read_pair;
  read_uint8_length_prefixed = read_prefixed8;
  read_uint16_length_prefixed = read_prefixed16;
}

split_at-append : (s t : Bytes) → split_at (length s) (s ++ t) ≡ some (s, t)
unfolding split_at
split_at-append s t =
    ground (arith, length-append s t, take-length-append s t, drop-length-append s t)

skip_bytes-append : (s t : Bytes) → skip_bytes (length s) (s ++ t) ≡ some t
unfolding skip_bytes
skip_bytes-append s t = ground (arith, length-append s t, drop-length-append s t)

split_at-some : (n : ℕ) (b s t : Bytes) → split_at n b ≡ some (s, t) → (b ≡ s ++ t) × (length s ≡ n)
unfolding split_at
split_at-some n b s t h = ground (arith, take-append-drop n b, length-take_of_le n b)

read_byte-some : (b : Bytes) (x : ℕ) (t : Bytes) → read_byte b ≡ some (x, t) → b ≡ x ∷ t
unfolding read_byte
read_byte-some [] x t h = absurd (cc)
read_byte-some (y ∷ b) x t h = ground arith

read_pair-some :
    (b : Bytes) (x : ℕ) (t : Bytes) → read_pair b ≡ some (x, t) → length b ≡ length t + 2
unfolding read_pair
read_pair-some (hi ∷ lo ∷ b) x t h = ground arith
read_pair-some [] x t h = absurd (cc)
read_pair-some (hi ∷ []) x t h = absurd (cc)

read_prefixed16-some :
    (b s t : Bytes) → read_prefixed16 b ≡ some (s, t) → length b ≡ length s + length t + 2
unfolding read_prefixed16
read_prefixed16-some (hi ∷ lo ∷ b) s t h =
    let r = split_at-some (big_endian hi lo) b s t h in
    omega (arith, ap length r.0, length-append s t)
read_prefixed16-some [] s t h = absurd (cc)
read_prefixed16-some (hi ∷ []) s t h = absurd (cc)

pub concrete-IsDocumented : IsDocumented concrete
unfolding concrete
concrete-IsDocumented = record {
  skips = skip_bytes-append;
  reads_bytes = split_at-append;
  reads_uint8 = λ x t. refl;
  reads_uint16 = λ hi lo t. refl;
  reads_uint8_length_prefixed = λ s t h. split_at-append s t;
  reads_uint16_length_prefixed = λ hi lo s t h. rw h (split_at-append s t);
  read_bytes_only = split_at-some;
  read_uint8_only = read_byte-some;
  read_uint16_only = read_pair-some;
  read_uint16_length_prefixed_only = read_prefixed16-some;
}
