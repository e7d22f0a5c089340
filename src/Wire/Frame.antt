-- ===== src/Wire/Frame.antt =====
-- A frame is read back, pkg/types.go.
use goreverselb.Base.{
  Bool, Bytes, List, [], ap, arith, err, false, length, ok, some, take_of_length-le, ℕ, ◌%◌, ◌++◌,
  ◌<◌, ◌^◌, ◌∷◌, ◌≡◌, ◌≤◌,
}
use goreverselb.Wire.{
  read, read_frame, read_payload, put_uint16, uint16, payload, payload_too_long,
  send_serialized_object,
}

put_uint16-uint16 : (n : ℕ) → uint16 (put_uint16 n) ≡ n
unfolding uint16 put_uint16
put_uint16-uint16 n = omega arith

read_all :
    (b : Bytes) (chunks : List Bytes)
    → 0 < length b
    → read (length b) (b ∷ chunks) ≡ some (b, chunks)
unfolding read
read_all [] chunks h = absurd (omega arith)
read_all (x ∷ b) chunks h = ground (arith, take_of_length-le (length (x ∷ b)) (x ∷ b))

-- Two writes that take all they are given.
abbrev pub written : Bytes → Bool × List Bytes
written b =
    send_serialized_object (some b) (record { count = 2; failed = false })
      (record { count = length b; failed = false })

pub sends : (b : Bytes) → written b ≡ (false, put_uint16 (length b % 2 ^ 16) ∷ b ∷ [])
unfolding send_serialized_object
sends b = ground arith

reads_payload :
    (b : Bytes) (chunks : List Bytes)
    → 0 < length b
    → length b ≤ 1000
    → read_payload (length b) (b ∷ chunks) ≡ ok (b, chunks)
unfolding read_payload payload
reads_payload b chunks pos h = ground (arith, read_all b chunks pos)

reads_header :
    (n : ℕ) (chunks : List Bytes) → read_frame (put_uint16 n ∷ chunks) ≡ read_payload n chunks
unfolding read_frame read put_uint16
reads_header n chunks = ap (λ m. read_payload m chunks) (put_uint16-uint16 n)

unwrapped : (n : ℕ) → n < 2 ^ 16 → n % 2 ^ 16 ≡ n
unwrapped n h = omega arith

small : (n : ℕ) → n ≤ 1000 → n % 2 ^ 16 ≡ n
small n h = omega arith

-- What sendSerializedObject writes in two writes is read back as the object's text, whatever
-- follows, if the text has at least one and at most 1000 bytes and both writes take all of it.
pub read_frame-send_serialized_object :
    (b : Bytes) (chunks : List Bytes)
    → 0 < length b
    → length b ≤ 1000
    → read_frame ((written b).1 ++ chunks) ≡ ok (b, chunks)
read_frame-send_serialized_object b chunks pos h =
    rw (sends b, small (length b) h, reads_header (length b) (b ∷ chunks))
      (reads_payload b chunks pos h)

-- An object whose text is longer than 1000 bytes and shorter than 2^16 is sent without an error, by
-- two writes that take all they are given, and is refused as too long where it is read, whatever
-- follows.
pub read_frame-too_long :
    (b : Bytes) (chunks : List Bytes)
    → 1000 < length b
    → length b < 2 ^ 16
    → ((written b).0 ≡ false)
      × (read_frame ((written b).1 ++ chunks) ≡ err (payload_too_long (length b)))
unfolding read_payload
read_frame-too_long b chunks long h = (
  ap (λ w. w.0) (sends b),
  rw (sends b, unwrapped (length b) h, reads_header (length b) (b ∷ chunks)) (ground arith),
)
