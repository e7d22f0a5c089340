-- ===== src/Wire.antt =====
-- The frames in which the server tells a client about a connection: sendSerializedObject and
-- readFrame of pkg/types.go. A connection gives what it has in chunks; the JSON text is what the
-- library makes of the object.
pub mod Frame
mod Tests
use goreverselb.Base.{
  Bool, Bytes, List, Option, Result, [], drop, err, false, if◌then◌else◌, leb, length, ltb, none,
  not, ok, some, suc, take, true, zero, ℕ, ◌%◌, ◌*◌, ◌+◌, ◌/◌, ◌==◌, ◌^◌, ◌∷◌,
}

-- `binary.LittleEndian.PutUint16`.
unfoldable pub put_uint16 : ℕ → Bytes
put_uint16 n = (n % 256) ∷ (n / 256) ∷ []

-- How many bytes a write took, and whether it reported an error.
pub record Write : Type 0 where
  pub count : ℕ
  pub failed : Bool

-- The error that is returned, if any: `none` for nil, also where a count is wrong and the write
-- reported nothing.
unfoldable pub send_serialized_object : Option Bytes → Write → Write → Bool × List Bytes
send_serialized_object none first second = (true, [])
send_serialized_object (some b) first second =
    let payload_len = length b % 2 ^ 16 in
    let header = put_uint16 payload_len in
    if not (first.count % 2 ^ 16 == 2)
    then (first.failed, header ∷ [])
    else if not (second.count % 2 ^ 16 == payload_len)
    then (second.failed, header ∷ b ∷ [])
    else (false, header ∷ b ∷ [])

-- `conn.Read(b[0:n])`: at most `n` bytes of what is there; an error where nothing comes any more.
-- A read of no bytes takes none.
unfoldable pub read : ℕ → List Bytes → Option (Bytes × List Bytes)
read zero chunks = some ([], chunks)
read (suc n) [] = none
read (suc n) (chunk ∷ chunks) =
    some (
      take (suc n) chunk,
      if leb (length chunk) (suc n) then chunks else drop (suc n) chunk ∷ chunks,
    )

pub data FrameError : Type 0 where
  bad_frame_format : FrameError
  payload_too_long : ℕ → FrameError
  not_enough_data : FrameError

-- `binary.LittleEndian.Uint16`.
unfoldable pub uint16 : Bytes → ℕ
uint16 (lo ∷ hi ∷ rest) = lo + hi * 256
uint16 _ = 0

unfoldable pub payload : ℕ → Option (Bytes × List Bytes) → Result FrameError (Bytes × List Bytes)
payload n none = err not_enough_data
payload n (some (b, chunks)) =
    if length b % 2 ^ 16 == n then ok (b, chunks) else err not_enough_data

unfoldable pub read_payload : ℕ → List Bytes → Result FrameError (Bytes × List Bytes)
read_payload payload_len chunks =
    if ltb 1000 payload_len
    then err (payload_too_long payload_len)
    else payload payload_len (read payload_len chunks)

-- The frame, and what is left on the connection.
unfoldable pub read_frame : List Bytes → Result FrameError (Bytes × List Bytes)
read_frame chunks = elim (read 2 chunks) [
  | none ↦ err bad_frame_format
  | some (l, chunks') ↦
      if not (length l == 2) then err bad_frame_format else read_payload (uint16 l) chunks'
]
