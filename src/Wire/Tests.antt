-- ===== src/Wire/Tests.antt =====
-- A frame that is written and read back, and one that is too long.
use goreverselb.Base.{Bytes, [], arith, codes, err, false, length, ok, suc, zero, ℕ, ◌++◌, ◌∷◌, ◌≡◌}
use goreverselb.Wire.{payload_too_long, read_frame}
use goreverselb.Wire.Frame.{read_frame-too_long, written, read_frame-send_serialized_object}

abbrev text : Bytes
text = codes "{\"SourceAddress\":\"10.0.0.9:7\"}"

read_frame-send_serialized_object_example :
    read_frame ((written text).1 ++ (codes "more" ∷ [])) ≡ ok (text, codes "more" ∷ [])
read_frame-send_serialized_object_example =
    read_frame-send_serialized_object text (codes "more" ∷ []) (omega arith) (omega arith)

abbrev zeros : ℕ → Bytes
zeros zero = []
zeros (suc n) = 0 ∷ zeros n

read_frame-too_long_example :
    ((written (zeros 1001)).0 ≡ false)
    × (read_frame ((written (zeros 1001)).1 ++ []) ≡ err (payload_too_long (length (zeros 1001))))
read_frame-too_long_example = read_frame-too_long (zeros 1001) [] (omega arith) (omega arith)
