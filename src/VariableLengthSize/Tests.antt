-- ===== src/VariableLengthSize/Tests.antt =====
-- Runs of the encoder and the decoder, and the theorems at concrete inputs.
use tarm_io.Prelude.{
  pos, negsuc, ℕ, ◌^◌, ◌≤◌, ◌<◌, ◌≡◌, ◌↔◌, refl, arith, true, false, some, List, [], ◌∷◌, ◌++◌,
  take, reverse, if◌then◌else◌, leb,
}
use tarm_io.VariableLengthSize.{
  empty, value, add_byte, add_bytes, of_unsigned, of_signed, max_value, invalid_value, bytes,
  bytes_count, is_complete, fail,
}
use tarm_io.VariableLengthSize.Wire.{groups}
use tarm_io.VariableLengthSize.Decoder.{reading, next, packing}
use tarm_io.VariableLengthSize.Decode.{add_byte-packing}
use tarm_io.VariableLengthSize.RoundTrip.{wire}
use tarm_io.VariableLengthSize.Laws.{
  add_bytes-wire, of_unsigned_cases, bytes_count-minimal, bytes-add_bytes,
}

-- The examples of the header file: 1 is one byte, 128 is two.
wire_1 : wire 1 ≡ 1 ∷ []
unfolding of_unsigned bytes bytes_count
wire_1 = refl

wire_128 : wire 128 ≡ 0x81 ∷ 0 ∷ []
unfolding of_unsigned bytes bytes_count
wire_128 = refl

wire_max : wire max_value ≡ 0xff ∷ 0xff ∷ 0xff ∷ 0xff ∷ 0xff ∷ 0xff ∷ 0xff ∷ 0x7f ∷ []
unfolding of_unsigned bytes bytes_count
wire_max = refl

read_300 : value (add_bytes empty (some (0x82 ∷ 0x2c ∷ 7 ∷ []))).0 ≡ 300
unfolding value add_bytes add_byte
read_300 = refl

abbrev seven_marked : List ℕ
seven_marked = 0x80 ∷ 0x81 ∷ 0x82 ∷ 0x83 ∷ 0x84 ∷ 0x85 ∷ 0xff ∷ []

add_bytes-wire_example :
    (value (add_bytes empty (some (wire 300 ++ 9 ∷ []))).0 ≡ 300)
    × (is_complete (add_bytes empty (some (wire 300 ++ 9 ∷ []))).0 ≡ true)
    × ((add_bytes empty (some (wire 300 ++ 9 ∷ []))).1 ≡ bytes_count (of_unsigned 300))
add_bytes-wire_example = add_bytes-wire 300 (9 ∷ []) (omega arith) (omega arith)

add_byte-packing_example :
    add_byte (packing (reading (0x81 ∷ []))) 5
    ≡ (packing (next (reading (0x81 ∷ [])) 5).0, (next (reading (0x81 ∷ [])) 5).1)
add_byte-packing_example = add_byte-packing (reading (0x81 ∷ [])) 5 (omega arith) (omega arith)

of_unsigned_cases_example :
    (value (of_unsigned 300) ≡ (if leb 300 max_value then 300 else invalid_value))
    × (is_complete (of_unsigned 300) ≡ leb 300 max_value)
    × (fail (of_unsigned 300) ≡ false)
    × (of_signed (pos 300) ≡ of_unsigned 300)
    × (value (of_signed (negsuc 0)) ≡ invalid_value)
of_unsigned_cases_example = of_unsigned_cases 300 0

bytes_count-minimal_example : (bytes_count (of_unsigned 300) ≤ 2) ↔ (300 < 128 ^ 2)
bytes_count-minimal_example = bytes_count-minimal 300 2 (omega arith) (omega arith)

bytes-add_bytes_example :
    let s = (add_bytes empty (some (reverse (0x2c ∷ 0x82 ∷ []) ++ 7 ∷ []))).0 in
    (value s ≡ groups (0x2c ∷ 0x82 ∷ []))
    × (bytes_count s ≡ 2)
    × (take (bytes_count s) (bytes s) ≡ reverse (0x2c ∷ 0x82 ∷ []))
bytes-add_bytes_example =
    bytes-add_bytes 0x2c (0x82 ∷ []) (7 ∷ []) (omega arith) (omega arith) (omega arith)
      (omega arith)
