-- ===== src/VariableLengthSize/Decoder.antt =====
-- The decoder as a state machine over the bytes that it has taken, last byte first. `packing` is the
-- object of source/io/core/VariableLengthSize.cpp that holds such a state in two words.
use tarm_io.Prelude.{
  ℕ, ◌+◌, ◌-◌, ◌*◌, ◌^◌, ◌≤◌, ◌<◌, ◌≡◌, Bool, true, false, List, [], ◌∷◌, length, All, leb, ◌==◌,
  if◌then◌else◌,
}
use tarm_io.VariableLengthSize.{VariableLengthSize}
use tarm_io.VariableLengthSize.Wire.{IsMarked, groups, packed}

pub data Decoder : Type 0 where
  reading done failed : List ℕ → Decoder

-- A byte with its marker asks for more; the eighth byte may not.
unfoldable pub next : Decoder → ℕ → Decoder × Bool
next (reading bs) b =
    if leb 128 b
    then (if length bs == 7 then (failed bs, false) else (reading (b ∷ bs), true))
    else (done (b ∷ bs), true)
next (done bs) b = (done bs, false)
next (failed bs) b = (failed bs, false)

-- The low bits of the decoded word: the number of bytes over the value.
abbrev pub progress : List ℕ → ℕ
progress bs = length bs * 2 ^ 56 + groups bs

abbrev pub packing : Decoder → VariableLengthSize
packing (reading bs) = record {
  encoded_value = packed bs * 256 ^ (8 - length bs);
  decoded_value = progress bs;
}
packing (done bs) = record { encoded_value = packed bs; decoded_value = 2 ^ 63 + progress bs }
packing (failed bs) = record {
  encoded_value = packed bs * 256 ^ (8 - length bs);
  decoded_value = 2 ^ 62 + progress bs;
}

-- The bytes that the decoder may have taken in each state.
abbrev pub IsTaken : Decoder → Type 0
IsTaken (reading bs) = (length bs ≤ 7) × All IsMarked bs
IsTaken (done []) = ⊥
IsTaken (done (b ∷ bs)) = (b < 128) × (length bs ≤ 7) × All IsMarked bs
IsTaken (failed bs) = (length bs ≡ 7) × All IsMarked bs
