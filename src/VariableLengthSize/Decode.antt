-- ===== src/VariableLengthSize/Decode.antt =====
-- `add_byte` on the two packed words is the decoder.
use tarm_io.Prelude.{
  ℕ, ◌+◌, ◌-◌, ◌^◌, ◌≤◌, ◌<◌, ◌≡◌, arith, true, false, List, [], ◌∷◌, length, All,
}
use tarm_io.Prelude.Bits.{bit_and_low_mask, bit_or_fields_above, bit_and_high}
use tarm_io.VariableLengthSize.{
  is_complete, fail, shift_in, add_byte, set_is_fail, value, set_is_complete,
}
use tarm_io.VariableLengthSize.Wire.{IsByte, groups, packed, packed_lt, marked_bytes}
use tarm_io.VariableLengthSize.Decoder.{
  Decoder, reading, done, failed, next, packing, IsTaken, progress,
}
use tarm_io.VariableLengthSize.Flags.{
  complete_flag, fail_flag, byte_marker, encoded_step, groups-lt, decoded_step, reading_flags,
  progress_lt, groups-lt_word, shift_down,
}

shift_in_marked :
    (bs : List ℕ) (b : ℕ)
    → length bs ≤ 7
    → All IsByte bs
    → b < 256
    → 128 ≤ b
    → shift_in (packing (reading bs)) b ≡ packing (reading (b ∷ bs))
unfolding shift_in
shift_in_marked bs b hn hs hb m = ground (
  arith,
  (reading_flags bs hn).2,
  byte_marker b hb,
  encoded_step (length bs) (packed bs) b hn (packed_lt bs hs),
  decoded_step (length bs) (groups bs) b hn (groups-lt bs hn) hb,
)

shift_in_last :
    (bs : List ℕ) (b : ℕ)
    → length bs ≤ 7
    → All IsByte bs
    → b < 128
    → shift_in (packing (reading bs)) b ≡ packing (done (b ∷ bs))
unfolding shift_in set_is_complete
shift_in_last bs b hn hs hb = ground (
  arith,
  (reading_flags bs hn).2,
  byte_marker b (omega arith),
  encoded_step (length bs) (packed bs) b hn (packed_lt bs hs),
  decoded_step (length bs) (groups bs) b hn (groups-lt bs hn) (omega arith),
  shift_down (packed (b ∷ bs)) (8 - length bs - 1),
  bit_or_fields_above 63 1 (progress (b ∷ bs)) (omega (arith, progress_lt (b ∷ bs) (omega arith))),
)

pub done_flags : (bs : List ℕ) → IsTaken (done bs) → is_complete (packing (done bs)) ≡ true
unfolding is_complete
done_flags [] h = absurd h
done_flags (b ∷ bs) h = ground (
  arith,
  progress_lt (b ∷ bs) (omega arith),
  bit_and_high 63 1 (progress (b ∷ bs)) 1 (omega (arith, progress_lt (b ∷ bs) (omega arith))),
)

pub failed_flags :
    (bs : List ℕ)
    → length bs ≤ 7
    → (is_complete (packing (failed bs)) ≡ false) × (fail (packing (failed bs)) ≡ true)
unfolding is_complete fail
failed_flags bs h = ground (
  arith,
  groups-lt bs h,
  complete_flag 1 (length bs) (groups bs),
  fail_flag 1 (length bs) (groups bs),
)

set_is_fail-packing :
    (bs : List ℕ) → length bs ≤ 7 → set_is_fail (packing (reading bs)) ≡ packing (failed bs)
unfolding set_is_fail
set_is_fail-packing bs h =
    ground
      (arith, bit_or_fields_above 62 1 (progress bs) (omega (arith, progress_lt bs (omega arith))))

add_byte_reading :
    (bs : List ℕ) (b : ℕ)
    → IsTaken (reading bs)
    → b < 256
    → add_byte (packing (reading bs)) b ≡ (packing (next (reading bs) b).0, (next (reading bs) b).1)
unfolding add_byte next
add_byte_reading bs b h hb = ground (
  arith,
  reading_flags bs h.0,
  byte_marker b hb,
  set_is_fail-packing bs h.0,
  shift_in_marked bs b h.0 (marked_bytes bs h.1) hb,
  shift_in_last bs b h.0 (marked_bytes bs h.1),
)

-- On every state that decoding can reach and every byte, `add_byte` on the two packed words makes
-- the step of the decoder: the same next state, packed, and the same answer.
pub add_byte-packing :
    (d : Decoder) (b : ℕ)
    → IsTaken d
    → b < 256
    → add_byte (packing d) b ≡ (packing (next d b).0, (next d b).1)
add_byte-packing (reading bs) b h hb = add_byte_reading bs b h hb
add_byte-packing (done bs) b h hb = unfold add_byte next in ground (arith, done_flags bs h)
add_byte-packing (failed bs) b h hb =
    unfold add_byte next in ground (arith, failed_flags bs (omega arith))

-- A step keeps the state within what decoding can reach.
pub next-IsTaken : (d : Decoder) (b : ℕ) → IsTaken d → b < 256 → IsTaken (next d b).0
unfolding next
next-IsTaken (reading bs) b h hb = ground arith
next-IsTaken (done bs) b h hb = h
next-IsTaken (failed bs) b h hb = h

-- The value of an object is read off its decoder: the groups of a complete header, and the invalid
-- value otherwise.
pub value-done : (bs : List ℕ) → IsTaken (done bs) → value (packing (done bs)) ≡ groups bs
unfolding value
value-done [] h = absurd h
value-done (b ∷ bs) h = ground (
  arith,
  done_flags (b ∷ bs) h,
  groups-lt_word (b ∷ bs) (omega arith),
  bit_and_low_mask 56 (2 ^ 7 + length (b ∷ bs)) (groups (b ∷ bs)),
)

pub done_not_failed : (bs : List ℕ) → IsTaken (done bs) → fail (packing (done bs)) ≡ false
unfolding fail
done_not_failed [] h = absurd h
done_not_failed (b ∷ bs) h =
    ground (
      arith,
      groups-lt_word (b ∷ bs) (omega arith),
      fail_flag 2 (length (b ∷ bs)) (groups (b ∷ bs)),
    )
