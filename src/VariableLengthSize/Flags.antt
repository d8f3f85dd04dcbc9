-- ===== src/VariableLengthSize/Flags.antt =====
-- The flags and the fields of the packed words of source/io/core/VariableLengthSize.cpp.
use tarm_io.Prelude.{
  ℕ, zero, suc, ◌+◌, ◌-◌, ◌*◌, ◌/◌, ◌%◌, ◌^◌, ◌≤◌, ◌<◌, ◌≡◌, refl, ap, arith, bit_and, bit_or,
  false, List, length,
}
use tarm_io.Prelude.Bits.{bit_and_low_mask, bit_or_fields, bit_or_fields_above, bit_and_high}
use tarm_io.VariableLengthSize.{u64, is_complete, fail, count_field, is_complete_mask, is_fail_mask}
use tarm_io.VariableLengthSize.Wire.{groups, groups_lt, bytes_to_bits}
use tarm_io.VariableLengthSize.Decoder.{reading, packing, progress}
use native.Mathlib.Nat.{pow-le-pow_right, one-le-pow, mul-div_cancel}

-- The flags and the count of a decoded word `flag * 2 ^ 62 + n * 2 ^ 56 + v`.
count_field_lem : (f n v : ℕ) → n < 16 → v < 2 ^ 56 → count_field (f * 2 ^ 62 + n * 2 ^ 56 + v) ≡ n
unfolding count_field
count_field_lem f n v hn hv =
    ground (arith, bit_and_high 56 (f * 64 + n) v 15 hv, bit_and_low_mask 4 (f * 4) n hn)

pub complete_flag :
    (f n v : ℕ)
    → f < 4
    → n < 16
    → v < 2 ^ 56
    → bit_and (f * 2 ^ 62 + n * 2 ^ 56 + v) is_complete_mask ≡ bit_and (f / 2) 1 * 2 ^ 63
complete_flag f n v hf hn hv =
    ground (arith, bit_and_high 63 (f / 2) (f % 2 * 2 ^ 62 + n * 2 ^ 56 + v) 1 (omega arith))

pub fail_flag :
    (f n v : ℕ)
    → f < 4
    → n < 16
    → v < 2 ^ 56
    → bit_and (f * 2 ^ 62 + n * 2 ^ 56 + v) is_fail_mask ≡ bit_and f 1 * 2 ^ 62
fail_flag f n v hf hn hv = ground (arith, bit_and_high 62 f (n * 2 ^ 56 + v) 1 (omega arith))

pub byte_marker : (b : ℕ) → b < 256 → bit_and b 0x80 ≡ bit_and (b / 128) 1 * 128
byte_marker b h = ground (arith, bit_and_high 7 (b / 128) (b % 128) 1 (omega arith))

-- `256 ^ n` bytes of weight below the top of a word, for a count that `add_byte` can meet.
weights :
    (n : ℕ) → n ≤ 7 → (256 ^ (8 - n) ≡ 256 * 256 ^ (7 - n)) × (256 ^ n * 256 ^ (7 - n) ≡ 2 ^ 56)
weights zero h = (refl, refl)
weights (suc zero) h = (refl, refl)
weights (suc (suc zero)) h = (refl, refl)
weights (suc (suc (suc zero))) h = (refl, refl)
weights (suc (suc (suc (suc zero)))) h = (refl, refl)
weights (suc (suc (suc (suc (suc zero))))) h = (refl, refl)
weights (suc (suc (suc (suc (suc (suc zero)))))) h = (refl, refl)
weights (suc (suc (suc (suc (suc (suc (suc zero))))))) h = (refl, refl)
weights (suc (suc (suc (suc (suc (suc (suc (suc n)))))))) h = absurd (omega arith)

place_byte :
    (p b s w : ℕ)
    → p < w
    → 0 < s
    → w * s ≡ 2 ^ 56
    → bit_or (p * (256 * s) / 2 ^ 8) (b * 2 ^ 56) ≡ (p + b * w) * s
place_byte p b s w hp hs e =
    let below : p * s < 2 ^ 56 = grind arith in
    ground (arith, bit_or_fields_above 56 b (p * s) below, ap (λ (t : ℕ). b * t) e)

-- The encoded word after a byte: one place down, and the byte on top.
pub encoded_step :
    (n p b : ℕ)
    → n ≤ 7
    → p < 256 ^ n
    → bit_or (p * 256 ^ (8 - n) / 2 ^ 8) (b * 2 ^ 56) ≡ (p + b * 256 ^ n) * 256 ^ (8 - suc n)
encoded_step n p b hn hp =
    let same : 8 - suc n ≡ 7 - n = omega arith in
    rw ((weights n hn).0, same)
      (place_byte p b (256 ^ (7 - n)) (256 ^ n) hp (one-le-pow (7 - n) 256 (omega arith))
        (weights n hn).1)

-- The value after at most seven bytes leaves the upper byte of the word free.
pub groups-lt : (bs : List ℕ) → length bs ≤ 7 → groups bs < 2 ^ 49
groups-lt bs h = omega (arith, groups_lt bs, pow-le-pow_right {n = 128} (omega arith) {j = 7} h)

pub decoded_step :
    (n v b : ℕ)
    → n ≤ 7
    → v < 2 ^ 49
    → b < 256
    → bit_or
        (bit_or
          (bit_and (u64 ((n * 2 ^ 56 + v) * 2 ^ 7)) (2 ^ 64 - 1 - is_complete_mask))
          ((n + 1) * 2 ^ 56))
        (bit_and b 0x7F)
      ≡ suc n * 2 ^ 56 + (v * 128 + b % 128)
decoded_step n v b hn hv hb = ground (
  arith,
  bit_and_low_mask 63 (n % 2) (v * 128) (omega arith),
  bit_or_fields_above 56 (n + 1) (v * 128) (omega arith),
  bit_and_low_mask 7 (b / 128) (b % 128) (omega arith),
  bit_or_fields 7 ((n + 1) * 2 ^ 49 + v) (b % 128) (omega arith),
)

-- The flags of each packed state.
pub reading_flags :
    (bs : List ℕ)
    → length bs ≤ 7
    → (is_complete (packing (reading bs)) ≡ false)
      × (fail (packing (reading bs)) ≡ false)
      × (count_field (progress bs) ≡ length bs)
unfolding is_complete fail
reading_flags bs h = ground (
  arith,
  groups-lt bs h,
  complete_flag 0 (length bs) (groups bs),
  fail_flag 0 (length bs) (groups bs),
  count_field_lem 0 (length bs) (groups bs),
)

pub progress_lt : (bs : List ℕ) → length bs ≤ 8 → progress bs < 2 ^ 60
progress_lt bs h = omega (arith, groups_lt bs, pow-le-pow_right {n = 128} (omega arith) {j = 8} h)

pub groups-lt_word : (bs : List ℕ) → length bs ≤ 8 → groups bs < 2 ^ 56
groups-lt_word bs h =
    omega (arith, groups_lt bs, pow-le-pow_right {n = 128} (omega arith) {j = 8} h)

-- The last byte moves the encoded word down to the low end.
pub shift_down : (x k : ℕ) → x * 256 ^ k / 2 ^ (8 * k) ≡ x
shift_down x k = rw (← bytes_to_bits k) (mul-div_cancel x (one-le-pow k 256 (omega arith)))
