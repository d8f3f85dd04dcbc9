-- ===== src/VariableLengthSize/Encode.antt =====
-- What the constructors of source/io/core/VariableLengthSize.cpp store for a value in range.
use native.Mathlib.Nat.{pow-suc, pow-le-pow_right}
use tarm_io.Prelude.{
  ℕ, zero, suc, ◌+◌, ◌-◌, ◌*◌, ◌/◌, ◌%◌, ◌^◌, ◌≤◌, ◌<◌, ◌≡◌, refl, ◌∙◌, ap, arith, bit_and, bit_or,
  List, [], ◌∷◌, length, All, if◌then◌else◌, ◌==◌, inl, inr, Bool-cases,
}
use tarm_io.Prelude.Bits.{
  bit_and_low_mask, bit_or_fields, bit_or_fields_above, bit_and_high, zero-bit_or,
}
use tarm_io.VariableLengthSize.{encode_loop, encode_impl, of_unsigned, max_value}
use tarm_io.VariableLengthSize.Wire.{IsMarked, groups, packed}
use tarm_io.VariableLengthSize.Decoder.{done, IsTaken}

-- The bytes in front of the last one, latest first, for a value below `128 ^ k`.
unfoldable pub front : ℕ → ℕ → List ℕ
front zero w = []
front (suc k) w = let more = front k (w / 128) in if w == 0 then [] else ((w % 128 + 128) ∷ more)

-- The header of a value, last byte first.
abbrev pub header : ℕ → List ℕ
header v = (v % 128) ∷ front 7 (v / 128)

front-zero : (k : ℕ) → front k 0 ≡ []
unfolding front
front-zero zero = refl
front-zero (suc k) = refl

front_shape : (k w : ℕ) → (length (front k w) ≤ k) × All IsMarked (front k w)
unfolding front
front_shape zero w = (omega arith, tt)
front_shape (suc k) w = ground (arith, front_shape k (w / 128))

groups-front : (k w : ℕ) → w < 128 ^ k → groups (front k w) ≡ w
unfolding front
groups-front zero w h = omega arith
groups-front (suc k) w h = ground (arith, pow-suc 128 k, groups-front k (w / 128))

pub groups-header : (v : ℕ) → v ≤ max_value → groups (header v) ≡ v
groups-header v h = omega (arith, groups-front 7 (v / 128) (omega arith))

-- The header is one that a decoder takes whole.
pub header-IsTaken : (v : ℕ) → IsTaken (done (header v))
header-IsTaken v = let (len, marked) = front_shape 7 (v / 128) in (omega arith, len, marked)

group_marked : (c : ℕ) → bit_or (bit_and c 0x7F) 0x80 ≡ c % 128 + 128
group_marked c = ground (
  arith,
  bit_and_low_mask 7 (c / 128) (c % 128) (omega arith),
  bit_or_fields_above 7 1 (c % 128) (omega arith),
)

-- One round of the loop behind the first.
loop_round :
    (f v c e : ℕ)
    → c < v
    → e < 2 ^ 56
    → encode_loop (suc f) v c e ≡ (
        if c / 128 == 0
        then e * 256 + (c % 128 + 128)
        else encode_loop f v (c / 128) (e * 256 + (c % 128 + 128)))
unfolding encode_loop
loop_round f v c e h he =
    ground (arith, group_marked c, bit_or_fields 8 e (c % 128 + 128) (omega arith))

front-pos : (k c : ℕ) → 0 < c → front (suc k) c ≡ (c % 128 + 128) ∷ front k (c / 128)
unfolding front
front-pos k c h = ground arith

-- Taking one group more: `e` moves up by a byte, and the group comes in below it.
packed-push :
    (e g : ℕ) (bs : List ℕ)
    → (e * 256 + g) * 256 ^ length bs + packed bs
      ≡ e * 256 ^ suc (length bs) + (packed bs + g * 256 ^ length bs)
packed-push e g bs = omega (arith, ap (λ (t : ℕ). e * t) (pow-suc 256 (length bs)))

loop-front :
    (k f v c e j : ℕ)
    → c < 128 ^ k
    → k ≤ f
    → 0 < c
    → c < v
    → e < 256 ^ j
    → j + k ≤ 8
    → encode_loop f v c e ≡ e * 256 ^ length (front k c) + packed (front k c)
loop-front zero f v c e j hc hf h0 hv he hj = absurd (omega arith)
loop-front (suc k) zero v c e j hc hf h0 hv he hj = absurd (omega arith)
loop-front (suc k) (suc f) v c e j hc hf h0 hv he hj =
    let e_word : e < 2 ^ 56 =
      omega (arith, pow-le-pow_right {n = 256} (omega arith) {i = j} {j = 7} (omega arith)) in
    let next_word : e * 256 + (c % 128 + 128) < 256 ^ suc j = omega (arith, pow-suc 256 j) in
    rw (front-pos k c h0, loop_round f v c e hv e_word)
      (elim (Bool-cases (c / 128 == 0)) [
        | inl e0 ↦ let z : c / 128 ≡ 0 = ground arith in rw (e0, z, front-zero k) (omega arith)
        | inr e1 ↦ rw e1 (
            loop-front k f v (c / 128) (e * 256 + (c % 128 + 128)) (suc j)
              (omega (arith, pow-suc 128 k)) (omega arith) (ground arith) (omega arith) next_word
              (omega arith)
            ∙ packed-push e (c % 128 + 128) (front k (c / 128)))
      ])

high_bits : (v : ℕ) → v < 2 ^ 64 → bit_and v (2 ^ 64 - 1 - 0x7F) ≡ v / 128 * 128
high_bits v h = ground (
  arith,
  bit_and_high 7 (v / 128) (v % 128) (2 ^ 57 - 1) (omega arith),
  bit_and_low_mask 57 0 (v / 128) (omega arith),
)

first_round : (v : ℕ) → 128 ≤ v → v ≤ max_value → encode_loop 10 v v 0 ≡ packed (header v)
unfolding encode_loop
first_round v h hm = ground (
  arith,
  bit_and_low_mask 7 (v / 128) (v % 128) (omega arith),
  zero-bit_or (v % 128),
  loop-front 7 9 v (v / 128) (v % 128) 1 (omega arith) (omega arith) (omega arith) (omega arith)
      (omega arith) (omega arith),
)

-- A value in range is stored as its header, complete.
pub of_unsigned-header :
    (v : ℕ)
    → v ≤ max_value
    → of_unsigned v ≡ record { encoded_value = packed (header v); decoded_value = 2 ^ 63 + v }
unfolding of_unsigned encode_impl
of_unsigned-header v h = ground (
  arith,
  high_bits v (omega arith),
  first_round v,
  bit_or_fields_above 63 1 v (omega arith),
  front-zero 7,
)
