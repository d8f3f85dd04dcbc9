-- ===== src/VariableLengthSize/Memory.antt =====
-- The bytes of a stored header: how many `bytes_count` reads off the markers, and which they are in
-- memory (source/io/core/VariableLengthSize.cpp, `bytes_count` and `bytes`).
use mathlib.Core.List.{reverse-cons}
use tarm_io.Prelude.{
  ℕ, zero, suc, ◌+◌, ◌-◌, ◌*◌, ◌/◌, ◌%◌, ◌^◌, ◌≤◌, ◌<◌, ◌≡◌, refl, sym, ◌∙◌, ap, arith, bit_and,
  true, List, [], ◌∷◌, ◌++◌, length, length-reverse, take, All, All-append, reverse,
}
use tarm_io.Prelude.Bits.{bit_and_split, bit_and-zero, zero-bit_and}
use tarm_io.VariableLengthSize.{VariableLengthSize, memory, bytes, bytes_count, is_complete}
use tarm_io.VariableLengthSize.Wire.{
  IsByte, IsMarked, packed, packed_lt, bytes_to_bits, marked_bytes,
}
use native.Mathlib.Nat.{pow-suc}

-- The markers of `n` bytes.
abbrev marks : ℕ → ℕ
marks zero = 0
marks (suc n) = marks n + 128 * 256 ^ n

marks_lt : (n : ℕ) → marks n < 256 ^ n
marks_lt zero = omega arith
marks_lt (suc n) = omega (arith, pow-suc 256 n, marks_lt n)

marker_of_marked : (b m : ℕ) → IsMarked b → bit_and (128 + 256 * m) b ≡ 128
marker_of_marked b m h = ground (
  arith,
  bit_and_split 8 m 128 0 b (omega arith) (omega arith),
  bit_and-zero m,
  bit_and_split 7 1 0 1 (b - 128) (omega arith) (omega arith),
  zero-bit_and (b - 128),
)

marker_of_last : (b m : ℕ) → b < 128 → bit_and (128 + 256 * m) b ≡ 0
marker_of_last b m h = ground (
  arith,
  bit_and_split 8 m 128 0 b (omega arith) (omega arith),
  bit_and-zero m,
  bit_and_split 7 1 0 0 b (omega arith) (omega arith),
  zero-bit_and b,
)

-- `bit_and` on two words, split above their `n` low bytes.
split_bytes :
    (n q r q' r' : ℕ)
    → r < 256 ^ n
    → r' < 256 ^ n
    → bit_and (q * 256 ^ n + r) (q' * 256 ^ n + r') ≡ bit_and q q' * 256 ^ n + bit_and r r'
split_bytes n q r q' r' h h' =
    rw (bytes_to_bits n)
      (bit_and_split (8 * n) q r q' r' (rw (bytes_to_bits n) at h) (rw (bytes_to_bits n) at h'))

marked_markers :
    (bs : List ℕ) → All IsMarked bs → bit_and (marks (length bs)) (packed bs) ≡ marks (length bs)
marked_markers [] h = refl
marked_markers (b ∷ bs) h = ground (
  arith,
  split_bytes (length bs) 128 (marks (length bs)) b (packed bs) (marks_lt (length bs))
      (packed_lt bs (marked_bytes bs h.1)),
  marker_of_marked b 0 h.0,
  marked_markers bs h.1,
)

marks_above : (n : ℕ) → n ≤ 7 → marks 8 ≡ (128 + 256 * marks (7 - n)) * 256 ^ n + marks n
marks_above zero h = refl
marks_above (suc zero) h = refl
marks_above (suc (suc zero)) h = refl
marks_above (suc (suc (suc zero))) h = refl
marks_above (suc (suc (suc (suc zero)))) h = refl
marks_above (suc (suc (suc (suc (suc zero))))) h = refl
marks_above (suc (suc (suc (suc (suc (suc zero)))))) h = refl
marks_above (suc (suc (suc (suc (suc (suc (suc zero))))))) h = refl
marks_above (suc (suc (suc (suc (suc (suc (suc (suc n)))))))) h = absurd (omega arith)

header_markers :
    (b : ℕ) (bs : List ℕ)
    → b < 128
    → length bs ≤ 7
    → All IsMarked bs
    → bit_and (marks 8) (packed (b ∷ bs)) ≡ marks (length bs)
header_markers b bs hb hn hs =
    let n : ℕ = length bs in
    let bound = packed_lt bs (marked_bytes bs hs) in
    rw (marks_above (length bs) hn) (
      ground (
        arith,
        split_bytes (length bs) (128 + 256 * marks (7 - length bs)) (marks (length bs)) b
            (packed bs) (marks_lt (length bs)) bound,
        marker_of_last b (marks (7 - length bs)) hb,
        marked_markers bs hs,
      ))

bytes_count-marks :
    (s : VariableLengthSize) (n : ℕ)
    → n ≤ 7
    → bit_and (marks 8) s.encoded_value ≡ marks n
    → is_complete s ≡ true
    → bytes_count s ≡ suc n
unfolding bytes_count
bytes_count-marks s zero h e c = rw (e, c)
bytes_count-marks s (suc zero) h e c = rw e
bytes_count-marks s (suc (suc zero)) h e c = rw e
bytes_count-marks s (suc (suc (suc zero))) h e c = rw e
bytes_count-marks s (suc (suc (suc (suc zero)))) h e c = rw e
bytes_count-marks s (suc (suc (suc (suc (suc zero))))) h e c = rw e
bytes_count-marks s (suc (suc (suc (suc (suc (suc zero)))))) h e c = rw e
bytes_count-marks s (suc (suc (suc (suc (suc (suc (suc zero))))))) h e c = rw e
bytes_count-marks s (suc (suc (suc (suc (suc (suc (suc (suc n)))))))) h e c = absurd (omega arith)

-- The bytes of a word, first address first.
stored : List ℕ → ℕ
stored [] = 0
stored (b ∷ bs) = b + 256 * stored bs

stored-append : (xs : List ℕ) (b : ℕ) → stored (xs ++ b ∷ []) ≡ stored xs + b * 256 ^ length xs
unfolding stored
stored-append [] b = omega arith
stored-append (x ∷ xs) b =
    omega (arith, stored-append xs b, ap (λ (t : ℕ). b * t) (pow-suc 256 (length xs)))

packed-eq-stored : (bs : List ℕ) → packed bs ≡ stored (reverse bs)
unfolding stored
packed-eq-stored [] = refl
packed-eq-stored (b ∷ bs) =
    rw (reverse-cons b bs, stored-append (reverse bs) b)
      (ground (arith, packed-eq-stored bs, length-reverse bs))

take-memory :
    (k : ℕ) (xs : List ℕ)
    → length xs ≤ k
    → All IsByte xs
    → take (length xs) (memory k (stored xs)) ≡ xs
unfolding memory stored
take-memory k [] h hb = refl
take-memory zero (x ∷ xs) h hb = absurd (omega arith)
take-memory (suc k) (x ∷ xs) h hb =
    let low : (x + 256 * stored xs) % 256 ≡ x = omega arith in
    let high : (x + 256 * stored xs) / 256 ≡ stored xs = omega arith in
    rw (low, high) (ap (◌∷◌ x) (take-memory k xs (omega arith) hb.1))

All-reverse : (bs : List ℕ) → All IsByte bs → All IsByte (reverse bs)
All-reverse [] h = tt
All-reverse (b ∷ bs) h =
    rw (reverse-cons b bs) (All-append IsByte (reverse bs) (b ∷ []) (All-reverse bs h.1) (h.0, tt))

bytes_lem : (s : VariableLengthSize) → bytes s ≡ memory 8 s.encoded_value
unfolding bytes
bytes_lem s = refl

take-stored :
    (n w : ℕ) (xs : List ℕ)
    → n ≡ length xs
    → w ≡ stored xs
    → length xs ≤ 8
    → All IsByte xs
    → take n (memory 8 w) ≡ xs
take-stored n w xs hn hw h hb = rw (hn, hw) (take-memory 8 xs h hb)

-- A complete object that stores a header of one to eight bytes counts its bytes, and they are in
-- memory in the order in which they go out.
pub bytes-header :
    (s : VariableLengthSize) (b : ℕ) (bs : List ℕ)
    → b < 128
    → length bs ≤ 7
    → All IsMarked bs
    → s.encoded_value ≡ packed (b ∷ bs)
    → is_complete s ≡ true
    → (bytes_count s ≡ length (b ∷ bs)) × (take (bytes_count s) (bytes s) ≡ reverse (b ∷ bs))
bytes-header s b bs hb hn hs e c =
    let count : bytes_count s ≡ suc (length bs) =
      bytes_count-marks s (length bs) hn (rw e (header_markers b bs hb hn hs)) c in
    let size : length (reverse (b ∷ bs)) ≡ suc (length bs) = length-reverse (b ∷ bs) in
    (
      count,
      rw (bytes_lem s) (
          take-stored (bytes_count s) s.encoded_value (reverse (b ∷ bs)) (count ∙ sym size)
            (e ∙ packed-eq-stored (b ∷ bs)) (omega arith)
            (All-reverse (b ∷ bs) (omega arith, marked_bytes bs hs))),
    )
