-- ===== src/VariableLengthSize/Laws.antt =====
-- What a user of source/io/core/VariableLengthSize.h relies on: values survive the wire, headers are
-- as short as they can be, headers that are too long are refused, and a header may come in pieces.
use native.Mathlib.Nat.{pow-suc, one-le-pow}
use mathlib.Core.List.{reverse_aux, reverse-cons}
use native.Mathlib.Decide.{dec_le}
use tarm_io.Prelude.Bits.{bit_and_high, bit_and_low_mask}
use tarm_io.Prelude.{
  pos, negsuc, ℕ, zero, suc, ◌+◌, ◌/◌, ◌^◌, ◌≤◌, ◌<◌, ◌≡◌, ◌↔◌, refl, ◌∙◌, arith, true, false, some,
  List, [], ◌∷◌, ◌++◌, length, take, All, All-append, reverse, length-reverse, if◌then◌else◌, ◌==◌,
  leb,
}
use tarm_io.VariableLengthSize.{
  VariableLengthSize, empty, value, add_byte, add_bytes_loop, add_bytes, of_unsigned, of_signed,
  max_value, invalid_value, bytes, bytes_count, is_complete, fail,
}
use tarm_io.VariableLengthSize.Wire.{IsByte, IsMarked, groups, packed, marked_bytes}
use tarm_io.VariableLengthSize.Decoder.{reading, done, failed, next, packing, IsTaken}
use tarm_io.VariableLengthSize.Decode.{value-done, done_flags, failed_flags}
use tarm_io.VariableLengthSize.Encode.{
  header, front, groups-header, header-IsTaken, of_unsigned-header,
}
use tarm_io.VariableLengthSize.Memory.{bytes-header}
use tarm_io.VariableLengthSize.RoundTrip.{
  feed, wire, add_bytes-feed, feed-wire, wire-of_unsigned, wire-IsByte, feed-marked,
  is_complete-flagged, feed-header, All-reverse-IsByte,
}

-- A value of up to 56 bits, encoded, put on the wire and followed by any bytes, is read back by a
-- fresh object: it is complete, has the value, and took exactly the bytes of the header.
pub add_bytes-wire :
    (v : ℕ) (rest : List ℕ)
    → v ≤ max_value
    → All IsByte rest
    → (value (add_bytes empty (some (wire v ++ rest))).0 ≡ v)
      × (is_complete (add_bytes empty (some (wire v ++ rest))).0 ≡ true)
      × ((add_bytes empty (some (wire v ++ rest))).1 ≡ bytes_count (of_unsigned v))
add_bytes-wire v rest h hr =
    let taken = header-IsTaken v in
    rw
      (
        add_bytes-feed (reading []) (wire v ++ rest) (omega arith, tt)
            (All-append IsByte (wire v) rest (wire-IsByte v h) hr),
        feed-wire v rest h,
      )
      (value-done (header v) taken ∙ groups-header v h, done_flags (header v) taken, refl)

empty_observed : (value empty ≡ invalid_value) × (is_complete empty ≡ false) × (fail empty ≡ false)
unfolding value is_complete fail
empty_observed = (refl, refl, refl)

stored_observed :
    (e v : ℕ)
    → v ≤ max_value
    → let s : VariableLengthSize = record { encoded_value = e; decoded_value = 2 ^ 63 + v } in
      (value s ≡ v) × (is_complete s ≡ true) × (fail s ≡ false)
unfolding value fail
stored_observed e v h = ground (
  arith,
  is_complete-flagged e v (omega arith),
  bit_and_low_mask 56 (2 ^ 7) v (omega arith),
  bit_and_high 62 2 v 1 (omega arith),
)

of_unsigned_above : (v : ℕ) → max_value < v → of_unsigned v ≡ empty
unfolding of_unsigned
of_unsigned_above v h = ground arith

of_signed_pos : (v : ℕ) → of_signed (pos v) ≡ of_unsigned v
unfolding of_signed of_unsigned
of_signed_pos v = refl

of_signed_negative : (n : ℕ) → value (of_signed (negsuc n)) ≡ invalid_value
unfolding of_signed
of_signed_negative n = empty_observed.0

-- An object made from an unsigned value is complete and has the value if that is at most 2^56 - 1;
-- otherwise it is not complete and has the invalid value. In neither case has it failed. The signed
-- constructors agree on values from 0 on, and make the incomplete object of any negative value.
pub of_unsigned_cases :
    (v n : ℕ)
    → (value (of_unsigned v) ≡ (if leb v max_value then v else invalid_value))
      × (is_complete (of_unsigned v) ≡ leb v max_value)
      × (fail (of_unsigned v) ≡ false)
      × (of_signed (pos v) ≡ of_unsigned v)
      × (value (of_signed (negsuc n)) ≡ invalid_value)
of_unsigned_cases v n = elim (dec_le v max_value) [
  | yes h ↦
      (let (has_value, complete, sound) = stored_observed (packed (header v)) v h in
        rw (of_unsigned-header v h) (
          ground (arith, has_value),
          ground (arith, complete),
          sound,
          of_signed_pos v ∙ of_unsigned-header v h,
          of_signed_negative n,
        ))
  | no h ↦
      (let (no_value, incomplete, sound) = empty_observed in
        rw (of_unsigned_above v (omega arith)) (
          ground (arith, no_value),
          ground (arith, incomplete),
          sound,
          of_signed_pos v ∙ of_unsigned_above v (omega arith),
          of_signed_negative n,
        ))
]

length-front_iff : (k w n : ℕ) → w < 128 ^ k → (length (front k w) ≤ n) ↔ (w < 128 ^ n)
unfolding front
length-front_iff zero w n h = (λ e. omega (arith, one-le-pow n 128 (omega arith)), λ e. omega arith)
length-front_iff (suc k) w zero h = (λ e. ground arith, λ e. ground arith)
length-front_iff (suc k) w (suc n) h =
    let below : w / 128 < 128 ^ k = omega (arith, pow-suc 128 k) in
    (
      λ e.
          ground (arith, pow-suc 128 n, one-le-pow n 128, (length-front_iff k (w / 128) n below).0),
      λ e. ground (arith, pow-suc 128 n, (length-front_iff k (w / 128) n below).1),
    )

-- The header of a value is as short as seven bits to a byte allow.
pub bytes_count-minimal :
    (v n : ℕ) → v ≤ max_value → 1 ≤ n → (bytes_count (of_unsigned v) ≤ n) ↔ (v < 128 ^ n)
bytes_count-minimal v zero h hn = absurd (omega arith)
bytes_count-minimal v (suc n) h hn =
    let (to, from) = length-front_iff 7 (v / 128) n (omega arith) in
    let count = (wire-of_unsigned v h).0 in
    let scale = pow-suc 128 n in (λ e. omega (arith, to (omega arith)), λ e. rw count (omega arith))

pub feed_refused :
    (acc : List ℕ) (b : ℕ) (rest : List ℕ)
    → length acc ≡ 7
    → 128 ≤ b
    → feed (reading acc) (b ∷ rest) ≡ (failed acc, 0)
unfolding feed next
feed_refused acc b [] h hb = ground arith
feed_refused acc b (x ∷ rest) h hb = ground arith

pub value_incomplete : (s : VariableLengthSize) → is_complete s ≡ false → value s ≡ invalid_value
unfolding value
value_incomplete s h = rw h

-- Eight bytes with their marker are refused: the object takes seven of them, has failed, is not
-- complete, and has the invalid value, whatever follows.
pub add_bytes_overlong :
    (xs : List ℕ) (b : ℕ) (rest : List ℕ)
    → length xs ≡ 7
    → All IsMarked xs
    → IsMarked b
    → All IsByte rest
    → (fail (add_bytes empty (some (xs ++ b ∷ rest))).0 ≡ true)
      × (is_complete (add_bytes empty (some (xs ++ b ∷ rest))).0 ≡ false)
      × (value (add_bytes empty (some (xs ++ b ∷ rest))).0 ≡ invalid_value)
      × ((add_bytes empty (some (xs ++ b ∷ rest))).1 ≡ 7)
add_bytes_overlong xs b rest hn hf hb hr =
    rw
      (
        add_bytes-feed (reading []) (xs ++ b ∷ rest) (omega arith, tt)
            (All-append IsByte xs (b ∷ rest) (marked_bytes xs hf) (omega arith, hr)),
        feed-marked xs [] (b ∷ rest) hf (omega arith),
        feed_refused (reverse_aux xs []) b rest (length-reverse xs ∙ hn) hb.0,
      )
      (let (incomplete, has_failed) =
          failed_flags (reverse_aux xs []) (omega (arith, length-reverse xs)) in
        (has_failed, incomplete, value_incomplete _ incomplete, omega arith))

loop-append :
    (s : VariableLengthSize) (xs ys : List ℕ) (c : ℕ)
    → add_bytes_loop s (xs ++ ys) c ≡ (
        if (add_bytes_loop s xs c).1 == c + length xs
        then add_bytes_loop (add_bytes_loop s xs c).0 ys (c + length xs)
        else add_bytes_loop s xs c)
unfolding add_bytes_loop
loop-append s [] ys c = ground arith
loop-append s (x ∷ xs) ys c = ground (arith, loop-append (add_byte s x).0 xs ys (c + 1))

loop-shift :
    (s : VariableLengthSize) (bs : List ℕ) (c : ℕ)
    → add_bytes_loop s bs c ≡ ((add_bytes_loop s bs 0).0, c + (add_bytes_loop s bs 0).1)
unfolding add_bytes_loop
loop-shift s [] c = ground arith
loop-shift s (b ∷ bs) c =
    ground (arith, loop-shift (add_byte s b).0 bs (c + 1), loop-shift (add_byte s b).0 bs 1)

-- A header may come in pieces: bytes given in two calls are taken as in one, where the second call
-- is made only if the first took all of its bytes.
pub add_bytes-append :
    (s : VariableLengthSize) (xs ys : List ℕ)
    → add_bytes s (some (xs ++ ys)) ≡ (
        if (add_bytes s (some xs)).1 == length xs
        then (
          (add_bytes (add_bytes s (some xs)).0 (some ys)).0,
          length xs + (add_bytes (add_bytes s (some xs)).0 (some ys)).1,
        )
        else add_bytes s (some xs))
unfolding add_bytes
add_bytes-append s xs ys =
    ground (arith, loop-append s xs ys 0, loop-shift (add_bytes_loop s xs 0).0 ys (length xs))

-- An object that has read a header of one to eight bytes, whatever its groups are, has the value of
-- the groups and gives the bytes of that header back, in order.
pub bytes-add_bytes :
    (b : ℕ) (bs rest : List ℕ)
    → b < 128
    → length bs ≤ 7
    → All IsMarked bs
    → All IsByte rest
    → let s = (add_bytes empty (some (reverse (b ∷ bs) ++ rest))).0 in
      (value s ≡ groups (b ∷ bs))
      × (bytes_count s ≡ length (b ∷ bs))
      × (take (bytes_count s) (bytes s) ≡ reverse (b ∷ bs))
bytes-add_bytes b bs rest hb hn hs hr =
    rw
      (
        add_bytes-feed (reading []) (reverse (b ∷ bs) ++ rest) (omega arith, tt)
            (All-append IsByte (reverse (b ∷ bs)) rest
              (All-reverse-IsByte (b ∷ bs) [] (omega arith, marked_bytes bs hs) tt) hr),
        reverse-cons b bs,
        feed-header b bs rest (hb, hn, hs),
      )
      (let taken : IsTaken (done (b ∷ bs)) = (hb, hn, hs) in
        let (count, sent) =
          bytes-header (packing (done (b ∷ bs))) b bs hb hn hs refl (done_flags (b ∷ bs) taken) in
        (value-done (b ∷ bs) taken, count, sent ∙ reverse-cons b bs))
