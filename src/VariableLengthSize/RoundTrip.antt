-- ===== src/VariableLengthSize/RoundTrip.antt =====
-- Feeding a stream of bytes to a decoder, and the round trip of a value through its header.
use mathlib.Core.List.{reverse_aux, reverse-reverse, reverse-cons, append_assoc}
use tarm_io.Prelude.{
  ℕ, suc, ◌+◌, ◌%◌, ◌/◌, ◌^◌, ◌≤◌, ◌<◌, ◌≡◌, refl, ◌∙◌, arith, true, some, List, [], ◌∷◌, ◌++◌,
  length, take, All, reverse, length-reverse, if◌then◌else◌,
}
use tarm_io.VariableLengthSize.{
  add_bytes_loop, add_bytes, of_unsigned, max_value, bytes, bytes_count, is_complete,
}
use tarm_io.VariableLengthSize.Wire.{IsByte, IsMarked, marked_bytes}
use tarm_io.Prelude.Bits.{bit_and_high}
use tarm_io.VariableLengthSize.Decoder.{Decoder, reading, done, next, packing, IsTaken}
use tarm_io.VariableLengthSize.Decode.{add_byte-packing, next-IsTaken}
use tarm_io.VariableLengthSize.Encode.{header, front, header-IsTaken, of_unsigned-header}
use tarm_io.VariableLengthSize.Memory.{bytes-header}

-- What `add_bytes` does, on the decoder: the state, and how many bytes were taken.
unfoldable pub feed : Decoder → List ℕ → Decoder × ℕ
feed d [] = (d, 0)
feed d (b ∷ bs) =
    let rest = feed (next d b).0 bs in
    if (next d b).1 then (rest.0, suc rest.1) else ((next d b).0, 0)

loop-feed :
    (d : Decoder) (bs : List ℕ) (c : ℕ)
    → IsTaken d
    → All IsByte bs
    → add_bytes_loop (packing d) bs c ≡ (packing (feed d bs).0, c + (feed d bs).1)
unfolding add_bytes_loop feed
loop-feed d [] c h hb = ground arith
loop-feed d (b ∷ bs) c h hb = ground (
  arith,
  add_byte-packing d b h hb.0,
  loop-feed (next d b).0 bs (c + 1) (next-IsTaken d b h hb.0) hb.1,
)

-- On any buffer, and in every state that decoding can reach, `add_bytes` does to the object what
-- feeding the bytes one by one does to the decoder, and answers how many were taken.
pub add_bytes-feed :
    (d : Decoder) (bs : List ℕ)
    → IsTaken d
    → All IsByte bs
    → add_bytes (packing d) (some bs) ≡ (packing (feed d bs).0, (feed d bs).1)
unfolding add_bytes
add_bytes-feed d bs h hb = ground (arith, loop-feed d bs 0 h hb)

-- Bytes with their marker are taken as long as there is room for a last one.
pub feed-marked :
    (xs acc rest : List ℕ)
    → All IsMarked xs
    → length acc + length xs ≤ 7
    → feed (reading acc) (xs ++ rest) ≡ (
      (feed (reading (reverse_aux xs acc)) rest).0,
      length xs + (feed (reading (reverse_aux xs acc)) rest).1,
    )
unfolding feed next
feed-marked [] acc rest h hn = ground arith
feed-marked (x ∷ xs) acc rest h hn = ground (arith, feed-marked xs (x ∷ acc) rest h.1)

pub All-reverse-IsMarked :
    (xs acc : List ℕ) → All IsMarked xs → All IsMarked acc → All IsMarked (reverse_aux xs acc)
All-reverse-IsMarked [] acc h ha = ha
All-reverse-IsMarked (x ∷ xs) acc h ha = All-reverse-IsMarked xs (x ∷ acc) h.1 (h.0, ha)

pub feed-last :
    (acc : List ℕ) (b : ℕ) (rest : List ℕ)
    → b < 128
    → feed (reading acc) (b ∷ rest) ≡ (done (b ∷ acc), 1)
unfolding feed next
feed-last acc b [] h = ground arith
feed-last acc b (x ∷ rest) h = ground arith

-- A header is read whole, and nothing behind it.
pub feed-header :
    (b : ℕ) (bs rest : List ℕ)
    → IsTaken (done (b ∷ bs))
    → feed (reading []) ((reverse bs ++ b ∷ []) ++ rest) ≡ (done (b ∷ bs), length (b ∷ bs))
feed-header b bs rest h =
    let all_marked = All-reverse-IsMarked bs [] h.2 tt in
    let size = length-reverse bs in
    rw append_assoc (
      feed-marked (reverse bs) [] (b ∷ rest) all_marked (omega arith)
      ∙ ground
          (arith, size, reverse-reverse bs, feed-last (reverse_aux (reverse bs) []) b rest h.0))

pub is_complete-flagged :
    (e v : ℕ)
    → v < 2 ^ 63
    → is_complete (record { encoded_value = e; decoded_value = 2 ^ 63 + v }) ≡ true
unfolding is_complete
is_complete-flagged e v h = ground (arith, bit_and_high 63 1 v 1 h)

-- What a sender of the value puts on the wire.
abbrev pub wire : ℕ → List ℕ
wire v = take (bytes_count (of_unsigned v)) (bytes (of_unsigned v))

pub wire-of_unsigned :
    (v : ℕ)
    → v ≤ max_value
    → (bytes_count (of_unsigned v) ≡ length (header v)) × (wire v ≡ reverse (header v))
wire-of_unsigned v h =
    let taken = header-IsTaken v in
    rw (of_unsigned-header v h)
      (bytes-header _ _ _ taken.0 taken.1 taken.2 refl (is_complete-flagged _ v (omega arith)))

pub feed-wire :
    (v : ℕ) (rest : List ℕ)
    → v ≤ max_value
    → feed (reading []) (wire v ++ rest) ≡ (done (header v), bytes_count (of_unsigned v))
feed-wire v rest h =
    let (count, sent) = wire-of_unsigned v h in
    rw (sent, count, reverse-cons (v % 128) (front 7 (v / 128)))
      (feed-header (v % 128) (front 7 (v / 128)) rest (header-IsTaken v))

pub All-reverse-IsByte :
    (xs acc : List ℕ) → All IsByte xs → All IsByte acc → All IsByte (reverse_aux xs acc)
All-reverse-IsByte [] acc h ha = ha
All-reverse-IsByte (x ∷ xs) acc h ha = All-reverse-IsByte xs (x ∷ acc) h.1 (h.0, ha)

pub wire-IsByte : (v : ℕ) → v ≤ max_value → All IsByte (wire v)
wire-IsByte v h =
    let taken = header-IsTaken v in
    rw (wire-of_unsigned v h).1
      (All-reverse-IsByte (header v) [] (omega arith, marked_bytes _ taken.2) tt)
