-- ===== src/Message/Overrun.antt =====
-- A header that is refused is not the end of it: `on_data_receive` goes on with the rest of the chunk
-- as if it belonged to a message of `VariableLengthSize::INVALID_VALUE` bytes.
use mathlib.Core.List.{reverse_aux}
use tarm_io.Prelude.{
  ℕ, suc, ◌+◌, ◌*◌, ◌^◌, ◌<◌, ◌≡◌, refl, ◌∙◌, arith, true, false, List, [], ◌∷◌, ◌++◌, length, drop,
  All, All-append, none, length-append, take_all,
}
use tarm_io.VariableLengthSize.{invalid_value, value, is_complete}
use tarm_io.VariableLengthSize.Wire.{IsByte, IsMarked, marked_bytes}
use tarm_io.VariableLengthSize.Decoder.{reading, failed, packing}
use tarm_io.VariableLengthSize.Decode.{failed_flags}
use tarm_io.VariableLengthSize.RoundTrip.{feed, feed-marked}
use tarm_io.VariableLengthSize.Laws.{feed_refused, value_incomplete}
use tarm_io.Message.{
  Client, refused, protocol_error, fault, size_step, copy_step, copy_bytes, end_round, size_to_copy,
  memcpy, message_half, next_round, receive_loop, on_data_receive,
}
use native.Mathlib.Nat.{add-zero}
use tarm_io.Message.Phase.{sizing}
use tarm_io.Message.Represents.{Represents, length-reverse_aux}
use tarm_io.Message.Headers.{size_step-feed, not_large_incomplete}
use tarm_io.Message.Receive.{receive_loop-suc}

-- The rest of the chunk counts as message bytes.
size_to_copy-failed :
    (c : Client) (chunk : List ℕ)
    → value c.current_message_size ≡ invalid_value
    → c.current_message_offset ≡ 0
    → length chunk < 2 ^ 64
    → size_to_copy c chunk ≡ length chunk
unfolding size_to_copy
size_to_copy-failed c chunk v o h = rw (v, o) (ground arith)

memcpy_beyond :
    (buffer : List ℕ) (offset : ℕ) (bs : List ℕ)
    → length buffer < offset + length bs
    → memcpy buffer offset bs ≡ fault
unfolding memcpy
memcpy_beyond buffer offset bs h = ground arith

copy_step-failed :
    (c : Client) (chunk : List ℕ)
    → is_complete c.current_message_size ≡ false
    → c.current_message_offset ≡ 0
    → length chunk < 2 ^ 64
    → length c.buffer < length chunk
    → copy_step true c chunk ≡ fault
unfolding copy_step copy_bytes end_round
copy_step-failed c chunk i o h over =
    rw
      (
        size_to_copy-failed c chunk (value_incomplete _ i) o h,
        not_large_incomplete c i,
        o,
        take_all chunk,
        memcpy_beyond c.buffer 0 chunk (omega arith),
      )
      refl

drop-append_front : (xs ys : List ℕ) → drop (length xs + 0) (xs ++ ys) ≡ ys
drop-append_front xs ys = rw add-zero (front xs)
  where
    front : (zs : List ℕ) → drop (length zs) (zs ++ ys) ≡ ys
    front [] = refl
    front (z ∷ zs) = front zs

receive_loop-nonempty :
    (fuel : ℕ) (c : Client) (chunk : List ℕ)
    → 0 < length chunk
    → receive_loop (suc fuel) true c chunk
      ≡ message_half (λ c' left. receive_loop fuel true c' left) true (size_step true c chunk)
receive_loop-nonempty fuel c [] h = absurd (omega arith)
receive_loop-nonempty fuel c (b ∷ chunk) h = receive_loop-suc fuel c b chunk

size_step-overlong :
    (max : ℕ) (c : Client) (bs xs : List ℕ) (b : ℕ) (rest : List ℕ)
    → Represents max c (sizing bs)
    → All IsMarked xs
    → length bs + length xs ≡ 7
    → IsMarked b
    → All IsByte rest
    → size_step true c (xs ++ b ∷ rest) ≡ (
      record c { current_message_size = packing (failed (reverse_aux xs bs)) },
      refused 0 protocol_error ∷ [],
      b ∷ rest,
    )
size_step-overlong max c bs xs b rest r ms h hb hr =
    let acc = reverse_aux xs bs in
    let size = length-reverse_aux xs bs in
    let flags = failed_flags acc (omega (arith, length-reverse_aux xs bs)) in
    let fed : feed (reading bs) (xs ++ b ∷ rest) ≡ (failed acc, length xs + 0) =
      feed-marked xs bs (b ∷ rest) ms (omega arith)
      ∙ rw (feed_refused (reverse_aux xs bs) b rest (size ∙ h) hb.0) refl in
    size_step-feed max c bs (xs ++ b ∷ rest) r
      (All-append IsByte xs (b ∷ rest) (marked_bytes xs ms) (hb.1, hr))
    ∙ rw
        (
          fed,
          not_large_incomplete (record c { current_message_size = packing (failed acc) }) flags.0,
          flags.1,
          drop-append_front xs (b ∷ rest),
        )
        refl

-- The defect. A chunk in which an eighth header byte still has its marker, on an object that waits
-- for a size, makes `on_data_receive` write outside its buffer whenever more bytes than the buffer
-- holds stand from that byte on, whatever they are (in a chunk of less than 2^64 bytes).
pub on_data_receive_overrun :
    (max : ℕ) (c : Client) (bs xs : List ℕ) (b : ℕ) (rest : List ℕ)
    → Represents max c (sizing bs)
    → All IsMarked xs
    → length bs + length xs ≡ 7
    → IsMarked b
    → All IsByte rest
    → max < length (b ∷ rest)
    → length (b ∷ rest) < 2 ^ 64
    → on_data_receive true c (xs ++ b ∷ rest) none ≡ fault
unfolding on_data_receive message_half next_round
on_data_receive_overrun max c bs xs b rest r ms h hb hr over small =
    let fuel : 2 * length (xs ++ b ∷ rest) + 1 ≡ suc (2 * length (xs ++ b ∷ rest)) = omega arith in
    let c1 : Client = record c { current_message_size = packing (failed (reverse_aux xs bs)) } in
    let flags = failed_flags (reverse_aux xs bs) (omega (arith, length-reverse_aux xs bs)) in
    rw
      (
        fuel,
        receive_loop-nonempty (2 * length (xs ++ b ∷ rest)) c (xs ++ b ∷ rest)
            (omega (arith, length-append xs (b ∷ rest))),
        size_step-overlong max c bs xs b rest r ms h hb hr,
        copy_step-failed c1 (b ∷ rest) flags.0 r.2 small (omega arith),
      )
      refl
