-- ===== src/Message/Headers.antt =====
-- What a chunk does to a header: the first half of a round of `on_data_receive`.
use mathlib.Core.List.{reverse_aux, append-nil}
use tarm_io.Prelude.{
  ℕ, suc, ◌+◌, ◌≤◌, ◌<◌, ◌≡◌, refl, sym, ap, ◌∙◌, arith, true, false, List, [], ◌∷◌, ◌++◌, length,
  drop, inl, inr, All, drop_all, ltb, Bool-cases,
}
use native.Mathlib.Decide.{dec_lt}
use tarm_io.VariableLengthSize.{value, is_complete, fail}
use tarm_io.VariableLengthSize.Wire.{IsByte, IsMarked, groups}
use tarm_io.VariableLengthSize.Decoder.{Decoder, reading, done, packing, IsTaken}
use tarm_io.VariableLengthSize.Flags.{reading_flags}
use tarm_io.VariableLengthSize.Decode.{done_not_failed}
use tarm_io.VariableLengthSize.RoundTrip.{
  feed, feed-marked, feed-last, All-reverse-IsMarked, add_bytes-feed,
}
use tarm_io.Message.{
  Client, message_too_long, protocol_error, refused, size_step, current_message_too_large,
  notify_if,
}
use tarm_io.Message.Phase.{sizing, start}
use tarm_io.Message.Represents.{Represents, begun, length-reverse_aux}

-- What a chunk does to a header of which `bs` has come in.
pub data Split (bs chunk : List ℕ) : Type 0 where
  grows : All IsMarked chunk → length bs + length chunk ≤ 7 → Split bs chunk
  starts :
      (xs : List ℕ) (b : ℕ) (rest : List ℕ)
      → chunk ≡ xs ++ b ∷ rest
      → All IsMarked xs
      → length bs + length xs ≤ 7
      → b < 128
      → All IsByte rest
      → Split bs chunk
  refuses :
      (xs : List ℕ) (b : ℕ) (rest : List ℕ)
      → chunk ≡ xs ++ b ∷ rest
      → All IsMarked xs
      → length bs + length xs ≡ 7
      → 128 ≤ b
      → Split bs chunk

split-cons :
    (bs chunk : List ℕ) (b : ℕ)
    → IsMarked b
    → length bs < 7
    → Split (b ∷ bs) chunk
    → Split bs (b ∷ chunk)
split-cons bs chunk b m h (grows ms n) = grows (m, ms) (omega arith)
split-cons bs chunk b m h (starts xs x rest e ms n hx hr) =
    starts (b ∷ xs) x rest (ap (◌∷◌ b) e) (m, ms) (omega arith) hx hr
split-cons bs chunk b m h (refuses xs x rest e ms n hx) =
    refuses (b ∷ xs) x rest (ap (◌∷◌ b) e) (m, ms) (omega arith) hx

pub split : (bs chunk : List ℕ) → length bs ≤ 7 → All IsByte chunk → Split bs chunk
split bs [] h hb = grows tt (omega arith)
split bs (b ∷ chunk) h (hb, hs) = elim (dec_lt b 128) [
  | yes last ↦ starts [] b chunk refl tt (omega arith) last hs
  | no marked ↦ elim (dec_lt (length bs) 7) [
    | yes room ↦ split-cons bs chunk b (omega arith) room (split (b ∷ bs) chunk (omega arith) hs)
    | no full ↦ refuses [] b chunk refl tt (omega arith) (omega arith)
  ]
]

-- `size_step` by the decoder.
pub size_step-feed :
    (max : ℕ) (c : Client) (bs chunk : List ℕ)
    → Represents max c (sizing bs)
    → All IsByte chunk
    → let r = feed (reading bs) chunk in
      let c' : Client = record c { current_message_size = packing r.0 } in
      size_step true c chunk ≡ (
        c',
        notify_if
              (current_message_too_large c')
              true
              (refused (value (packing r.0)) message_too_long)
            ++ notify_if (fail (packing r.0)) true (refused 0 protocol_error),
        drop r.1 chunk,
      )
unfolding size_step
size_step-feed max c bs chunk (hb, hs, ho, ht) bytes =
    rw (hs, (reading_flags bs ht.0).0, add_bytes-feed (reading bs) chunk ht bytes) refl

pub not_large_incomplete :
    (c : Client) → is_complete c.current_message_size ≡ false → current_message_too_large c ≡ false
unfolding current_message_too_large
not_large_incomplete c h = rw h refl

drop-append :
    (xs : List ℕ) (b n : ℕ) (rest : List ℕ) → n ≡ length xs + 1 → drop n (xs ++ b ∷ rest) ≡ rest
drop-append [] b n rest e = rw e refl
drop-append (x ∷ xs) b n rest e =
    let m : n ≡ suc (length xs + 1) = omega arith in
    rw m (drop-append xs b (length xs + 1) rest refl)

feed-nil : (d : Decoder) → feed d [] ≡ (d, 0)
unfolding feed
feed-nil d = refl

pub size_step_grows :
    (max : ℕ) (c : Client) (bs chunk : List ℕ)
    → Represents max c (sizing bs)
    → All IsByte chunk
    → All IsMarked chunk
    → length bs + length chunk ≤ 7
    → size_step true c chunk
      ≡ (record c { current_message_size = packing (reading (reverse_aux chunk bs)) }, [], [])
size_step_grows max c bs chunk r bytes ms h =
    let fed : feed (reading bs) chunk ≡ (reading (reverse_aux chunk bs), length chunk) =
      ap (feed (reading bs)) (sym (append-nil chunk))
      ∙ feed-marked chunk bs [] ms h
      ∙ rw (feed-nil (reading (reverse_aux chunk bs))) (ground arith) in
    let flags = reading_flags (reverse_aux chunk bs) (omega (arith, length-reverse_aux chunk bs)) in
    size_step-feed max c bs chunk r bytes
    ∙ rw
        (
          fed,
          not_large_incomplete
              (record c { current_message_size = packing (reading (reverse_aux chunk bs)) })
              flags.0,
          flags.1,
          drop_all chunk,
        )
        refl

-- The header is complete, and what it starts is reported.
pub size_step_starts :
    (max : ℕ) (c : Client) (bs xs : List ℕ) (b : ℕ) (rest : List ℕ)
    → Represents max c (sizing bs)
    → All IsByte (xs ++ b ∷ rest)
    → All IsMarked xs
    → length bs + length xs ≤ 7
    → b < 128
    → let header = b ∷ reverse_aux xs bs in
      size_step true c (xs ++ b ∷ rest)
      ≡ (record c { current_message_size = packing (done header) }, (start max header).1, rest)
size_step_starts max c bs xs b rest r bytes ms h hb =
    let header : List ℕ = b ∷ reverse_aux xs bs in
    let fed : feed (reading bs) (xs ++ b ∷ rest) ≡ (done header, length xs + 1) =
      feed-marked xs bs (b ∷ rest) ms h ∙ rw (feed-last (reverse_aux xs bs) b rest hb) refl in
    let taken : IsTaken (done header) =
      (hb, omega (arith, length-reverse_aux xs bs), All-reverse-IsMarked xs bs ms r.3.1) in
    let (v, complete, large) =
      begun max (record c { current_message_size = packing (done header) }) header r.0.0 refl
        taken in
    size_step-feed max c bs (xs ++ b ∷ rest) r bytes
    ∙ rw (fed, large, v, done_not_failed header taken, drop-append xs b (length xs + 1) rest refl)
        (elim (Bool-cases (ltb max (groups header))) [ inl e ↦ rw e refl | inr e ↦ rw e refl ])
