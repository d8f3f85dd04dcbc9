-- ===== src/Message/Copied.antt =====
-- What a round of `on_data_receive` of source/io/net/GenericMessageOrientedClientBase.h copies.
use mathlib.Core.List.{reverse_aux}
use tarm_io.Prelude.{
  ℕ, zero, suc, ◌+◌, ◌*◌, ◌≤◌, ◌<◌, ◌≡◌, refl, sym, ap, ◌∙◌, arith, true, List, [], ◌∷◌, ◌++◌,
  length, take, drop, reverse, inr, All, length-drop, length-take, take-append_drop, if◌then◌else◌,
  ◌==◌, le→ltb,
}
use tarm_io.VariableLengthSize.{empty}
use tarm_io.VariableLengthSize.Wire.{IsByte, groups}
use tarm_io.Message.{Client, Event, received, ok, splice, copy_step}
use tarm_io.Message.Phase.{Phase, sizing, broken, filling, skipping, run}
use tarm_io.Message.Run.{run-append, run-filling, run-filled, run-empty_message}
use tarm_io.Message.Represents.{
  Represents, begun, length-splice, take-splice, reverse-reverse_aux, length-reverse_aux,
}
use tarm_io.Message.Copy.{groups-lt_done, keeps_going, keeps_and_ends}

-- Rounds that are left: two for a byte, and one more to end a message of size 0.
abbrev pub weight : Phase → List ℕ → ℕ
weight (filling header got) chunk = 2 * length chunk + (if groups header == 0 then 1 else 0)
weight (sizing bs) chunk = 2 * length chunk
weight (broken bs) chunk = 2 * length chunk
weight (skipping header n) chunk = 2 * length chunk

abbrev pub Copied : ℕ → Phase → Client → List ℕ → Type 0
Copied max p c chunk =
    (c' : Client) × (es : List Event) × (left : List ℕ) × (p' : Phase) × (copy_step true c chunk
      ≡ ok (c', es, left))
    × Represents max c' p'
    × (run max p chunk ≡ ((run max p' left).0, es ++ (run max p' left).1))
    × (weight p' left < weight p chunk)
    × (All IsByte chunk → All IsByte left)

pub All-drop : (n : ℕ) (xs : List ℕ) → All IsByte xs → All IsByte (drop n xs)
All-drop zero xs h = h
All-drop (suc n) [] h = h
All-drop (suc n) (x ∷ xs) h = All-drop n xs h.1

pub run-nil : (max : ℕ) (p : Phase) → run max p [] ≡ (p, [])
unfolding run
run-nil max p = refl

-- A run over a chunk goes through a prefix of it.
pub run-split :
    (max n : ℕ) (p p' : Phase) (es : List Event) (chunk : List ℕ)
    → run max p (take n chunk) ≡ (p', es)
    → run max p chunk ≡ ((run max p' (drop n chunk)).0, es ++ (run max p' (drop n chunk)).1)
run-split max n p p' es chunk e =
    ap (run max p) (sym (take-append_drop n chunk))
    ∙ run-append max p (take n chunk) (drop n chunk)
    ∙ rw e refl

pub Copied-more :
    (max : ℕ) (c : Client) (header got chunk : List ℕ)
    → Represents max c (filling header got)
    → 0 < length chunk
    → length got + length chunk < groups header
    → Copied max (filling header got) c chunk
Copied-more max c header got chunk (hb, hs, ho, ht, taken, fits, le, room) h0 h =
    let (v, complete, large) = begun max c header hb.0 hs ht in
    let size = length-reverse_aux chunk got in
    (
      record c {
        current_message_offset = length got + length chunk;
        buffer = splice c.buffer (length got) chunk;
      },
      [],
      [],
      filling header (reverse_aux chunk got),
      keeps_going c chunk (length got) (groups header) v (groups-lt_done header ht) ho
          (large ∙ le→ltb _ _ fits) h (omega arith),
      (
        (hb.0, length-splice c.buffer (length got) chunk (omega arith) ∙ hb.1),
        hs,
        sym size,
        ht,
        rw
            (
              size,
              take-splice c.buffer (length got) (length got + length chunk) chunk (omega arith)
                  refl,
              taken,
            )
            (sym (reverse-reverse_aux chunk got)),
        fits,
        omega arith,
        inr (omega arith),
      ),
      rw (run-filling max header got chunk h, run-nil max (filling header (reverse_aux chunk got)))
          refl,
      ground arith,
      λ _. tt,
    )

pub Copied-whole :
    (max : ℕ) (c : Client) (header got chunk : List ℕ) (n : ℕ)
    → Represents max c (filling header got)
    → 0 < n
    → length got + n ≡ groups header
    → n ≤ length chunk
    → Copied max (filling header got) c chunk
Copied-whole max c header got chunk n (hb, hs, ho, ht, taken, fits, le, room) h0 e h =
    let (v, complete, large) = begun max c header hb.0 hs ht in
    let size = length-take n chunk h in
    let buffer = splice c.buffer (length got) (take n chunk) in
    let message : take (groups header) buffer ≡ reverse (reverse_aux (take n chunk) got) =
      take-splice c.buffer (length got) (groups header) (take n chunk) (omega arith) (omega arith)
      ∙ rw taken (sym (reverse-reverse_aux (take n chunk) got)) in
    (
      record c { current_message_offset = 0; current_message_size = empty; buffer = buffer },
      received (take (groups header) buffer) ∷ [],
      drop n chunk,
      sizing [],
      keeps_and_ends c chunk (length got) (groups header) v (groups-lt_done header ht) ho n
          (large ∙ le→ltb _ _ fits) e h (omega arith),
      (
        (hb.0, length-splice c.buffer (length got) (take n chunk) (omega arith) ∙ hb.1),
        refl,
        refl,
        (omega arith, tt),
      ),
      run-split max n (filling header got) (sizing []) _ chunk (
          run-filled max header got (take n chunk) (omega arith) (omega arith)
          ∙ ap (λ (m : List ℕ). let p : Phase × List Event = (sizing [], received m ∷ []) in p)
              (sym message)),
      ground (arith, length-drop n chunk),
      All-drop n chunk,
    )

-- A message of size 0 ends at once, and the chunk is untouched.
pub Copied-nothing :
    (max : ℕ) (c : Client) (header : List ℕ) (b : ℕ) (chunk : List ℕ)
    → Represents max c (filling header [])
    → groups header ≡ 0
    → Copied max (filling header []) c (b ∷ chunk)
Copied-nothing max c header b chunk (hb, hs, ho, ht, taken, fits, le, room) e =
    let (v, complete, large) = begun max c header hb.0 hs ht in
    let buffer = splice c.buffer 0 [] in
    (
      record c { current_message_offset = 0; current_message_size = empty; buffer = buffer },
      received (take (groups header) buffer) ∷ [],
      b ∷ chunk,
      sizing [],
      keeps_and_ends c (b ∷ chunk) 0 (groups header) v (groups-lt_done header ht) ho 0
          (large ∙ le→ltb _ _ fits) (omega arith) (omega arith) (omega arith),
      ((hb.0, length-splice c.buffer 0 [] (omega arith) ∙ hb.1), refl, refl, (omega arith, tt)),
      rw e (run-empty_message max header [] b chunk e),
      ground arith,
      λ bytes. bytes,
    )
