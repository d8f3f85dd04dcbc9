-- ===== src/Message/Rounds.antt =====
-- A round that copies, seen from the one-byte machine: it takes the front of the chunk, and leaves an
-- object that stands for the phase behind it.
use tarm_io.Prelude.{
  ℕ, suc, ◌+◌, ◌-◌, ◌*◌, ◌≤◌, ◌<◌, ◌≡◌, refl, ◌∙◌, arith, List, [], ◌∷◌, length, take, drop,
  length-drop, length-take, lt→ltb,
}
use native.Mathlib.Decide.{dec_lt}
use tarm_io.VariableLengthSize.{empty}
use tarm_io.VariableLengthSize.Wire.{groups}
use tarm_io.Message.{Client}
use tarm_io.Message.Phase.{Phase, sizing, broken, filling, skipping}
use tarm_io.Message.Run.{run-skipping, run-skipped}
use tarm_io.Message.Represents.{Represents, begun}
use tarm_io.Message.Copy.{groups-lt_done, skips_on, skips_and_ends}
use tarm_io.Message.Copied.{
  weight, Copied, All-drop, run-nil, run-split, Copied-more, Copied-whole, Copied-nothing,
}

skipped_more :
    (max : ℕ) (c : Client) (header : List ℕ) (n : ℕ) (chunk : List ℕ)
    → Represents max c (skipping header n)
    → 0 < length chunk
    → n + length chunk < groups header
    → Copied max (skipping header n) c chunk
skipped_more max c header n chunk (hb, hs, ho, ht, above, room) h0 h =
    let (v, complete, large) = begun max c header hb.0 hs ht in
    (
      record c { current_message_offset = n + length chunk },
      [],
      [],
      skipping header (n + length chunk),
      skips_on c chunk n (groups header) v (groups-lt_done header ht) ho (large ∙ lt→ltb _ _ above)
          h,
      (hb, hs, refl, ht, above, h),
      rw (run-skipping max header n chunk h, run-nil max (skipping header (n + length chunk))) refl,
      omega arith,
      λ _. tt,
    )

skipped_whole :
    (max : ℕ) (c : Client) (header : List ℕ) (o n : ℕ) (chunk : List ℕ)
    → Represents max c (skipping header o)
    → 0 < n
    → o + n ≡ groups header
    → n ≤ length chunk
    → Copied max (skipping header o) c chunk
skipped_whole max c header o n chunk (hb, hs, ho, ht, above, room) h0 e h =
    let (v, complete, large) = begun max c header hb.0 hs ht in
    (
      record c { current_message_offset = 0; current_message_size = empty },
      [],
      drop n chunk,
      sizing [],
      skips_and_ends c chunk o (groups header) v (groups-lt_done header ht) ho n
          (large ∙ lt→ltb _ _ above) e h,
      (hb, refl, refl, (omega arith, tt)),
      run-split max n (skipping header o) (sizing []) [] chunk (
          run-skipped max header o (take n chunk) (omega (arith, length-take n chunk h))
            (omega (arith, length-take n chunk h))),
      omega (arith, length-drop n chunk),
      All-drop n chunk,
    )

Copied-filling :
    (max : ℕ) (c : Client) (header got chunk : List ℕ)
    → Represents max c (filling header got)
    → 0 < length chunk
    → Copied max (filling header got) c chunk
Copied-filling max c header [] (b ∷ chunk) r h0 = elim (dec_lt 0 (groups header)) [
  | yes pos ↦ elim (dec_lt (length (b ∷ chunk)) (groups header)) [
    | yes more ↦ Copied-more max c header [] (b ∷ chunk) r h0 (omega arith)
    | no whole ↦
        Copied-whole max c header [] (b ∷ chunk) (groups header) r pos (omega arith) (omega arith)
  ]
  | no none ↦ Copied-nothing max c header b chunk r (omega arith)
]
Copied-filling max c header got [] r h0 = absurd (omega arith)
Copied-filling max c header (x ∷ got) (b ∷ chunk) r h0 =
    let room : suc (length got) < groups header = omega arith in
    elim (dec_lt (length (x ∷ got) + length (b ∷ chunk)) (groups header)) [
      | yes more ↦ Copied-more max c header (x ∷ got) (b ∷ chunk) r h0 more
      | no whole ↦
          Copied-whole max c header (x ∷ got) (b ∷ chunk) (groups header - length (x ∷ got)) r
            (omega arith) (omega arith) (omega arith)
    ]

Copied-skipping :
    (max : ℕ) (c : Client) (header : List ℕ) (n : ℕ) (chunk : List ℕ)
    → Represents max c (skipping header n)
    → 0 < length chunk
    → Copied max (skipping header n) c chunk
Copied-skipping max c header n chunk r h0 = elim (dec_lt (n + length chunk) (groups header)) [
  | yes more ↦ skipped_more max c header n chunk r h0 more
  | no whole ↦
      skipped_whole max c header n (groups header - n) chunk r (omega arith) (omega arith)
        (omega arith)
]

abbrev pub HasSize : Phase → Type 0
HasSize (filling header got) = Unit
HasSize (skipping header n) = Unit
HasSize (sizing bs) = ⊥
HasSize (broken bs) = ⊥

-- Every round on an object that has the size of its message.
pub copied :
    (max : ℕ) (p : Phase) (c : Client) (chunk : List ℕ)
    → HasSize p
    → Represents max c p
    → 0 < length chunk
    → Copied max p c chunk
copied max (filling header got) c chunk h r h0 = Copied-filling max c header got chunk r h0
copied max (skipping header n) c chunk h r h0 = Copied-skipping max c header n chunk r h0
copied max (sizing bs) c chunk h r h0 = absurd h
copied max (broken bs) c chunk h r h0 = absurd h

pub weight_bounds :
    (p : Phase) (chunk : List ℕ)
    → (2 * length chunk ≤ weight p chunk) × (weight p chunk ≤ 2 * length chunk + 1)
weight_bounds (sizing bs) chunk = omega arith
weight_bounds (broken bs) chunk = omega arith
weight_bounds (skipping header n) chunk = omega arith
weight_bounds (filling header got) chunk = ground arith
