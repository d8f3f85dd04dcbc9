-- ===== src/Message/Receive.antt =====
-- `on_data_receive` is the one-byte machine, as long as no header is refused.
use mathlib.Core.List.{reverse_aux, append-nil}
use tarm_io.Prelude.{
  ℕ, zero, suc, ◌+◌, ◌*◌, ◌≤◌, ◌<◌, ◌≡◌, refl, arith, true, List, [], ◌∷◌, ◌++◌, length, ◌⊎◌, inl,
  inr, All, length-append, none, ltb, ltb→le, ltb→lt, Bool-cases,
}
use tarm_io.VariableLengthSize.Wire.{IsByte, IsMarked, groups}
use tarm_io.VariableLengthSize.Decoder.{reading, done, packing, IsTaken}
use tarm_io.VariableLengthSize.Decode.{done_flags}
use tarm_io.VariableLengthSize.RoundTrip.{All-reverse-IsMarked}
use tarm_io.Message.{
  Client, Event, Outcome, ok, size_step, next_round, message_half, receive_loop, on_data_receive,
}
use tarm_io.Message.Phase.{Phase, sizing, broken, filling, skipping, start, run}
use tarm_io.Message.Run.{run-marked, run-broken, run-header, run-overlong}
use tarm_io.Message.Represents.{HasBuffer, Represents, IsLive, length-reverse_aux}
use tarm_io.Message.Copied.{weight, Copied, run-nil}
use tarm_io.Message.Rounds.{HasSize, copied, weight_bounds}
use tarm_io.Message.Headers.{
  Split, grows, starts, refuses, split, size_step_grows, size_step_starts,
}

zero_or_pos : (n : ℕ) → (n ≡ 0) ⊎ (0 < n)
zero_or_pos zero = inl refl
zero_or_pos (suc n) = inr (omega arith)

start-Represents :
    (max : ℕ) (c : Client) (header : List ℕ)
    → HasBuffer max c
    → c.current_message_size ≡ packing (done header)
    → c.current_message_offset ≡ 0
    → IsTaken (done header)
    → Represents max c (start max header).0
start-Represents max c header hb hs ho ht = elim (Bool-cases (ltb max (groups header))) [
  | inl large ↦
      rw large (hb, hs, ho, ht, ltb→lt _ _ large, omega (arith, ltb→lt max (groups header) large))
  | inr small ↦
      rw small (hb, hs, ho, ht, refl, ltb→le _ _ small, omega arith, zero_or_pos (groups header))
]

start-HasSize : (max : ℕ) (header : List ℕ) → HasSize (start max header).0
start-HasSize max header = elim (Bool-cases (ltb max (groups header))) [
  | inl large ↦ rw large tt
  | inr small ↦ rw small tt
]

Received : ℕ → Phase → List ℕ → List Event → Outcome (Client × List Event) → Type 0
Received max p chunk es out =
    (c' : Client) × (out ≡ ok (c', es ++ (run max p chunk).1))
    × Represents max c' (run max p chunk).0

-- The rounds behind this one, as the induction has them.
abbrev Goes : ℕ → ℕ → Type 0
Goes fuel max =
    (p : Phase) (c : Client) (chunk : List ℕ)
    → weight p chunk ≤ fuel
    → All IsByte chunk
    → Represents max c p
    → IsLive (run max p chunk).0
    → Received max p chunk [] (receive_loop fuel true c chunk)

half-Copied :
    (fuel max : ℕ) (p : Phase) (c : Client) (es : List Event) (b : ℕ) (chunk : List ℕ)
    → Goes fuel max
    → weight p (b ∷ chunk) ≤ suc fuel
    → All IsByte (b ∷ chunk)
    → IsLive (run max p (b ∷ chunk)).0
    → Copied max p c (b ∷ chunk)
    → Received max p
        (b ∷ chunk)
        es
        (message_half (λ c' left. receive_loop fuel true c' left) true (c, es, b ∷ chunk))
unfolding Received message_half next_round
half-Copied fuel max p c es b chunk ih w bytes live
      (c', fs, left, p', step, r', ran, lighter, still) =
    let (c'', out, rep) = ih p' c' left (omega arith) (still bytes) r' (rw ran at live) in
    (c'', rw (step, out, ran) refl, rw ran rep)

half :
    (fuel max : ℕ) (p : Phase) (c : Client) (es : List Event) (chunk : List ℕ)
    → Goes fuel max
    → weight p chunk ≤ suc fuel
    → HasSize p
    → All IsByte chunk
    → Represents max c p
    → IsLive (run max p chunk).0
    → Received max p chunk es
        (message_half (λ c' left. receive_loop fuel true c' left) true (c, es, chunk))
half fuel max p c es [] ih w hp bytes r live =
    unfold Received message_half in
    (c, rw (run-nil max p, append-nil es) refl, rw (run-nil max p) r)
half fuel max p c es (b ∷ chunk) ih w hp bytes r live =
    half-Copied fuel max p c es b chunk ih w bytes live
      (copied max p c (b ∷ chunk) hp r (omega arith))

round_starts :
    (fuel max : ℕ) (c : Client) (bs xs : List ℕ) (b : ℕ) (rest : List ℕ)
    → Goes fuel max
    → 2 * length (xs ++ b ∷ rest) ≤ suc fuel
    → All IsByte (xs ++ b ∷ rest)
    → Represents max c (sizing bs)
    → IsLive (run max (sizing bs) (xs ++ b ∷ rest)).0
    → All IsMarked xs
    → length bs + length xs ≤ 7
    → b < 128
    → All IsByte rest
    → Received max (sizing bs) (xs ++ b ∷ rest) [] (
        message_half
          (λ c' left. receive_loop fuel true c' left)
          true
          (size_step true c (xs ++ b ∷ rest)))
unfolding Received
round_starts fuel max c bs xs b rest ih w bytes r live ms h hb hr =
    let header : List ℕ = b ∷ reverse_aux xs bs in
    let c1 : Client = record c { current_message_size = packing (done header) } in
    let ran = run-header max bs xs b rest ms h hb in
    let taken : IsTaken (done header) =
      (hb, omega (arith, length-reverse_aux xs bs), All-reverse-IsMarked xs bs ms r.3.1) in
    let (c', out, rep) =
      half fuel max (start max header).0 c1 (start max header).1 rest ih
        (omega (arith, weight_bounds (start max header).0 rest, length-append xs (b ∷ rest)))
        (start-HasSize max header) hr (start-Represents max c1 header r.0 refl r.2 taken)
        (rw ran at live) in
    rw (size_step_starts max c bs xs b rest r bytes ms h hb) (c', rw ran out, rw ran rep)

-- A round on an object that still reads a size.
round_sizing :
    (fuel max : ℕ) (c : Client) (bs : List ℕ) (chunk : List ℕ)
    → Goes fuel max
    → 2 * length chunk ≤ suc fuel
    → All IsByte chunk
    → Represents max c (sizing bs)
    → IsLive (run max (sizing bs) chunk).0
    → Split bs chunk
    → Received max
        (sizing bs)
        chunk
        []
        (message_half (λ c' left. receive_loop fuel true c' left) true (size_step true c chunk))
round_sizing fuel max c bs chunk ih w bytes r live (grows ms h) =
    let c' : Client = record c {
      current_message_size = packing (reading (reverse_aux chunk bs));
    } in
    rw (size_step_grows max c bs chunk r bytes ms h) (
      unfold Received message_half in
      (
        c',
        rw (run-marked max bs chunk ms h) refl,
        rw (run-marked max bs chunk ms h) (
          r.0,
          refl,
          r.2,
          (omega (arith, length-reverse_aux chunk bs), All-reverse-IsMarked chunk bs ms r.3.1),
        ),
      ))
round_sizing fuel max c bs chunk ih w bytes r live (starts xs b rest e ms h hb hr) = rw e (
    round_starts fuel max c bs xs b rest ih (rw e at w) (rw e at bytes) r (rw e at live) ms h hb hr)
round_sizing fuel max c bs chunk ih w bytes r live (refuses xs b rest e ms h hb) =
    let size = length-reverse_aux xs bs in
    absurd (rw (e, run-overlong max bs xs b rest ms (omega arith) h hb) at live)

-- An object that has its size goes straight to the message.
size_step-begun :
    (max : ℕ) (c : Client) (header chunk : List ℕ)
    → c.current_message_size ≡ packing (done header)
    → IsTaken (done header)
    → size_step true c chunk ≡ (c, [], chunk)
unfolding size_step
size_step-begun max c header chunk hs ht = rw (hs, done_flags header ht) refl

pub receive_loop-suc :
    (fuel : ℕ) (c : Client) (b : ℕ) (chunk : List ℕ)
    → receive_loop (suc fuel) true c (b ∷ chunk)
      ≡ message_half (λ c' left. receive_loop fuel true c' left) true (size_step true c (b ∷ chunk))
unfolding receive_loop
receive_loop-suc fuel c b chunk = refl

receives : (fuel max : ℕ) → Goes fuel max
receives fuel max p c [] w bytes r live =
    unfold Received receive_loop in (c, rw (run-nil max p) refl, rw (run-nil max p) r)
receives zero max p c (b ∷ chunk) w bytes r live =
    absurd (omega (arith, weight_bounds p (b ∷ chunk)))
receives (suc fuel) max (sizing bs) c (b ∷ chunk) w bytes r live =
    rw (receive_loop-suc fuel c b chunk) (
      round_sizing fuel max c bs (b ∷ chunk) (receives fuel max) w bytes r live
        (split bs (b ∷ chunk) r.3.0 bytes))
receives (suc fuel) max (broken bs) c (b ∷ chunk) w bytes r live =
    absurd (rw (run-broken max bs (b ∷ chunk)) at live)
receives (suc fuel) max (filling header got) c (b ∷ chunk) w bytes r live =
    rw (receive_loop-suc fuel c b chunk, size_step-begun max c header (b ∷ chunk) r.1 r.3)
      (half fuel max (filling header got) c [] (b ∷ chunk) (receives fuel max) w tt bytes r live)
receives (suc fuel) max (skipping header n) c (b ∷ chunk) w bytes r live =
    rw (receive_loop-suc fuel c b chunk, size_step-begun max c header (b ∷ chunk) r.1 r.3)
      (half fuel max (skipping header n) c [] (b ∷ chunk) (receives fuel max) w tt bytes r live)

-- On an object that stands for a phase of the one-byte machine, and a chunk on which the machine
-- refuses no header, `on_data_receive` ends without a write outside its buffer, makes the calls that
-- the machine makes, and leaves an object that stands for the machine's next phase.
pub on_data_receive-run :
    (max : ℕ) (p : Phase) (c : Client) (chunk : List ℕ)
    → All IsByte chunk
    → Represents max c p
    → IsLive (run max p chunk).0
    → (c' : Client) × (on_data_receive true c chunk none ≡ ok (c', (run max p chunk).1))
      × Represents max c' (run max p chunk).0
unfolding on_data_receive
on_data_receive-run max p c chunk bytes r live =
    unfold Received in
    receives (2 * length chunk + 1) max p c chunk (weight_bounds p chunk).1 bytes r live
