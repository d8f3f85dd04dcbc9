-- ===== src/Message/Represents.antt =====
-- The client object that stands for a phase of the one-byte machine.
use mathlib.Core.List.{append-nil, append_assoc, reverse_aux, reverse-cons}
use tarm_io.Prelude.{
  ℕ, zero, suc, ◌+◌, ◌≤◌, ◌<◌, ◌≡◌, refl, sym, ap, ◌∙◌, arith, true, List, [], ◌∷◌, ◌++◌, length,
  take, drop, reverse, ◌⊎◌, length-append, length-drop, length-take, ltb,
}
use tarm_io.VariableLengthSize.{value, is_complete}
use tarm_io.VariableLengthSize.Wire.{groups}
use tarm_io.VariableLengthSize.Decoder.{reading, done, failed, packing, IsTaken}
use tarm_io.VariableLengthSize.Decode.{done_flags, value-done}
use tarm_io.Message.{Client, init, zeros, splice, current_message_too_large}
use tarm_io.Message.Phase.{Phase, sizing, broken, filling, skipping}

abbrev pub HasBuffer : ℕ → Client → Type 0
HasBuffer max c = (c.max_message_size ≡ max) × (length c.buffer ≡ max)

abbrev pub Represents : ℕ → Client → Phase → Type 0
Represents max c (sizing bs) =
    HasBuffer max c
    × (c.current_message_size ≡ packing (reading bs))
    × (c.current_message_offset ≡ 0)
    × IsTaken (reading bs)
Represents max c (broken bs) =
    HasBuffer max c × (c.current_message_size ≡ packing (failed bs)) × IsTaken (failed bs)
Represents max c (filling header got) =
    HasBuffer max c
    × (c.current_message_size ≡ packing (done header))
    × (c.current_message_offset ≡ length got)
    × IsTaken (done header)
    × (take (length got) c.buffer ≡ reverse got)
    × (groups header ≤ max)
    × (length got ≤ groups header)
    × ((groups header ≡ 0) ⊎ (length got < groups header))
Represents max c (skipping header n) =
    HasBuffer max c
    × (c.current_message_size ≡ packing (done header))
    × (c.current_message_offset ≡ n)
    × IsTaken (done header)
    × (max < groups header)
    × (n < groups header)

abbrev pub IsLive : Phase → Type 0
IsLive (broken bs) = ⊥
IsLive (sizing bs) = Unit
IsLive (filling header got) = Unit
IsLive (skipping header n) = Unit

length-zeros : (n : ℕ) → length (zeros n) ≡ n
length-zeros zero = refl
length-zeros (suc n) = ap suc (length-zeros n)

pub init-Represents : (max : ℕ) → Represents max (init max) (sizing [])
unfolding init
init-Represents max = ((refl, length-zeros max), refl, refl, (omega arith, tt))

-- A write within the buffer keeps its length, and what is in front of its end is what was in front of
-- its start, followed by what was written.
pub length-splice :
    (buffer : List ℕ) (offset : ℕ) (xs : List ℕ)
    → offset + length xs ≤ length buffer
    → length (splice buffer offset xs) ≡ length buffer
length-splice buffer offset xs h = omega (
  arith,
  length-append (take offset buffer) (xs ++ drop (offset + length xs) buffer),
  length-append xs (drop (offset + length xs) buffer),
  length-take offset buffer (omega arith),
  length-drop (offset + length xs) buffer,
)

take-append : (xs ys : List ℕ) (n : ℕ) → n ≡ length xs → take n (xs ++ ys) ≡ xs
take-append [] ys n e = rw e
take-append (x ∷ xs) ys n e = rw e (ap (◌∷◌ x) (take-append xs ys (length xs) refl))

pub take-splice :
    (buffer : List ℕ) (offset n : ℕ) (xs : List ℕ)
    → offset + length xs ≤ length buffer
    → n ≡ offset + length xs
    → take n (splice buffer offset xs) ≡ take offset buffer ++ xs
take-splice buffer offset n xs h e =
    rw (← append_assoc (take offset buffer) xs (drop (offset + length xs) buffer)) (
      take-append (take offset buffer ++ xs) _ n (
        omega (
          arith,
          e,
          length-append (take offset buffer) xs,
          length-take offset buffer (omega arith),
        )))

pub reverse-reverse_aux : (xs got : List ℕ) → reverse (reverse_aux xs got) ≡ reverse got ++ xs
reverse-reverse_aux [] got = sym (append-nil (reverse got))
reverse-reverse_aux (x ∷ xs) got =
    reverse-reverse_aux xs (x ∷ got) ∙ rw (reverse-cons x got, append_assoc) refl

pub length-reverse_aux : (xs got : List ℕ) → length (reverse_aux xs got) ≡ length got + length xs
length-reverse_aux [] got = omega arith
length-reverse_aux (x ∷ xs) got = omega (arith, length-reverse_aux xs (x ∷ got))

-- The size of a message that has begun.
pub begun :
    (max : ℕ) (c : Client) (header : List ℕ)
    → c.max_message_size ≡ max
    → c.current_message_size ≡ packing (done header)
    → IsTaken (done header)
    → (value c.current_message_size ≡ groups header)
      × (is_complete c.current_message_size ≡ true)
      × (current_message_too_large c ≡ ltb max (groups header))
unfolding current_message_too_large
begun max c header hm e h =
    rw e
      (value-done header h, done_flags header h, rw (done_flags header h, value-done header h, hm))
