-- ===== src/Message/Run.antt =====
-- Runs of the one-byte machine of a receiver.
use mathlib.Core.List.{append_assoc, reverse_aux}
use tarm_io.Prelude.{
  ℕ, suc, ◌+◌, ◌≤◌, ◌<◌, ◌≡◌, refl, ◌∙◌, arith, false, List, [], ◌∷◌, ◌++◌, length, ltb, leb,
  reverse, All,
}
use tarm_io.VariableLengthSize.Wire.{IsMarked, groups}
use tarm_io.Message.{received}
use tarm_io.Message.Phase.{Phase, sizing, broken, filling, skipping, start, byte, run}

-- A run over two chunks is a run over the first, and then over the second.
pub run-append :
    (max : ℕ) (p : Phase) (xs ys : List ℕ)
    → run max p (xs ++ ys)
      ≡ ((run max (run max p xs).0 ys).0, (run max p xs).1 ++ (run max (run max p xs).0 ys).1)
unfolding run
run-append max p [] ys = refl
run-append max p (x ∷ xs) ys =
    let p' = (byte max p x).0 in rw (run-append max p' xs ys) (rw append_assoc refl)

pub run-broken : (max : ℕ) (bs xs : List ℕ) → run max (broken bs) xs ≡ (broken bs, [])
unfolding run byte
run-broken max bs [] = refl
run-broken max bs (x ∷ xs) = rw (run-broken max bs xs)

-- Bytes with their marker grow the header while there is room.
pub run-marked :
    (max : ℕ) (bs xs : List ℕ)
    → All IsMarked xs
    → length bs + length xs ≤ 7
    → run max (sizing bs) xs ≡ (sizing (reverse_aux xs bs), [])
unfolding run byte
run-marked max bs [] h hn = refl
run-marked max bs (x ∷ xs) h hn = ground (arith, run-marked max (x ∷ bs) xs h.1)

-- Bytes of a message, up to its end.
pub run-filling :
    (max : ℕ) (header got xs : List ℕ)
    → length got + length xs < groups header
    → run max (filling header got) xs ≡ (filling header (reverse_aux xs got), [])
unfolding run byte
run-filling max header got [] h = refl
run-filling max header got (x ∷ xs) h = ground (arith, run-filling max header (x ∷ got) xs)

pub run-filled :
    (max : ℕ) (header got xs : List ℕ)
    → 0 < length xs
    → length got + length xs ≡ groups header
    → run max (filling header got) xs ≡ (sizing [], received (reverse (reverse_aux xs got)) ∷ [])
unfolding run byte
run-filled max header got [] h0 h = absurd (omega arith)
run-filled max header got (x ∷ []) h0 h = ground arith
run-filled max header got (x ∷ y ∷ xs) h0 h =
    ground (arith, run-filled max header (x ∷ got) (y ∷ xs))

pub run-skipping :
    (max : ℕ) (header : List ℕ) (n : ℕ) (xs : List ℕ)
    → n + length xs < groups header
    → run max (skipping header n) xs ≡ (skipping header (n + length xs), [])
unfolding run byte
run-skipping max header n [] h = ground arith
run-skipping max header n (x ∷ xs) h = ground (arith, run-skipping max header (suc n) xs)

pub run-skipped :
    (max : ℕ) (header : List ℕ) (n : ℕ) (xs : List ℕ)
    → 0 < length xs
    → n + length xs ≡ groups header
    → run max (skipping header n) xs ≡ (sizing [], [])
unfolding run byte
run-skipped max header n [] h0 h = absurd (omega arith)
run-skipped max header n (x ∷ []) h0 h = ground arith
run-skipped max header n (x ∷ y ∷ xs) h0 h = ground (arith, run-skipped max header (suc n) (y ∷ xs))

byte-empty_message :
    (max : ℕ) (header got : List ℕ) (b : ℕ)
    → groups header ≡ 0
    → byte max (filling header got) b
      ≡ ((byte max (sizing []) b).0, received [] ∷ (byte max (sizing []) b).1)
unfolding byte
byte-empty_message max header got b e = rw e refl

pub run-empty_message :
    (max : ℕ) (header got : List ℕ) (b : ℕ) (chunk : List ℕ)
    → groups header ≡ 0
    → run max (filling header got) (b ∷ chunk)
      ≡ ((run max (sizing []) (b ∷ chunk)).0, received [] ∷ (run max (sizing []) (b ∷ chunk)).1)
unfolding run
run-empty_message max header got b chunk e = rw (byte-empty_message max header got b e) refl

byte-start : (max : ℕ) (bs : List ℕ) (b : ℕ) → b < 128 → byte max (sizing bs) b ≡ start max (b ∷ bs)
unfolding byte
byte-start max bs b h = let last : leb 128 b ≡ false = ground arith in rw last refl

-- The byte that completes a header, and what follows.
pub run-start :
    (max : ℕ) (bs : List ℕ) (b : ℕ) (chunk : List ℕ)
    → b < 128
    → run max (sizing bs) (b ∷ chunk) ≡ (
      (run max (start max (b ∷ bs)).0 chunk).0,
      (start max (b ∷ bs)).1 ++ (run max (start max (b ∷ bs)).0 chunk).1,
    )
unfolding run
run-start max bs b chunk h = rw (byte-start max bs b h) refl

pub run-refused :
    (max : ℕ) (bs : List ℕ) (b : ℕ) (chunk : List ℕ)
    → length bs ≡ 7
    → 128 ≤ b
    → (run max (sizing bs) (b ∷ chunk)).0 ≡ broken bs
unfolding run byte
run-refused max bs b chunk h hb = ground (arith, run-broken max bs chunk)

-- A header and what follows it.
pub run-header :
    (max : ℕ) (bs xs : List ℕ) (b : ℕ) (rest : List ℕ)
    → All IsMarked xs
    → length bs + length xs ≤ 7
    → b < 128
    → let s = start max (b ∷ reverse_aux xs bs) in
      run max (sizing bs) (xs ++ b ∷ rest) ≡ ((run max s.0 rest).0, s.1 ++ (run max s.0 rest).1)
run-header max bs xs b rest ms h hb =
    run-append max (sizing bs) xs (b ∷ rest)
    ∙ rw (run-marked max bs xs ms h) (run-start max (reverse_aux xs bs) b rest hb)

pub run-overlong :
    (max : ℕ) (bs xs : List ℕ) (b : ℕ) (rest : List ℕ)
    → All IsMarked xs
    → length (reverse_aux xs bs) ≡ 7
    → length bs + length xs ≡ 7
    → 128 ≤ b
    → (run max (sizing bs) (xs ++ b ∷ rest)).0 ≡ broken (reverse_aux xs bs)
run-overlong max bs xs b rest ms hn h hb =
    rw (run-append max (sizing bs) xs (b ∷ rest), run-marked max bs xs ms (omega arith))
      (run-refused max (reverse_aux xs bs) b rest hn hb)

-- A header of a size that is accepted.
pub run-header_accepted :
    (max : ℕ) (bs xs : List ℕ) (b : ℕ) (rest : List ℕ)
    → All IsMarked xs
    → length bs + length xs ≤ 7
    → b < 128
    → ltb max (groups (b ∷ reverse_aux xs bs)) ≡ false
    → run max (sizing bs) (xs ++ b ∷ rest) ≡ run max (filling (b ∷ reverse_aux xs bs) []) rest
run-header_accepted max bs xs b rest ms h hb small =
    run-header max bs xs b rest ms h hb ∙ rw small refl
