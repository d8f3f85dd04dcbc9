-- ===== src/Backlog/Buckets.antt =====
-- Counting the items of source/io/BacklogWithTimeout.h, over its buckets.
use tarm_io.Prelude.{
  ℕ, zero, suc, ◌+◌, ◌<◌, ◌≡◌, refl, ap, arith, Bool, false, List, [], ◌∷◌, ◌++◌, length,
  if◌then◌else◌, ◌==◌,
}
use tarm_io.Backlog.{push_at, put_at, bucket}

module _ {T : Type 0} (p : T → Bool) where
  abbrev pub one : T → ℕ
  one t = if p t then 1 else 0

  -- How many items of a list pass the test.
  abbrev pub count : List T → ℕ
  count [] = 0
  count (t ∷ ts) = one t + count ts

  abbrev pub total : List (List T) → ℕ
  total [] = 0
  total (b ∷ bs) = count b + total bs

  pub count-append : (xs ys : List T) → count (xs ++ ys) ≡ count xs + count ys
  count-append [] ys = omega arith
  count-append (x ∷ xs) ys = omega (arith, count-append xs ys)

  pub total-push_at :
      (n : ℕ) (t : T) (bs : List (List T))
      → n < length bs
      → total (push_at n t bs) ≡ total bs + one t
  total-push_at n t [] h = absurd (omega arith)
  total-push_at zero t (b ∷ bs) h = omega (arith, count-append b (t ∷ []))
  total-push_at (suc n) t (b ∷ bs) h = omega (arith, total-push_at n t bs (omega arith))

  pub total-put_at :
      (n : ℕ) (c : List T) (bs : List (List T))
      → n < length bs
      → total (put_at n c bs) + count (bucket n bs) ≡ total bs + count c
  total-put_at n c [] h = absurd (omega arith)
  total-put_at zero c (b ∷ bs) h = omega arith
  total-put_at (suc n) c (b ∷ bs) h = omega (arith, total-put_at n c bs (omega arith))

module _ {T : Type 0} where
  pub length-push_at : (n : ℕ) (t : T) (bs : List (List T)) → length (push_at n t bs) ≡ length bs
  length-push_at n t [] = refl
  length-push_at zero t (b ∷ bs) = refl
  length-push_at (suc n) t (b ∷ bs) = ap suc (length-push_at n t bs)

  pub bucket-push_at :
      (m n : ℕ) (t : T) (bs : List (List T))
      → (n == m) ≡ false
      → bucket m (push_at n t bs) ≡ bucket m bs
  bucket-push_at m n t [] h = refl
  bucket-push_at zero zero t (b ∷ bs) h = ground arith
  bucket-push_at (suc m) zero t (b ∷ bs) h = refl
  bucket-push_at zero (suc n) t (b ∷ bs) h = refl
  bucket-push_at (suc m) (suc n) t (b ∷ bs) h = bucket-push_at m n t bs (ground (arith, h))

  pub length-put_at : (n : ℕ) (c : List T) (bs : List (List T)) → length (put_at n c bs) ≡ length bs
  length-put_at n c [] = refl
  length-put_at zero c (b ∷ bs) = refl
  length-put_at (suc n) c (b ∷ bs) = ap suc (length-put_at n c bs)
