-- ===== src/File/Reading/Buffers.antt =====
-- Counts over the read buffers of source/io/fs/File.cpp.
use mathlib.Core.Bool.{false≢true}
use mathlib.Core.Path.{subst}
use mathlib.Core.Option.{some_inj}
use tarm_io.Prelude.{
  ℕ, zero, suc, ◌+◌, ◌≡◌, refl, ap, sym, ◌∙◌, Bool, true, false, Option, none, some, List, [], ◌∷◌,
  length, get_elem?, arith,
}
use tarm_io.File.{Buffer, free, reading, held, shared, kept, is_free, in_use}
use tarm_io.File.Reading.{set, next, find_free}

abbrev pub bit : Bool → ℕ
bit true = 1
bit false = 0

-- 1 for a buffer that is in use.
abbrev pub used : Buffer → ℕ
used free = 0
used reading = 1
used held = 1
used shared = 1
used kept = 1

-- 1 for a buffer that libuv is reading into.
abbrev pub pending : Buffer → ℕ
pending free = 0
pending reading = 1
pending held = 0
pending shared = 0
pending kept = 0

abbrev pub total : (Buffer → ℕ) → List Buffer → ℕ
total w [] = 0
total w (b ∷ bs) = w b + total w bs

pub total-set :
    (w : Buffer → ℕ) (bs : List Buffer) (i : ℕ) (a b : Buffer)
    → get_elem? bs i ≡ some a
    → total w (set bs i b) + w a ≡ total w bs + w b
total-set w [] i a b h = absurd (cc)
total-set w (x ∷ xs) zero a b h = let e : w x ≡ w a = ap w (some_inj.0 h) in omega (arith, e)
total-set w (x ∷ xs) (suc i) a b h = omega (arith, total-set w xs i a b h)

pub length-set : (bs : List Buffer) (i : ℕ) (b : Buffer) → length (set bs i b) ≡ length bs
length-set [] i b = refl
length-set (x ∷ xs) zero b = refl
length-set (x ∷ xs) (suc i) b = ap suc (length-set xs i b)

pub get_elem?-set_self :
    (bs : List Buffer) (i : ℕ) (a b : Buffer)
    → get_elem? bs i ≡ some a
    → get_elem? (set bs i b) i ≡ some b
get_elem?-set_self [] i a b h = ground arith
get_elem?-set_self (x ∷ xs) zero a b h = refl
get_elem?-set_self (x ∷ xs) (suc i) a b h = get_elem?-set_self xs i a b h

next-some : (o : Option ℕ) (i : ℕ) → next o ≡ some i → (j : ℕ) × (o ≡ some j) × (i ≡ suc j)
next-some none i h = absurd (cc)
next-some (some j) i h = (j, refl, sym (some_inj.0 h))

found_later :
    (b : Buffer) (bs : List Buffer)
    → ((i : ℕ) → find_free bs ≡ some i → get_elem? bs i ≡ some free)
    → (i : ℕ) → next (find_free bs) ≡ some i
    → get_elem? (b ∷ bs) i ≡ some free
found_later b bs ih i h =
    let (j, e, q) = next-some (find_free bs) i h in
    subst (λ k. get_elem? (b ∷ bs) k ≡ some free) (sym q) (ih j e)

pub find_free-get_elem? :
    (bs : List Buffer) (i : ℕ) → find_free bs ≡ some i → get_elem? bs i ≡ some free
find_free-get_elem? [] i h = ground arith
find_free-get_elem? (free ∷ bs) zero h = refl
find_free-get_elem? (free ∷ bs) (suc i) h = ground arith
find_free-get_elem? (reading ∷ bs) i h = found_later reading bs (find_free-get_elem? bs) i h
find_free-get_elem? (held ∷ bs) i h = found_later held bs (find_free-get_elem? bs) i h
find_free-get_elem? (shared ∷ bs) i h = found_later shared bs (find_free-get_elem? bs) i h
find_free-get_elem? (kept ∷ bs) i h = found_later kept bs (find_free-get_elem? bs) i h

pub get_elem?-in_use :
    (bs : List Buffer) (i : ℕ) (b : Buffer)
    → get_elem? bs i ≡ some b
    → is_free b ≡ false
    → in_use bs ≡ true
get_elem?-in_use [] i b h u = absurd (cc)
get_elem?-in_use (free ∷ bs) zero b h u =
    absurd (false≢true (sym u ∙ ap is_free (sym (some_inj.0 h))))
get_elem?-in_use (free ∷ bs) (suc i) b h u = get_elem?-in_use bs i b h u
get_elem?-in_use (reading ∷ bs) i b h u = refl
get_elem?-in_use (held ∷ bs) i b h u = refl
get_elem?-in_use (shared ∷ bs) i b h u = refl
get_elem?-in_use (kept ∷ bs) i b h u = refl
