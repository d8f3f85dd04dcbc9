-- ===== src/Prelude/Bits.antt =====
-- Bitwise operations on words: both `&` and `|` act on the fields above and below a bit position
-- separately, at every position. All facts about masks and flags come from that.
use Prim.Native.Nat.{
  ℕ, zero, suc, ◌+◌, ◌-◌, ◌*◌, ◌/◌, ◌%◌, ◌^◌, ◌≤◌, ◌<◌, min, max, digits, bit_and, bit_or,
  bit_and-bitwise, bit_or-bitwise,
}
use mathlib.Core.Path.{◌≡◌, refl, ap}
use native.Mathlib.Nat.{pow-suc, one-le-pow}
use native.Mathlib.Omega.{arith}

-- More fuel than the first operand changes nothing.
digits_enough :
    (z : ℕ → ℕ) (g : ℕ → ℕ → ℕ) (f f' a b : ℕ)
    → a ≤ f
    → a ≤ f'
    → digits z g f a b ≡ digits z g f' a b
digits_enough z g zero zero zero b h h' = refl
digits_enough z g (suc f) zero zero b h h' = refl
digits_enough z g zero (suc f') zero b h h' = refl
digits_enough z g (suc f) (suc f') zero b h h' = refl
digits_enough z g zero f' (suc a) b h h' = absurd (omega arith)
digits_enough z g (suc f) zero (suc a) b h h' = absurd (omega arith)
digits_enough z g (suc f) (suc f') (suc a) b h h' =
    rw (digits_enough z g f f' (suc a / 2) (b / 2) (omega arith) (omega arith))

pub zero-bit_and : (b : ℕ) → bit_and 0 b ≡ 0
zero-bit_and b = bit_and-bitwise 0 b

pub zero-bit_or : (b : ℕ) → bit_or 0 b ≡ b
zero-bit_or b = bit_or-bitwise 0 b

bit_and_halves : (a b : ℕ) → bit_and a b ≡ bit_and (a / 2) (b / 2) * 2 + min (a % 2) (b % 2)
bit_and_halves zero b = omega (arith, zero-bit_and b, zero-bit_and (b / 2))
bit_and_halves (suc a) b = omega (
  arith,
  bit_and-bitwise (suc a) b,
  bit_and-bitwise (suc a / 2) (b / 2),
  digits_enough (λ y. 0) min a (suc a / 2) (suc a / 2) (b / 2) (omega arith) (omega arith),
)

bit_or_halves : (a b : ℕ) → bit_or a b ≡ bit_or (a / 2) (b / 2) * 2 + max (a % 2) (b % 2)
bit_or_halves zero b = omega (arith, zero-bit_or b, zero-bit_or (b / 2))
bit_or_halves (suc a) b = omega (
  arith,
  bit_or-bitwise (suc a) b,
  bit_or-bitwise (suc a / 2) (b / 2),
  digits_enough (λ y. y) max a (suc a / 2) (suc a / 2) (b / 2) (omega arith) (omega arith),
)

double_shift : (k q : ℕ) → q * 2 ^ suc k ≡ q * 2 ^ k * 2
double_shift k q = omega (arith, ap (λ (t : ℕ). q * t) (pow-suc 2 k))

-- The step of both splits: `f` works digit by digit with the digit operation `g`.
module _ (f : ℕ → ℕ → ℕ) (g : ℕ → ℕ → ℕ) (none_set : f 0 0 ≡ 0)
    (halves : (a b : ℕ) → f a b ≡ f (a / 2) (b / 2) * 2 + g (a % 2) (b % 2)) where
  split_fields :
      (k q r q' r' : ℕ)
      → r < 2 ^ k
      → r' < 2 ^ k
      → f (q * 2 ^ k + r) (q' * 2 ^ k + r') ≡ f q q' * 2 ^ k + f r r'
  split_fields zero q r q' r' h h' = ground arith
  split_fields (suc k) q r q' r' h h' = ground (
    arith,
    double_shift k q,
    double_shift k q',
    double_shift k (f q q'),
    halves (q * 2 ^ suc k + r) (q' * 2 ^ suc k + r'),
    halves r r',
    split_fields k q (r / 2) q' (r' / 2) (omega arith) (omega arith),
  )

pub bit_and_split :
    (k q r q' r' : ℕ)
    → r < 2 ^ k
    → r' < 2 ^ k
    → bit_and (q * 2 ^ k + r) (q' * 2 ^ k + r') ≡ bit_and q q' * 2 ^ k + bit_and r r'
bit_and_split = split_fields bit_and min refl bit_and_halves

pub bit_or_split :
    (k q r q' r' : ℕ)
    → r < 2 ^ k
    → r' < 2 ^ k
    → bit_or (q * 2 ^ k + r) (q' * 2 ^ k + r') ≡ bit_or q q' * 2 ^ k + bit_or r r'
bit_or_split = split_fields bit_or max refl bit_or_halves

bit_and-zero_below : (n a : ℕ) → a ≤ n → bit_and a 0 ≡ 0
bit_and-zero_below n zero h = refl
bit_and-zero_below zero (suc a) h = absurd (omega arith)
bit_and-zero_below (suc n) (suc a) h =
    omega (arith, bit_and_halves (suc a) 0, bit_and-zero_below n (suc a / 2) (omega arith))

pub bit_and-zero : (a : ℕ) → bit_and a 0 ≡ 0
bit_and-zero a = bit_and-zero_below a a (omega arith)

bit_or-zero_below : (n a : ℕ) → a ≤ n → bit_or a 0 ≡ a
bit_or-zero_below n zero h = refl
bit_or-zero_below zero (suc a) h = absurd (omega arith)
bit_or-zero_below (suc n) (suc a) h =
    omega (arith, bit_or_halves (suc a) 0, bit_or-zero_below n (suc a / 2) (omega arith))

pub bit_or-zero : (a : ℕ) → bit_or a 0 ≡ a
bit_or-zero a = bit_or-zero_below a a (omega arith)

-- A mask of `k` ones keeps the low field.
mask_below : (k r : ℕ) → r < 2 ^ k → bit_and r (2 ^ k - 1) ≡ r
mask_below zero r h = rw bit_and-zero (omega arith)
mask_below (suc k) r h = ground (
  arith,
  bit_and_halves r (2 ^ suc k - 1),
  pow-suc 2 k,
  one-le-pow k 2 (omega arith),
  mask_below k (r / 2) (omega arith),
)

pub bit_and_low_mask : (k q r : ℕ) → r < 2 ^ k → bit_and (q * 2 ^ k + r) (2 ^ k - 1) ≡ r
bit_and_low_mask k q r h = ground (
  arith,
  bit_and_split k q r 0 (2 ^ k - 1) h (omega (arith, one-le-pow k 2 (omega arith))),
  bit_and-zero q,
  mask_below k r h,
)

-- Setting fields that are clear is addition.
pub bit_or_fields : (k q r : ℕ) → r < 2 ^ k → bit_or (q * 2 ^ k) r ≡ q * 2 ^ k + r
bit_or_fields k q r h =
    ground
      (arith, bit_or_split k q 0 0 r (one-le-pow k 2 (omega arith)) h, bit_or-zero q, zero-bit_or r)

pub bit_or_fields_above : (k q r : ℕ) → r < 2 ^ k → bit_or r (q * 2 ^ k) ≡ q * 2 ^ k + r
bit_or_fields_above k q r h =
    ground
      (arith, bit_or_split k 0 r q 0 h (one-le-pow k 2 (omega arith)), zero-bit_or q, bit_or-zero r)

-- A mask with nothing in the low field reads only the fields above.
pub bit_and_high :
    (k q r m : ℕ) → r < 2 ^ k → bit_and (q * 2 ^ k + r) (m * 2 ^ k) ≡ bit_and q m * 2 ^ k
bit_and_high k q r m h =
    ground (arith, bit_and_split k q r m 0 h (one-le-pow k 2 (omega arith)), bit_and-zero r)
