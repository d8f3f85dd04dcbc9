-- ===== src/VariableLengthSize/Wire.antt =====
-- A header as a list of bytes, its last byte first, and the two numbers that the object keeps of it.
use tarm_io.Prelude.{
  ℕ, zero, suc, ◌+◌, ◌*◌, ◌%◌, ◌^◌, ◌<◌, ◌≤◌, ◌≡◌, refl, arith, List, [], ◌∷◌, length, All,
}
use native.Mathlib.Nat.{pow-suc}
use native.Mathlib.Numerals.{towards_suc}

abbrev pub IsByte : ℕ → Type 0
IsByte b = b < 256

-- Every byte has its marker set.
abbrev pub IsMarked : ℕ → Type 0
IsMarked b = (128 ≤ b) × (b < 256)

-- The seven-bit groups, highest (that is, first) in front.
abbrev pub groups : List ℕ → ℕ
groups [] = 0
groups (b ∷ bs) = groups bs * 128 + b % 128

-- The bytes in memory order.
abbrev pub packed : List ℕ → ℕ
packed [] = 0
packed (b ∷ bs) = packed bs + b * 256 ^ length bs

pub groups_lt : (bs : List ℕ) → groups bs < 128 ^ length bs
groups_lt [] = omega arith
groups_lt (b ∷ bs) = omega (arith, pow-suc 128 (length bs), groups_lt bs)

pub packed_lt : (bs : List ℕ) → All IsByte bs → packed bs < 256 ^ length bs
packed_lt [] h = omega arith
packed_lt (b ∷ bs) h = grind (arith, pow-suc 256 (length bs), packed_lt bs h.1)

pub bytes_to_bits : (k : ℕ) → 256 ^ k ≡ 2 ^ (8 * k)
bytes_to_bits zero = refl
bytes_to_bits (suc k) =
    let e : 8 * suc k ≡ 8 * k + 8 = omega arith in
    rw e (simp towards_suc (omega (arith, pow-suc 256 k, bytes_to_bits k)))

pub marked_bytes : (bs : List ℕ) → All IsMarked bs → All IsByte bs
marked_bytes [] h = tt
marked_bytes (b ∷ bs) h = (h.0.1, marked_bytes bs h.1)
