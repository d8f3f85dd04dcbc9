-- ===== src/BufferSize/Search.antt =====
-- The search between two bounds, source/io/global/Configuration.cpp.
use mathlib.Core.Bool.{false≢true}
use native.Mathlib.Decide.{dec_lt}
use tarm_io.Prelude.{
  ℕ, zero, suc, ◌+◌, ◌-◌, ◌^◌, ◌≤◌, ◌<◌, ◌≡◌, refl, sym, ap, ◌∙◌, arith, Bool, true, false,
  Bool-cases, ltb, ltb→lt, ltb→le, ◌⊎◌, inl, inr,
}
use tarm_io.BufferSize.{
  BufferSizeSearchDirection, min_size, max_size, middle, narrow, choose, candidate, bound_loop,
  bound_buffer_size,
}

middle_between : (l u : ℕ) → l + 1 < u → u < 2 ^ 63 → (l < middle l u) × (middle l u < u)
middle_between l u h s = (omega arith, omega arith)

module _ (available : ℕ → Bool) (lower upper : ℕ) where
  -- The bounds of a search for the least size, and for the largest one.
  abbrev Bounds : BufferSizeSearchDirection → ℕ → ℕ → Type 0
  Bounds min_size l u = (available u ≡ true) × ((l ≡ lower) ⊎ (available l ≡ false))
  Bounds max_size l u = (available l ≡ true) × ((u ≡ upper) ⊎ (available u ≡ false))

  abbrev Reached : BufferSizeSearchDirection → ℕ × ℕ → Type 0
  Reached d (l, u) = Bounds d l u × (lower ≤ l) × (l ≤ u) × (u ≤ upper)

  narrow-Reached :
      (b : Bool) (d : BufferSizeSearchDirection) (l u : ℕ)
      → available (middle l u) ≡ b
      → l + 1 < u
      → upper < 2 ^ 63
      → Reached d (l, u)
      → Reached d (narrow b d l u) × ((narrow b d l u).1 - (narrow b d l u).0 < u - l)
  unfolding narrow
  narrow-Reached true min_size l u e h s ((a, b), x, y, z) =
      let m = middle_between l u h (omega arith) in
      (((e, b), omega (arith, m), omega (arith, m), omega (arith, m)), omega (arith, m))
  narrow-Reached true max_size l u e h s ((a, b), x, y, z) =
      let m = middle_between l u h (omega arith) in
      (((e, b), omega (arith, m), omega (arith, m), omega (arith, m)), omega (arith, m))
  narrow-Reached false min_size l u e h s ((a, b), x, y, z) =
      let m = middle_between l u h (omega arith) in
      (((a, inr e), omega (arith, m), omega (arith, m), omega (arith, m)), omega (arith, m))
  narrow-Reached false max_size l u e h s ((a, b), x, y, z) =
      let m = middle_between l u h (omega arith) in
      (((a, inr e), omega (arith, m), omega (arith, m), omega (arith, m)), omega (arith, m))

  -- The loop ends with bounds that are next to each other.
  loop-Reached :
      (fuel : ℕ) (d : BufferSizeSearchDirection) (l u : ℕ)
      → u - l ≤ fuel
      → upper < 2 ^ 63
      → Reached d (l, u)
      → Reached d (bound_loop available fuel d (l, u))
        × ((bound_loop available fuel d (l, u)).1 ≤ (bound_loop available fuel d (l, u)).0 + 1)
  unfolding bound_loop
  loop-Reached zero d l u f s r = (r, omega (arith, r.2))
  loop-Reached (suc fuel) d l u f s r = elim (Bool-cases (ltb (l + 1) u)) [
    | inr e ↦ rw (bound_loop, e) (r, ltb→le (l + 1) u e)
    | inl e ↦
        let next = narrow (available (middle l u)) d l u in
        let (r', closer) =
          narrow-Reached (available (middle l u)) d l u refl (ltb→lt (l + 1) u e) s r in
        rw (bound_loop, e) (loop-Reached fuel d next.0 next.1 (omega (arith, closer)) s r')
  ]

  abbrev pub Found : BufferSizeSearchDirection → ℕ → Type 0
  Found min_size r = (r ≡ lower) ⊎ (available (r - 1) ≡ false)
  Found max_size r = (r ≡ upper) ⊎ (available (r + 1) ≡ false)

  chosen :
      (b : Bool) (d : BufferSizeSearchDirection) (l u : ℕ)
      → available (candidate d l u) ≡ b
      → u ≤ l + 1
      → Reached d (l, u)
      → (available (choose b d l u) ≡ true)
        × (lower ≤ choose b d l u)
        × (choose b d l u ≤ upper)
        × Found d (choose b d l u)
  unfolding choose
  chosen true min_size l u e h ((a, inl b), x, y, z) = (e, x, omega arith, inl b)
  chosen true min_size l u e h ((a, inr b), x, y, z) = absurd (false≢true (sym b ∙ e))
  chosen false min_size l u e h ((a, b), x, y, z) = elim (dec_lt l u) [
    | yes n ↦
        let one_less : u - 1 ≡ l = omega arith in
        (a, omega arith, z, inr (ap available one_less ∙ e))
    | no n ↦ let same : l ≡ u = omega arith in absurd (false≢true (sym e ∙ ap available same ∙ a))
  ]
  chosen true max_size l u e h ((a, inl b), x, y, z) = (e, omega arith, z, inl b)
  chosen true max_size l u e h ((a, inr b), x, y, z) = absurd (false≢true (sym b ∙ e))
  chosen false max_size l u e h ((a, b), x, y, z) = elim (dec_lt l u) [
    | yes n ↦
        let one_more : l + 1 ≡ u = omega arith in
        (a, x, omega arith, inr (ap available one_more ∙ e))
    | no n ↦ let same : u ≡ l = omega arith in absurd (false≢true (sym e ∙ ap available same ∙ a))
  ]

  abbrev pub start : BufferSizeSearchDirection → ℕ
  start min_size = upper
  start max_size = lower

  started :
      (d : BufferSizeSearchDirection)
      → available (start d) ≡ true
      → lower ≤ upper
      → Reached d (lower, upper)
  started min_size a h = ((a, inl refl), omega arith, h, omega arith)
  started max_size a h = ((a, inl refl), omega arith, h, omega arith)

  -- The search ends between its bounds with an available size, where the bound that it starts from is
  -- available, and that size cannot be improved by one: for the least size the one below it, and
  -- for the largest size the one above it, is not available, or the size is the other bound. Nothing
  -- is assumed of which sizes are available.
  pub bound_buffer_size-Found :
      (d : BufferSizeSearchDirection)
      → available (start d) ≡ true
      → lower ≤ upper
      → upper < 2 ^ 63
      → let r = bound_buffer_size available lower upper d in
        (available r ≡ true) × (lower ≤ r) × (r ≤ upper) × Found d r
  unfolding bound_buffer_size
  bound_buffer_size-Found d a h s =
      let b = bound_loop available upper d (lower, upper) in
      let (r, next) = loop-Reached upper d lower upper (omega arith) s (started d a h) in
      chosen (available (candidate d b.0 b.1)) d b.0 b.1 refl next r
