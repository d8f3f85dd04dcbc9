-- ===== src/BufferSize/Limits.antt =====
-- The least and the largest size of a buffer, source/io/global/Configuration.cpp.
use mathlib.Core.Bool.{false≢true}
use tarm_io.Prelude.{
  ℕ, zero, suc, ◌+◌, ◌-◌, ◌*◌, ◌^◌, ◌≤◌, ◌<◌, ◌≡◌, refl, sym, ap, ◌∙◌, arith, Bool, true, false,
  ◌&&◌, Bool-cases, ltb, ltb→lt, ltb→le, ◌⊎◌, inl, inr, if-true, ◌==◌,
}
use tarm_io.BufferSize.{
  Accessor, is_buffer_size_available, min_size, max_size, bound_buffer_size, double_loop,
  upper_limit, min_buffer_size, max_buffer_size,
}
use tarm_io.BufferSize.Search.{bound_buffer_size-Found}

-- The least size: where the default is available, the result is available and not above the default,
-- and the size below it is not available; so it is not 0.
pub min_buffer_size-least :
    (a : Accessor) (default_value : ℕ)
    → is_buffer_size_available a default_value ≡ true
    → default_value < 2 ^ 31
    → let r = min_buffer_size a 0 default_value in
      (is_buffer_size_available a r ≡ true)
      × (r ≤ default_value)
      × (0 < r)
      × (is_buffer_size_available a (r - 1) ≡ false)
unfolding min_buffer_size
min_buffer_size-least a v h s =
    let f =
      bound_buffer_size-Found (is_buffer_size_available a) 0 v min_size h (omega arith)
        (omega arith) in
    ends (bound_buffer_size (is_buffer_size_available a) 0 v min_size) f.0 f.2 f.3
  where
    zero_not : (r : ℕ) → r ≡ 0 → is_buffer_size_available a r ≡ false
    zero_not r e = unfold is_buffer_size_available in if-true _ _ (is_zero r e)
      where
        is_zero : (r : ℕ) → r ≡ 0 → (r == 0) ≡ true
        is_zero r e = ground arith

    positive : (r : ℕ) → is_buffer_size_available a r ≡ true → 0 < r
    positive zero e = absurd (false≢true (sym (zero_not 0 refl) ∙ e))
    positive (suc r) e = omega arith

    ends :
        (r : ℕ)
        → is_buffer_size_available a r ≡ true
        → r ≤ v
        → (r ≡ 0) ⊎ (is_buffer_size_available a (r - 1) ≡ false)
        → (is_buffer_size_available a r ≡ true)
          × (r ≤ v)
          × (0 < r)
          × (is_buffer_size_available a (r - 1) ≡ false)
    ends r e l (inl z) = absurd (false≢true (sym (zero_not r z) ∙ e))
    ends r e l (inr n) = (e, l, positive r e, n)

module _ (available : ℕ → Bool) where
  -- Where the doubling stops.
  abbrev Stopped : ℕ → Type 0
  Stopped u = (available u ≡ false) ⊎ (upper_limit ≤ u)

  abbrev grown : ℕ → ℕ → ℕ
  grown zero u = u
  grown (suc fuel) u = grown fuel (u * 2)

  double_loop-Stopped :
      (fuel u : ℕ)
      → upper_limit ≤ grown fuel u
      → u < 2 ^ 31
      → Stopped (double_loop available fuel u)
        × (u ≤ double_loop available fuel u)
        × (double_loop available fuel u < 2 ^ 32)
  unfolding double_loop
  double_loop-Stopped zero u h s = (inr h, omega arith, omega arith)
  double_loop-Stopped (suc fuel) u h s = elim (Bool-cases (available u && ltb u upper_limit)) [
    | inr e ↦ rw (double_loop, e) (stops (available u) refl e, omega arith, omega arith)
    | inl e ↦
        let small = continues (available u) e in
        let (done, above, below) = double_loop-Stopped fuel (u * 2) h (omega (arith, small)) in
        rw (double_loop, e) (done, omega (arith, above), below)
  ]
    where
      stops : (b : Bool) → available u ≡ b → (b && ltb u upper_limit) ≡ false → Stopped u
      stops false a e = inl a
      stops true a e = inr (ltb→le u upper_limit e)

      continues : (b : Bool) → (b && ltb u upper_limit) ≡ true → u < upper_limit
      continues false e = absurd (false≢true e)
      continues true e = ltb→lt u upper_limit e

-- The largest size: where the default is available, the result is available and not below the default,
-- and either the size above it is not available or it has reached half of the largest `int`.
pub max_buffer_size-greatest :
    (a : Accessor) (default_value : ℕ)
    → is_buffer_size_available a default_value ≡ true
    → 0 < default_value
    → default_value < 2 ^ 31
    → let r = max_buffer_size a 0 default_value in
      (is_buffer_size_available a r ≡ true)
      × (default_value ≤ r)
      × ((is_buffer_size_available a (r + 1) ≡ false) ⊎ (upper_limit ≤ r))
unfolding max_buffer_size
max_buffer_size-greatest a v h p s =
    let available = is_buffer_size_available a in
    let (done, above, below) = double_loop-Stopped available 31 v (omega arith) s in
    let top = double_loop available 31 v in
    let f = bound_buffer_size-Found available v top max_size h above (omega (arith, below)) in
    (f.0, f.1, ends (bound_buffer_size available v top max_size) top f.0 done f.3)
  where
    ends :
        (r top : ℕ)
        → is_buffer_size_available a r ≡ true
        → Stopped (is_buffer_size_available a) top
        → (r ≡ top) ⊎ (is_buffer_size_available a (r + 1) ≡ false)
        → (is_buffer_size_available a (r + 1) ≡ false) ⊎ (upper_limit ≤ r)
    ends r top e d (inr n) = inl n
    ends r top e (inl n) (inl same) =
        absurd (false≢true (sym n ∙ ap (is_buffer_size_available a) (sym same) ∙ e))
    ends r top e (inr big) (inl same) = inr (omega arith)
