-- ===== src/StatusCode/Laws.antt =====
-- The conversion from libuv's codes, source/io/StatusCode.cpp.
use mathlib.Core.Option.{some_inj, none-ne-some}
use mathlib.Core.Bool.{false≢true}
use tarm_io.Prelude.{
  ℕ, zero, suc, ◌≡◌, ◌≢◌, refl, sym, ap, ◌∙◌, true, false, Bool-cases, inl, inr, ℤ, pos, negsuc,
  is_equal, is_equal_refl, is_equal→≡, is_negative, some, List, [], ◌∷◌, get_elem?, ◌==◌,
}
use tarm_io.StatusCode.{StatusCode, number, undefined}
use tarm_io.StatusCode.Uv.{UvCode, uv_eai_addrfamily, status_of, uv_codes, switch, convert_from_uv}
use tarm_io.StatusCode.Labels.{label_of, label_of-status_of, status_of-IsError}
use tarm_io.StatusCode.Places.{place, get_elem?-place}

-- libuv's codes are distinct and negative.
abbrev pub IsDistinct : (UvCode → ℤ) → Type 0
IsDistinct uv = (c d : UvCode) → uv c ≡ uv d → c ≡ d

abbrev pub IsNegative : (UvCode → ℤ) → Type 0
IsNegative uv = (c : UvCode) → is_negative (uv c) ≡ true

switch_label :
    (uv : UvCode → ℤ) (c : UvCode) (cs : List UvCode) (n : ℕ)
    → IsDistinct uv
    → get_elem? cs n ≡ some c
    → switch uv (uv c) cs ≡ status_of c
unfolding switch
switch_label uv c [] n h e = absurd (none-ne-some c e)
switch_label uv c (d ∷ ds) zero h e =
    let same : d ≡ c = some_inj.0 e in rw same (rw (is_equal_refl (uv c)) refl)
switch_label uv c (d ∷ ds) (suc n) h e =
    let ih = switch_label uv c ds n h e in
    elim (Bool-cases (is_equal (uv c) (uv d))) [
      | inl t ↦ rw t (ap status_of (sym (h c d (is_equal→≡ (uv c) (uv d) t))))
      | inr f ↦ rw f ih
    ]

switch_no_label :
    (uv : UvCode → ℤ) (code : ℤ) (cs : List UvCode)
    → ((c : UvCode) → is_equal code (uv c) ≡ false)
    → switch uv code cs ≡ undefined
unfolding switch
switch_no_label uv code [] h = refl
switch_no_label uv code (c ∷ cs) h = rw (h c) (switch_no_label uv code cs h)

not_zero : (a : ℤ) → is_negative a ≡ true → is_equal a (pos 0) ≡ false
not_zero (pos a) h = absurd (false≢true h)
not_zero (negsuc a) h = refl

-- A code of libuv is converted to the status of its label, which is never `ok`, and 0 to `ok`,
-- where libuv's codes are distinct and negative.
pub convert_from_uv-label :
    (uv : UvCode → ℤ) (c : UvCode)
    → IsDistinct uv
    → IsNegative uv
    → (convert_from_uv uv (uv c) ≡ status_of c)
      × ((number (convert_from_uv uv (uv c)) == 0) ≡ false)
      × (convert_from_uv uv (pos 0) ≡ StatusCode.ok)
unfolding convert_from_uv
convert_from_uv-label uv c h n =
    let at_label = switch_label uv c uv_codes (place c) h (get_elem?-place c) in
    rw (not_zero (uv c) (n c), at_label) (refl, status_of-IsError c, refl)

-- A number that is not 0 and is no code of libuv is converted to `undefined`.
pub convert_from_uv_unlisted :
    (uv : UvCode → ℤ) (code : ℤ)
    → is_equal code (pos 0) ≡ false
    → ((c : UvCode) → is_equal code (uv c) ≡ false)
    → convert_from_uv uv code ≡ undefined
unfolding convert_from_uv
convert_from_uv_unlisted uv code z none_is = rw z (switch_no_label uv code uv_codes none_is)

both_labels :
    (c d : UvCode)
    → status_of c ≡ status_of d
    → c ≢ uv_eai_addrfamily
    → d ≢ uv_eai_addrfamily
    → c ≡ d
both_labels c d e nc nd = elim (label_of-status_of c) [
  | inl p ↦ absurd (nc p.0)
  | inr p ↦ elim (label_of-status_of d) [
    | inl q ↦ absurd (nd q.0)
    | inr q ↦ some_inj.0 (sym p ∙ ap label_of e ∙ q)
  ]
]

-- No two codes of libuv other than `UV_EAI_ADDRFAMILY` are converted to the same status, where
-- libuv's codes are distinct and negative.
pub convert_from_uv-injective :
    (uv : UvCode → ℤ) (c d : UvCode)
    → IsDistinct uv
    → IsNegative uv
    → convert_from_uv uv (uv c) ≡ convert_from_uv uv (uv d)
    → c ≢ uv_eai_addrfamily
    → d ≢ uv_eai_addrfamily
    → c ≡ d
convert_from_uv-injective uv c d h n e nc nd =
    both_labels c d
      (sym (convert_from_uv-label uv c h n).0 ∙ e ∙ (convert_from_uv-label uv d h n).0) nc nd
