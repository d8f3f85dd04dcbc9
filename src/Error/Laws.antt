-- ===== src/Error/Laws.antt =====
-- What an error says, source/io/Error.cpp.
use mathlib.Core.Option.{some_inj}
use Prim.Native.String.{String}
use tarm_io.Prelude.{
  ℕ, ◌≡◌, ◌≢◌, ◌↔◌, refl, sym, ap, ◌∙◌, arith, true, false, not, Bool-cases, inl, inr, ℤ, pos,
  negsuc, is_equal, is_negative, List, [], ◌∷◌, get_elem?, if◌then◌else◌, ◌==◌,
}
use tarm_io.StatusCode.{StatusCode, number, openssl_error, unknown_error, all_status_codes}
use tarm_io.StatusCode.Uv.{UvCode, switch, uv_codes, convert_from_uv}
use tarm_io.StatusCode.Labels.{status_of-IsError}
use tarm_io.Error.{Error, of_uv, code, string, is_error, equals, differs}
use tarm_io.Error.Text.{string_of}
use tarm_io.Error.Table.{find_text, find_text-string_of, get_elem?-number}

switch_is_error :
    (uv : UvCode → ℤ) (n : ℤ) (cs : List UvCode) → (number (switch uv n cs) == 0) ≡ false
unfolding switch
switch_is_error uv n [] = refl
switch_is_error uv n (c ∷ cs) =
    let ih = switch_is_error uv n cs in
    elim (Bool-cases (is_equal n (uv c))) [ inl t ↦ rw t (status_of-IsError c) | inr f ↦ rw f ih ]

-- An error that is made from a code of libuv is an error just when the code is negative, whatever
-- the numbers of libuv are; it then keeps the code.
pub of_uv-is_error :
    (uv : UvCode → ℤ) (n : ℤ)
    → (is_error (of_uv uv n) ≡ is_negative n)
      × ((of_uv uv n).libuv_code ≡ (if is_negative n then n else pos 0))
unfolding of_uv is_error convert_from_uv
of_uv-is_error uv (pos n) = (refl, refl)
of_uv-is_error uv (negsuc n) = (rw (switch_is_error uv (negsuc n) uv_codes) refl, refl)

number-injective : (c d : StatusCode) → number c ≡ number d → c ≡ d
number-injective c d e =
    some_inj.0 (
      sym (get_elem?-number c)
      ∙ ap (λ (n : ℕ). get_elem? all_status_codes n) e
      ∙ get_elem?-number d)

-- Errors are compared by their status code alone, and `!=` is the opposite of `==`.
pub equals_iff :
    (a b : Error) → ((equals a b ≡ true) ↔ (code a ≡ code b)) × (differs a b ≡ not (equals a b))
unfolding equals differs
equals_iff a b = (
  (
    (λ h. number-injective (code a) (code b) (equal_numbers (number (code a)) (number (code b)) h)),
    (λ e. rw e (same_number (number (code b)))),
  ),
  refl,
)
  where
    equal_numbers : (m n : ℕ) → (m == n) ≡ true → m ≡ n
    equal_numbers m n h = ground arith

    same_number : (n : ℕ) → (n == n) ≡ true
    same_number n = ground arith

same_text :
    (c d : StatusCode) (i j : String)
    → string_of c i ≡ string_of d j
    → c ≢ openssl_error
    → d ≢ openssl_error
    → c ≢ unknown_error
    → d ≢ unknown_error
    → c ≡ d
same_text c d i j e co d_o cu du = elim (find_text-string_of c i) [
  | inl p ↦ absurd (co p)
  | inr (inl p) ↦ absurd (cu p)
  | inr (inr p) ↦ elim (find_text-string_of d j) [
    | inl q ↦ absurd (d_o q)
    | inr (inl q) ↦ absurd (du q)
    | inr (inr q) ↦ some_inj.0 (sym p ∙ ap (λ s. find_text s all_status_codes) e ∙ q)
  ]
]

-- The text of an error tells its status: two errors with one text are equal, if neither is
-- `UNKNOWN_ERROR` or an OpenSSL error.
pub string-injective :
    (a b : Error)
    → string a ≡ string b
    → code a ≢ openssl_error
    → code b ≢ openssl_error
    → code a ≢ unknown_error
    → code b ≢ unknown_error
    → equals a b ≡ true
unfolding string code
string-injective a b e ao bo au bu =
    (equals_iff a b).0.1
      (same_text (code a) (code b) a.additional_info b.additional_info e ao bo au bu)
