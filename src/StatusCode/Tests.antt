-- ===== src/StatusCode/Tests.antt =====
-- The conversion with numbers for libuv's codes.
use tarm_io.Prelude.{
  ℕ, ◌≡◌, ◌≢◌, refl, ap, ◌∙◌, arith, sym, ℤ, pos, negsuc, is_equal, false, get_elem?,
}
use mathlib.Core.Option.{some_inj}
use tarm_io.StatusCode.{StatusCode, undefined}
use tarm_io.StatusCode.Uv.{UvCode, uv_eof, uv_eai_addrfamily, uv_codes, switch, convert_from_uv}
use tarm_io.StatusCode.Places.{place, place_small, get_elem?-place}
use tarm_io.StatusCode.Laws.{IsDistinct, IsNegative}

-- -1 for the first label, -2 for the second, and so on.
abbrev counted : UvCode → ℤ
counted c = negsuc (place c)

abbrev place_of : ℤ → ℕ
place_of (pos n) = n
place_of (negsuc n) = n

counted-IsDistinct : IsDistinct counted
counted-IsDistinct c d e =
    some_inj.0
      (sym (get_elem?-place c) ∙ ap (λ x. get_elem? uv_codes (place_of x)) e ∙ get_elem?-place d)

counted-IsNegative : IsNegative counted
counted-IsNegative c = refl

convert_first : convert_from_uv counted (negsuc 0) ≡ StatusCode.argument_list_too_long
unfolding convert_from_uv switch
convert_first = refl

convert_unlisted : convert_from_uv counted (negsuc 1000) ≡ undefined
unfolding convert_from_uv switch
convert_unlisted = refl

past_the_labels : (c : UvCode) → is_equal (negsuc 1000) (counted c) ≡ false
past_the_labels c = let h = place_small c in ground arith

uv_eof_not_eai : uv_eof ≢ uv_eai_addrfamily
uv_eof_not_eai e =
    let places : place uv_eof ≡ place uv_eai_addrfamily = ap place e in
    absurd (omega (arith, places))
