-- ===== src/Error.antt =====
-- source/io/Error.h and Error.cpp: an error is a status code, with the code of libuv that it comes from
-- and a text of the caller's.
pub mod Text
pub mod Table
pub mod Laws
mod Tests
use Prim.Native.String.{String, ◌++◌ as append}
use tarm_io.Prelude.{Bool, not, if◌then◌else◌, ◌==◌, ℤ, pos, is_negative}
use tarm_io.StatusCode.{StatusCode, number, ok}
use tarm_io.StatusCode.Uv.{UvCode, convert_from_uv}
use tarm_io.Error.Text.{string_of}

pub record Error : Type 0 where
  pub libuv_code : ℤ
  pub status_code : StatusCode
  pub additional_info : String

abbrev pub no_error : Error
no_error = record { libuv_code = pos 0; status_code = ok; additional_info = "" }

pub of_uv : (UvCode → ℤ) → ℤ → Error
of_uv uv code =
    if is_negative code
    then record no_error { libuv_code = code; status_code = convert_from_uv uv code }
    else no_error

pub of_status : StatusCode → Error
of_status code = record no_error { status_code = code }

pub of_status_info : StatusCode → String → Error
of_status_info code info = record no_error { status_code = code; additional_info = info }

pub code : Error → StatusCode
code e = e.status_code

pub string : Error → String
string e = string_of e.status_code e.additional_info

-- `operator bool`.
pub is_error : Error → Bool
is_error e = not (number e.status_code == number ok)

pub equals : Error → Error → Bool
equals a b = number (code a) == number (code b)

pub differs : Error → Error → Bool
differs a b = not (equals a b)
