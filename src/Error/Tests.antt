-- ===== src/Error/Tests.antt =====
-- Errors at concrete codes.
use tarm_io.Prelude.{◌≡◌, ◌≢◌, refl, ap, arith, ℤ, negsuc}
use tarm_io.StatusCode.{number, peer_not_found, openssl_error, unknown_error}
use tarm_io.StatusCode.Uv.{UvCode}
use tarm_io.StatusCode.Places.{place}
use tarm_io.Error.{of_status, of_status_info, string}

abbrev counted : UvCode → ℤ
counted c = negsuc (place c)

string_example : string (of_status peer_not_found) ≡ "Peer notfound"
unfolding string of_status
string_example = refl

string_info_example : string (of_status_info openssl_error "no cipher") ≡ "Openssl error: no cipher"
unfolding string of_status_info
string_info_example = refl

not_openssl : peer_not_found ≢ openssl_error
not_openssl e =
    let numbers : number peer_not_found ≡ number openssl_error = ap number e in absurd (omega arith)

not_unknown : peer_not_found ≢ unknown_error
not_unknown e =
    let numbers : number peer_not_found ≡ number unknown_error = ap number e in absurd (omega arith)
