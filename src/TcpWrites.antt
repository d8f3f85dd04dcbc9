-- ===== src/TcpWrites.antt =====
-- source/io/net/detail/TcpClientImplBase.h: sending over a TCP stream. A request is a number. What
-- `uv_write` returns, and the status with which libuv ends a write, are arguments.
pub mod Laws
mod Tests
use tarm_io.Prelude.{
  ℕ, zero, suc, ◌+◌, ◌-◌, Bool, true, false, not, ◌||◌, List, [], ◌∷◌, ◌++◌, ◌==◌, if◌then◌else◌,
}
use tarm_io.StatusCode.{StatusCode, number, ok, not_connected, invalid_argument, end_of_file}

pub record Request : Type 0 where
  pub id : ℕ
  pub has_callback : Bool

-- A call of an end-send callback.
pub record Answer : Type 0 where
  pub id : ℕ
  pub status : StatusCode

-- `in_flight` holds the requests that libuv has, and `answers` the calls of end-send callbacks.
pub record Stream : Type 0 where
  pub is_open : Bool
  pub pending_write_requests : ℕ
  pub in_flight : List Request
  pub answers : List Answer

abbrev pub init : Stream
init = record { is_open = true; pending_write_requests = 0; in_flight = []; answers = [] }

abbrev pub answer : Stream → Request → StatusCode → Stream
answer s r status =
    if r.has_callback
    then record s { answers = s.answers ++ record { id = r.id; status = status } ∷ [] }
    else s

pub send_data_impl : Stream → Request → ℕ → Bool → StatusCode → Stream
send_data_impl s r size has_buffer write_status =
    if not s.is_open
    then answer s r not_connected
    else if (size == 0) || not has_buffer
    then answer s r invalid_argument
    else if not (number write_status == number ok)
    then answer s r write_status
    else record s {
      pending_write_requests = suc s.pending_write_requests;
      in_flight = s.in_flight ++ r ∷ [];
    }

-- libuv gives back the request `r`; `others` are those that it keeps.
pub after_write : Stream → Request → List Request → StatusCode → Stream
after_write s r others status =
    answer (record s { pending_write_requests = s.pending_write_requests - 1; in_flight = others })
      r status

-- The status that the close callback gets when reading ends.
pub on_read_error : StatusCode → StatusCode
on_read_error status = if number status == number end_of_file then ok else status
