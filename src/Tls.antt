-- ===== src/Tls.antt =====
-- source/io/net/detail/OpenSslClientImplBase.h: the TLS side of a client, on top of a TCP client. What
-- OpenSSL answers is an argument, and `calls` is what the user's callbacks do to the client. The log
-- has what the client has called and asked of the TCP client, the newest first.
pub mod Quiet
pub mod Sound
pub mod Steps
pub mod Late
mod Tests
use tarm_io.Prelude.{
  ℕ, suc, ◌+◌, ◌-◌, ◌%◌, Bool, true, false, not, ◌&&◌, ◌==◌, Option, none, some, List, [], ◌∷◌,
  ◌++◌, if◌then◌else◌, ℤ, pos, negsuc, is_negative,
}
use tarm_io.StatusCode.{StatusCode, not_connected, openssl_error, ok}

pub data HandshakeState : Type 0 where
  no_handshake in_progress finishing finished : HandshakeState

abbrev pub is_finishing : HandshakeState → Bool
is_finishing no_handshake = false
is_finishing in_progress = false
is_finishing finishing = true
is_finishing finished = false

abbrev pub is_finished : HandshakeState → Bool
is_finished no_handshake = false
is_finished in_progress = false
is_finished finishing = false
is_finished finished = true

-- A read is given with its buffer, its size and its offset.
pub data Event : Type 0 where
  called_handshake_complete called_ssl_read_failed : Event
  called_handshake_failed : ℤ → Event
  called_ssl_read : ℕ → ℕ → ℕ → Event
  called_alert : ℕ → Event
  called_end_send : StatusCode → Event
  asks_send : ℕ → Event
  asks_removal : Event

-- `finishes` has what the callbacks of the sends that finish the handshake have kept of `read_pending`. A decryption buffer is a number.
pub record Client : Type 0 where
  pub has_client : Bool
  pub client_is_open : Bool
  pub handshake_state : HandshakeState
  pub ready_schedule_removal : Bool
  pub decrypt_buf : ℕ
  pub data_offset : ℕ
  pub finishes : List Bool
  pub log : List Event

-- The TCP client is made and is open.
abbrev pub init : Client
init = record {
  has_client = true;
  client_is_open = true;
  handshake_state = no_handshake;
  ready_schedule_removal = false;
  decrypt_buf = 0;
  data_offset = 0;
  finishes = [];
  log = [];
}

abbrev pub logs : Event → Client → Client
logs e s = record s { log = e ∷ s.log }

abbrev pub is_open : Client → Bool
is_open s = s.has_client && (s.client_is_open && is_finished s.handshake_state)

abbrev is_positive : ℤ → Bool
is_positive (pos n) = not (n == 0)
is_positive (negsuc _) = false

-- What `SSL_read` returns again and again: one byte more than the number, with whether the user keeps
-- the buffer; nothing more for now; or another error.
pub data Reads : Type 0 where
  decrypts : ℕ → Bool → Reads → Reads
  wants_more read_fails : Reads

-- What `SSL_do_handshake` returns, with the error that OpenSSL has.
pub data Outcome : Type 0 where
  wants_read wants_write succeeds : Outcome
  errs shuts_down : ℕ → Outcome

unfoldable pub after_read : Bool → ℕ → Client → Client
after_read copied size s = record s {
  data_offset = s.data_offset + size;
  decrypt_buf = if copied then suc s.decrypt_buf else s.decrypt_buf;
}

abbrev pub keep_end : Option Bool → List Bool → List Bool
keep_end none bs = bs
keep_end (some read_pending) bs = bs ++ read_pending ∷ []

-- A memory BIO gives all that it has. The first argument is what the callback keeps if it finishes the
-- handshake.
unfoldable pub read_from_ssl_and_send : Option Bool → ℕ → Client → Client
read_from_ssl_and_send finish write_pending s =
    if write_pending == 0
    then s
    else logs (asks_send write_pending) (record s { finishes = keep_end finish s.finishes })

module _ (calls : Client → Client) where
  unfoldable pub read_from_ssl : Reads → Client → Client
  read_from_ssl (decrypts n copied r) s = read_from_ssl r (
      after_read copied (suc n)
        (calls (logs (called_ssl_read s.decrypt_buf (suc n) s.data_offset) s)))
  read_from_ssl wants_more s = s
  read_from_ssl read_fails s = calls (logs called_ssl_read_failed s)

  unfoldable pub fail_handshake : ℤ → Client → Client
  fail_handshake code s = calls (logs (called_handshake_failed code) s)

  unfoldable pub finish_handshake : Client → Client
  finish_handshake s =
      calls (logs called_handshake_complete (record s { handshake_state = finished }))

  unfoldable pub finish_and_read : Bool → Reads → Client → Client
  finish_and_read read_pending r s =
      if read_pending then read_from_ssl r (finish_handshake s) else finish_handshake s

  unfoldable pub after_handshake : Outcome → ℕ → Bool → Reads → Client → Client
  after_handshake wants_read write_pending read_pending r s =
      if write_pending == 0
      then fail_handshake (negsuc 0) s
      else read_from_ssl_and_send none write_pending s
  after_handshake wants_write write_pending read_pending r s = s
  after_handshake (errs code) write_pending read_pending r s =
      fail_handshake (pos code)
        (if write_pending == 0 then s else read_from_ssl_and_send none write_pending s)
  after_handshake succeeds write_pending read_pending r s =
      if write_pending == 0
      then finish_and_read read_pending r s
      else read_from_ssl_and_send (some read_pending) write_pending
          (record s { handshake_state = finishing })
  after_handshake (shuts_down code) write_pending read_pending r s = fail_handshake (pos code) s

  unfoldable pub do_handshake : Outcome → ℕ → Bool → Reads → Client → Client
  do_handshake o write_pending read_pending r s =
      if is_finishing s.handshake_state then s else after_handshake o write_pending read_pending r s

  -- The end of a send during the handshake.
  unfoldable pub on_handshake_sent : Bool → Client → Client
  on_handshake_sent error s = if error then fail_handshake (negsuc 0) s else s

  -- The end of the last send of a handshake, with what its callback has kept.
  unfoldable pub finish_sent : Bool → Reads → List Bool → Client → Client
  finish_sent error r [] s = s
  finish_sent error r (read_pending ∷ bs) s =
      let s' : Client = record s { finishes = bs } in
      if error then fail_handshake (negsuc 0) s' else finish_and_read read_pending r s'

  unfoldable pub on_finish_sent : Bool → Reads → Client → Client
  on_finish_sent error r s = finish_sent error r s.finishes s

  unfoldable pub on_data_receive : ℤ → Outcome → ℕ → Bool → Reads → Client → Client
  on_data_receive write_size o write_pending read_pending r s =
      if is_finished s.handshake_state
      then if is_negative write_size then s else read_from_ssl r s
      else if is_positive write_size
      then do_handshake o write_pending read_pending r s
      else fail_handshake (negsuc 0) s

  -- The end of a send of the user's data.
  unfoldable pub on_sent : Bool → StatusCode → Client → Client
  on_sent callback c s = if callback then calls (logs (called_end_send c) s) else s

  -- The Booleans are that `where` has the flag of an alert and that the client has sent its own shutdown.
  unfoldable pub ssl_state_callback : Bool → Bool → ℕ → Client → Client
  ssl_state_callback is_alert sent_shutdown ret s =
      if is_alert && not sent_shutdown then calls (logs (called_alert (ret % 256)) s) else s

abbrev answers : Bool → StatusCode → Client → Client
answers callback c s = if callback then logs (called_end_send c) s else s

-- `written` is that `SSL_write` returns a positive number, and `actual_size` what `BIO_read` gives, where
-- 0 stands for its errors too. The callback is called last; none is that it is called and is null.
unfoldable pub send_data_impl : Bool → Bool → ℕ → Client → Option Client
send_data_impl callback written actual_size s =
    if not (is_open s)
    then if callback then some (logs (called_end_send not_connected) s) else none
    else if not written
    then some (answers callback openssl_error s)
    else if actual_size == 0
    then some (answers callback openssl_error s)
    else some (logs (asks_send actual_size) s)

-- The result is whether the client can be removed now.
unfoldable pub schedule_removal : Client → Client × Bool
schedule_removal s =
    if s.has_client && not s.ready_schedule_removal
    then (logs asks_removal (record s { ready_schedule_removal = true }), false)
    else (s, true)

unfoldable pub ssl_shutdown : Bool → ℕ → Client → Client × StatusCode
ssl_shutdown fails write_pending s =
    if fails
    then (s, openssl_error)
    else (if write_pending == 0 then s else read_from_ssl_and_send none write_pending s, ok)
