-- ===== src/TcpClient.antt =====
-- source/io/net/TcpClient.cpp, `TcpClient::Impl`, as it is built for Linux, with the fields and functions of
-- net/detail/TcpClientImplBase.h that it uses; sending is in TcpWrites. libuv's results are arguments,
-- and `calls` is what the user's callbacks do to the client. The log has what the client has called,
-- asked of libuv and posted to its loop, the newest first.
pub mod Mild
pub mod Closing
pub mod Steps
pub mod Removal
mod Tests
use tarm_io.Prelude.{
  ℕ, zero, suc, ◌+◌, ◌-◌, Bool, true, false, not, Option, none, some, List, [], ◌∷◌, ◌==◌, ◌&&◌,
  if◌then◌else◌,
}
use tarm_io.StatusCode.{
  StatusCode, number, ok, invalid_argument, end_of_file, connection_reset_by_peer,
}
use tarm_io.TcpWrites.{on_read_error}

pub data Event : Type 0 where
  called_connect called_close : StatusCode → Event
  called_receive : ℕ → ℕ → Event
  posts_connect asks_connect : Option ℕ → Event
  asks_shutdown removes : Event

-- `stream` is that `m_tcp_stream` is not null, and the other Booleans for callbacks that they are not.
-- `closing` counts the handles that are being closed and still have the client, and `detached` those
-- that do not. An endpoint is a number, or none.
pub record Client : Type 0 where
  pub stream : Bool
  pub is_open : Bool
  pub destination_endpoint : Option ℕ
  pub connect_callback : Bool
  pub receive_callback : Bool
  pub close_callback : Bool
  pub want_delete_object : Bool
  pub data_offset : ℕ
  pub closing : ℕ
  pub detached : ℕ
  pub log : List Event

abbrev pub init : Client
init = record {
  stream = false;
  is_open = false;
  destination_endpoint = none;
  connect_callback = false;
  receive_callback = false;
  close_callback = false;
  want_delete_object = false;
  data_offset = 0;
  closing = 0;
  detached = 0;
  log = [];
}

abbrev pub logs : Event → Client → Client
logs e s = record s { log = e ∷ s.log }

abbrev pub call_if : Bool → Event → (Client → Client) → Client → Client
call_if b e calls s = if b then calls (logs e s) else s

abbrev pub is_ok : StatusCode → Bool
is_ok c = number c == number ok

abbrev pub is_reset : StatusCode → Bool
is_reset c = number c == number connection_reset_by_peer

abbrev pub is_eof : StatusCode → Bool
is_eof c = number c == number end_of_file

abbrev pub end_stream : Client → Client
end_stream s = record s { stream = false; closing = suc s.closing }

-- The connection itself is posted to the loop.
pub connect : Option ℕ → Client → Client
connect endpoint s =
    logs (posts_connect endpoint)
      (if s.stream then record s { stream = false; detached = suc s.detached } else s)

-- A client has no stream then.
pub init_stream : StatusCode → Client → Client
init_stream status s = record s { stream = true }

module _ (calls : Client → Client) where
  connect_to : ℕ → Bool → Bool → Bool → StatusCode → StatusCode → Client → Client
  unfolding init_stream
  connect_to e c r x init_status connect_status s =
      let s' = init_stream init_status (record s { destination_endpoint = some e }) in
      if not (is_ok init_status)
      then call_if c (called_connect invalid_argument) calls s'
      else let t : Client = record s' {
        connect_callback = c;
        receive_callback = r;
        close_callback = x;
        log = asks_connect (some e) ∷ s'.log;
      } in
        call_if (not (is_ok connect_status) && c) (called_connect connect_status) calls t

  -- The posted connection; `c`, `r` and `x` are that the callbacks are given.
  pub connect_impl : Option ℕ → Bool → Bool → Bool → StatusCode → StatusCode → Client → Client
  unfolding connect_to
  connect_impl none c r x init_status connect_status s =
      call_if c (called_connect invalid_argument) calls s
  connect_impl (some e) c r x init_status connect_status s =
      connect_to e c r x init_status connect_status s

pub shutdown : Client → Client
shutdown s = if not s.is_open then s else logs asks_shutdown s

-- Whether the object can be removed.
pub close : Client → Client × Bool
close s =
    let s' : Client = record s { is_open = false } in
    if s'.stream then (end_stream s', false) else (s', true)

pub close_with_reset : Client → Client
close_with_reset s =
    let s' : Client = record s { is_open = false } in if s'.stream then end_stream s' else s'

abbrev remove_if_ready : Client × Bool → Client
remove_if_ready (s, ready) = if ready then logs removes s else s

-- `TcpClient::schedule_removal`.
pub schedule_removal : Client → Client
schedule_removal s = remove_if_ready (close (record s { want_delete_object = true }))

module _ (calls : Client → Client) where
  -- `none` is `uv_is_closing` of a null pointer.
  shutdown_ended : Client → Option Client
  shutdown_ended s = if s.stream then some (end_stream s) else none

  pub on_shutdown : StatusCode → Client → Option Client
  unfolding shutdown_ended
  on_shutdown status s =
      let t : Client =
        call_if (s.close_callback && not (is_ok status)) (called_close status) calls s in
      shutdown_ended (record t { is_open = false })

  -- What `on_read_error` of the base does.
  pub report_read_error : StatusCode → Client → Client
  report_read_error status s =
      call_if s.close_callback (called_close (on_read_error status)) calls s

  abbrev forget_close_callback : Client → Client
  forget_close_callback s = record s { close_callback = false }

  close_reset : StatusCode → Client → Client
  close_reset status s =
      if s.close_callback then forget_close_callback (calls (logs (called_close status) s)) else s

  pub connected : StatusCode → Client → Client
  unfolding close_reset
  connected status s =
      if is_reset status
      then close_reset status (call_if s.connect_callback (called_connect ok) calls s)
      else call_if s.connect_callback (called_connect status) calls (
          if is_ok status then s else record s { receive_callback = false; close_callback = false })

  -- `read_status` is what libuv returns when the reading starts.
  pub on_connect : StatusCode → StatusCode → Client → Client
  unfolding connected
  on_connect status read_status s =
      let t : Client = connected status (record s { is_open = is_ok status }) in
      if t.is_open && not (is_ok read_status) then report_read_error read_status t else t

  abbrev remove_if : Bool → Client → Client
  remove_if b s = if b then schedule_removal s else s

  -- For a handle that is closed and still has the client.
  pub on_close : Client → Client
  on_close s =
      let t : Client =
        call_if s.close_callback (called_close ok) calls (record s { closing = s.closing - 1 }) in
      remove_if s.want_delete_object (record t { destination_endpoint = none })

  abbrev detach_one : Client → Client
  detach_one s = record s { detached = suc s.detached }

  abbrev advance : ℕ → Client → Client
  advance n s = record s { data_offset = s.data_offset + n }

  pub on_data : ℕ → Client → Client
  on_data n s =
      advance n
        (call_if (not (n == 0) && s.receive_callback) (called_receive s.data_offset n) calls s)

  -- `socket_error` is the error of the socket when the stream is at its end.
  pub read_failure : StatusCode → StatusCode → StatusCode
  read_failure status socket_error =
      if is_eof status && is_reset socket_error then socket_error else status

  pub on_read_failed : StatusCode → StatusCode → Client → Client
  unfolding read_failure report_read_error
  on_read_failed status socket_error s =
      let t : Client = record s { is_open = false; stream = false } in
      if s.close_callback
      then detach_one (report_read_error (read_failure status socket_error) t)
      else s

-- For a handle that is closed and has lost the client.
pub on_close_detached : Client → Client
on_close_detached s = record s { detached = s.detached - 1 }
