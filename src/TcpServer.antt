-- ===== src/TcpServer.antt =====
-- source/io/net/TcpServer.cpp, `TcpServer::Impl`, with the clients of net/TcpConnectedClient.cpp that it
-- has accepted, as they are built for Linux; sending is in TcpWrites. A client is known by the number of the connection that it
-- came with. libuv's results are arguments, and `calls` is what the user's callbacks do to the server and
-- its clients. The log has what was called and posted, the newest first.
pub mod Closing
pub mod Keeps
pub mod Accepted
pub mod Handled
pub mod Steps
pub mod Ending
mod Tests
use tarm_io.Prelude.{
  ℕ, suc, ◌+◌, Bool, true, false, not, ◌&&◌, Option, none, some, List, [], ◌∷◌, ◌++◌, map, ◌==◌,
  if◌then◌else◌,
}
use tarm_io.StatusCode.{
  StatusCode, number, ok, invalid_argument, connection_already_in_progress,
  connection_reset_by_peer, end_of_file, not_connected,
}
use tarm_io.TcpWrites.{on_read_error}

-- What libuv does with a client's handle.
pub data Phase : Type 0 where
  running shutting_down closing : Phase

pub record Conn : Type 0 where
  pub id : ℕ
  pub is_open : Bool
  pub receive_callback : Bool
  pub close_callback : Bool
  pub data_offset : ℕ
  pub phase : Phase

-- `null` is that there is no handle.
pub data Handle : Type 0 where
  null listening ending : Handle

pub data Event : Type 0 where
  called_new called_closed : ℕ → StatusCode → Event
  called_received : ℕ → ℕ → ℕ → Event
  called_end : StatusCode → Event
  posts_read_error : ℕ → StatusCode → Event
  posts_end posts_not_connected posts_on_close throws removes : Event

-- `conns` are the connected clients, and `next` the number of the next connection.
pub record Server : Type 0 where
  pub handle : Handle
  pub is_open : Bool
  pub new_connection_callback : Bool
  pub data_receive_callback : Bool
  pub close_connection_callback : Bool
  pub end_server_callback : Bool
  pub conns : List Conn
  pub removal_scheduled : Bool
  pub next : ℕ
  pub log : List Event

abbrev pub init : Server
init = record {
  handle = null;
  is_open = false;
  new_connection_callback = false;
  data_receive_callback = false;
  close_connection_callback = false;
  end_server_callback = false;
  conns = [];
  removal_scheduled = false;
  next = 0;
  log = [];
}

abbrev pub logs : Event → Server → Server
logs e s = record s { log = e ∷ s.log }

abbrev pub call_if : Bool → Event → (Server → Server) → Server → Server
call_if b e calls s = if b then calls (logs e s) else s

-- A call of a callback without a test.
abbrev pub call_or_throw : Bool → Event → (Server → Server) → Server → Server
call_or_throw b e calls s = if b then calls (logs e s) else logs throws s

abbrev pub is_ok : StatusCode → Bool
is_ok c = number c == number ok

abbrev pub is_null : Handle → Bool
is_null null = true
is_null listening = false
is_null ending = false

abbrev pub is_listening : Handle → Bool
is_listening listening = true
is_listening null = false
is_listening ending = false

-- `c`, `d` and `n` are that the callbacks are given.
pub listen :
    Bool → Bool → Bool → Bool → StatusCode → StatusCode → StatusCode → Server → Server × StatusCode
listen is_defined n d c init_status bind_status listen_status s =
    if not is_defined
    then (s, invalid_argument)
    else if not (is_null s.handle)
    then (s, connection_already_in_progress)
    else let s' : Server = record s { handle = listening } in
      if not (is_ok init_status)
      then (s', init_status)
      else if not (is_ok bind_status)
      then (s', bind_status)
      else (
        record s' {
          new_connection_callback = n;
          data_receive_callback = d;
          close_connection_callback = c;
          is_open = true;
        },
        listen_status,
      )

-- `close` and `close_with_reset` of a client, which differ in the call of libuv.
pub close_conn : Conn → Conn
close_conn c = if not c.is_open then c else record c { is_open = false; phase = closing }

pub shutdown_conn : Conn → Conn
shutdown_conn c = if not c.is_open then c else record c { is_open = false; phase = shutting_down }

pub close_impl : Server → Server
close_impl s =
    record (if is_listening s.handle
      then record s { handle = ending }
      else if s.end_server_callback
      then logs posts_not_connected s
      else s) { is_open = false }

pub close : Bool → Server → Server
unfolding close_impl close_conn
close callback s =
    close_impl (record s { end_server_callback = callback; conns = map close_conn s.conns })

pub shutdown : Bool → Server → Server
unfolding close_impl
shutdown callback s =
    close_impl (record s { end_server_callback = callback; conns = map shutdown_conn s.conns })

-- `TcpServer::schedule_removal`.
pub schedule_removal : Server → Server
schedule_removal s =
    if not s.removal_scheduled && not (is_null s.handle)
    then close false (record s { removal_scheduled = true })
    else logs removes (record s { removal_scheduled = true })

abbrev pub lookup : ℕ → List Conn → Option Conn
lookup i [] = none
lookup i (c ∷ cs) = if i == c.id then some c else lookup i cs

-- A change of the client `i`.
abbrev pub update : ℕ → (Conn → Conn) → List Conn → List Conn
update i f [] = []
update i f (c ∷ cs) = (if i == c.id then f c else c) ∷ update i f cs

abbrev pub erase : ℕ → List Conn → List Conn
erase i [] = []
erase i (c ∷ cs) = if i == c.id then cs else c ∷ erase i cs

abbrev pub change : ℕ → (Conn → Conn) → Server → Server
change i f s = record s { conns = update i f s.conns }

abbrev pub is_open_conn : Option Conn → Bool
is_open_conn none = false
is_open_conn (some c) = c.is_open

-- `start_read` of the client `i`.
pub start_read : ℕ → StatusCode → Server → Server
start_read i read_status s =
    if is_ok read_status
    then change i (λ c. record c { receive_callback = s.data_receive_callback }) s
    else logs (posts_read_error i read_status)
        (change i (λ c. record c { receive_callback = false }) s)

abbrev pub accepted : ℕ → Conn
accepted i = record {
  id = i;
  is_open = true;
  receive_callback = false;
  close_callback = true;
  data_offset = 0;
  phase = running;
}

read_failure : StatusCode → StatusCode → StatusCode
read_failure status socket_error =
    if (number status == number end_of_file)
      && (number socket_error == number connection_reset_by_peer)
    then socket_error
    else status

-- What a client's close callback calls.
abbrev pub is_called : Server → Conn → Bool
is_called s c = c.close_callback && s.close_connection_callback

module _ (calls : Server → Server) where
  read_if_open : ℕ → StatusCode → Server → Server
  read_if_open i read_status s =
      if is_open_conn (lookup i s.conns) then start_read i read_status s else s

  -- The address of the peer is not known.
  refused : ℕ → StatusCode → Server → Server
  refused i status s =
      if number status == number invalid_argument
      then call_or_throw s.close_connection_callback (called_closed i connection_reset_by_peer)
          calls (calls (logs (called_new i ok) s))
      else calls (logs (called_new i status) s)

  pub on_new_connection :
      StatusCode → StatusCode → StatusCode → StatusCode → StatusCode → Server → Server
  unfolding read_if_open refused start_read
  on_new_connection init_status status accept_status peer_status read_status s =
      let i = s.next in
      let s' : Server = record s { next = suc i } in
      if not (is_ok init_status)
      then call_if s.new_connection_callback (called_new i init_status) calls s'
      else if not (is_ok status)
      then call_if s.new_connection_callback (called_new i status) calls s'
      else if not (is_ok accept_status)
      then call_or_throw s.new_connection_callback (called_new i accept_status) calls s'
      else if is_ok peer_status
      then read_if_open i read_status (
          call_if s.new_connection_callback (called_new i ok) calls
            (record s' { conns = s.conns ++ accepted i ∷ [] }))
      else if s.new_connection_callback
      then refused i peer_status s'
      else s'

  on_conn_close_of : Option Conn → ℕ → Server → Server
  on_conn_close_of none i s = s
  on_conn_close_of (some c) i s =
      call_if (is_called s c) (called_closed i ok) calls (record s { conns = erase i s.conns })

  -- `TcpConnectedClient::Impl::on_close`, after which the client is removed.
  pub on_conn_close : ℕ → Server → Server
  unfolding on_conn_close_of
  on_conn_close i s = on_conn_close_of (lookup i s.conns) i s

  abbrev advance : ℕ → Conn → Conn
  advance n c = record c { data_offset = c.data_offset + n }

  abbrev forget_callback : Conn → Conn
  forget_callback c = record c { close_callback = false }

  on_conn_data_of : Option Conn → ℕ → ℕ → Server → Server
  on_conn_data_of none i n s = s
  on_conn_data_of (some c) i n s =
      change i (advance n)
        (call_if (not (n == 0) && c.receive_callback) (called_received i c.data_offset n) calls s)

  -- Data that a client receives.
  pub on_conn_data : ℕ → ℕ → Server → Server
  unfolding on_conn_data_of
  on_conn_data i n s = on_conn_data_of (lookup i s.conns) i n s

  on_read_failed_of : Option Conn → ℕ → StatusCode → Server → Server
  on_read_failed_of none i status s = s
  on_read_failed_of (some c) i status s = change i close_conn (
      change i forget_callback
        (call_if (is_called s c) (called_closed i (on_read_error status)) calls s))

  -- `socket_error` is the error of the socket when the stream is at its end.
  pub on_read_failed : ℕ → StatusCode → StatusCode → Server → Server
  unfolding on_read_failed_of close_conn read_failure
  on_read_failed i status socket_error s =
      on_read_failed_of (lookup i s.conns) i (read_failure status socket_error) s

-- `TcpConnectedClient::Impl::on_shutdown`.
pub on_conn_shutdown : ℕ → Server → Server
on_conn_shutdown i s = change i (λ c. record c { phase = closing }) s

on_close_of : List Conn → Server → Server
on_close_of [] s =
    record (if s.end_server_callback
      then logs posts_end (record s { end_server_callback = false })
      else if s.removal_scheduled
      then logs removes s
      else s) { handle = null }
on_close_of (c ∷ cs) s = logs posts_on_close s

-- `TcpServer::Impl::on_close`.
pub on_close : Server → Server
unfolding on_close_of
on_close s = on_close_of s.conns s

-- The posted calls of the end callback.
pub on_end : (Server → Server) → Server → Server
on_end calls s = calls (logs (called_end ok) s)

pub on_not_connected : (Server → Server) → Server → Server
on_not_connected calls s = call_or_throw s.end_server_callback (called_end not_connected) calls s
