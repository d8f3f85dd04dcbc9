-- ===== src/UdpServer.antt =====
-- source/io/net/UdpServer.cpp, `UdpServer::Impl`, with the handle's state of net/detail/UdpImplBase.h.
-- A peer's id stands for the address and the port of `PeerId`. The results of libuv's calls are
-- arguments. The user's callbacks are the events that they are called with. Of the backlog
-- (BacklogWithTimeout) the model keeps the ids of its items in the order in which they were added.
pub mod Ids
pub mod Peers
pub mod Laws
pub mod Silent
mod Tests
use tarm_io.Prelude.{
  ℕ, zero, suc, ◌+◌, ◌≡◌, Bool, true, false, not, ◌&&◌, Option, none, some, List, [], ◌∷◌, ◌++◌,
  ◌==◌, if◌then◌else◌, ℤ, pos, negsuc,
}
use tarm_io.StatusCode.{
  StatusCode, number, ok, invalid_argument, connection_already_in_progress, peer_not_found,
}

pub data Handle : Type 0 where
  fresh ready closing : Handle

pub record Peer : Type 0 where
  pub id : ℕ
  pub last_packet_time : ℕ

pub record Server : Type 0 where
  pub handle : Handle
  pub peers : List Peer
  pub inactive_peers : List ℕ
  pub peers_backlog : Option (List ℕ)
  pub new_peer_callback : Bool
  pub receive_callback : Bool
  pub close_callback : Bool
  pub connection_in_progress : Bool
  pub removal_scheduled : Bool

-- A call of a callback of the user.
pub data Event : Type 0 where
  new_peer : ℕ → Event
  data_received : ℕ → ℕ → Event
  receive_failed : ℕ → Event
  timed_out : ℕ → StatusCode → Event
  closed erases_invalid : Event

abbrev pub init : Server
init = record {
  handle = fresh;
  peers = [];
  inactive_peers = [];
  peers_backlog = none;
  new_peer_callback = false;
  receive_callback = false;
  close_callback = false;
  connection_in_progress = false;
  removal_scheduled = false;
}

abbrev pub has : ℕ → List ℕ → Bool
has i [] = false
has i (j ∷ js) = if i == j then true else has i js

-- Keys are unique in the maps, so that one element at most is erased.
abbrev pub erase : ℕ → List ℕ → List ℕ
erase i [] = []
erase i (j ∷ js) = if i == j then js else j ∷ erase i js

abbrev pub ids : List Peer → List ℕ
ids [] = []
ids (p ∷ ps) = p.id ∷ ids ps

abbrev pub erase_peer : ℕ → List Peer → List Peer
erase_peer i [] = []
erase_peer i (p ∷ ps) = if i == p.id then ps else p ∷ erase_peer i ps

abbrev pub set_last_packet_time : ℕ → ℕ → List Peer → List Peer
set_last_packet_time i now [] = []
set_last_packet_time i now (p ∷ ps) =
    (if i == p.id then record p { last_packet_time = now } else p) ∷ set_last_packet_time i now ps

abbrev pub in_backlog : (List ℕ → List ℕ) → Option (List ℕ) → Option (List ℕ)
in_backlog f none = none
in_backlog f (some is) = some (f is)

abbrev pub is_ok : StatusCode → Bool
is_ok c = number c == 0

abbrev pub is_open : Handle → Bool
is_open fresh = false
is_open ready = true
is_open closing = false

-- `uv_udp_init` is called once for a fresh handle.
pub init_handle : Handle → Server → StatusCode → Server × StatusCode
init_handle fresh s init_status =
    if is_ok init_status then (record s { handle = ready }, ok) else (s, init_status)
init_handle ready s init_status = (s, ok)
init_handle closing s init_status = (s, ok)

pub ensure_handle_inited : Server → StatusCode → Server × StatusCode
ensure_handle_inited s init_status = init_handle s.handle s init_status

-- `is_defined` is that the endpoint has an address.
pub bind : Server → Bool → StatusCode → StatusCode → Server × StatusCode
bind s is_defined init_status bind_status =
    if not is_defined
    then (s, invalid_argument)
    else let r = ensure_handle_inited s init_status in if is_ok r.1 then (r.0, bind_status) else r

-- What `uv_udp_bind` and `uv_udp_recv_start` do to a handle that is not open is left to libuv: they
-- report it in the statuses.
pub start_receive : Server → Bool → StatusCode → StatusCode → StatusCode → Server × StatusCode
start_receive s is_defined init_status bind_status receive_status =
    let r = bind s is_defined init_status bind_status in
    if not (is_ok r.1)
    then r
    else if is_ok receive_status
    then (record r.0 { receive_callback = true; connection_in_progress = true }, ok)
    else (record r.0 { receive_callback = true }, receive_status)

pub start_receive_with_timeout :
    Server → ℕ → Bool → Bool → StatusCode → StatusCode → StatusCode → Server × StatusCode
start_receive_with_timeout s timeout has_new_peer is_defined init_status bind_status
      receive_status =
    if timeout == 0
    then (s, invalid_argument)
    else if s.connection_in_progress
    then (s, connection_already_in_progress)
    else start_receive (record s { new_peer_callback = has_new_peer; peers_backlog = some [] })
        is_defined init_status bind_status receive_status

abbrev pub leaves : Server → Server
leaves s = s

-- A peer is erased by the iterator that was found before the callback, which may have made it invalid.
abbrev pub erase_expired : ℕ → Server → Server × List Event
erase_expired i s =
    if has i (ids s.peers)
    then (record s { peers = erase_peer i s.peers }, timed_out i ok ∷ [])
    else (s, timed_out i ok ∷ erases_invalid ∷ [])

abbrev pub release_item : ℕ → Server × List Event → Server × List Event
release_item i (s, es) = (record s { peers_backlog = in_backlog (erase i) s.peers_backlog }, es)

-- The expiry callback of the backlog, which lets go of the item afterwards; `calls` is what the timeout
-- callback of the user does to the server.
pub on_expired : (Server → Server) → Server → ℕ → Server × List Event
on_expired calls s i = release_item i (
    if has i (ids s.peers)
    then erase_expired i (calls s)
    else (calls s, timed_out i peer_not_found ∷ []))

pub close : Server → Bool → Server
close s has_callback =
    if is_open s.handle then record s { close_callback = has_callback; handle = closing } else s

-- Returns whether the server is ready to be removed.
pub close_with_removal : Server → Server × Bool
close_with_removal s =
    if is_open s.handle
    then (
      record s { removal_scheduled = true; connection_in_progress = false; handle = closing },
      false,
    )
    else (
      record s { removal_scheduled = true; peers = []; inactive_peers = []; peers_backlog = none },
      true,
    )

-- The handle is closed, and the removal goes on.
pub on_close_with_removal : Server → Server × Bool
on_close_with_removal s = close_with_removal (record s { handle = fresh })

pub close_peer : Server → ℕ → Server
close_peer s i =
    if has i s.inactive_peers
    then s
    else let s' : Server = record s { inactive_peers = i ∷ s.inactive_peers } in
      if has i (ids s.peers)
      then record s' {
        peers_backlog = in_backlog (erase i) s.peers_backlog;
        peers = erase_peer i s.peers;
      }
      else s'

-- The timer of a closed peer.
pub forget_peer : Server → ℕ → Server
forget_peer s i = record s { inactive_peers = erase i s.inactive_peers }

-- A packet of a tracked peer.
pub receive_tracked : Server → ℕ → ℕ → ℕ → Server × List Event
receive_tracked s i size now =
    if has i s.inactive_peers
    then (s, [])
    else if has i (ids s.peers)
    then (record s { peers = set_last_packet_time i now s.peers }, data_received i size ∷ [])
    else (
      record s {
        peers = s.peers ++ record { id = i; last_packet_time = now } ∷ [];
        peers_backlog = in_backlog (λ is. is ++ i ∷ []) s.peers_backlog;
      },
      (if s.new_peer_callback then new_peer i ∷ [] else []) ++ data_received i size ∷ [],
    )

abbrev pub is_some : {A : Type 0} → Option A → Bool
is_some none = false
is_some (some x) = true

-- A packet of `size` bytes; libuv gives no address when it has nothing more to read.
pub receive_packet : Server → ℕ → Option ℕ → ℕ → Server × List Event
receive_packet s size none now = (s, [])
receive_packet s size (some i) now =
    if size == 0
    then (s, [])
    else if is_some s.peers_backlog
    then receive_tracked s i size now
    else (s, data_received i size ∷ [])

-- `negsuc code` is an error of libuv.
pub on_data_received : Server → ℤ → Option ℕ → ℕ → Server × List Event
on_data_received s (pos size) address now =
    if s.receive_callback then receive_packet s size address now else (s, [])
on_data_received s (negsuc code) address now =
    if s.receive_callback then (s, receive_failed code ∷ []) else (s, [])

-- `calls` is what the close callback of the user does to the server.
pub on_close : (Server → Server) → Server → Server × List Event
on_close calls s =
    let s' : Server = record s { connection_in_progress = false } in
    if s.close_callback
    then (
      record (calls (record s' { handle = fresh })) {
        peers = [];
        inactive_peers = [];
        peers_backlog = none;
      },
      closed ∷ [],
    )
    else (s', [])
