-- ===== src/UdpServer/Tests.antt =====
-- The server at concrete packets.
use tarm_io.Prelude.{◌≡◌, refl, true, some, [], ◌∷◌, inr, pos, if◌then◌else◌}
use tarm_io.StatusCode.{ok}
use tarm_io.UdpServer.{
  Server, ready, data_received, new_peer, init, init_handle, ensure_handle_inited, bind,
  start_receive, start_receive_with_timeout, on_data_received, receive_packet, receive_tracked,
  close_peer, on_close, leaves, is_some,
}
use tarm_io.UdpServer.Peers.{IsValid}
use tarm_io.UdpServer.Silent.{close_peer-on_data_received}
use tarm_io.UdpServer.Laws.{
  Steps, stop, go, starts_with_timeout, receives, closes_peer, Steps-IsValid,
  on_close_without_callback,
}

abbrev tracking : Server
tracking = record init {
  handle = ready;
  peers_backlog = some [];
  new_peer_callback = true;
  receive_callback = true;
  connection_in_progress = true;
}

abbrev with_peer : Server
with_peer = (on_data_received tracking (pos 4) (some 7) 100).0

first_packet :
    (on_data_received tracking (pos 4) (some 7) 100).1 ≡ new_peer 7 ∷ data_received 7 4 ∷ []
unfolding on_data_received receive_packet receive_tracked
first_packet = refl

run_server : Steps init (close_peer with_peer 7)
unfolding start_receive_with_timeout start_receive bind ensure_handle_inited init_handle
run_server = go _ _ _ (starts_with_timeout init 1000 true true ok ok ok (inr refl)) (
    go _ _ _ (receives tracking (pos 4) (some 7) 100) (go _ _ _ (closes_peer with_peer 7) (stop _)))

Steps-IsValid_example : IsValid (close_peer with_peer 7)
Steps-IsValid_example = Steps-IsValid (close_peer with_peer 7) run_server

close_peer-on_data_received_example :
    on_data_received (close_peer with_peer 7) (pos 12) (some 7) 200 ≡ (
      close_peer with_peer 7,
      if is_some with_peer.peers_backlog then [] else data_received 7 12 ∷ [],
    )
unfolding on_data_received receive_packet receive_tracked
close_peer-on_data_received_example = close_peer-on_data_received with_peer 7 12 200 refl refl

on_close_without_callback_example :
    let c = (on_close leaves with_peer).0 in
    (c.peers ≡ with_peer.peers)
    × ((start_receive_with_timeout c 1000 true true ok ok ok).0.peers ≡ with_peer.peers)
    × ((start_receive_with_timeout c 1000 true true ok ok ok).0.peers_backlog ≡ some [])
unfolding on_data_received receive_packet receive_tracked
on_close_without_callback_example =
    on_close_without_callback leaves with_peer 1000 true true ok ok ok refl refl
