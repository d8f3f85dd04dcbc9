-- ===== src/TcpClient/Tests.antt =====
-- A client that connects, receives and is closed by its peer.
use tarm_io.Prelude.{◌≤◌, ◌≡◌, refl, inl, true, false, none, some, [], ◌∷◌}
use tarm_io.StatusCode.{ok, end_of_file, operation_canceled}
use tarm_io.TcpClient.{
  Client, called_close, init, end_stream, connect, connect_impl, on_connect, on_data,
  on_read_failed, on_shutdown, on_close, close, schedule_removal,
}
use tarm_io.TcpClient.Mild.{close_calls}
use tarm_io.TcpClient.Removal.{leaves, removals, schedule_removal-removals, on_shutdown-close}
use tarm_io.TcpClient.Steps.{
  nothing, connects, Steps, does, goes_on, is_asked, is_connected, receives, fails,
  Steps-close_calls,
}

abbrev asked : Client
asked = connect_impl leaves (some 80) true true true ok ok (connect (some 80) init)

abbrev connected : Client
connected = on_connect leaves ok ok asked

abbrev closed_by_peer : Client
closed_by_peer = on_read_failed leaves end_of_file ok (on_data leaves 10 connected)

run : Steps init closed_by_peer
unfolding connect connect_impl on_connect on_data
run = goes_on init (connect (some 80) init) closed_by_peer (does _ _ (connects (some 80) init)) (
    goes_on (connect (some 80) init) asked closed_by_peer
      (is_asked leaves nothing (some 80) true true true ok ok (connect (some 80) init) refl refl)
      (goes_on asked connected closed_by_peer
        (is_connected leaves nothing ok ok asked refl (inl refl))
        (goes_on connected (on_data leaves 10 connected) closed_by_peer
          (receives leaves nothing 10 connected)
          (fails leaves nothing end_of_file ok (on_data leaves 10 connected) refl))))

Steps-close_calls_example : close_calls closed_by_peer.log ≤ 1
Steps-close_calls_example = Steps-close_calls closed_by_peer run

closed_by_peer_log : close_calls closed_by_peer.log ≡ 1
unfolding connect connect_impl on_connect on_data on_read_failed
closed_by_peer_log = refl

abbrev open_client : Client
open_client = record init { stream = true; is_open = true; close_callback = true }

schedule_removal-removals_example :
    (removals (schedule_removal open_client).log ≡ 0)
    × ((schedule_removal open_client).closing ≡ 1)
    × (removals (on_close leaves (schedule_removal open_client)).log ≡ 1)
    × ((on_close leaves (schedule_removal open_client)).closing ≡ 0)
    × (removals (schedule_removal (close open_client).0).log ≡ 1)
    × ((schedule_removal (close open_client).0).closing ≡ 1)
    × (removals (on_close leaves (schedule_removal (close open_client).0)).log ≡ 2)
    × ((on_close leaves (schedule_removal (close open_client).0)).closing ≡ 0)
schedule_removal-removals_example = schedule_removal-removals open_client refl

on_shutdown-close_example :
    (on_shutdown leaves operation_canceled (close open_client).0 ≡ none)
    × (let t : Client =
          end_stream
            (record open_client { is_open = false; log = called_close operation_canceled ∷ [] }) in
        (on_shutdown leaves operation_canceled open_client ≡ some t)
        × (close_calls (on_close leaves t).log ≡ 2))
on_shutdown-close_example = on_shutdown-close operation_canceled open_client refl refl refl refl
