-- ===== src/Tls/Tests.antt =====
-- Runs of source/io/net/detail/OpenSslClientImplBase.h.
use tarm_io.Prelude.{◌≤◌, ◌≡◌, refl, if◌then◌else◌, true, false, [], ◌∷◌, pos}
use tarm_io.Tls.{
  finish_sent, finishing, called_handshake_complete, called_ssl_read, asks_send, Client, init,
  decrypts, wants_more, succeeds, wants_read, after_read, read_from_ssl_and_send, read_from_ssl,
  finish_handshake, finish_and_read, after_handshake, do_handshake, on_finish_sent, on_data_receive,
}
use tarm_io.Tls.Quiet.{completes, received, IsOrdered}
use tarm_io.Tls.Steps.{Steps, nothing, goes_on, starts, receives, has_finished, Steps-reads}
use tarm_io.Tls.Late.{on_finish_sent-on_data_receive}

abbrev leaves : Client → Client
leaves s = s

abbrev started : Client
started = do_handshake leaves wants_read 517 false wants_more init

abbrev finishing_client : Client
finishing_client = on_data_receive leaves (pos 3000) succeeds 51 false wants_more started

abbrev finished_client : Client
finished_client = on_finish_sent leaves false wants_more finishing_client

abbrev reading_client : Client
reading_client =
    on_data_receive leaves (pos 90) succeeds 0 false (decrypts 9 true (decrypts 4 false wants_more))
      finished_client

reading_client_log :
    reading_client.log
    ≡ called_ssl_read 1 5 10
      ∷ called_ssl_read 0 10 0
      ∷ called_handshake_complete
      ∷ asks_send 51
      ∷ asks_send 517
      ∷ []
unfolding do_handshake after_handshake read_from_ssl_and_send on_data_receive on_finish_sent
    finish_sent finish_and_read finish_handshake read_from_ssl after_read
reading_client_log = refl

run : Steps init reading_client
unfolding do_handshake after_handshake read_from_ssl_and_send on_data_receive
run =
    goes_on init started reading_client
      (starts leaves nothing wants_read 517 false wants_more init refl)
      (goes_on started finishing_client reading_client
        (receives leaves nothing (pos 3000) succeeds 51 false wants_more started)
        (goes_on finishing_client finished_client reading_client
          (has_finished leaves nothing false wants_more finishing_client)
          (receives leaves nothing (pos 90) succeeds 0 false
            (decrypts 9 true (decrypts 4 false wants_more)) finished_client)))

Steps-reads_example :
    (completes reading_client.log ≤ 1)
    × (reading_client.data_offset ≡ received reading_client.log)
    × IsOrdered reading_client.log
Steps-reads_example = Steps-reads reading_client run

on_finish_sent-on_data_receive_example :
    let t : Client = do_handshake leaves succeeds 51 false wants_more init in
    let u : Client = on_data_receive leaves (pos 90) succeeds 0 true wants_more t in
    let v : Client =
      finish_handshake leaves
        (record init { handshake_state = finishing; finishes = []; log = asks_send 51 ∷ [] }) in
    (u ≡ t)
    × (on_finish_sent leaves false (decrypts 9 false wants_more) u
        ≡ (if false then read_from_ssl leaves (decrypts 9 false wants_more) v else v))
on_finish_sent-on_data_receive_example =
    on_finish_sent-on_data_receive leaves 51 0 false true (pos 90) succeeds wants_more wants_more
      (decrypts 9 false wants_more) init refl refl refl refl
