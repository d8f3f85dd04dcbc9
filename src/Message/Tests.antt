-- ===== src/Message/Tests.antt =====
-- Runs of the sender and the receiver, and the theorems at concrete inputs.
use tarm_io.Prelude.{◌≡◌, refl, arith, true, some, none, List, [], ◌∷◌, ◌++◌}
use tarm_io.VariableLengthSize.{bytes, bytes_count, of_unsigned}
use tarm_io.Message.{
  Client, transport, Event, received, refused, Outcome, ok, fault, stuck, init, on_data_receive,
  do_send_size, send_data_impl,
}
use tarm_io.Message.Phase.{sizing, byte, run}
use tarm_io.Message.Represents.{Represents, init-Represents}
use tarm_io.Message.Receive.{on_data_receive-run}
use tarm_io.Message.Frames.{receive_all, receive_all-joined, receive_all-sent}
use tarm_io.Message.Overrun.{on_data_receive_overrun}

abbrev small_client : Client
small_client = init 4

abbrev events : Outcome (Client × List Event) → List Event
events (ok (c, es)) = es
events fault = []
events stuck = []

-- Two messages and the start of a third one in a chunk.
run_two :
    (run 4 (sizing []) (2 ∷ 10 ∷ 11 ∷ 1 ∷ 12 ∷ 3 ∷ 13 ∷ [])).1
    ≡ received (10 ∷ 11 ∷ []) ∷ received (12 ∷ []) ∷ []
unfolding run byte
run_two = refl

transport_error :
    on_data_receive true small_client [] (some (transport 3))
    ≡ ok (small_client, refused 0 (transport 3) ∷ [])
unfolding on_data_receive
transport_error = refl

on_data_receive-run_example :
    (c' : Client) × (on_data_receive true small_client (2 ∷ 10 ∷ 11 ∷ 5 ∷ []) none
      ≡ ok (c', (run 4 (sizing []) (2 ∷ 10 ∷ 11 ∷ 5 ∷ [])).1))
    × Represents 4 c' (run 4 (sizing []) (2 ∷ 10 ∷ 11 ∷ 5 ∷ [])).0
unfolding run byte
on_data_receive-run_example =
    on_data_receive-run 4 (sizing []) small_client (2 ∷ 10 ∷ 11 ∷ 5 ∷ []) (omega arith)
      (init-Represents 4) tt

receive_all-joined_example :
    (c' : Client) × (receive_all small_client ((2 ∷ 10 ∷ []) ∷ (11 ∷ 1 ∷ 12 ∷ []) ∷ [])
      ≡ ok (c', (run 4 (sizing []) (2 ∷ 10 ∷ 11 ∷ 1 ∷ 12 ∷ [])).1))
    × Represents 4 c' (run 4 (sizing []) (2 ∷ 10 ∷ 11 ∷ 1 ∷ 12 ∷ [])).0
unfolding run byte
receive_all-joined_example =
    receive_all-joined 4 (sizing []) small_client ((2 ∷ 10 ∷ []) ∷ (11 ∷ 1 ∷ 12 ∷ []) ∷ [])
      (omega arith) (init-Represents 4) tt

receive_all-sent_example :
    (c' : Client) × (receive_all small_client ((2 ∷ 10 ∷ []) ∷ (11 ∷ 1 ∷ 12 ∷ []) ∷ [])
      ≡ ok (c', received (10 ∷ 11 ∷ []) ∷ received (12 ∷ []) ∷ []))
    × Represents 4 c' (sizing [])
unfolding send_data_impl init do_send_size bytes_count of_unsigned bytes
receive_all-sent_example =
    receive_all-sent 4 small_client ((10 ∷ 11 ∷ []) ∷ (12 ∷ []) ∷ [])
      ((2 ∷ 10 ∷ []) ∷ (11 ∷ 1 ∷ 12 ∷ []) ∷ []) (omega arith) (omega arith) (omega arith)
      (omega arith) refl

on_data_receive_overrun_example :
    on_data_receive true
      (init 4)
      ((0x81 ∷ 0x80 ∷ 0x80 ∷ 0x80 ∷ 0x80 ∷ 0x80 ∷ 0x80 ∷ []) ++ 0x80 ∷ 1 ∷ 2 ∷ 3 ∷ 4 ∷ [])
      none
    ≡ fault
on_data_receive_overrun_example =
    on_data_receive_overrun 4 (init 4) [] (0x81 ∷ 0x80 ∷ 0x80 ∷ 0x80 ∷ 0x80 ∷ 0x80 ∷ 0x80 ∷ []) 0x80
      (1 ∷ 2 ∷ 3 ∷ 4 ∷ []) (init-Represents 4) (omega arith) refl (omega arith) (omega arith)
      (omega arith) (omega arith)
