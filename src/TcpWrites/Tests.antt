-- ===== src/TcpWrites/Tests.antt =====
-- A stream with two writes.
use tarm_io.Prelude.{◌+◌, ◌≡◌, true, false, length, [], ◌∷◌}
use tarm_io.StatusCode.{ok}
use tarm_io.TcpWrites.{Request, Stream, init, send_data_impl}
use tarm_io.TcpWrites.Laws.{Steps, stop, go, send, listening, answered, Steps-answers}

abbrev first : Request
first = record { id = 1; has_callback = true }

abbrev second : Request
second = record { id = 2; has_callback = false }

abbrev two_writes : Stream
two_writes = send_data_impl (send_data_impl init first 5 true ok) second 6 true ok

sends : Steps init [] two_writes (second ∷ first ∷ [])
unfolding send_data_impl
sends = go _ _ _ _ (first ∷ []) _ (send init [] first 5 true ok) (
    go _ _ _ _ (second ∷ first ∷ []) _
      (send (send_data_impl init first 5 true ok) (first ∷ []) second 6 true ok) (stop _ _))

Steps-answers_example :
    (two_writes.pending_write_requests ≡ length two_writes.in_flight)
    × (answered 1 two_writes.answers + listening 1 two_writes.in_flight
        ≡ listening 1 (second ∷ first ∷ []))
Steps-answers_example = Steps-answers 1 two_writes (second ∷ first ∷ []) sends
