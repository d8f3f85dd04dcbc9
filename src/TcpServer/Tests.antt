-- ===== src/TcpServer/Tests.antt =====
-- A server with two clients, one of which is closed by its peer.
use tarm_io.Prelude.{◌≤◌, ◌≡◌, refl, inl, true, false, [], ◌∷◌, All, if◌then◌else◌}
use tarm_io.StatusCode.{ok, end_of_file, connection_reset_by_peer}
use tarm_io.TcpServer.{
  closing, Server, null, ending, listening, called_closed, posts_end, init, accepted, listen, close,
  on_new_connection, on_conn_close, on_read_failed, on_close,
}
use tarm_io.TcpServer.Closing.{reports}
use tarm_io.TcpServer.Ending.{leaves, on_conn_closes, reported, is_nil, close-on_close}
use tarm_io.TcpServer.Steps.{
  nothing, listens, Steps, does, goes_on, connects, client_fails, client_is_closed, Steps-reports,
}

abbrev listener : Server
listener = (listen true true true true ok ok ok init).0

abbrev one_client : Server
one_client = on_new_connection leaves ok ok ok ok ok listener

abbrev failed : Server
failed = on_read_failed leaves 0 end_of_file connection_reset_by_peer one_client

run : Steps init (on_conn_close leaves 0 failed)
run =
    goes_on init listener (on_conn_close leaves 0 failed)
      (does init listener (listens true true true true ok ok ok init))
      (goes_on listener one_client (on_conn_close leaves 0 failed)
        (connects leaves nothing ok ok ok ok ok listener)
        (goes_on one_client failed (on_conn_close leaves 0 failed)
          (client_fails leaves nothing 0 end_of_file connection_reset_by_peer one_client)
          (client_is_closed leaves nothing 0 failed)))

Steps-reports_example : reports 0 (on_conn_close leaves 0 failed).log ≤ 1
Steps-reports_example = Steps-reports 0 (on_conn_close leaves 0 failed) run

run_log : reports 0 (on_conn_close leaves 0 failed).log ≡ 1
unfolding listen on_new_connection on_read_failed on_conn_close
run_log = refl

abbrev busy : Server
busy = record init {
  handle = listening;
  is_open = true;
  close_connection_callback = true;
  conns = accepted 3 ∷ record (accepted 4) { close_callback = false } ∷ [];
}

close-on_close_example :
    let t = close true busy in
    let u = on_conn_closes t.conns t in
    All (λ c. (c.is_open ≡ false) × (c.phase ≡ closing)) t.conns
    × ((on_close t).handle ≡ (if is_nil t.conns then null else ending))
    × (u.log ≡ reported t.conns [])
    × (u.conns ≡ [])
    × ((on_close u).handle ≡ null)
    × ((on_close u).log ≡ posts_end ∷ u.log)
close-on_close_example = close-on_close busy refl refl (inl refl, (inl refl, tt))

busy_log :
    (on_close (on_conn_closes (close true busy).conns (close true busy))).log
    ≡ posts_end ∷ called_closed 3 ok ∷ []
unfolding close on_close on_conn_closes on_conn_close
busy_log = refl
