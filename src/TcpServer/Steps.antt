-- ===== src/TcpServer/Steps.antt =====
-- Every run of source/io/net/TcpServer.cpp with its clients: the calls of the user, which callbacks may
-- make too, and what libuv and the loop call, in any order.
use tarm_io.Prelude.{ℕ, ◌≤◌, Bool, arith}
use tarm_io.StatusCode.{StatusCode}
use tarm_io.TcpServer.{
  Server, init, listen, close_conn, shutdown_conn, close, shutdown, schedule_removal, change,
  on_new_connection, on_conn_close, on_conn_data, on_read_failed, on_conn_shutdown, on_close,
  on_end, on_not_connected,
}
use tarm_io.TcpServer.Closing.{
  reports, IsOnce, Mild, IsMild, Mild-refl, Mild-trans, Mild-IsOnce, close_conn-IsTame,
  shutdown_conn-IsTame,
}
use tarm_io.TcpServer.Keeps.{
  change-Mild, close-Mild, shutdown-Mild, schedule_removal-Mild, listen-Mild, on_conn_shutdown-Mild,
  on_close-Mild, on_end-Mild, on_not_connected-Mild, on_conn_data-Mild,
}
use tarm_io.TcpServer.Handled.{
  on_conn_close-IsOnce, on_read_failed-IsOnce, on_new_connection-IsOnce,
}

-- What the user may do, also in a callback.
pub data Calls : Server → Server → Type 0 where
  nothing : (s : Server) → Calls s s
  and_then : (s t u : Server) → Calls s t → Calls t u → Calls s u
  listens :
      (d n r c : Bool) (init_status bind_status listen_status : StatusCode) (s : Server)
      → Calls s (listen d n r c init_status bind_status listen_status s).0
  closes : (b : Bool) (s : Server) → Calls s (close b s)
  shuts_down : (b : Bool) (s : Server) → Calls s (shutdown b s)
  removes : (s : Server) → Calls s (schedule_removal s)
  closes_client : (i : ℕ) (s : Server) → Calls s (change i close_conn s)
  shuts_client_down : (i : ℕ) (s : Server) → Calls s (change i shutdown_conn s)

pub data Steps : Server → Server → Type 0 where
  does : (s t : Server) → Calls s t → Steps s t
  goes_on : (s t u : Server) → Steps s t → Steps t u → Steps s u
  connects :
      (calls : Server → Server)
      → ((x : Server) → Calls x (calls x))
      → (init_status status accept_status peer_status read_status : StatusCode) (s : Server)
      → Steps s (on_new_connection calls init_status status accept_status peer_status read_status s)
  client_receives :
      (calls : Server → Server)
      → ((x : Server) → Calls x (calls x))
      → (i n : ℕ) (s : Server) → Steps s (on_conn_data calls i n s)
  client_fails :
      (calls : Server → Server)
      → ((x : Server) → Calls x (calls x))
      → (i : ℕ) (status socket_error : StatusCode) (s : Server)
      → Steps s (on_read_failed calls i status socket_error s)
  client_is_closed :
      (calls : Server → Server)
      → ((x : Server) → Calls x (calls x))
      → (i : ℕ) (s : Server) → Steps s (on_conn_close calls i s)
  client_is_shut_down : (i : ℕ) (s : Server) → Steps s (on_conn_shutdown i s)
  is_closed : (s : Server) → Steps s (on_close s)
  ends :
      (calls : Server → Server)
      → ((x : Server) → Calls x (calls x))
      → (s : Server) → Steps s (on_end calls s)
  ends_not_connected :
      (calls : Server → Server)
      → ((x : Server) → Calls x (calls x))
      → (s : Server) → Steps s (on_not_connected calls s)

Calls-Mild : (s t : Server) → Calls s t → Mild s t
Calls-Mild _ _ (nothing s) = Mild-refl s
Calls-Mild _ _ (and_then s t u x y) = Mild-trans s t u (Calls-Mild s t x) (Calls-Mild t u y)
Calls-Mild _ _ (listens d n r c init_status bind_status listen_status s) =
    listen-Mild d n r c init_status bind_status listen_status s
Calls-Mild _ _ (closes b s) = close-Mild b s
Calls-Mild _ _ (shuts_down b s) = shutdown-Mild b s
Calls-Mild _ _ (removes s) = schedule_removal-Mild s
Calls-Mild _ _ (closes_client i s) = change-Mild i close_conn close_conn-IsTame s
Calls-Mild _ _ (shuts_client_down i s) = change-Mild i shutdown_conn shutdown_conn-IsTame s

mild : (calls : Server → Server) → ((x : Server) → Calls x (calls x)) → IsMild calls
mild calls w x = Calls-Mild x (calls x) (w x)

Steps-IsOnce : (s t : Server) → Steps s t → IsOnce s → IsOnce t
Steps-IsOnce _ _ (does s t c) h = Mild-IsOnce s t (Calls-Mild s t c) h
Steps-IsOnce _ _ (goes_on s t u x y) h = Steps-IsOnce t u y (Steps-IsOnce s t x h)
Steps-IsOnce _ _ (connects calls w init_status status accept_status peer_status read_status s) h =
    on_new_connection-IsOnce calls (mild calls w) init_status status accept_status peer_status
      read_status s h
Steps-IsOnce _ _ (client_receives calls w i n s) h =
    Mild-IsOnce s (on_conn_data calls i n s) (on_conn_data-Mild calls (mild calls w) i n s) h
Steps-IsOnce _ _ (client_fails calls w i status socket_error s) h =
    on_read_failed-IsOnce calls (mild calls w) i status socket_error s h
Steps-IsOnce _ _ (client_is_closed calls w i s) h = on_conn_close-IsOnce calls (mild calls w) i s h
Steps-IsOnce _ _ (client_is_shut_down i s) h =
    Mild-IsOnce s (on_conn_shutdown i s) (on_conn_shutdown-Mild i s) h
Steps-IsOnce _ _ (is_closed s) h = Mild-IsOnce s (on_close s) (on_close-Mild s) h
Steps-IsOnce _ _ (ends calls w s) h =
    Mild-IsOnce s (on_end calls s) (on_end-Mild calls (mild calls w) s) h
Steps-IsOnce _ _ (ends_not_connected calls w s) h =
    Mild-IsOnce s (on_not_connected calls s) (on_not_connected-Mild calls (mild calls w) s) h

-- Whatever the user and the callbacks do, and whatever libuv answers and in whatever order: that a client
-- is closed is reported at most once for each client, whether the server or the client is closed, its peer
-- closes it or its address is not known. The posted reports of clients that libuv did not start to read are
-- not among the steps.
pub Steps-reports : (i : ℕ) (s : Server) → Steps init s → reports i s.log ≤ 1
Steps-reports i s xs =
    let once = (Steps-IsOnce init s xs ((λ j. omega arith), (λ j p. omega arith))).0 i in
    omega (arith, once)
