-- ===== src/TcpClient/Steps.antt =====
-- Every run of source/io/net/TcpClient.cpp: the calls of the user, which callbacks may make too, and what
-- libuv and the loop call, in any order.
use tarm_io.Prelude.{ℕ, ◌≤◌, ◌≡◌, refl, ◌⊎◌, Bool, true, false, Option, some, arith}
use tarm_io.StatusCode.{StatusCode}
use tarm_io.TcpClient.{
  Client, init, is_ok, is_reset, connect, connect_impl, shutdown, close, close_with_reset,
  schedule_removal, on_shutdown, on_connect, on_close, on_data, on_read_failed, on_close_detached,
}
use tarm_io.TcpClient.Mild.{
  close_calls, Mild, IsMild, IsOnce, Mild-trans, Mild-IsOnce, IsOnce-le, connect-Mild,
  shutdown-Mild, close-Mild, close_with_reset-Mild, schedule_removal-Mild,
}
use tarm_io.TcpClient.Closing.{
  on_close-IsOnce, on_data-IsOnce, on_read_failed-IsOnce, on_shutdown-IsOnce, on_connect-IsOnce,
  connect_impl-IsOnce, on_close_detached-IsOnce,
}

-- What the user may do, also in a callback.
pub data Calls : Client → Client → Type 0 where
  nothing : (s : Client) → Calls s s
  and_then : (s t u : Client) → Calls s t → Calls t u → Calls s u
  connects : (e : Option ℕ) (s : Client) → Calls s (connect e s)
  shuts_down : (s : Client) → Calls s (shutdown s)
  closes : (s : Client) → Calls s (close s).0
  resets : (s : Client) → Calls s (close_with_reset s)
  removes : (s : Client) → Calls s (schedule_removal s)

-- A posted connection finds the handles of an earlier one closed and libuv makes its stream; a shutdown
-- succeeds; libuv starts to read when a connection is made, and reports a reset, or the end of the
-- data, only of a stream that is not being closed.
pub data Steps : Client → Client → Type 0 where
  does : (s t : Client) → Calls s t → Steps s t
  goes_on : (s t u : Client) → Steps s t → Steps t u → Steps s u
  is_asked :
      (calls : Client → Client)
      → ((x : Client) → Calls x (calls x))
      → (e : Option ℕ) (c r x : Bool) (init_status connect_status : StatusCode) (s : Client)
      → is_ok init_status ≡ true
      → s.closing ≡ 0
      → Steps s (connect_impl calls e c r x init_status connect_status s)
  is_connected :
      (calls : Client → Client)
      → ((x : Client) → Calls x (calls x))
      → (status read_status : StatusCode) (s : Client) → is_ok read_status ≡ true
      → (is_reset status ≡ false) ⊎ (s.stream ≡ true)
      → Steps s (on_connect calls status read_status s)
  is_shut_down :
      (calls : Client → Client)
      → ((x : Client) → Calls x (calls x))
      → (status : StatusCode) (s t : Client) → is_ok status ≡ true
      → on_shutdown calls status s ≡ some t
      → Steps s t
  is_closed :
      (calls : Client → Client)
      → ((x : Client) → Calls x (calls x))
      → (s : Client) → 1 ≤ s.closing
      → Steps s (on_close calls s)
  is_closed_detached : (s : Client) → Steps s (on_close_detached s)
  receives :
      (calls : Client → Client)
      → ((x : Client) → Calls x (calls x))
      → (n : ℕ) (s : Client) → Steps s (on_data calls n s)
  fails :
      (calls : Client → Client)
      → ((x : Client) → Calls x (calls x))
      → (status socket_error : StatusCode) (s : Client) → s.stream ≡ true
      → Steps s (on_read_failed calls status socket_error s)

Calls-Mild : (s t : Client) → Calls s t → Mild s t
Calls-Mild _ _ (nothing s) = (refl, omega arith, refl)
Calls-Mild _ _ (and_then s t u x y) = Mild-trans s t u (Calls-Mild s t x) (Calls-Mild t u y)
Calls-Mild _ _ (connects e s) = connect-Mild e s
Calls-Mild _ _ (shuts_down s) = shutdown-Mild s
Calls-Mild _ _ (closes s) = close-Mild s
Calls-Mild _ _ (resets s) = close_with_reset-Mild s
Calls-Mild _ _ (removes s) = schedule_removal-Mild s

mild : (calls : Client → Client) → ((x : Client) → Calls x (calls x)) → IsMild calls
mild calls w x = Calls-Mild x (calls x) (w x)

Steps-IsOnce : (s t : Client) → Steps s t → IsOnce s → IsOnce t
Steps-IsOnce _ _ (does s t c) h = Mild-IsOnce s t (Calls-Mild s t c) h
Steps-IsOnce _ _ (goes_on s t u x y) h = Steps-IsOnce t u y (Steps-IsOnce s t x h)
Steps-IsOnce _ _ (is_asked calls w e c r x init_status connect_status s o z) h =
    connect_impl-IsOnce calls (mild calls w) e c r x init_status connect_status s o z h
Steps-IsOnce _ _ (is_connected calls w status read_status s o g) h =
    on_connect-IsOnce calls (mild calls w) status read_status s o g h
Steps-IsOnce _ _ (is_shut_down calls w status s t o e) h =
    on_shutdown-IsOnce calls (mild calls w) status s t o e h
Steps-IsOnce _ _ (is_closed calls w s p) h = on_close-IsOnce calls (mild calls w) s p h
Steps-IsOnce _ _ (is_closed_detached s) h = on_close_detached-IsOnce s h
Steps-IsOnce _ _ (receives calls w n s) h = on_data-IsOnce calls (mild calls w) n s h
Steps-IsOnce _ _ (fails calls w status socket_error s e) h =
    on_read_failed-IsOnce calls (mild calls w) status socket_error s e h

-- Whatever the user and the callbacks do, and in whatever order libuv answers: the close callback of a
-- connection is called at most once, whether the user closes it, the peer does or it is reset. Posted
-- connections find the earlier handles closed and libuv makes their streams; shutdowns succeed; libuv starts to read when a
-- connection is made, and reports a reset, or the end of the data, only of a stream that is not being
-- closed.
pub Steps-close_calls : (s : Client) → Steps init s → close_calls s.log ≤ 1
Steps-close_calls s xs = IsOnce-le s (Steps-IsOnce init s xs (omega arith))
