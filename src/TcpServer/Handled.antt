-- ===== src/TcpServer/Handled.antt =====
-- The reports that clients are closed, in what libuv calls of source/io/net/TcpServer.cpp and net/TcpConnectedClient.cpp.
use mathlib.Core.Path.{subst}
use tarm_io.Prelude.{
  ℕ, suc, ◌+◌, ◌≤◌, ◌<◌, ◌≡◌, refl, sym, ◌∙◌, ◌⊎◌, inl, inr, Bool, true, false, not, Option, none,
  some, [], ◌∷◌, ◌++◌, arith, Bool-cases, if-true, if-false, ◌==◌, if◌then◌else◌,
}
use tarm_io.StatusCode.{StatusCode, ok, number, invalid_argument, connection_reset_by_peer}
use tarm_io.TcpWrites.{on_read_error}
use tarm_io.TcpServer.{
  Server, Conn, called_new, called_closed, logs, call_if, call_or_throw, is_ok, close_conn, lookup,
  update, erase, change, is_open_conn, accepted, is_called, read_if_open, refused,
  on_new_connection, on_conn_close_of, on_conn_close, on_read_failed_of, on_read_failed,
  read_failure,
}
use tarm_io.TcpServer.Closing.{
  reports, live, IsOnce, Mild, IsMild, Mild-refl, Mild-trans, Mild-IsOnce, live-update,
  close_conn-IsTame,
}
use tarm_io.TcpServer.Keeps.{
  change-Mild, start_read-Mild, report-IsOnce, call_if-Mild, call_or_throw-Mild,
}
use tarm_io.TcpServer.Accepted.{
  and_left, callback_fresh, erase-IsOnce, same_id, forgotten, live-forgotten, accepted-IsOnce,
}

module _ (calls : Server → Server) (k : IsMild calls) where
  on_conn_close_of-IsOnce :
      (o : Option Conn) (i : ℕ) (s : Server)
      → lookup i s.conns ≡ o
      → IsOnce s
      → IsOnce (on_conn_close_of calls o i s)
  unfolding on_conn_close_of
  on_conn_close_of-IsOnce none i s e h = h
  on_conn_close_of-IsOnce (some c) i s e h = told (Bool-cases (is_called s c))
    where
      s' : Server
      s' = record s { conns = erase i s.conns }

      told :
          (is_called s c ≡ true) ⊎ (is_called s c ≡ false)
          → IsOnce (call_if (is_called s c) (called_closed i ok) calls s')
      told (inr x) = subst IsOnce (sym (if-false _ _ x)) (erase-IsOnce i s h)
      told (inl x) =
          let f = callback_fresh i c s e (and_left _ _ x) h in
          subst IsOnce (sym (if-true _ _ x)) (
            Mild-IsOnce (logs (called_closed i ok) s') (calls (logs (called_closed i ok) s'))
              (k (logs (called_closed i ok) s'))
              (report-IsOnce i ok s' (omega (arith, f.0, f.1)) f.3 (erase-IsOnce i s h)))

  pub on_conn_close-IsOnce : (i : ℕ) (s : Server) → IsOnce s → IsOnce (on_conn_close calls i s)
  unfolding on_conn_close
  on_conn_close-IsOnce i s h = on_conn_close_of-IsOnce (lookup i s.conns) i s refl h

  -- The client `i` reports, once and for all, and loses its callback.
  forget-IsOnce :
      (i : ℕ) (c : StatusCode) (s : Server)
      → reports i s.log ≡ 0
      → i < s.next
      → IsOnce s
      → IsOnce (change i forgotten (calls (logs (called_closed i c) s)))
  forget-IsOnce i c s z l h = (once, unborn)
    where
      told : Server
      told = logs (called_closed i c) s

      t : Server
      t = calls told

      others :
          (j : ℕ)
          → (j == i) ≡ false
          → reports j t.log + live j (update i forgotten t.conns) ≤ reports j s.log + live j s.conns
      others j x =
          let q = if-false {A = ℕ} 1 0 x in
          omega (
            arith,
            q,
            (k told).0 j,
            (k told).1 j,
            live-update j i forgotten t.conns (λ d. (refl, omega arith)),
          )

      once : (j : ℕ) → reports j t.log + live j (update i forgotten t.conns) ≤ 1
      once j = elim (Bool-cases (j == i)) [
        | inl x ↦
            let e : j ≡ i = ground arith in
            let q = if-true {A = ℕ} {b = i == i} 1 0 (same_id i) in
            subst (λ n. reports n t.log + live n (update i forgotten t.conns) ≤ 1) (sym e)
              (omega (arith, q, z, (k told).0 i, live-forgotten i t.conns))
        | inr x ↦ omega (arith, others j x, h.0 j)
      ]

      unborn : (j : ℕ) → t.next ≤ j → reports j t.log + live j (update i forgotten t.conns) ≡ 0
      unborn j p =
          let n : t.next ≡ s.next = (k told).2 in
          let x : (j == i) ≡ false = ground (arith, p, l, n) in
          omega (arith, others j x, h.1 j (omega (arith, p, n)))

  on_read_failed_of-IsOnce :
      (o : Option Conn) (i : ℕ) (status : StatusCode) (s : Server)
      → lookup i s.conns ≡ o
      → IsOnce s
      → IsOnce (on_read_failed_of calls o i status s)
  unfolding on_read_failed_of
  on_read_failed_of-IsOnce none i status s e h = h
  on_read_failed_of-IsOnce (some c) i status s e h = closes (told (Bool-cases (is_called s c)))
    where
      reported : Server
      reported = call_if (is_called s c) (called_closed i (on_read_error status)) calls s

      told : (is_called s c ≡ true) ⊎ (is_called s c ≡ false) → IsOnce (change i forgotten reported)
      told (inr x) =
          subst (λ t. IsOnce (change i forgotten t)) (sym (if-false _ _ x))
            (Mild-IsOnce s (change i forgotten s)
              (change-Mild i forgotten (λ d. (refl, omega arith)) s) h)
      told (inl x) =
          let f = callback_fresh i c s e (and_left _ _ x) h in
          subst (λ t. IsOnce (change i forgotten t)) (sym (if-true _ _ x))
            (forget-IsOnce i (on_read_error status) s f.0 f.3 h)

      closes :
          IsOnce (change i forgotten reported)
          → IsOnce (change i close_conn (change i forgotten reported))
      closes v =
          Mild-IsOnce (change i forgotten reported)
            (change i close_conn (change i forgotten reported))
            (change-Mild i close_conn close_conn-IsTame (change i forgotten reported)) v

  pub on_read_failed-IsOnce :
      (i : ℕ) (status socket_error : StatusCode) (s : Server)
      → IsOnce s
      → IsOnce (on_read_failed calls i status socket_error s)
  unfolding on_read_failed
  on_read_failed-IsOnce i status socket_error s h =
      on_read_failed_of-IsOnce (lookup i s.conns) i (read_failure status socket_error) s refl h

  read_if_open-Mild : (i : ℕ) (status : StatusCode) → IsMild (read_if_open calls i status)
  unfolding read_if_open
  read_if_open-Mild i status s = elim (Bool-cases (is_open_conn (lookup i s.conns))) [
    | inl x ↦ subst (Mild s) (sym (if-true _ _ x)) (start_read-Mild i status s)
    | inr x ↦ subst (Mild s) (sym (if-false _ _ x)) (Mild-refl s)
  ]

  refused-IsOnce :
      (i : ℕ) (status : StatusCode) (s : Server)
      → reports i s.log + live i s.conns ≡ 0
      → i < s.next
      → IsOnce s
      → IsOnce (refused calls i status s)
  unfolding refused
  refused-IsOnce i status s z l h = elim (Bool-cases (number status == number invalid_argument)) [
    | inr x ↦ subst IsOnce (sym (if-false _ _ x)) (
        Mild-IsOnce s (calls (logs (called_new i status) s))
          (call_if-Mild calls k true (called_new i status) (λ j es. refl) s) h)
    | inl x ↦
        let m = call_if-Mild calls k true (called_new i ok) (λ j es. refl) s in
        let t : Server = calls (logs (called_new i ok) s) in
        subst IsOnce (sym (if-true _ _ x)) (
          told s.close_connection_callback t (omega (arith, z, m.0 i, m.1 i))
            (omega (arith, l, m.2)) (Mild-IsOnce s t m h))
  ]
    where
      told :
          (b : Bool) (t : Server)
          → reports i t.log + live i t.conns ≡ 0
          → i < t.next
          → IsOnce t
          → IsOnce (call_or_throw b (called_closed i connection_reset_by_peer) calls t)
      told true t y p v =
          Mild-IsOnce (logs (called_closed i connection_reset_by_peer) t)
            (calls (logs (called_closed i connection_reset_by_peer) t))
            (k (logs (called_closed i connection_reset_by_peer) t))
            (report-IsOnce i connection_reset_by_peer t y p v)
      told false t y p v = v

  pub on_new_connection-IsOnce :
      (init_status status accept_status peer_status read_status : StatusCode) (s : Server)
      → IsOnce s
      → IsOnce (on_new_connection calls init_status status accept_status peer_status read_status s)
  unfolding on_new_connection
  on_new_connection-IsOnce init_status status accept_status peer_status read_status s h =
      elim (Bool-cases (not (is_ok init_status))) [
        | inl x ↦ subst IsOnce (sym (if-true _ _ x)) (tells init_status)
        | inr x ↦ elim (Bool-cases (not (is_ok status))) [
          | inl y ↦ subst IsOnce (sym (if-false _ _ x ∙ if-true _ _ y)) (tells status)
          | inr y ↦ elim (Bool-cases (not (is_ok accept_status))) [
            | inl z ↦ subst IsOnce (sym (if-false _ _ x ∙ if-false _ _ y ∙ if-true _ _ z)) (
                Mild-IsOnce s'
                  (call_or_throw s.new_connection_callback (called_new s.next accept_status) calls
                    s')
                  (call_or_throw-Mild calls k s.new_connection_callback
                    (called_new s.next accept_status) (λ j es. refl) s')
                  counted)
            | inr z ↦
                subst IsOnce (sym (if-false _ _ x ∙ if-false _ _ y ∙ if-false _ _ z))
                  (taken (Bool-cases (is_ok peer_status)))
          ]
        ]
      ]
    where
      s' : Server
      s' = record s { next = suc s.next }

      counted : IsOnce s'
      counted = (h.0, (λ i p. h.1 i (omega (arith, p))))

      tells :
          (c : StatusCode)
          → IsOnce (call_if s.new_connection_callback (called_new s.next c) calls s')
      tells c =
          Mild-IsOnce s' (call_if s.new_connection_callback (called_new s.next c) calls s')
            (call_if-Mild calls k s.new_connection_callback (called_new s.next c) (λ j es. refl) s')
            counted

      with_client : Server
      with_client = record s' { conns = s.conns ++ accepted s.next ∷ [] }

      told : Server
      told = call_if s.new_connection_callback (called_new s.next ok) calls with_client

      taken :
          (is_ok peer_status ≡ true) ⊎ (is_ok peer_status ≡ false)
          → IsOnce (
              if is_ok peer_status
              then read_if_open calls s.next read_status told
              else if s.new_connection_callback
              then refused calls s.next peer_status s'
              else s')
      taken (inl x) = subst IsOnce (sym (if-true _ _ x)) (
          Mild-IsOnce with_client (read_if_open calls s.next read_status told)
            (Mild-trans with_client told (read_if_open calls s.next read_status told)
              (call_if-Mild calls k s.new_connection_callback (called_new s.next ok) (λ j es. refl)
                with_client)
              (read_if_open-Mild s.next read_status told))
            (accepted-IsOnce s h))
      taken (inr x) = elim (Bool-cases s.new_connection_callback) [
        | inl y ↦
            subst IsOnce (sym (if-false _ _ x ∙ if-true _ _ y)) (
              refused-IsOnce s.next peer_status s' (h.1 s.next (omega arith)) (omega arith) counted)
        | inr y ↦ subst IsOnce (sym (if-false _ _ x ∙ if-false _ _ y)) counted
      ]
