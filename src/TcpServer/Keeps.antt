-- ===== src/TcpServer/Keeps.antt =====
-- What the operations of source/io/net/TcpServer.cpp and net/TcpConnectedClient.cpp change of the reports that clients are closed.
use mathlib.Core.Path.{subst}
use tarm_io.Prelude.{
  ℕ, ◌+◌, ◌≤◌, ◌<◌, ◌≡◌, refl, sym, ◌∙◌, inl, inr, Bool, true, false, not, ◌&&◌, Option, none, some,
  List, [], ◌∷◌, map, arith, Bool-cases, if-true, if-false, ◌==◌, if◌then◌else◌,
}
use tarm_io.StatusCode.{StatusCode, ok}
use tarm_io.TcpServer.{
  Server, Conn, Event, called_closed, called_received, called_end, null, logs, call_if,
  call_or_throw, is_ok, is_null, is_listening, listen, close_conn, shutdown_conn, close_impl, close,
  shutdown, schedule_removal, lookup, change, start_read, advance, on_conn_data_of, on_conn_data,
  on_conn_shutdown, on_close_of, on_close, on_end, on_not_connected,
}
use tarm_io.TcpServer.Closing.{
  reports, live, IsOnce, Mild, IsMild, Mild-refl, Mild-trans, IsTame, live-map, live-update,
  close_conn-IsTame, shutdown_conn-IsTame,
}

-- An event that reports nothing.
abbrev pub IsPlain : Event → Type 0
IsPlain e = (i : ℕ) (es : List Event) → reports i (e ∷ es) ≡ reports i es

pub change-Mild : (i : ℕ) (f : Conn → Conn) → IsTame f → IsMild (change i f)
change-Mild i f t s = ((λ j. refl), (λ j. live-update j i f s.conns t), refl)

map-Mild :
    (f : Conn → Conn) (b : Bool) (s : Server)
    → IsTame f
    → Mild s (record s { end_server_callback = b; conns = map f s.conns })
map-Mild f b s t = ((λ j. refl), (λ j. live-map j f s.conns t), refl)

close_impl-Mild : IsMild close_impl
unfolding close_impl
close_impl-Mild s = elim (Bool-cases (is_listening s.handle)) [
  | inl x ↦
      subst (λ (t : Server). Mild s (record t { is_open = false })) (sym (if-true _ _ x))
        (Mild-refl s)
  | inr x ↦ elim (Bool-cases s.end_server_callback) [
    | inl y ↦
        subst (λ (t : Server). Mild s (record t { is_open = false }))
          (sym (if-false _ _ x ∙ if-true _ _ y)) (Mild-refl s)
    | inr y ↦
        subst (λ (t : Server). Mild s (record t { is_open = false }))
          (sym (if-false _ _ x ∙ if-false _ _ y)) (Mild-refl s)
  ]
]

pub close-Mild : (b : Bool) → IsMild (close b)
unfolding close
close-Mild b s =
    let s' : Server = record s { end_server_callback = b; conns = map close_conn s.conns } in
    Mild-trans s s' (close b s) (map-Mild close_conn b s close_conn-IsTame) (close_impl-Mild s')

pub shutdown-Mild : (b : Bool) → IsMild (shutdown b)
unfolding shutdown
shutdown-Mild b s =
    let s' : Server = record s { end_server_callback = b; conns = map shutdown_conn s.conns } in
    Mild-trans s s' (shutdown b s) (map-Mild shutdown_conn b s shutdown_conn-IsTame)
      (close_impl-Mild s')

pub schedule_removal-Mild : IsMild schedule_removal
unfolding schedule_removal
schedule_removal-Mild s = elim (Bool-cases (not s.removal_scheduled && not (is_null s.handle))) [
  | inl x ↦
      subst (Mild s) (sym (if-true _ _ x))
        (close-Mild false (record s { removal_scheduled = true }))
  | inr x ↦ subst (Mild s) (sym (if-false _ _ x)) (Mild-refl s)
]

pub listen-Mild :
    (d n r c : Bool) (init_status bind_status listen_status : StatusCode) (s : Server)
    → Mild s (listen d n r c init_status bind_status listen_status s).0
unfolding listen
listen-Mild d n r c init_status bind_status listen_status s = elim (Bool-cases (not d)) [
  | inl x ↦ subst (λ (t : Server × StatusCode). Mild s t.0) (sym (if-true _ _ x)) (Mild-refl s)
  | inr x ↦ elim (Bool-cases (not (is_null s.handle))) [
    | inl y ↦
        subst (λ (t : Server × StatusCode). Mild s t.0) (sym (if-false _ _ x ∙ if-true _ _ y))
          (Mild-refl s)
    | inr y ↦ elim (Bool-cases (not (is_ok init_status))) [
      | inl z ↦
          subst (λ (t : Server × StatusCode). Mild s t.0)
            (sym (if-false _ _ x ∙ if-false _ _ y ∙ if-true _ _ z)) (Mild-refl s)
      | inr z ↦ elim (Bool-cases (not (is_ok bind_status))) [
        | inl w ↦
            subst (λ (t : Server × StatusCode). Mild s t.0)
              (sym (if-false _ _ x ∙ if-false _ _ y ∙ if-false _ _ z ∙ if-true _ _ w)) (Mild-refl s)
        | inr w ↦
            subst (λ (t : Server × StatusCode). Mild s t.0)
              (sym (if-false _ _ x ∙ if-false _ _ y ∙ if-false _ _ z ∙ if-false _ _ w))
              (Mild-refl s)
      ]
    ]
  ]
]

pub start_read-Mild : (i : ℕ) (status : StatusCode) → IsMild (start_read i status)
unfolding start_read
start_read-Mild i status s = elim (Bool-cases (is_ok status)) [
  | inl x ↦ subst (Mild s) (sym (if-true _ _ x)) (change-Mild i _ (λ c. (refl, omega arith)) s)
  | inr x ↦ subst (Mild s) (sym (if-false _ _ x)) (change-Mild i _ (λ c. (refl, omega arith)) s)
]

pub on_conn_shutdown-Mild : (i : ℕ) → IsMild (on_conn_shutdown i)
unfolding on_conn_shutdown
on_conn_shutdown-Mild i s = change-Mild i _ (λ c. (refl, omega arith)) s

on_close_of-Mild : (cs : List Conn) → IsMild (on_close_of cs)
unfolding on_close_of
on_close_of-Mild (c ∷ cs) s = Mild-refl s
on_close_of-Mild [] s = elim (Bool-cases s.end_server_callback) [
  | inl x ↦
      subst (λ (t : Server). Mild s (record t { handle = null })) (sym (if-true _ _ x))
        (Mild-refl s)
  | inr x ↦ elim (Bool-cases s.removal_scheduled) [
    | inl y ↦
        subst (λ (t : Server). Mild s (record t { handle = null }))
          (sym (if-false _ _ x ∙ if-true _ _ y)) (Mild-refl s)
    | inr y ↦
        subst (λ (t : Server). Mild s (record t { handle = null }))
          (sym (if-false _ _ x ∙ if-false _ _ y)) (Mild-refl s)
  ]
]

pub on_close-Mild : IsMild on_close
unfolding on_close
on_close-Mild s = on_close_of-Mild s.conns s

-- A client that reports for the first and last time.
pub report-IsOnce :
    (i : ℕ) (c : StatusCode) (s : Server)
    → reports i s.log + live i s.conns ≡ 0
    → i < s.next
    → IsOnce s
    → IsOnce (logs (called_closed i c) s)
report-IsOnce i c s z l h = (once, unborn)
  where
    once : (j : ℕ) → reports j (called_closed i c ∷ s.log) + live j s.conns ≤ 1
    once j = elim (Bool-cases (j == i)) [
      | inl x ↦
          let e : j ≡ i = ground arith in
          let q = if-true {A = ℕ} 1 0 x in
          subst (λ k. (if j == i then 1 else 0) + reports k s.log + live k s.conns ≤ 1) (sym e)
            (omega (arith, q, z))
      | inr x ↦ let q = if-false {A = ℕ} 1 0 x in omega (arith, q, h.0 j)
    ]

    unborn : (j : ℕ) → s.next ≤ j → reports j (called_closed i c ∷ s.log) + live j s.conns ≡ 0
    unborn j p =
        let x : (j == i) ≡ false = ground (arith, p, l) in
        let q = if-false {A = ℕ} 1 0 x in omega (arith, q, h.1 j p)

module _ (calls : Server → Server) (k : IsMild calls) where
  pub call_if-Mild : (b : Bool) (e : Event) → IsPlain e → IsMild (call_if b e calls)
  call_if-Mild true e q s =
      Mild-trans s (logs e s) (calls (logs e s)) ((λ i. q i s.log), (λ i. omega arith), refl)
        (k (logs e s))
  call_if-Mild false e q s = Mild-refl s

  pub call_or_throw-Mild : (b : Bool) (e : Event) → IsPlain e → IsMild (call_or_throw b e calls)
  call_or_throw-Mild true e q s = call_if-Mild true e q s
  call_or_throw-Mild false e q s = Mild-refl s

  pub on_end-Mild : IsMild (on_end calls)
  unfolding on_end
  on_end-Mild s = call_if-Mild true (called_end ok) (λ i es. refl) s

  pub on_not_connected-Mild : IsMild (on_not_connected calls)
  unfolding on_not_connected
  on_not_connected-Mild s = call_or_throw-Mild s.end_server_callback _ (λ i es. refl) s

  on_conn_data_of-Mild : (o : Option Conn) (i n : ℕ) → IsMild (on_conn_data_of calls o i n)
  unfolding on_conn_data_of
  on_conn_data_of-Mild none i n s = Mild-refl s
  on_conn_data_of-Mild (some c) i n s =
      let t =
        call_if (not (n == 0) && c.receive_callback) (called_received i c.data_offset n) calls s in
      Mild-trans s t (change i (advance calls n) t)
        (call_if-Mild (not (n == 0) && c.receive_callback) (called_received i c.data_offset n)
          (λ j es. refl) s)
        (change-Mild i (advance calls n) (λ d. (refl, omega arith)) t)

  pub on_conn_data-Mild : (i n : ℕ) → IsMild (on_conn_data calls i n)
  unfolding on_conn_data
  on_conn_data-Mild i n s = on_conn_data_of-Mild (lookup i s.conns) i n s
