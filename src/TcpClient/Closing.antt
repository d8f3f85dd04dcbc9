-- ===== src/TcpClient/Closing.antt =====
-- How often source/io/net/TcpClient.cpp calls the close callback of a connection.
use mathlib.Core.Path.{subst}
use mathlib.Core.Bool.{false≢true}
use mathlib.Core.Option.{some_inj}
use tarm_io.Prelude.{
  ◌⊎◌, ℕ, suc, ◌+◌, ◌-◌, ◌≤◌, ◌≡◌, refl, sym, ap, ◌∙◌, inl, inr, Bool, true, false, not, ◌&&◌,
  Option, none, some, List, ◌∷◌, arith, Bool-cases, if-true, if-false, ◌==◌,
}
use tarm_io.StatusCode.{StatusCode, ok, invalid_argument}
use tarm_io.TcpClient.{
  Client, Event, called_connect, called_close, called_receive, asks_connect, logs, call_if, is_ok,
  is_reset, end_stream, init_stream, connect_to, connect_impl, shutdown_ended, on_shutdown,
  report_read_error, close_reset, connected, on_connect, remove_if, on_close, on_data,
  on_read_failed, on_close_detached,
}
use tarm_io.TcpClient.Mild.{
  close_calls, bit, handles, Mild, IsMild, Budget, IsOnce, Mild-trans, Mild-IsOnce, IsOnce-le,
  end_stream-Mild, remove_if-Mild,
}

-- An event that is neither a call of the close callback nor a connection.
abbrev IsPlain : Event → Type 0
IsPlain e = (es : List Event) → close_calls (e ∷ es) ≡ close_calls es

module _ (calls : Client → Client) (k : IsMild calls) where
  call_if-Mild : (b : Bool) (e : Event) → IsPlain e → IsMild (call_if b e calls)
  call_if-Mild true e q s =
      Mild-trans s (logs e s) (calls (logs e s)) (refl, omega arith, q s.log) (k (logs e s))
  call_if-Mild false e q s = (refl, omega arith, refl)

  -- A call of the close callback, after which no handle is left that calls it again.
  call_close-IsOnce :
      (b : Bool) (c : StatusCode) (s : Client)
      → s.close_callback ≡ b
      → Budget b (close_calls s.log) (suc (handles s))
      → IsOnce (call_if b (called_close c) calls s)
  call_close-IsOnce true c s e h =
      Mild-IsOnce (logs (called_close c) s) (calls (logs (called_close c) s))
        (k (logs (called_close c) s))
        (subst (λ b. Budget b (suc (close_calls s.log)) (handles s)) (sym e) (omega (arith, h)))
  call_close-IsOnce false c s e h = subst (λ b. Budget b (close_calls s.log) (handles s)) (sym e) h

  pub on_close-IsOnce : (s : Client) → 1 ≤ s.closing → IsOnce s → IsOnce (on_close calls s)
  unfolding on_close
  on_close-IsOnce s p h =
      let s' : Client = record s { closing = s.closing - 1 } in
      let u : Client = call_if s.close_callback (called_close ok) calls s' in
      let q : suc (handles s') ≡ handles s = omega (arith, p) in
      let v : Client = record u { destination_endpoint = none } in
      Mild-IsOnce v (remove_if calls s.want_delete_object v)
        (remove_if-Mild calls s.want_delete_object v)
        (call_close-IsOnce s.close_callback ok s' refl
          (subst (Budget s.close_callback (close_calls s.log)) (sym q) h))

  pub on_data-IsOnce : (n : ℕ) (s : Client) → IsOnce s → IsOnce (on_data calls n s)
  unfolding on_data
  on_data-IsOnce n s h =
      let e = called_receive s.data_offset n in
      let b = not (n == 0) && s.receive_callback in
      Mild-IsOnce s (call_if b e calls s) (call_if-Mild b e (λ es. refl) s) h

  pub on_read_failed-IsOnce :
      (status socket_error : StatusCode) (s : Client)
      → s.stream ≡ true
      → IsOnce s
      → IsOnce (on_read_failed calls status socket_error s)
  unfolding on_read_failed report_read_error
  on_read_failed-IsOnce status socket_error s e h =
      let t : Client = record s { is_open = false; stream = false } in
      let q : suc (handles t) ≡ handles s =
        (let b : bit s.stream ≡ 1 = ap bit e in omega (arith, b)) in
      elim (Bool-cases s.close_callback) [
        | inl x ↦ subst IsOnce (sym (if-true _ _ x)) (
            call_close-IsOnce s.close_callback _ t refl
              (subst (Budget s.close_callback (close_calls s.log)) (sym q) h))
        | inr x ↦ subst IsOnce (sym (if-false _ _ x)) h
      ]

  -- The shutdown succeeds, and the stream is still there.
  pub on_shutdown-IsOnce :
      (status : StatusCode) (s t : Client)
      → is_ok status ≡ true
      → on_shutdown calls status s ≡ some t
      → IsOnce s
      → IsOnce t
  unfolding on_shutdown shutdown_ended
  on_shutdown-IsOnce status s t o e h =
      let quiet : (s.close_callback && not (is_ok status)) ≡ false =
        ap (λ x. s.close_callback && not x) o ∙ and_false s.close_callback in
      ended (Bool-cases s.stream) (
        sym (ap (λ x. shutdown_ended calls (record x { is_open = false })) (if-false _ _ quiet))
        ∙ e)
    where
      and_false : (b : Bool) → (b && false) ≡ false
      and_false true = refl
      and_false false = refl

      ended :
          (s.stream ≡ true) ⊎ (s.stream ≡ false)
          → shutdown_ended calls (record s { is_open = false }) ≡ some t
          → IsOnce t
      ended (inl x) q = subst IsOnce (some_inj.0 (sym (if-true _ _ x) ∙ q)) (
          Mild-IsOnce s (end_stream (record s { is_open = false }))
            (end_stream-Mild (record s { is_open = false }) x) h)
      ended (inr x) q = absurd (let c = sym (if-false _ _ x) ∙ q in cc)

  -- A reset comes while the client has its stream.
  close_reset-IsOnce :
      (status : StatusCode) (s t : Client)
      → s.stream ≡ true
      → Mild s t
      → IsOnce s
      → IsOnce (close_reset calls status t)
  unfolding close_reset
  close_reset-IsOnce status s t e m h = elim (Bool-cases t.close_callback) [
    | inr x ↦ subst IsOnce (sym (if-false _ _ x)) (Mild-IsOnce s t m h)
    | inl x ↦
        let b : bit s.stream ≡ 1 = ap bit e in
        let w : close_calls s.log + handles s ≤ 1 =
          subst (λ c. Budget c (close_calls s.log) (handles s)) (sym m.0 ∙ x) h in
        let told : Client = logs (called_close status) t in
        let z : close_calls (calls told).log ≤ 1 = omega (arith, b, w, m.2, (k told).2) in
        subst IsOnce (sym (if-true _ _ x)) z
  ]

  connected-IsOnce :
      (status : StatusCode) (s : Client)
      → (is_reset status ≡ false) ⊎ (s.stream ≡ true)
      → IsOnce s
      → IsOnce (connected calls status s)
  unfolding connected
  connected-IsOnce status s g h = elim (Bool-cases (is_reset status)) [
    | inl x ↦ subst IsOnce (sym (if-true _ _ x)) (
        close_reset-IsOnce status s _ (has_stream x g)
          (call_if-Mild s.connect_callback (called_connect ok) (λ es. refl) s) h)
    | inr x ↦ subst IsOnce (sym (if-false _ _ x)) (elim (Bool-cases (is_ok status)) [
      | inl y ↦ subst (λ t. IsOnce (told t)) (sym (if-true _ _ y)) (tell s h)
      | inr y ↦ subst (λ t. IsOnce (told t)) (sym (if-false _ _ y)) (tell forgotten (IsOnce-le s h))
    ])
  ]
    where
      has_stream :
          is_reset status ≡ true → (is_reset status ≡ false) ⊎ (s.stream ≡ true) → s.stream ≡ true
      has_stream x (inl y) = absurd (false≢true (sym y ∙ x))
      has_stream x (inr y) = y

      told : Client → Client
      told t = call_if s.connect_callback (called_connect status) calls t

      forgotten : Client
      forgotten = record s { receive_callback = false; close_callback = false }

      tell : (t : Client) → IsOnce t → IsOnce (told t)
      tell t v =
          Mild-IsOnce t (told t)
            (call_if-Mild s.connect_callback (called_connect status) (λ es. refl) t) v

  -- libuv starts to read.
  pub on_connect-IsOnce :
      (status read_status : StatusCode) (s : Client)
      → is_ok read_status ≡ true
      → (is_reset status ≡ false) ⊎ (s.stream ≡ true)
      → IsOnce s
      → IsOnce (on_connect calls status read_status s)
  unfolding on_connect
  on_connect-IsOnce status read_status s o g h =
      let t : Client = connected calls status (record s { is_open = is_ok status }) in
      subst IsOnce (sym (if-false _ _ (ap (λ x. t.is_open && not x) o ∙ and_false t.is_open)))
        (connected-IsOnce status (record s { is_open = is_ok status }) g h)
    where
      and_false : (b : Bool) → (b && false) ≡ false
      and_false true = refl
      and_false false = refl

  -- No handle has the client, and its stream can be made.
  pub connect_impl-IsOnce :
      (e : Option ℕ) (c r x : Bool) (init_status connect_status : StatusCode) (s : Client)
      → is_ok init_status ≡ true
      → s.closing ≡ 0
      → IsOnce s
      → IsOnce (connect_impl calls e c r x init_status connect_status s)
  unfolding connect_impl connect_to init_stream
  connect_impl-IsOnce none c r x init_status connect_status s o z h =
      let told : Client = call_if c (called_connect invalid_argument) calls s in
      Mild-IsOnce s told (call_if-Mild c (called_connect invalid_argument) (λ es. refl) s) h
  connect_impl-IsOnce (some e) c r x init_status connect_status s o z h =
      subst IsOnce (sym (if-false _ _ (ap not o))) (
        Mild-IsOnce asked (told asked)
          (call_if-Mild (not (is_ok connect_status) && c) (called_connect connect_status)
            (λ es. refl) asked)
          (fresh x))
    where
      told : Client → Client
      told t = call_if (not (is_ok connect_status) && c) (called_connect connect_status) calls t

      asked : Client
      asked = record s {
        destination_endpoint = some e;
        stream = true;
        connect_callback = c;
        receive_callback = r;
        close_callback = x;
        log = asks_connect (some e) ∷ s.log;
      }

      fresh : (b : Bool) → Budget b 0 (1 + s.closing)
      fresh true = omega (arith, z)
      fresh false = omega arith

pub on_close_detached-IsOnce : (s : Client) → IsOnce s → IsOnce (on_close_detached s)
unfolding on_close_detached
on_close_detached-IsOnce s h = h
