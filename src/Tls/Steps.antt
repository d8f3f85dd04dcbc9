-- ===== src/Tls/Steps.antt =====
-- Every run of source/io/net/detail/OpenSslClientImplBase.h: what the user does, also in a callback, and
-- what the TCP client reports, in any order.
use mathlib.Core.Path.{subst}
use tarm_io.Prelude.{
  ℕ, ◌≤◌, ◌≡◌, refl, sym, ap, ◌∙◌, inl, inr, Bool, true, false, not, ◌&&◌, Option, none, some,
  arith, Bool-cases, if-true, if-false, if◌then◌else◌, ◌==◌, ℤ,
}
use tarm_io.StatusCode.{StatusCode, not_connected, openssl_error}
use tarm_io.Tls.{
  ssl_shutdown, ssl_state_callback, read_from_ssl_and_send, no_handshake, Client, called_end_send,
  logs, init, is_open, Reads, Outcome, do_handshake, on_handshake_sent, on_sent, on_finish_sent,
  on_data_receive, send_data_impl, schedule_removal, is_finished,
}
use tarm_io.Tls.Quiet.{completes, received, IsOrdered, Quiet, IsQuiet, IsSound, Quiet-IsSound}
use tarm_io.Tls.Sound.{
  ssl_state_callback-IsSound, do_handshake-IsSound, on_handshake_sent-IsSound, on_sent-IsSound,
  on_finish_sent-IsSound, on_data_receive-IsSound,
}

-- What the user may do, also in a callback. The TCP client opens and closes.
pub data Calls : Client → Client → Type 0 where
  nothing : (s : Client) → Calls s s
  and_then : (s t u : Client) → Calls s t → Calls t u → Calls s u
  sends :
      (callback written : Bool) (n : ℕ) (s t : Client)
      → send_data_impl callback written n s ≡ some t
      → Calls s t
  removes : (s : Client) → Calls s (schedule_removal s).0
  shuts_down : (fails : Bool) (n : ℕ) (s : Client) → Calls s (ssl_shutdown fails n s).0
  turns : (b : Bool) (s : Client) → Calls s (record s { client_is_open = b })

-- The handshake starts once, and the send that finishes it ends once.
pub data Steps : Client → Client → Type 0 where
  does : (s t : Client) → Calls s t → Steps s t
  goes_on : (s t u : Client) → Steps s t → Steps t u → Steps s u
  starts :
      (calls : Client → Client)
      → ((x : Client) → Calls x (calls x))
      → (o : Outcome) (w : ℕ) (b : Bool) (r : Reads) (s : Client) → s.handshake_state ≡ no_handshake
      → Steps s (do_handshake calls o w b r s)
  receives :
      (calls : Client → Client)
      → ((x : Client) → Calls x (calls x))
      → (n : ℤ) (o : Outcome) (w : ℕ) (b : Bool) (r : Reads) (s : Client)
      → Steps s (on_data_receive calls n o w b r s)
  has_sent :
      (calls : Client → Client)
      → ((x : Client) → Calls x (calls x))
      → (error : Bool) (s : Client) → Steps s (on_handshake_sent calls error s)
  has_sent_data :
      (calls : Client → Client)
      → ((x : Client) → Calls x (calls x))
      → (callback : Bool) (c : StatusCode) (s : Client) → Steps s (on_sent calls callback c s)
  is_alerted :
      (calls : Client → Client)
      → ((x : Client) → Calls x (calls x))
      → (is_alert sent : Bool) (ret : ℕ) (s : Client)
      → Steps s (ssl_state_callback calls is_alert sent ret s)
  has_finished :
      (calls : Client → Client)
      → ((x : Client) → Calls x (calls x))
      → (error : Bool) (r : Reads) (s : Client) → Steps s (on_finish_sent calls error r s)

Quiet-refl : (s : Client) → Quiet s s
Quiet-refl s = (refl, refl, refl, refl, refl, λ h. h)

Quiet-trans : (s t u : Client) → Quiet s t → Quiet t u → Quiet s u
Quiet-trans s t u x y = (y.0 ∙ x.0, y.1 ∙ x.1, y.2 ∙ x.2, y.3 ∙ x.3, y.4 ∙ x.4, λ h. y.5 (x.5 h))

schedule_removal-Quiet : (s : Client) → Quiet s (schedule_removal s).0
unfolding schedule_removal
schedule_removal-Quiet s = elim (Bool-cases (s.has_client && not s.ready_schedule_removal)) [
  | inl x ↦
      subst (λ (p : Client × Bool). Quiet s p.0) (sym (if-true _ _ x))
        (refl, refl, refl, refl, refl, λ h. h)
  | inr x ↦ subst (λ (p : Client × Bool). Quiet s p.0) (sym (if-false _ _ x)) (Quiet-refl s)
]

ssl_shutdown-Quiet : (fails : Bool) (n : ℕ) (s : Client) → Quiet s (ssl_shutdown fails n s).0
unfolding ssl_shutdown read_from_ssl_and_send
ssl_shutdown-Quiet true n s = Quiet-refl s
ssl_shutdown-Quiet false n s = elim (Bool-cases (n == 0)) [
  | inl x ↦ subst (Quiet s) (sym (if-true _ _ x)) (Quiet-refl s)
  | inr x ↦
      subst (Quiet s) (sym (if-false _ _ x ∙ if-false _ _ x)) (refl, refl, refl, refl, refl, λ h. h)
]

-- What holds of a result, where there is one.
abbrev QuietResult : Client → Option Client → Type 0
QuietResult s none = Unit
QuietResult s (some t) = Quiet s t

answers-Quiet :
    (callback : Bool) (c : StatusCode) (s : Client)
    → Quiet s (if callback then logs (called_end_send c) s else s)
answers-Quiet true c s = (refl, refl, refl, refl, refl, λ h. h)
answers-Quiet false c s = Quiet-refl s

refused-Quiet :
    (callback : Bool) (s : Client)
    → QuietResult s (if callback then some (logs (called_end_send not_connected) s) else none)
refused-Quiet true s = answers-Quiet true not_connected s
refused-Quiet false s = tt

send_data_impl-QuietResult :
    (callback written : Bool) (n : ℕ) (s : Client)
    → QuietResult s (send_data_impl callback written n s)
unfolding send_data_impl
send_data_impl-QuietResult callback written n s = elim (Bool-cases (not (is_open s))) [
  | inl x ↦ subst (QuietResult s) (sym (if-true _ _ x)) (refused-Quiet callback s)
  | inr x ↦ subst (QuietResult s) (sym (if-false _ _ x)) (elim (Bool-cases (not written)) [
    | inl y ↦ subst (QuietResult s) (sym (if-true _ _ y)) (answers-Quiet callback openssl_error s)
    | inr y ↦ subst (QuietResult s) (sym (if-false _ _ y)) (elim (Bool-cases (n == 0)) [
      | inl z ↦ subst (QuietResult s) (sym (if-true _ _ z)) (answers-Quiet callback openssl_error s)
      | inr z ↦ subst (QuietResult s) (sym (if-false _ _ z)) (refl, refl, refl, refl, refl, λ h. h)
    ])
  ])
]

Calls-Quiet : (s t : Client) → Calls s t → Quiet s t
Calls-Quiet _ _ (nothing s) = Quiet-refl s
Calls-Quiet _ _ (and_then s t u x y) = Quiet-trans s t u (Calls-Quiet s t x) (Calls-Quiet t u y)
Calls-Quiet _ _ (sends callback written n s t e) =
    subst (QuietResult s) e (send_data_impl-QuietResult callback written n s)
Calls-Quiet _ _ (removes s) = schedule_removal-Quiet s
Calls-Quiet _ _ (shuts_down fails n s) = ssl_shutdown-Quiet fails n s
Calls-Quiet _ _ (turns b s) = (refl, refl, refl, refl, refl, λ h. h)

quiet : (calls : Client → Client) → ((x : Client) → Calls x (calls x)) → IsQuiet calls
quiet calls w x = Calls-Quiet x (calls x) (w x)

Steps-IsSound : (s t : Client) → Steps s t → IsSound s → IsSound t
Steps-IsSound _ _ (does s t c) h = Quiet-IsSound s t (Calls-Quiet s t c) h
Steps-IsSound _ _ (goes_on s t u x y) h = Steps-IsSound t u y (Steps-IsSound s t x h)
Steps-IsSound _ _ (starts calls q o w b r s e) h =
    do_handshake-IsSound calls (quiet calls q) o w b r s (ap is_finished e) h
Steps-IsSound _ _ (receives calls q n o w b r s) h =
    on_data_receive-IsSound calls (quiet calls q) n o w b r s h
Steps-IsSound _ _ (has_sent calls q error s) h =
    on_handshake_sent-IsSound calls (quiet calls q) error s h
Steps-IsSound _ _ (has_sent_data calls q callback c s) h =
    on_sent-IsSound calls (quiet calls q) callback c s h
Steps-IsSound _ _ (is_alerted calls q is_alert sent ret s) h =
    ssl_state_callback-IsSound calls (quiet calls q) is_alert sent ret s h
Steps-IsSound _ _ (has_finished calls q error r s) h =
    on_finish_sent-IsSound calls (quiet calls q) error r s h

-- Whatever the user and the callbacks do, whatever OpenSSL answers and in whatever order the TCP client
-- reports: the handshake is reported complete at most once, every read that is given follows that report
-- and starts where the read before it has ended, and the offset is the number of bytes given. The
-- handshake is started before anything is known of it, and the send that finishes it ends once.
pub Steps-reads :
    (s : Client)
    → Steps init s
    → (completes s.log ≤ 1) × (s.data_offset ≡ received s.log) × IsOrdered s.log
Steps-reads s xs =
    let h : IsSound s = Steps-IsSound init s xs ((omega arith, omega arith), refl, tt) in
    (omega (arith, h.0), h.1, h.2)
