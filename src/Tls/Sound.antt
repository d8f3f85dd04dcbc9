-- ===== src/Tls/Sound.antt =====
-- What every call of source/io/net/detail/OpenSslClientImplBase.h keeps: the handshake is over at most
-- once, and what is read afterwards comes in order.
use mathlib.Core.Path.{subst}
use tarm_io.Prelude.{
  length, length-append, ap, refl, List, [], ◌∷◌, ◌%◌, ◌&&◌, not, ℕ, suc, ◌+◌, ◌≡◌, sym, ◌∙◌, inl,
  inr, Bool, true, false, arith, Bool-cases, if-true, if-false, ◌==◌, ℤ, pos, negsuc, is_negative,
}
use tarm_io.StatusCode.{StatusCode}
use tarm_io.Tls.{
  finish_sent, called_alert, ssl_state_callback, finished, is_finishing, is_finished,
  called_handshake_complete, called_handshake_failed, called_ssl_read, called_ssl_read_failed,
  called_end_send, on_sent, Client, logs, Reads, decrypts, wants_more, read_fails, Outcome,
  wants_read, wants_write, succeeds, errs, shuts_down, is_positive, after_read,
  read_from_ssl_and_send, read_from_ssl, fail_handshake, finish_handshake, finish_and_read,
  after_handshake, do_handshake, on_handshake_sent, on_finish_sent, on_data_receive,
}
use tarm_io.Tls.Quiet.{
  completes, remaining, IsSound, Quiet, IsQuiet, Quiet-Bound, Quiet-IsSound, IsLate, remaining-new,
  done-finished, read_from_ssl_and_send-IsSound,
}

module _ (calls : Client → Client) (quiet : IsQuiet calls) where
  fail_handshake-IsSound :
      (code : ℤ) (s : Client) → IsSound s → IsSound (fail_handshake calls code s)
  unfolding fail_handshake
  fail_handshake-IsSound code s h =
      let pre : Client = logs (called_handshake_failed code) s in
      Quiet-IsSound pre (calls pre) (quiet pre) h

  finish_handshake-IsSound :
      (s : Client)
      → completes s.log + length s.finishes ≡ 0
      → IsSound s
      → IsSound (finish_handshake calls s) × IsLate (finish_handshake calls s)
  unfolding finish_handshake
  finish_handshake-IsSound s z h =
      let pre : Client = logs called_handshake_complete (record s { handshake_state = finished }) in
      (
        Quiet-IsSound pre (calls pre) (quiet pre) ((omega (arith, z), omega arith), h.1, h.2),
        omega (arith, (quiet pre).3),
      )

  after_read-IsSound :
      (n : ℕ) (c : Bool) (s : Client)
      → IsLate s
      → IsSound s
      → (let t : Client =
            after_read c
              (suc n)
              (calls (logs (called_ssl_read s.decrypt_buf (suc n) s.data_offset) s)) in
          IsLate t × IsSound t)
  unfolding after_read
  after_read-IsSound n c s l h =
      let pre : Client = logs (called_ssl_read s.decrypt_buf (suc n) s.data_offset) s in
      let q : Quiet pre (calls pre) = quiet pre in
      (
        omega (arith, q.3, l),
        (Quiet-Bound pre (calls pre) q h.0, omega (arith, q.2, q.4, h.1), q.5 (h.1, l, h.2)),
      )

  pub read_from_ssl-IsSound :
      (r : Reads) (s : Client) → IsLate s → IsSound s → IsSound (read_from_ssl calls r s)
  unfolding read_from_ssl
  read_from_ssl-IsSound (decrypts n c r) s l h =
      let p = after_read-IsSound n c s l h in read_from_ssl-IsSound r _ p.0 p.1
  read_from_ssl-IsSound wants_more s l h = h
  read_from_ssl-IsSound read_fails s l h =
      let pre : Client = logs called_ssl_read_failed s in
      Quiet-IsSound pre (calls pre) (quiet pre) h

  finish_and_read-IsSound :
      (b : Bool) (r : Reads) (s : Client)
      → completes s.log + length s.finishes ≡ 0
      → IsSound s
      → IsSound (finish_and_read calls b r s)
  unfolding finish_and_read
  finish_and_read-IsSound true r s z h =
      let p = finish_handshake-IsSound s z h in
      read_from_ssl-IsSound r (finish_handshake calls s) p.1 p.0
  finish_and_read-IsSound false r s z h = (finish_handshake-IsSound s z h).0

  after_handshake-IsSound :
      (o : Outcome) (w : ℕ) (b : Bool) (r : Reads) (s : Client)
      → remaining s.handshake_state ≡ 1
      → IsSound s
      → IsSound (after_handshake calls o w b r s)
  unfolding after_handshake read_from_ssl_and_send
  after_handshake-IsSound wants_read w b r s m h = elim (Bool-cases (w == 0)) [
    | inl x ↦ subst IsSound (sym (if-true _ _ x)) (fail_handshake-IsSound (negsuc 0) s h)
    | inr x ↦ subst IsSound (sym (if-false _ _ x)) (read_from_ssl_and_send-IsSound w s h)
  ]
  after_handshake-IsSound wants_write w b r s m h = h
  after_handshake-IsSound (errs code) w b r s m h = elim (Bool-cases (w == 0)) [
    | inl x ↦ fail_handshake-IsSound (pos code) _ (subst IsSound (sym (if-true _ _ x)) h)
    | inr x ↦
        fail_handshake-IsSound (pos code) _
          (subst IsSound (sym (if-false _ _ x)) (read_from_ssl_and_send-IsSound w s h))
  ]
  after_handshake-IsSound succeeds w b r s m h = elim (Bool-cases (w == 0)) [
    | inl x ↦
        subst IsSound (sym (if-true _ _ x))
          (finish_and_read-IsSound b r s (omega (arith, m, h.0)) h)
    | inr x ↦
        subst IsSound (sym (if-false _ _ x ∙ if-false _ _ x))
          ((omega (arith, m, h.0, length-append s.finishes (b ∷ [])), omega arith), h.1, h.2)
  ]
  after_handshake-IsSound (shuts_down code) w b r s m h = fail_handshake-IsSound (pos code) s h

  pub do_handshake-IsSound :
      (o : Outcome) (w : ℕ) (b : Bool) (r : Reads) (s : Client)
      → is_finished s.handshake_state ≡ false
      → IsSound s
      → IsSound (do_handshake calls o w b r s)
  unfolding do_handshake
  do_handshake-IsSound o w b r s e h = elim (Bool-cases (is_finishing s.handshake_state)) [
    | inl x ↦ subst IsSound (sym (if-true _ _ x)) h
    | inr x ↦
        subst IsSound (sym (if-false _ _ x))
          (after_handshake-IsSound o w b r s (remaining-new s.handshake_state e x) h)
  ]

  pub on_handshake_sent-IsSound :
      (error : Bool) (s : Client) → IsSound s → IsSound (on_handshake_sent calls error s)
  unfolding on_handshake_sent
  on_handshake_sent-IsSound true s h = fail_handshake-IsSound (negsuc 0) s h
  on_handshake_sent-IsSound false s h = h

  pub on_sent-IsSound :
      (callback : Bool) (c : StatusCode) (s : Client)
      → IsSound s
      → IsSound (on_sent calls callback c s)
  unfolding on_sent
  on_sent-IsSound true c s h =
      let pre : Client = logs (called_end_send c) s in Quiet-IsSound pre (calls pre) (quiet pre) h
  on_sent-IsSound false c s h = h

  pub ssl_state_callback-IsSound :
      (is_alert sent : Bool) (ret : ℕ) (s : Client)
      → IsSound s
      → IsSound (ssl_state_callback calls is_alert sent ret s)
  unfolding ssl_state_callback
  ssl_state_callback-IsSound is_alert sent ret s h =
      let pre : Client = logs (called_alert (ret % 256)) s in
      elim (Bool-cases (is_alert && not sent)) [
        | inl x ↦ subst IsSound (sym (if-true _ _ x)) (Quiet-IsSound pre (calls pre) (quiet pre) h)
        | inr x ↦ subst IsSound (sym (if-false _ _ x)) h
      ]

  finish_sent-IsSound :
      (error : Bool) (r : Reads) (bs : List Bool) (s : Client)
      → s.finishes ≡ bs
      → IsSound s
      → IsSound (finish_sent calls error r bs s)
  unfolding finish_sent
  finish_sent-IsSound error r [] s e h = h
  finish_sent-IsSound true r (b ∷ bs) s e h =
      let n : length s.finishes ≡ suc (length bs) = ap length e in
      fail_handshake-IsSound (negsuc 0) (record s { finishes = bs })
        ((omega (arith, h.0, n), h.0.1), h.1, h.2)
  finish_sent-IsSound false r (b ∷ bs) s e h =
      let n : length s.finishes ≡ suc (length bs) = ap length e in
      finish_and_read-IsSound b r (record s { finishes = bs }) (omega (arith, h.0, n))
        ((omega (arith, h.0, n), h.0.1), h.1, h.2)

  pub on_finish_sent-IsSound :
      (error : Bool) (r : Reads) (s : Client) → IsSound s → IsSound (on_finish_sent calls error r s)
  unfolding on_finish_sent
  on_finish_sent-IsSound error r s h = finish_sent-IsSound error r s.finishes s refl h

  pub on_data_receive-IsSound :
      (n : ℤ) (o : Outcome) (w : ℕ) (b : Bool) (r : Reads) (s : Client)
      → IsSound s
      → IsSound (on_data_receive calls n o w b r s)
  unfolding on_data_receive
  on_data_receive-IsSound n o w b r s h = elim (Bool-cases (is_finished s.handshake_state)) [
    | inl x ↦ subst IsSound (sym (if-true _ _ x)) (elim (Bool-cases (is_negative n)) [
      | inl y ↦ subst IsSound (sym (if-true _ _ y)) h
      | inr y ↦
          subst IsSound (sym (if-false _ _ y))
            (read_from_ssl-IsSound r s (omega (arith, done-finished s.handshake_state x, h.0)) h)
    ])
    | inr x ↦ subst IsSound (sym (if-false _ _ x)) (elim (Bool-cases (is_positive n)) [
      | inl y ↦ subst IsSound (sym (if-true _ _ y)) (do_handshake-IsSound o w b r s x h)
      | inr y ↦ subst IsSound (sym (if-false _ _ y)) (fail_handshake-IsSound (negsuc 0) s h)
    ])
  ]
