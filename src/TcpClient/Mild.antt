-- ===== src/TcpClient/Mild.antt =====
-- How often source/io/net/TcpClient.cpp calls the close callback of a connection, and what the calls of
-- the user may change of it.
use mathlib.Core.Path.{subst}
use tarm_io.Prelude.{
  ℕ, suc, ◌+◌, ◌≤◌, ◌≡◌, refl, sym, ap, ◌∙◌, inl, inr, Bool, true, false, not, Option, List, [],
  ◌∷◌, arith, Bool-cases, if-true, if-false,
}
use tarm_io.TcpClient.{
  Client, Event, called_close, posts_connect, asks_connect, logs, end_stream, connect, shutdown,
  close, close_with_reset, remove_if_ready, schedule_removal, remove_if,
}

-- The calls of the close callback since the client last asked for a connection.
abbrev pub close_calls : List Event → ℕ
close_calls [] = 0
close_calls (called_close c ∷ es) = suc (close_calls es)
close_calls (asks_connect e ∷ es) = 0
close_calls (e ∷ es) = close_calls es

abbrev pub bit : Bool → ℕ
bit true = 1
bit false = 0

-- The handles whose close calls the callback.
abbrev pub handles : Client → ℕ
handles s = bit s.stream + s.closing

-- What a call of the user, and all that does not call the close callback, may change.
abbrev pub Mild : Client → Client → Type 0
Mild s t =
    (t.close_callback ≡ s.close_callback)
    × (handles t ≤ handles s)
    × (close_calls t.log ≡ close_calls s.log)

abbrev pub IsMild : (Client → Client) → Type 0
IsMild calls = (s : Client) → Mild s (calls s)

abbrev pub Budget : Bool → ℕ → ℕ → Type 0
Budget true c h = c + h ≤ 1
Budget false c h = c ≤ 1

abbrev pub IsOnce : Client → Type 0
IsOnce s = Budget s.close_callback (close_calls s.log) (handles s)

pub Mild-trans : (s t u : Client) → Mild s t → Mild t u → Mild s u
Mild-trans s t u x y = (y.0 ∙ x.0, omega (arith, x.1, y.1), y.2 ∙ x.2)

Budget-le : (b : Bool) (c h h' : ℕ) → h' ≤ h → Budget b c h → Budget b c h'
Budget-le true c h h' e x = omega (arith, e, x)
Budget-le false c h h' e x = x

pub Mild-IsOnce : (s t : Client) → Mild s t → IsOnce s → IsOnce t
Mild-IsOnce s t m h =
    subst (λ b. Budget b (close_calls t.log) (handles t)) (sym m.0)
      (subst (λ c. Budget s.close_callback c (handles t)) (sym m.2)
        (Budget-le s.close_callback (close_calls s.log) (handles s) (handles t) m.1 h))

pub IsOnce-le : (s : Client) → IsOnce s → close_calls s.log ≤ 1
IsOnce-le s h = le_of s.close_callback h
  where
    le_of : (b : Bool) → Budget b (close_calls s.log) (handles s) → close_calls s.log ≤ 1
    le_of true x = omega (arith, x)
    le_of false x = x

pub end_stream-Mild : (s : Client) → s.stream ≡ true → Mild s (end_stream s)
end_stream-Mild s e = (refl, (let b : bit s.stream ≡ 1 = ap bit e in omega (arith, b)), refl)

pub connect-Mild : (e : Option ℕ) → IsMild (connect e)
unfolding connect
connect-Mild e s = elim (Bool-cases s.stream) [
  | inl x ↦
      subst (λ t. Mild s (logs (posts_connect e) t)) (sym (if-true _ _ x)) (refl, omega arith, refl)
  | inr x ↦
      subst (λ t. Mild s (logs (posts_connect e) t)) (sym (if-false _ _ x))
        (refl, omega arith, refl)
]

pub shutdown-Mild : IsMild shutdown
unfolding shutdown
shutdown-Mild s = elim (Bool-cases (not s.is_open)) [
  | inl x ↦ subst (Mild s) (sym (if-true _ _ x)) (refl, omega arith, refl)
  | inr x ↦ subst (Mild s) (sym (if-false _ _ x)) (refl, omega arith, refl)
]

pub close-Mild : (s : Client) → Mild s (close s).0
unfolding close
close-Mild s = elim (Bool-cases s.stream) [
  | inl x ↦
      subst (λ (r : Client × Bool). Mild s r.0) (sym (if-true _ _ x))
        (end_stream-Mild (record s { is_open = false }) x)
  | inr x ↦
      subst (λ (r : Client × Bool). Mild s r.0) (sym (if-false _ _ x)) (refl, omega arith, refl)
]

pub close_with_reset-Mild : IsMild close_with_reset
unfolding close_with_reset
close_with_reset-Mild s = elim (Bool-cases s.stream) [
  | inl x ↦ subst (Mild s) (sym (if-true _ _ x)) (end_stream-Mild (record s { is_open = false }) x)
  | inr x ↦ subst (Mild s) (sym (if-false _ _ x)) (refl, omega arith, refl)
]

remove_if_ready-Mild :
    (s t : Client) (ready : Bool) → Mild s t → Mild s (remove_if_ready (t, ready))
remove_if_ready-Mild s t true m = m
remove_if_ready-Mild s t false m = m

pub schedule_removal-Mild : IsMild schedule_removal
unfolding schedule_removal
schedule_removal-Mild s =
    let s' : Client = record s { want_delete_object = true } in
    remove_if_ready-Mild s (close s').0 (close s').1 (close-Mild s')

pub remove_if-Mild : (calls : Client → Client) (b : Bool) → IsMild (remove_if calls b)
remove_if-Mild calls true s = schedule_removal-Mild s
remove_if-Mild calls false s = (refl, omega arith, refl)
