-- ===== src/Tls/Quiet.antt =====
-- What is counted in the log of source/io/net/detail/OpenSslClientImplBase.h, and what the calls of the
-- user leave alone.
use mathlib.Core.Path.{subst}
use mathlib.Core.Bool.{false≢true}
use tarm_io.Prelude.{
  length, ap, none, ℕ, suc, ◌+◌, ◌≤◌, ◌≡◌, refl, sym, inl, inr, true, false, List, [], ◌∷◌, arith,
  Bool-cases, if-true, if-false, ◌==◌,
}
use tarm_io.Tls.{
  HandshakeState, no_handshake, in_progress, finishing, finished, is_finishing, is_finished, Event,
  called_handshake_complete, called_ssl_read, Client, read_from_ssl_and_send,
}

abbrev pub completes : List Event → ℕ
completes [] = 0
completes (called_handshake_complete ∷ es) = suc (completes es)
completes (e ∷ es) = completes es

abbrev pub received : List Event → ℕ
received [] = 0
received (called_ssl_read b n o ∷ es) = received es + n
received (e ∷ es) = received es

-- Each read follows the end of the handshake and starts where the one before it has ended.
abbrev pub IsOrdered : List Event → Type 0
IsOrdered [] = Unit
IsOrdered (called_ssl_read b n o ∷ es) = (o ≡ received es) × (1 ≤ completes es) × IsOrdered es
IsOrdered (e ∷ es) = IsOrdered es

abbrev pub remaining : HandshakeState → ℕ
remaining no_handshake = 1
remaining in_progress = 1
remaining finishing = 0
remaining finished = 0

abbrev done : HandshakeState → ℕ
done no_handshake = 0
done in_progress = 0
done finishing = 0
done finished = 1

abbrev Bound : HandshakeState → ℕ → ℕ → Type 0
Bound h c f = ((c + f) + remaining h ≤ 1) × (done h ≤ c)

abbrev pub IsSound : Client → Type 0
IsSound s =
    Bound s.handshake_state (completes s.log) (length s.finishes)
    × (s.data_offset ≡ received s.log)
    × IsOrdered s.log

-- What the user may do to the client in a callback.
abbrev pub Quiet : Client → Client → Type 0
Quiet s t =
    (t.handshake_state ≡ s.handshake_state)
    × (t.finishes ≡ s.finishes)
    × (t.data_offset ≡ s.data_offset)
    × (completes t.log ≡ completes s.log)
    × (received t.log ≡ received s.log)
    × (IsOrdered s.log → IsOrdered t.log)

abbrev pub IsQuiet : (Client → Client) → Type 0
IsQuiet calls = (s : Client) → Quiet s (calls s)

Bound-same :
    (h h' : HandshakeState) (c c' f f' : ℕ)
    → h' ≡ h
    → f' ≡ f
    → c' ≡ c
    → Bound h c f
    → Bound h' c' f'
Bound-same h h' c c' f f' x y z b =
    subst (λ i. Bound i c' f') (sym x) (omega (arith, y, z, b.0), omega (arith, z, b.1))

pub Quiet-Bound :
    (s t : Client)
    → Quiet s t
    → Bound s.handshake_state (completes s.log) (length s.finishes)
    → Bound t.handshake_state (completes t.log) (length t.finishes)
Quiet-Bound s t q b = Bound-same _ _ _ _ _ _ q.0 (ap length q.1) q.3 b

pub Quiet-IsSound : (s t : Client) → Quiet s t → IsSound s → IsSound t
Quiet-IsSound s t q h = (Quiet-Bound s t q h.0, omega (arith, q.2, q.4, h.1), q.5 h.2)

abbrev pub IsLate : Client → Type 0
IsLate s = 1 ≤ completes s.log

pub remaining-new :
    (h : HandshakeState) → is_finished h ≡ false → is_finishing h ≡ false → remaining h ≡ 1
remaining-new no_handshake x y = refl
remaining-new in_progress x y = refl
remaining-new finishing x y = absurd (false≢true (sym y))
remaining-new finished x y = absurd (false≢true (sym x))

pub done-finished : (h : HandshakeState) → is_finished h ≡ true → done h ≡ 1
done-finished no_handshake x = absurd (false≢true x)
done-finished in_progress x = absurd (false≢true x)
done-finished finishing x = absurd (false≢true x)
done-finished finished x = refl

pub read_from_ssl_and_send-IsSound :
    (n : ℕ) (s : Client) → IsSound s → IsSound (read_from_ssl_and_send none n s)
unfolding read_from_ssl_and_send
read_from_ssl_and_send-IsSound n s h = elim (Bool-cases (n == 0)) [
  | inl x ↦ subst IsSound (sym (if-true _ _ x)) h
  | inr x ↦ subst IsSound (sym (if-false _ _ x)) h
]
