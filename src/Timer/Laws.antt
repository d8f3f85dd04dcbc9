-- ===== src/Timer/Laws.antt =====
-- The calls that a timer makes, source/io/Timer.cpp.
use mathlib.Core.Path.{subst}
use tarm_io.Prelude.{
  ℕ, zero, suc, ◌≡◌, refl, sym, ap, ◌∙◌, true, false, Option, none, some, List, [], ◌∷◌, if-true,
  if-false, if◌then◌else◌, Bool-cases, inl, inr, map,
}
use tarm_io.Timer.{Timer, start_next, start_impl, start, is_nil, call_callback, on_timer}

abbrev next_delay : Option (ℕ × ℕ) → Option ℕ → List (ℕ × Option ℕ) → List (ℕ × Option ℕ)
next_delay none c rest = []
next_delay (some (t, r)) c rest = (t, c) ∷ rest

abbrev pub undisturbed : ℕ → Timer → Timer
undisturbed c s = s

-- What libuv documents: a timer without a repeat is over, and one with a repeat waits for it again.
abbrev pub IsUvTimer : (Option (ℕ × ℕ) → Option (ℕ × ℕ)) → Type 0
IsUvTimer rearm =
    ((t : ℕ) → rearm (some (t, 0)) ≡ none)
    × ((t r : ℕ) → rearm (some (t, suc r)) ≡ some (suc r, suc r))

module _ (rearm : Option (ℕ × ℕ) → Option (ℕ × ℕ)) where
  -- The times between the ends of libuv's timer, up to `n` of them, of a timer that its callback leaves
  -- alone, each with the callback that is called then.
  pub delays : ℕ → Timer → List (ℕ × Option ℕ)
  delays zero s = []
  delays (suc n) s =
      (let next = on_timer rearm undisturbed s in next_delay s.due next.called (delays n next))

-- `n` times the repeat, which is no call at all if it is 0.
abbrev pub repeats : ℕ → ℕ → List ℕ
repeats zero r = []
repeats (suc n) zero = []
repeats (suc n) (suc r) = suc r ∷ repeats n (suc r)

-- The first `n` of the timeouts, and then of the repeats.
abbrev pub planned : ℕ → List ℕ → ℕ → List ℕ
planned zero ts r = []
planned (suc n) [] r = repeats (suc n) r
planned (suc n) (t ∷ ts) r = t ∷ planned n ts r

abbrev last_repeat : List ℕ → ℕ → ℕ
last_repeat [] r = r
last_repeat (u ∷ us) r = 0

-- The timer waits for `t`, and `ts` are left.
abbrev Waits : ℕ → List ℕ → ℕ → Option ℕ → Timer → Type 0
Waits t ts r c s =
    (s.due ≡ some (t, last_repeat ts r))
    × (s.timeouts_ms ≡ ts)
    × (s.repeat_ms ≡ r)
    × (s.callback ≡ c)

abbrev Idles : Timer → Type 0
Idles s = (s.due ≡ none) × (s.timeouts_ms ≡ [])

abbrev pub with_callback : Option ℕ → ℕ → ℕ × Option ℕ
with_callback c t = (t, c)

start_next-Waits :
    (t : ℕ) (ts : List ℕ) (s : Timer) → Waits t ts s.repeat_ms s.callback (start_next (t ∷ ts) s)
start_next-Waits t [] s = (refl, refl, refl, refl)
start_next-Waits t (u ∷ us) s = (refl, refl, refl, refl)

planned-nil : (n r : ℕ) → planned n [] r ≡ repeats n r
planned-nil zero r = refl
planned-nil (suc n) r = refl

repeats-zero : (n : ℕ) → repeats n 0 ≡ []
repeats-zero zero = refl
repeats-zero (suc n) = refl

called_undisturbed :
    (c : Option ℕ) (s : Timer) → call_callback c undisturbed s ≡ record s { called = c }
called_undisturbed none s = refl
called_undisturbed (some c) s = refl

module _ (rearm : Option (ℕ × ℕ) → Option (ℕ × ℕ)) where
  abbrev counted : Timer → Timer
  counted s = record s {
    due = rearm s.due;
    state_was_reset = false;
    called = s.callback;
    call_counter = suc s.call_counter;
  }

  on_timer-undisturbed :
      (s : Timer)
      → on_timer rearm undisturbed s
        ≡ (if is_nil s.timeouts_ms then counted s else start_next s.timeouts_ms (counted s))
  unfolding on_timer start_impl
  on_timer-undisturbed s =
      ap
        (λ (t : Timer).
          if t.state_was_reset
          then t
          else let n : Timer = record t { call_counter = suc t.call_counter } in
            if is_nil n.timeouts_ms then n else start_next n.timeouts_ms n)
        (called_undisturbed s.callback (record s { due = rearm s.due; state_was_reset = false }))

  start_next-called : (ts : List ℕ) (s : Timer) → (start_next ts s).called ≡ s.called
  start_next-called [] s = refl
  start_next-called (t ∷ []) s = refl
  start_next-called (t ∷ u ∷ us) s = refl

  on_timer-called : (s : Timer) → (on_timer rearm undisturbed s).called ≡ s.callback
  on_timer-called s =
      ap (λ (t : Timer). t.called) (on_timer-undisturbed s)
      ∙ elim (Bool-cases (is_nil s.timeouts_ms)) [
        | inl x ↦ ap (λ (t : Timer). t.called) (if-true _ _ x)
        | inr x ↦
            ap (λ (t : Timer). t.called) (if-false _ _ x)
            ∙ start_next-called s.timeouts_ms (counted s)
      ]

  -- `on_timer` when timeouts are left, and when none is.
  on_timer_next :
      (u : ℕ) (us : List ℕ) (r : ℕ) (c : Option ℕ) (s : Timer)
      → s.timeouts_ms ≡ u ∷ us
      → s.repeat_ms ≡ r
      → s.callback ≡ c
      → Waits u us r c (on_timer rearm undisturbed s)
  on_timer_next u us r c s e q k =
      subst (Waits u us r c) (sym (on_timer-undisturbed s ∙ if-false _ _ (ap is_nil e))) (
        subst (λ l. Waits u us r c (start_next l (counted s))) (sym e)
          (subst (λ x. Waits u us x c (start_next (u ∷ us) (counted s))) q
            (subst (λ x. Waits u us s.repeat_ms x (start_next (u ∷ us) (counted s))) k
              (start_next-Waits u us (counted s)))))

  on_timer_last : (s : Timer) → s.timeouts_ms ≡ [] → on_timer rearm undisturbed s ≡ counted s
  on_timer_last s e = on_timer-undisturbed s ∙ if-true _ _ (ap is_nil e)

  delays_idle : (n : ℕ) (s : Timer) → s.due ≡ none → delays rearm n s ≡ []
  unfolding delays
  delays_idle zero s e = refl
  delays_idle (suc n) s e =
      let next = on_timer rearm undisturbed s in
      ap (λ d. next_delay d next.called (delays rearm n next)) e

  -- One end of a timer that waits for `t`.
  delays_once :
      (n t r : ℕ) (c : Option ℕ) (s : Timer) (rest : List ℕ)
      → s.due ≡ some (t, r)
      → s.callback ≡ c
      → delays rearm n (on_timer rearm undisturbed s) ≡ map (with_callback c) rest
      → delays rearm (suc n) s ≡ map (with_callback c) (t ∷ rest)
  unfolding delays
  delays_once n t r c s rest e k h =
      let next = on_timer rearm undisturbed s in
      ap (λ d. next_delay d next.called (delays rearm n next)) e
      ∙ ap (λ x. (t, x) ∷ delays rearm n next) (on_timer-called s ∙ k)
      ∙ ap (λ l. (t, c) ∷ l) h

module _ (rearm : Option (ℕ × ℕ) → Option (ℕ × ℕ)) (uv : IsUvTimer rearm) where
  delays_repeat :
      (n r : ℕ) (c : Option ℕ) (s : Timer)
      → s.due ≡ some (suc r, suc r)
      → s.timeouts_ms ≡ []
      → s.callback ≡ c
      → delays rearm n s ≡ map (with_callback c) (repeats n (suc r))
  delays_repeat zero r c s e q k = unfold delays in refl
  delays_repeat (suc n) r c s e q k =
      let last = on_timer_last rearm s q in
      delays_once rearm n (suc r) (suc r) c s (repeats n (suc r)) e k (
        ap (delays rearm n) last
        ∙ delays_repeat n r c (counted rearm s) (ap rearm e ∙ uv.1 (suc r) r) q k)

  -- After the last timeout.
  delays_after :
      (n t r : ℕ) (c : Option ℕ) (s : Timer)
      → s.due ≡ rearm (some (t, r))
      → s.timeouts_ms ≡ []
      → s.callback ≡ c
      → delays rearm n s ≡ map (with_callback c) (planned n [] r)
  delays_after n t zero c s e q k =
      delays_idle rearm n s (e ∙ uv.0 t)
      ∙ ap (map (with_callback c)) (sym (planned-nil n 0 ∙ repeats-zero n))
  delays_after n t (suc r) c s e q k =
      delays_repeat n r c s (e ∙ uv.1 t r) q k
      ∙ ap (map (with_callback c)) (sym (planned-nil n (suc r)))

  delays-Waits :
      (n t : ℕ) (ts : List ℕ) (r : ℕ) (c : Option ℕ) (s : Timer)
      → Waits t ts r c s
      → delays rearm n s ≡ map (with_callback c) (planned n (t ∷ ts) r)
  delays-Waits zero t ts r c s h = unfold delays in refl
  delays-Waits (suc n) t [] r c s (e, q, k, b) = delays_once rearm n t r c s (planned n [] r) e b (
      ap (delays rearm n) (on_timer_last rearm s q)
      ∙ delays_after n t r c (counted rearm s) (ap rearm e) q b)
  delays-Waits (suc n) t (u ∷ us) r c s (e, q, k, b) =
      delays_once rearm n t 0 c s (planned n (u ∷ us) r) e b (
        delays-Waits n u us r c (on_timer rearm undisturbed s)
          (on_timer_next rearm u us r c s q k b))

  -- A timer that is started with a list of timeouts ends after each of them in turn, counted from the end
  -- before, and then each time the repeat is over, or no more if the repeat is 0. At each
  -- end it calls the callback that it was started with, or nothing if that is null. This holds whatever
  -- state the timer was in, as long as the callback leaves it alone and libuv repeats its timer as documented.
  pub delays-start :
      (n : ℕ) (t : ℕ) (ts : List ℕ) (r : ℕ) (callback : Option ℕ) (s : Timer)
      → delays rearm n (start s (t ∷ ts) r callback)
        ≡ map (with_callback callback) (planned n (t ∷ ts) r)
  unfolding start start_impl
  delays-start n t ts r callback s = delays-Waits n t ts r callback (start s (t ∷ ts) r callback) (
      start_next-Waits t ts (record s {
        call_counter = 0;
        state_was_reset = true;
        timeouts_ms = t ∷ ts;
        repeat_ms = r;
        callback = callback;
      }))
