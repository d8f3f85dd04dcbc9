-- ===== src/EventLoop/Block.antt =====
-- `start_block_loop_from_exit` and `stop_block_loop_from_exit` of source/io/EventLoop.cpp. The counter
-- is a number that the source keeps in 64 bits with a sign; it stays within 2^63 calls of 0.
use mathlib.Core.Path.{subst}
use tarm_io.Prelude.{
  lt→ltb, le→ltb, ℕ, zero, suc, ◌+◌, ◌<◌, ◌≡◌, refl, sym, ap, ◌∙◌, arith, Bool, true, false,
  Bool-cases, List, [], ◌∷◌, ℤ, pos, negsuc, is_equal, if◌then◌else◌, if-true, if-false, ltb, ◌⊎◌,
  inl, inr,
}

-- `timer` is whether `m_dummy_idle` is there. `opened` and `closed` count the timers that were started
-- and closed; `fault` is that a null pointer was used.
pub record Block : Type 0 where
  pub ref_counter : ℤ
  pub timer : Bool
  pub opened : ℕ
  pub closed : ℕ
  pub fault : Bool

abbrev pub init : Block
init = record { ref_counter = pos 0; timer = false; opened = 0; closed = 0; fault = false }

abbrev pub inc : ℤ → ℤ
inc (pos n) = pos (suc n)
inc (negsuc zero) = pos 0
inc (negsuc (suc n)) = negsuc n

abbrev pub dec : ℤ → ℤ
dec (pos zero) = negsuc 0
dec (pos (suc n)) = pos n
dec (negsuc n) = negsuc (suc n)

pub start_block_loop_from_exit : Block → Block
start_block_loop_from_exit s =
    if is_equal s.ref_counter (pos 0)
    then record s { ref_counter = inc s.ref_counter; timer = true; opened = suc s.opened }
    else record s { ref_counter = inc s.ref_counter }

pub stop_block_loop_from_exit : Block → Block
stop_block_loop_from_exit s =
    if is_equal (dec s.ref_counter) (pos 0)
    then record s {
      ref_counter = dec s.ref_counter;
      timer = false;
      closed = suc s.closed;
      fault = if s.timer then s.fault else true;
    }
    else record s { ref_counter = dec s.ref_counter }

pub data Call : Type 0 where
  start stop : Call

pub calls : Block → List Call → Block
calls s [] = s
calls s (start ∷ cs) = calls (start_block_loop_from_exit s) cs
calls s (stop ∷ cs) = calls (stop_block_loop_from_exit s) cs

abbrev pub starts : List Call → ℕ
starts [] = 0
starts (start ∷ cs) = suc (starts cs)
starts (stop ∷ cs) = starts cs

abbrev pub stops : List Call → ℕ
stops [] = 0
stops (start ∷ cs) = stops cs
stops (stop ∷ cs) = suc (stops cs)

-- The difference of two numbers.
abbrev pub minus : ℕ → ℕ → ℤ
minus a zero = pos a
minus zero (suc b) = negsuc b
minus (suc a) (suc b) = minus a b

inc-minus : (a b : ℕ) → inc (minus a b) ≡ minus (suc a) b
inc-minus a zero = refl
inc-minus zero (suc zero) = refl
inc-minus zero (suc (suc b)) = refl
inc-minus (suc a) (suc b) = inc-minus a b

dec-minus : (a b : ℕ) → dec (minus a b) ≡ minus a (suc b)
dec-minus zero zero = refl
dec-minus (suc a) zero = refl
dec-minus zero (suc b) = refl
dec-minus (suc a) (suc b) = dec-minus a b

minus_zero : (a b : ℕ) → is_equal (minus a b) (pos 0) ≡ true → a ≡ b
minus_zero zero zero h = refl
minus_zero (suc a) zero h = ground arith
minus_zero zero (suc b) h = ground arith
minus_zero (suc a) (suc b) h = ap suc (minus_zero a b h)

zero_minus : (a b : ℕ) → is_equal (minus a b) (pos 0) ≡ false → (a < b) ⊎ (b < a)
zero_minus zero zero h = ground arith
zero_minus (suc a) zero h = inr (omega arith)
zero_minus zero (suc b) h = inl (omega arith)
zero_minus (suc a) (suc b) h = elim (zero_minus a b h) [
  | inl l ↦ inl (omega arith)
  | inr l ↦ inr (omega arith)
]

abbrev pub open_timers : Bool → ℕ
open_timers true = 1
open_timers false = 0

-- After `a` starts and `b` stops.
abbrev IsValid : ℕ → ℕ → Block → Type 0
IsValid a b s =
    (s.ref_counter ≡ minus a b)
    × (s.timer ≡ ltb b a)
    × (s.opened ≡ s.closed + open_timers s.timer)
    × (s.fault ≡ false)

is_zero :
    (s : Block) (a b : ℕ)
    → s.ref_counter ≡ minus a b
    → is_equal s.ref_counter (pos 0) ≡ is_equal (minus a b) (pos 0)
is_zero s a b e = ap (λ c. is_equal c (pos 0)) e

is_one :
    (s : Block) (a b : ℕ)
    → s.ref_counter ≡ minus a b
    → is_equal (dec s.ref_counter) (pos 0) ≡ is_equal (minus a (suc b)) (pos 0)
is_one s a b e = ap (λ c. is_equal (dec c) (pos 0)) e ∙ ap (λ c. is_equal c (pos 0)) (dec-minus a b)

start-IsValid :
    (a b : ℕ) (s : Block) → IsValid a b s → IsValid (suc a) b (start_block_loop_from_exit s)
unfolding start_block_loop_from_exit
start-IsValid a b s (counter, timer, balance, safe) =
    elim (Bool-cases (is_equal s.ref_counter (pos 0))) [
      | inl e ↦
          let same : a ≡ b = minus_zero a b (sym (is_zero s a b counter) ∙ e) in
          let idle : s.timer ≡ false = timer ∙ le→ltb b a (omega arith) in
          let none_open : open_timers s.timer ≡ 0 = ap open_timers idle in
          subst (IsValid (suc a) b) (sym (if-true _ _ e)) (
            ap inc counter ∙ inc-minus a b,
            sym (lt→ltb b (suc a) (omega arith)),
            omega arith,
            safe,
          )
      | inr e ↦
          let apart = zero_minus a b (sym (is_zero s a b counter) ∙ e) in
          let later : ltb b a ≡ ltb b (suc a) = ground arith in
          subst (IsValid (suc a) b) (sym (if-false _ _ e))
            (ap inc counter ∙ inc-minus a b, timer ∙ later, balance, safe)
    ]

stop-IsValid :
    (a b : ℕ) (s : Block) → IsValid a b s → IsValid a (suc b) (stop_block_loop_from_exit s)
unfolding stop_block_loop_from_exit
stop-IsValid a b s (counter, timer, balance, safe) =
    elim (Bool-cases (is_equal (dec s.ref_counter) (pos 0))) [
      | inl e ↦
          let same : a ≡ suc b = minus_zero a (suc b) (sym (is_one s a b counter) ∙ e) in
          let there : s.timer ≡ true = timer ∙ lt→ltb b a (omega arith) in
          let one_open : open_timers s.timer ≡ 1 = ap open_timers there in
          subst (IsValid a (suc b)) (sym (if-true _ _ e)) (
            ap dec counter ∙ dec-minus a b,
            sym (le→ltb (suc b) a (omega arith)),
            omega arith,
            if-true _ _ there ∙ safe,
          )
      | inr e ↦
          let apart = zero_minus a (suc b) (sym (is_one s a b counter) ∙ e) in
          let later : ltb b a ≡ ltb (suc b) a = ground arith in
          subst (IsValid a (suc b)) (sym (if-false _ _ e))
            (ap dec counter ∙ dec-minus a b, timer ∙ later, balance, safe)
    ]

calls-IsValid :
    (a b : ℕ) (s : Block) (cs : List Call)
    → IsValid a b s
    → IsValid (starts cs + a) (stops cs + b) (calls s cs)
unfolding calls
calls-IsValid a b s [] h =
    let ea : a ≡ 0 + a = omega arith in
    let eb : b ≡ 0 + b = omega arith in
    subst (λ n. IsValid n (0 + b) s) ea (subst (λ n. IsValid a n s) eb h)
calls-IsValid a b s (start ∷ cs) h =
    let more : starts cs + suc a ≡ suc (starts cs) + a = omega arith in
    subst (λ n. IsValid n (stops cs + b) (calls (start_block_loop_from_exit s) cs)) more
      (calls-IsValid (suc a) b (start_block_loop_from_exit s) cs (start-IsValid a b s h))
calls-IsValid a b s (stop ∷ cs) h =
    let more : stops cs + suc b ≡ suc (stops cs) + b = omega arith in
    subst (λ n. IsValid (starts cs + a) n (calls (stop_block_loop_from_exit s) cs)) more
      (calls-IsValid a (suc b) (stop_block_loop_from_exit s) cs (stop-IsValid a b s h))

-- After any calls, balanced or not and in any order: the timer that keeps the loop alive runs just
-- when there were more starts than stops, every timer but that one was closed, and no null pointer
-- was used.
pub calls_timer :
    (cs : List Call)
    → let s = calls init cs in
      (s.timer ≡ ltb (stops cs) (starts cs))
      × (s.opened ≡ s.closed + open_timers s.timer)
      × (s.fault ≡ false)
calls_timer cs =
    let (counter, timer, balance, safe) = calls-IsValid 0 0 init cs (refl, refl, refl, refl) in
    let same : ltb (stops cs + 0) (starts cs + 0) ≡ ltb (stops cs) (starts cs) = ground arith in
    (timer ∙ same, balance, safe)
