-- ===== src/Backlog/Timers.antt =====
-- The timers of source/io/BacklogWithTimeout.h.
use tarm_io.Prelude.{
  ℕ, zero, suc, ◌+◌, ◌/◌, ◌≤◌, ◌<◌, ◌≡◌, refl, sym, ap, arith, leb, arith, Bool-cases, List, [],
  ◌∷◌, length, ltb, ltb→lt, ltb→le, if-true, if-false, inl, inr,
}
use mathlib.Core.Path.{subst}
use tarm_io.Backlog.{
  init, timer_list, empty_buckets, bucket_index_from_time, search, found_or, last, nanoseconds,
  sub_u64,
}

-- Each timer is half of the one before it and more than 1, and half of the last one is not.
abbrev pub IsHalving : List ℕ → Type 0
IsHalving [] = ⊥
IsHalving (t ∷ []) = t / 2 ≤ 1
IsHalving (t ∷ u ∷ us) = (u ≡ t / 2) × (1 < u) × IsHalving (u ∷ us)

timer_list-first : (fuel timeout : ℕ) → (ts : List ℕ) × (timer_list fuel timeout ≡ timeout ∷ ts)
unfolding timer_list
timer_list-first zero timeout = ([], refl)
timer_list-first (suc fuel) timeout = elim (Bool-cases (ltb 1 (timeout / 2))) [
  | inl h ↦ (timer_list fuel (timeout / 2), if-true _ _ h)
  | inr h ↦ ([], if-false _ _ h)
]

IsHalving-cons :
    (t : ℕ) (us : List ℕ) (vs : List ℕ)
    → us ≡ (t / 2) ∷ vs
    → 1 < t / 2
    → IsHalving us
    → IsHalving (t ∷ us)
IsHalving-cons t us vs e h hs =
    subst (λ l. IsHalving (t ∷ l)) (sym e) (refl, h, subst IsHalving e hs)

timer_list-IsHalving : (fuel timeout : ℕ) → timeout ≤ fuel → IsHalving (timer_list fuel timeout)
unfolding timer_list
timer_list-IsHalving zero timeout h = omega arith
timer_list-IsHalving (suc fuel) timeout h = elim (Bool-cases (ltb 1 (timeout / 2))) [
  | inl e ↦
      let first = timer_list-first fuel (timeout / 2) in
      let ih = timer_list-IsHalving fuel (timeout / 2) (omega (arith, ltb→lt 1 (timeout / 2) e)) in
      subst IsHalving (sym (if-true _ _ e)) (
        IsHalving-cons timeout (timer_list fuel (timeout / 2)) first.0 first.1
          (ltb→lt 1 (timeout / 2) e) ih)
  | inr e ↦ subst IsHalving (sym (if-false _ _ e)) (ltb→le 1 (timeout / 2) e)
]

length-empty_buckets : (T : Type 0) (ts : List ℕ) → length (empty_buckets {T = T} ts) ≡ length ts
length-empty_buckets T [] = refl
length-empty_buckets T (t ∷ ts) = ap suc (length-empty_buckets T ts)

-- The constructor's loop ends: a new backlog has a timer of the timeout itself, then timers that are
-- each half of the one before and more than 1, down to one whose half is not more than 1; and as
-- many buckets as timers.
pub init-IsHalving :
    (T : Type 0) (timeout : ℕ)
    → IsHalving (init {T = T} timeout).timers
      × (length (init {T = T} timeout).items ≡ length (init {T = T} timeout).timers)
      × ((ts : List ℕ) × ((init {T = T} timeout).timers ≡ timeout ∷ ts))
unfolding init
init-IsHalving T timeout = (
  timer_list-IsHalving timeout timeout (omega arith),
  length-empty_buckets T (timer_list timeout timeout),
  timer_list-first timeout timeout,
)

search_bounds :
    (i time : ℕ) (ts : List ℕ) (d : ℕ)
    → d < i + length ts
    → found_or (search i time ts) d < i + length ts
search_bounds i time [] d h = h
search_bounds i time (t ∷ ts) d h =
    let ih = search_bounds (suc i) time ts d (omega arith) in
    elim (Bool-cases (leb (nanoseconds t) time)) [
      | inl e ↦ rw e (omega arith)
      | inr e ↦ rw e (omega arith)
    ]

-- The bucket that an item is put into is one of the backlog's, whatever the time and the timers.
pub bucket_index_from_time_bounds :
    (timers : List ℕ) (time : ℕ)
    → 0 < length timers
    → bucket_index_from_time timers time < length timers
unfolding bucket_index_from_time
bucket_index_from_time_bounds [] time h = h
bucket_index_from_time_bounds (t ∷ ts) time h =
    let found = search_bounds 1 time ts (length ts) (omega arith) in
    elim (Bool-cases (leb (sub_u64 t (time / 1000000)) (last t ts))) [
      | inl e ↦ rw e (omega arith)
      | inr e ↦ rw e (omega arith)
    ]
