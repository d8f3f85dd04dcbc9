-- ===== src/Timer.antt =====
-- source/io/Timer.cpp, `Timer::Impl`. libuv's timer calls `on_timer` when its time is over; what
-- becomes of it then is a parameter, and starting it again replaces its time and its repeat.
pub mod Laws
mod Tests
use tarm_io.Prelude.{
  ℕ, zero, suc, ◌+◌, ◌*◌, ◌≡◌, Bool, true, false, Option, none, some, List, [], ◌∷◌, ◌++◌, ◌==◌,
  if◌then◌else◌,
}

-- `due` is the time until the next call and the repeat of libuv's timer, if it is started. A callback
-- is a number; none is the source's null. `called` is the callback that the last `on_timer` has called.
pub record Timer : Type 0 where
  pub callback : Option ℕ
  pub called : Option ℕ
  pub timeouts_ms : List ℕ
  pub current_timeout_ms : ℕ
  pub repeat_ms : ℕ
  pub call_counter : ℕ
  pub state_was_reset : Bool
  pub due : Option (ℕ × ℕ)

abbrev pub init : Timer
init = record {
  callback = none;
  called = none;
  timeouts_ms = [];
  current_timeout_ms = 0;
  repeat_ms = 0;
  call_counter = 0;
  state_was_reset = false;
  due = none;
}

-- Called only if there are timeouts.
abbrev pub start_next : List ℕ → Timer → Timer
start_next [] s = s
start_next (t ∷ []) s = record s {
  due = some (t, s.repeat_ms);
  current_timeout_ms = t;
  timeouts_ms = [];
}
start_next (t ∷ u ∷ us) s = record s {
  due = some (t, 0);
  current_timeout_ms = t;
  timeouts_ms = u ∷ us;
}

pub start_impl : Timer → Timer
start_impl s = start_next s.timeouts_ms s

abbrev pub start_with : List ℕ → ℕ → Option ℕ → Timer → Timer
start_with [] repeat callback s = s
start_with (t ∷ ts) repeat callback s = start_impl (record s {
  state_was_reset = true;
  timeouts_ms = t ∷ ts;
  repeat_ms = repeat;
  callback = callback;
})

pub start : Timer → List ℕ → ℕ → Option ℕ → Timer
start s timeouts repeat callback =
    start_with timeouts repeat callback (record s { call_counter = 0 })

pub stop : Timer → Timer
stop s = record s { due = none }

abbrev pub is_nil : List ℕ → Bool
is_nil [] = true
is_nil (t ∷ ts) = false

abbrev pub call_callback : Option ℕ → (ℕ → Timer → Timer) → Timer → Timer
call_callback none calls s = record s { called = none }
call_callback (some c) calls s = calls c (record s { called = some c })

-- `rearm` is what libuv does to its timer before it calls, and `calls` what a callback of the user does
-- to this one.
pub on_timer : (Option (ℕ × ℕ) → Option (ℕ × ℕ)) → (ℕ → Timer → Timer) → Timer → Timer
on_timer rearm calls s =
    let s' : Timer = record s { due = rearm s.due; state_was_reset = false } in
    let t : Timer = call_callback s.callback calls s' in
    if t.state_was_reset
    then t
    else let counted : Timer = record t { call_counter = suc t.call_counter } in
      if is_nil counted.timeouts_ms then counted else start_impl counted
