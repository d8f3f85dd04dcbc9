-- ===== src/EventLoop/Callbacks.antt =====
-- `schedule_callback` and the executor of source/io/EventLoop.cpp. A callback is what it schedules in
-- its turn when it is called: `spawns` is a parameter. libuv's `uv_idle_init` and `uv_idle_start` are
-- documented to succeed here, so that the executor's handle is there once it is scheduled.
pub mod Order
use mathlib.Core.Bool.{false≢true}
use mathlib.Core.Path.{subst}
use mathlib.Core.List.{append-nil, append_assoc}
use tarm_io.Prelude.{
  ◌≡◌, refl, sym, ap, ◌∙◌, Bool, true, false, Bool-cases, if-true, if-false, List, [], ◌∷◌, ◌++◌,
  if◌then◌else◌, inl, inr, ◌⊎◌,
}

-- `executor` is whether the idle handle runs. `ran` holds the callbacks that were called, and
-- `scheduled` the calls of `schedule_callback`, oldest first.
pub record Callbacks (C : Type 0) : Type 0 where
  pub queue : List C
  pub have_active : Bool
  pub executor : Bool
  pub ran : List C
  pub scheduled : List C

abbrev pub is_empty : {C : Type 0} → List C → Bool
is_empty [] = true
is_empty (c ∷ cs) = false

module _ {C : Type 0} where
  abbrev pub init : Callbacks C
  init = record { queue = []; have_active = false; executor = false; ran = []; scheduled = [] }

  unfoldable pub schedule_callback : Callbacks C → C → Callbacks C
  schedule_callback s c = record {
    queue = s.queue ++ c ∷ [];
    have_active = true;
    executor = if s.have_active then s.executor else true;
    ran = s.ran;
    scheduled = s.scheduled ++ c ∷ [];
  }

  abbrev pub schedule_all : Callbacks C → List C → Callbacks C
  schedule_all s [] = s
  schedule_all s (c ∷ cs) = schedule_all (schedule_callback s c) cs

  unfoldable pub stop_if_empty : Callbacks C → Callbacks C
  stop_if_empty s =
      if is_empty s.queue then record s { executor = false; have_active = false } else s

module _ {C : Type 0} (spawns : C → List C) where
  -- The callbacks of the copy of the queue, one after the other.
  unfoldable pub call_all : Callbacks C → List C → Callbacks C
  call_all s [] = s
  call_all s (c ∷ cs) = call_all (schedule_all (record s { ran = s.ran ++ c ∷ [] }) (spawns c)) cs

  unfoldable pub executor_function : Callbacks C → Callbacks C
  executor_function s = stop_if_empty (call_all (record s { queue = [] }) s.queue)

  -- `on_idle`, on each cycle of the loop.
  unfoldable pub on_idle : Callbacks C → Callbacks C
  on_idle s = if s.executor then executor_function s else s

pub data Step (C : Type 0) : Type 0 where
  schedule : C → Step C
  cycle : Step C

module _ {C : Type 0} (spawns : C → List C) where
  unfoldable pub step : Callbacks C → Step C → Callbacks C
  step s (schedule c) = schedule_callback s c
  step s cycle = on_idle spawns s

  unfoldable pub steps : Callbacks C → List (Step C) → Callbacks C
  steps s [] = s
  steps s (x ∷ xs) = steps (step s x) xs
