-- ===== src/EventLoop/Work.antt =====
-- `add_work`, `cancel_work`, `on_work` and `on_after_work` of source/io/EventLoop.cpp: the life of one
-- work item, as the steps of the loop's thread, of the thread of libuv's pool that takes it and of
-- the thread that cancels it. What libuv's `uv_cancel` makes of the item is a parameter.
pub mod Life
use mathlib.Core.Path.{subst}
use tarm_io.Prelude.{
  arith, length-append, Bool-cases, if-true, if-false, ℕ, suc, ◌≡◌, refl, sym, ap, ◌∙◌, Bool, true,
  false, List, [], ◌∷◌, ◌++◌, if◌then◌else◌, length, inl, inr,
}
use tarm_io.StatusCode.{StatusCode, ok, operation_canceled}

-- Where the item is: its scheduled callback was not called; it was called and has found the item not
-- cancelled, but has not given it to libuv; libuv has it; a thread took it;
-- `on_work` returned; `uv_cancel` succeeded; it was deleted.
pub data Stage : Type 0 where
  created queueing in_pool taken worked withdrawn deleted : Stage

-- `done` holds the calls of the done callback, and `works` counts those of the work callback.
-- `posts` counts the callbacks that `on_work` gave to the loop's thread and that refer to the item, `posted`
-- those of them that were not called yet; `dangling` is that one was called when the item was deleted.
pub record Work : Type 0 where
  pub cancelled : Bool
  pub queued : Bool
  pub stage : Stage
  pub works : ℕ
  pub done : List StatusCode
  pub posts : ℕ
  pub posted : ℕ
  pub dangling : Bool

-- `add_work` with a callback.
abbrev pub add_work : Work
add_work = record {
  cancelled = false;
  queued = false;
  stage = created;
  works = 0;
  done = [];
  posts = 0;
  posted = 0;
  dangling = false;
}

abbrev pub finish : Work → StatusCode → Work
finish w status = record w { stage = deleted; done = w.done ++ status ∷ [] }

-- The callback that `add_work` schedules, in three steps, between which another thread may cancel; `status`
-- is what `uv_queue_work` returns.
unfoldable pub test_cancelled : Work → Work
test_cancelled w =
    if w.cancelled then finish w operation_canceled else record w { stage = queueing }

unfoldable pub set_queued : Work → Work
set_queued w = record w { queued = true }

unfoldable pub queue_work : Work → Bool → StatusCode → Work
queue_work w accepted status = if accepted then record w { stage = in_pool } else finish w status

-- `cancel_work` sets the flag, and then tests `queued`, which is never set back, so that the test can be
-- taken together with the call of `uv_cancel`, which is what libuv makes of the item, where it is.
unfoldable pub set_cancelled : Work → Work
set_cancelled w = record w { cancelled = true }

unfoldable pub cancel_queued : (Stage → Stage) → Work → Work
cancel_queued uv_cancel w = record w { stage = if w.queued then uv_cancel w.stage else w.stage }

unfoldable pub cancel_work : (Stage → Stage) → Work → Work
cancel_work uv_cancel w = cancel_queued uv_cancel (set_cancelled w)

unfoldable pub on_work : Work → Work
on_work w =
    if w.cancelled
    then record w { stage = worked; posts = suc w.posts; posted = suc w.posted }
    else record w { stage = worked; works = suc w.works }

pub on_after_work : Work → StatusCode → Work
on_after_work w status = finish w status

abbrev pub is_deleted : Stage → Bool
is_deleted created = false
is_deleted queueing = false
is_deleted in_pool = false
is_deleted taken = false
is_deleted worked = false
is_deleted withdrawn = false
is_deleted deleted = true

-- The callback that `on_work` gives to the loop's thread.
pub call_posted : Work → ℕ → Work
call_posted w n = record w {
  done = w.done ++ operation_canceled ∷ [];
  posted = n;
  dangling = if is_deleted w.stage then true else w.dangling;
}
