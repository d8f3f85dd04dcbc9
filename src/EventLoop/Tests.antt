-- ===== src/EventLoop/Tests.antt =====
-- The loop's parts at concrete inputs.
use tarm_io.Prelude.{
  ℕ, zero, suc, ◌≡◌, refl, true, false, List, [], ◌∷◌, ◌++◌, length, ◌⊎◌, ◌≤◌, ◌+◌, arith,
}
use tarm_io.StatusCode.{ok, operation_canceled}
use tarm_io.EventLoop.Callbacks as Callbacks
use tarm_io.EventLoop.Callbacks.{on_idle, schedule_callback, steps, schedule, cycle}
use tarm_io.EventLoop.Callbacks.Order.{steps_ran}
use tarm_io.EventLoop.Posted as Posted
use tarm_io.EventLoop.Posted.{Steps-posted, execute_pending_callbacks, end_copy}
use tarm_io.EventLoop.Block as Block
use tarm_io.EventLoop.Block.{calls_timer, calls}
use tarm_io.EventLoop.Work.{
  in_pool, Stage, created, queueing, test_cancelled, set_queued, worked, withdrawn, Work, add_work,
  queue_work, on_work, on_after_work, cancel_work, call_posted, taken, deleted,
}
use tarm_io.EventLoop.Work.Life.{IsUvCancel, Steps, Steps-done, cancel_taken, completions}
use tarm_io.EventLoop.Work.Life as Works

-- The callback `suc n` schedules `n`.
abbrev previous : ℕ → List ℕ
previous zero = []
previous (suc n) = n ∷ []

abbrev two_steps : List (Callbacks.Step ℕ)
two_steps = schedule 2 ∷ schedule 7 ∷ cycle ∷ []

run_two_steps : (steps previous Callbacks.init two_steps).ran ≡ 2 ∷ 7 ∷ []
unfolding Callbacks.steps Callbacks.step Callbacks.on_idle Callbacks.executor_function
    Callbacks.call_all Callbacks.stop_if_empty Callbacks.schedule_callback
run_two_steps = refl

abbrev waiting : Callbacks.Callbacks ℕ
waiting = record {
  queue = 2 ∷ [];
  have_active = true;
  executor = true;
  ran = [];
  scheduled = 2 ∷ [];
}

steps_ran_example :
    let s = steps previous Callbacks.init two_steps in
    (s.ran ++ s.queue ≡ s.scheduled) × ((s.executor ≡ true) ⊎ (s.queue ≡ []))
steps_ran_example = steps_ran previous two_steps

abbrev posted_two : Posted.Posted ℕ
posted_two = record {
  pending = 5 ∷ [];
  copy = [];
  ran = 4 ∷ [];
  posted = 4 ∷ 5 ∷ [];
  unsent = 0;
  sent = true;
}

posts : Posted.Steps Posted.init posted_two
unfolding Posted.push_back Posted.async_send Posted.swap_queue Posted.call_next
posts = Posted.go _ _ _ (Posted.post Posted.init 4) (
    Posted.go _ _ _ (Posted.send _ (omega arith)) (
      Posted.go _ _ _ (Posted.swap _ refl refl) (
        Posted.go _ _ _ (Posted.post _ 5) (
          Posted.go _ _ _ (Posted.call _ 4 [] refl)
            (Posted.go _ _ _ (Posted.send _ (omega arith)) (Posted.stop _))))))

Steps-posted_example :
    (posted_two.ran ++ (posted_two.copy ++ posted_two.pending) ≡ posted_two.posted)
    × ((1 ≤ posted_two.unsent)
        ⊎ ((execute_pending_callbacks (end_copy posted_two)).ran ≡ posted_two.posted))
Steps-posted_example = Steps-posted posted_two posts

abbrev two_starts : List Block.Call
two_starts = Block.start ∷ Block.start ∷ Block.stop ∷ []

abbrev finished : Work
finished =
    on_after_work
      (on_work
        (record (queue_work (set_queued (test_cancelled add_work)) true ok) { stage = taken }))
      ok

abbrev uv_cancel : Stage → Stage
uv_cancel created = created
uv_cancel queueing = queueing
uv_cancel in_pool = withdrawn
uv_cancel taken = taken
uv_cancel worked = worked
uv_cancel withdrawn = withdrawn
uv_cancel deleted = deleted

uv_cancel-IsUvCancel : IsUvCancel uv_cancel
uv_cancel-IsUvCancel = (refl, refl, refl, refl)

finishes : Steps uv_cancel add_work finished
unfolding test_cancelled set_queued queue_work on_work
finishes = Works.go _ _ _ (Works.test add_work refl) (
    Works.go _ _ _ (Works.store _ refl) (
      Works.go _ _ _ (Works.queue _ true ok refl) (
        Works.go _ _ _ (Works.take _ refl) (
          Works.go _ _ _ (Works.work _ refl)
            (Works.go _ _ _ (Works.after_work _ refl) (Works.stop _))))))

Steps-done_example :
    (length finished.done + finished.posted ≡ completions finished.stage + finished.posts)
    × (finished.works + finished.posts ≤ 1)
    × ((finished.posts ≡ 0) ⊎ (finished.cancelled ≡ true))
Steps-done_example = Steps-done uv_cancel uv_cancel-IsUvCancel finished finishes

abbrev taken_work : Work
taken_work = record add_work { queued = true; stage = taken }

cancel_taken_example :
    let v = on_work (cancel_work uv_cancel taken_work) in
    let late = call_posted (on_after_work v ok) 0 in
    let early = on_after_work (call_posted v 0) ok in
    ((cancel_work uv_cancel taken_work).stage ≡ taken)
    × (v.posted ≡ 1)
    × (late.done ≡ ok ∷ operation_canceled ∷ [])
    × (late.dangling ≡ true)
    × (early.done ≡ operation_canceled ∷ ok ∷ [])
    × (early.dangling ≡ false)
cancel_taken_example = cancel_taken uv_cancel uv_cancel-IsUvCancel taken_work refl refl
