-- ===== src/Backlog/Tests.antt =====
-- The backlog at concrete items: an item is its time.
use tarm_io.Prelude.{ℕ, ◌≡◌, refl, arith, Bool, true, [], ◌∷◌, ◌==◌}
use tarm_io.Backlog.{
  Backlog, returned, timer_list, bucket_index_from_time, round, at_item, on_timer_loop, on_timer,
  remove_item,
}
use tarm_io.Backlog.Rounds.{leaves, Totals, on_timer-Totals}

abbrev time_of : ℕ → ℕ
time_of n = n

abbrev always : ℕ → Bool
always n = true

timers_1000 : timer_list 1000 1000 ≡ 1000 ∷ 500 ∷ 250 ∷ 125 ∷ 62 ∷ 31 ∷ 15 ∷ 7 ∷ 3 ∷ []
unfolding timer_list
timers_1000 = refl

-- Three items wait in the first bucket; the second one is old.
abbrev filled : Backlog ℕ
filled = record {
  entity_timeout = 10000000;
  timers = 10 ∷ 5 ∷ 2 ∷ [];
  items = (9000000 ∷ 1 ∷ 9500000 ∷ []) ∷ [] ∷ [] ∷ [];
}

abbrev clock : ℕ → ℕ
clock i = 10000001

expire_one :
    on_timer time_of leaves clock 0 filled
    ≡ returned (record filled { items = (9000000 ∷ 9500000 ∷ []) ∷ [] ∷ [] ∷ [] }) (1 ∷ [])
unfolding on_timer on_timer_loop at_item round bucket_index_from_time
expire_one = refl

on_timer-Totals_example : Totals always (on_timer time_of leaves clock 0 filled) 3
on_timer-Totals_example =
    on_timer-Totals time_of always clock 0 filled (refl, omega arith) (omega arith)

-- A callback that removes the item that was kept before: the item comes back and the last one is lost.
abbrev removes_first : Backlog ℕ → ℕ → Backlog ℕ
removes_first s t = (remove_item s (λ n. n == 9000000)).0

lose_one :
    on_timer time_of removes_first clock 0 filled
    ≡ returned (record filled { items = (9000000 ∷ []) ∷ [] ∷ [] ∷ [] }) (1 ∷ [])
unfolding on_timer on_timer_loop at_item round bucket_index_from_time remove_item
lose_one = refl
