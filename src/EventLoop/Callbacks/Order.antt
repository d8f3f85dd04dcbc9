-- ===== src/EventLoop/Callbacks/Order.antt =====
-- Scheduled callbacks of source/io/EventLoop.cpp are called in order and once.
use mathlib.Core.Bool.{false≢true}
use mathlib.Core.Path.{subst}
use mathlib.Core.List.{append-nil, append_assoc}
use tarm_io.Prelude.{
  ◌≡◌, refl, sym, ap, ◌∙◌, true, false, Bool-cases, if-true, if-false, List, [], ◌∷◌, ◌++◌,
  if◌then◌else◌, inl, inr, ◌⊎◌,
}
use tarm_io.EventLoop.Callbacks.{
  Callbacks, is_empty, init, schedule_callback, schedule_all, stop_if_empty, call_all,
  executor_function, on_idle, Step, schedule, cycle, step, steps,
}

module _ {C : Type 0} where
  -- The callbacks `cs` are still to be called in this cycle.
  abbrev pub Conserves : Callbacks C → List C → Type 0
  Conserves s cs = s.ran ++ (cs ++ s.queue) ≡ s.scheduled

  -- The executor's handle runs as long as callbacks wait.
  abbrev pub IsDriven : Callbacks C → Type 0
  IsDriven s = (s.executor ≡ s.have_active) × ((s.have_active ≡ true) ⊎ (s.queue ≡ []))

  abbrev pub IsValid : Callbacks C → Type 0
  IsValid s = Conserves s [] × IsDriven s

  schedule_callback-Conserves :
      (s : Callbacks C) (c : C) (cs : List C)
      → Conserves s cs
      → Conserves (schedule_callback s c) cs
  unfolding schedule_callback
  schedule_callback-Conserves s c cs h =
      ap (λ q. s.ran ++ q) (sym (append_assoc cs s.queue (c ∷ [])))
      ∙ sym (append_assoc s.ran (cs ++ s.queue) (c ∷ []))
      ∙ ap (λ l. l ++ c ∷ []) h

  schedule_callback-IsDriven :
      (s : Callbacks C) (c : C) → IsDriven s → IsDriven (schedule_callback s c)
  unfolding schedule_callback
  schedule_callback-IsDriven s c h = elim (Bool-cases s.have_active) [
    | inl t ↦ rw t (h.0 ∙ t, inl refl)
    | inr f ↦ rw f (refl, inl refl)
  ]

  schedule_all-lem :
      (s : Callbacks C) (ds cs : List C)
      → Conserves s cs
      → s.have_active ≡ true
      → s.executor ≡ true
      → let s' = schedule_all s ds in
        Conserves s' cs × (s'.have_active ≡ true) × (s'.executor ≡ true) × (s'.ran ≡ s.ran)
  unfolding schedule_callback
  schedule_all-lem s [] cs h a e = (h, a, e, refl)
  schedule_all-lem s (d ∷ ds) cs h a e =
      let kept = schedule_callback-Conserves s d cs h in
      schedule_all-lem (schedule_callback s d) ds cs kept refl (rw a e)

module _ {C : Type 0} (spawns : C → List C) where
  call_all-lem :
      (s : Callbacks C) (cs : List C)
      → Conserves s cs
      → s.have_active ≡ true
      → s.executor ≡ true
      → let s' = call_all spawns s cs in
        Conserves s' [] × (s'.have_active ≡ true) × (s'.executor ≡ true) × (s'.ran ≡ s.ran ++ cs)
  unfolding call_all
  call_all-lem s [] h a e = (h, a, e, sym (append-nil s.ran))
  call_all-lem s (c ∷ cs) h a e =
      let s1 : Callbacks C = record s { ran = s.ran ++ c ∷ [] } in
      let called : Conserves s1 cs = append_assoc s.ran (c ∷ []) (cs ++ s.queue) ∙ h in
      let all = schedule_all-lem s1 (spawns c) cs called a e in
      let rest = call_all-lem (schedule_all s1 (spawns c)) cs all.0 all.1 all.2 in
      (rest.0, rest.1, rest.2, rest.3 ∙ ap (λ r. r ++ cs) all.3 ∙ append_assoc s.ran (c ∷ []) cs)

  stop_if_empty-lem :
      (s : Callbacks C)
      → Conserves s []
      → s.have_active ≡ true
      → s.executor ≡ true
      → IsValid (stop_if_empty s) × ((stop_if_empty s).ran ≡ s.ran)
  unfolding stop_if_empty
  stop_if_empty-lem s h a e = stops s.queue refl
    where
      stops :
          (q : List C)
          → s.queue ≡ q
          → let s' = if is_empty q then record s { executor = false; have_active = false } else s in
            IsValid s' × (s'.ran ≡ s.ran)
      stops [] eq = ((h, (refl, inr eq)), refl)
      stops (c ∷ q) eq = ((h, (e ∙ sym a, inl a)), refl)

  driven_executor : (s : Callbacks C) → IsDriven s → s.executor ≡ true → s.have_active ≡ true
  driven_executor s h e = sym h.0 ∙ e

  executor_function-lem :
      (s : Callbacks C)
      → IsValid s
      → s.executor ≡ true
      → IsValid (executor_function spawns s) × ((executor_function spawns s).ran ≡ s.ran ++ s.queue)
  unfolding executor_function
  executor_function-lem s h e =
      let taken : Conserves (record s { queue = [] }) s.queue =
        ap (λ q. s.ran ++ q) (append-nil s.queue) ∙ h.0 in
      let called =
        call_all-lem (record s { queue = [] }) s.queue taken (driven_executor s h.1 e) e in
      let stopped =
        stop_if_empty-lem (call_all spawns (record s { queue = [] }) s.queue) called.0 called.1
          called.2 in
      (stopped.0, stopped.1 ∙ called.3)

  idle_queue : (s : Callbacks C) → IsDriven s → s.executor ≡ false → s.queue ≡ []
  idle_queue s (same, inl a) e = absurd (false≢true (sym e ∙ same ∙ a))
  idle_queue s (same, inr q) e = q

  on_idle_running :
      (s : Callbacks C) → s.executor ≡ true → on_idle spawns s ≡ executor_function spawns s
  unfolding on_idle
  on_idle_running s e = if-true _ _ e

  on_idle_still : (s : Callbacks C) → s.executor ≡ false → on_idle spawns s ≡ s
  unfolding on_idle
  on_idle_still s e = if-false _ _ e

  -- A cycle of the loop calls the callbacks that wait at its start, all of them, in the order in
  -- which they were scheduled; what they schedule waits for the next cycle.
  pub on_idle-ran : (s : Callbacks C) → IsValid s → (on_idle spawns s).ran ≡ s.ran ++ s.queue
  on_idle-ran s h = elim (Bool-cases s.executor) [
    | inl e ↦ ap (λ t. t.ran) (on_idle_running s e) ∙ (executor_function-lem s h e).1
    | inr e ↦
        ap (λ t. t.ran) (on_idle_still s e)
        ∙ (sym (append-nil s.ran) ∙ ap (λ q. s.ran ++ q) (sym (idle_queue s h.1 e)))
  ]

  on_idle-IsValid : (s : Callbacks C) → IsValid s → IsValid (on_idle spawns s)
  on_idle-IsValid s h = elim (Bool-cases s.executor) [
    | inl e ↦ subst IsValid (sym (on_idle_running s e)) (executor_function-lem s h e).0
    | inr e ↦ subst IsValid (sym (on_idle_still s e)) h
  ]

  steps-IsValid : (s : Callbacks C) (xs : List (Step C)) → IsValid s → IsValid (steps spawns s xs)
  unfolding steps step
  steps-IsValid s [] h = h
  steps-IsValid s (schedule c ∷ xs) h =
      steps-IsValid (schedule_callback s c) xs
        (schedule_callback-Conserves s c [] h.0, schedule_callback-IsDriven s c h.1)
  steps-IsValid s (cycle ∷ xs) h = steps-IsValid (on_idle spawns s) xs (on_idle-IsValid s h)

  -- However calls of `schedule_callback` and cycles of the loop follow one another, and whatever the
  -- callbacks schedule in their turn: what was called, followed by what waits, is what was scheduled,
  -- in that order and each once; and while callbacks wait the executor's handle runs, so that a
  -- cycle calls them.
  pub steps_ran :
      (xs : List (Step C))
      → let s = steps spawns init xs in
        (s.ran ++ s.queue ≡ s.scheduled) × ((s.executor ≡ true) ⊎ (s.queue ≡ []))
  steps_ran xs = ends (steps spawns init xs) (steps-IsValid init xs (refl, (refl, inr refl)))
    where
      ends :
          (s : Callbacks C)
          → IsValid s
          → (s.ran ++ s.queue ≡ s.scheduled) × ((s.executor ≡ true) ⊎ (s.queue ≡ []))
      ends s (all, (same, inl a)) = (all, inl (same ∙ a))
      ends s (all, (same, inr q)) = (all, inr q)
