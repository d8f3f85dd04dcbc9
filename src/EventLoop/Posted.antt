-- ===== src/EventLoop/Posted.antt =====
-- `execute_on_loop_thread` and `execute_pending_callbacks` of source/io/EventLoop.cpp. Any thread
-- posts a callback at any time, between two callbacks of the loop's thread as well. What a thread does under
-- the mutex, a post to the queue or its swap, is one step; the call of `uv_async_send` behind it is another.
use mathlib.Core.Bool.{false≢true}
use mathlib.Core.List.{append-nil, append_assoc}
use tarm_io.Prelude.{
  ℕ, suc, ◌-◌, ◌≤◌, ◌≡◌, ◌⊎◌, inl, inr, refl, sym, ap, ◌∙◌, arith, Bool, true, false, List, [], ◌∷◌,
  ◌++◌, if◌then◌else◌, if-true, if-false, Bool-cases,
}

-- `pending` is `m_async_callbacks_queue`, `copy` what is left of `callbacks_queue_copy`; `ran` and
-- `posted` hold the calls of callbacks and of `execute_on_loop_thread`, oldest first. `unsent` counts the
-- threads between their post and their `uv_async_send`, and `sent` is that libuv is to call back.
pub record Posted (C : Type 0) : Type 0 where
  pub pending : List C
  pub copy : List C
  pub ran : List C
  pub posted : List C
  pub unsent : ℕ
  pub sent : Bool

module _ {C : Type 0} where
  abbrev pub init : Posted C
  init = record { pending = []; copy = []; ran = []; posted = []; unsent = 0; sent = false }

  -- `execute_on_loop_thread`, under the mutex and behind it.
  unfoldable pub push_back : Posted C → C → Posted C
  push_back s c = record s {
    pending = s.pending ++ c ∷ [];
    posted = s.posted ++ c ∷ [];
    unsent = suc s.unsent;
  }

  unfoldable pub async_send : Posted C → Posted C
  async_send s = record s { unsent = s.unsent - 1; sent = true }

  -- `execute_pending_callbacks`, which libuv calls, swaps the queue with an empty one.
  unfoldable pub swap_queue : Posted C → Posted C
  swap_queue s = record s { pending = []; copy = s.pending; sent = false }

  unfoldable pub call_next : Posted C → C → List C → Posted C
  call_next s c cs = record s { copy = cs; ran = s.ran ++ c ∷ [] }

  -- The calls of a copy of the queue.
  unfoldable pub call_copy : List C → Posted C → Posted C
  call_copy [] s = s
  call_copy (c ∷ cs) s = call_copy cs (call_next s c cs)

  -- The loop's thread ends its copy, and libuv calls it back if it was asked to.
  unfoldable pub end_copy : Posted C → Posted C
  end_copy s = call_copy s.copy s

  unfoldable pub execute_pending_callbacks : Posted C → Posted C
  execute_pending_callbacks s = if s.sent then end_copy (swap_queue s) else s

-- A step of some thread; only the loop's thread swaps, once it is done with the last copy.
pub data Step {C : Type 0} : Posted C → Posted C → Type 0 where
  post : (s : Posted C) (c : C) → Step s (push_back s c)
  send : (s : Posted C) → 1 ≤ s.unsent → Step s (async_send s)
  swap : (s : Posted C) → s.copy ≡ [] → s.sent ≡ true → Step s (swap_queue s)
  call : (s : Posted C) (c : C) (cs : List C) → s.copy ≡ c ∷ cs → Step s (call_next s c cs)

pub data Steps {C : Type 0} : Posted C → Posted C → Type 0 where
  stop : (s : Posted C) → Steps s s
  go : (s t u : Posted C) → Step s t → Steps t u → Steps s u

module _ {C : Type 0} where
  -- What was posted is accounted for, and what is pending has a wake-up, sent or to be sent.
  abbrev IsValid : Posted C → Type 0
  IsValid s =
      (s.ran ++ (s.copy ++ s.pending) ≡ s.posted)
      × ((1 ≤ s.unsent) ⊎ ((s.sent ≡ true) ⊎ (s.pending ≡ [])))

  step-IsValid : (s t : Posted C) → Step s t → IsValid s → IsValid t
  unfolding push_back async_send swap_queue call_next
  step-IsValid _ _ (post s c) h = (
    ap (λ q. s.ran ++ q) (sym (append_assoc s.copy s.pending (c ∷ [])))
        ∙ sym (append_assoc s.ran (s.copy ++ s.pending) (c ∷ []))
        ∙ ap (λ l. l ++ c ∷ []) h.0,
    inl (omega arith),
  )
  step-IsValid _ _ (send s p) h = (h.0, inr (inl refl))
  step-IsValid _ _ (swap s e a) h = (
    ap (λ q. s.ran ++ q) (append-nil s.pending) ∙ ap (λ q. s.ran ++ (q ++ s.pending)) (sym e) ∙ h.0,
    inr (inr refl),
  )
  step-IsValid _ _ (call s c cs e) h = (
    append_assoc s.ran (c ∷ []) (cs ++ s.pending)
        ∙ ap (λ q. s.ran ++ (q ++ s.pending)) (sym e)
        ∙ h.0,
    h.1,
  )

  Steps-IsValid : (s t : Posted C) → Steps s t → IsValid s → IsValid t
  Steps-IsValid _ _ (stop s) h = h
  Steps-IsValid _ _ (go s t u x xs) h = Steps-IsValid t u xs (step-IsValid s t x h)

  call_copy-ran :
      (cs : List C) (s : Posted C)
      → ((call_copy cs s).ran ≡ s.ran ++ cs)
        × ((call_copy cs s).pending ≡ s.pending)
        × ((call_copy cs s).sent ≡ s.sent)
  unfolding call_copy call_next
  call_copy-ran [] s = (sym (append-nil s.ran), refl, refl)
  call_copy-ran (c ∷ cs) s =
      let h = call_copy-ran cs (call_next s c cs) in
      (h.0 ∙ append_assoc s.ran (c ∷ []) cs, h.1, h.2)

  -- What the loop's thread does, where there is nothing pending unless libuv is to call back.
  executes :
      (s : Posted C)
      → (s.sent ≡ true) ⊎ (s.pending ≡ [])
      → (execute_pending_callbacks s).ran ≡ s.ran ++ s.pending
  unfolding execute_pending_callbacks end_copy swap_queue
  executes s w = elim (Bool-cases s.sent) [
    | inl x ↦
        ap (λ (t : Posted C). t.ran) (if-true _ _ x) ∙ (call_copy-ran s.pending (swap_queue s)).0
    | inr x ↦
        let empty : s.pending ≡ [] = elim w [
          | inl y ↦ absurd (false≢true (sym x ∙ y))
          | inr y ↦ y
        ] in
        ap (λ (t : Posted C). t.ran) (if-false _ _ x)
        ∙ sym (append-nil s.ran)
        ∙ ap (λ q. s.ran ++ q) (sym empty)
  ]

  -- All that was posted is called once the loop's thread has ended its copy and is called back.
  ends :
      (s : Posted C)
      → s.ran ++ (s.copy ++ s.pending) ≡ s.posted
      → (s.sent ≡ true) ⊎ (s.pending ≡ [])
      → (execute_pending_callbacks (end_copy s)).ran ≡ s.posted
  unfolding end_copy
  ends s h w =
      let c = call_copy-ran s.copy s in
      let w' : ((end_copy s).sent ≡ true) ⊎ ((end_copy s).pending ≡ []) = elim w [
        | inl a ↦ inl (c.2 ∙ a)
        | inr b ↦ inr (c.1 ∙ b)
      ] in
      executes (end_copy s) w'
      ∙ ap (λ q. q ++ (end_copy s).pending) c.0
      ∙ ap (λ q. (s.ran ++ s.copy) ++ q) c.1
      ∙ append_assoc s.ran s.copy s.pending
      ∙ h

  -- Whatever threads post callbacks, and however their posts and their calls of `uv_async_send` fall between the
  -- steps of the loop's thread: the callbacks that were called, those of the copy that are still to be called,
  -- and those that are pending are together what was posted, in the order of the posts and each once.
  -- And unless a thread has still to call `uv_async_send`, the loop's thread, when it has ended its copy and is
  -- called back by libuv if that was asked to, has called all that was posted. What a thread does under the mutex is one step.
  pub Steps-posted :
      (s : Posted C)
      → Steps init s
      → (s.ran ++ (s.copy ++ s.pending) ≡ s.posted)
        × ((1 ≤ s.unsent) ⊎ ((execute_pending_callbacks (end_copy s)).ran ≡ s.posted))
  Steps-posted s xs =
      let h = Steps-IsValid init s xs (refl, inr (inr refl)) in
      (h.0, elim h.1 [ inl p ↦ inl p | inr q ↦ inr (ends s h.0 q) ])
