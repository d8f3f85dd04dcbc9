-- ===== src/EventLoop/Work/Life.antt =====
-- The steps of a work item of source/io/EventLoop.cpp, and how often its done callback is called.
use mathlib.Core.Bool.{false≢true}
use mathlib.Core.Path.{subst}
use tarm_io.Prelude.{
  arith, length-append, Bool-cases, if-true, if-false, ℕ, suc, ◌+◌, ◌≤◌, ◌≡◌, ◌⊎◌, refl, sym, ap,
  ◌∙◌, Bool, true, false, [], ◌∷◌, ◌++◌, if◌then◌else◌, length, inl, inr,
}
use tarm_io.StatusCode.{StatusCode, ok, operation_canceled}
use tarm_io.EventLoop.Work.{
  Stage, created, queueing, in_pool, taken, worked, withdrawn, deleted, is_deleted, Work, add_work,
  finish, test_cancelled, set_queued, queue_work, set_cancelled, cancel_queued, cancel_work,
  on_work, on_after_work, call_posted,
}

-- What libuv documents: an item that no thread took is withdrawn, any other that it has stays where it is.
abbrev pub IsUvCancel : (Stage → Stage) → Type 0
IsUvCancel uv_cancel =
    (uv_cancel in_pool ≡ withdrawn)
    × (uv_cancel taken ≡ taken)
    × (uv_cancel worked ≡ worked)
    × (uv_cancel withdrawn ≡ withdrawn)

-- Where an item may be cancelled: it was not deleted, and is not just being given to libuv.
abbrev pub is_there : Stage → Bool
is_there created = true
is_there queueing = false
is_there in_pool = true
is_there taken = true
is_there worked = true
is_there withdrawn = true
is_there deleted = false

-- What may happen next. Any thread may set the flag while the item is there, and go on to `uv_cancel` at
-- any time after that, but neither once the item was deleted, nor `uv_cancel` while it is just being given to libuv.
pub data Step (uv_cancel : Stage → Stage) : Work → Work → Type 0 where
  test : (w : Work) → w.stage ≡ created → Step uv_cancel w (test_cancelled w)
  store : (w : Work) → w.stage ≡ queueing → Step uv_cancel w (set_queued w)
  queue :
      (w : Work) (accepted : Bool) (status : StatusCode)
      → w.stage ≡ queueing
      → Step uv_cancel w (queue_work w accepted status)
  flag : (w : Work) → is_deleted w.stage ≡ false → Step uv_cancel w (set_cancelled w)
  cancel :
      (w : Work)
      → w.cancelled ≡ true
      → is_there w.stage ≡ true
      → Step uv_cancel w (cancel_queued uv_cancel w)
  take : (w : Work) → w.stage ≡ in_pool → Step uv_cancel w (record w { stage = taken })
  work : (w : Work) → w.stage ≡ taken → Step uv_cancel w (on_work w)
  after_work : (w : Work) → w.stage ≡ worked → Step uv_cancel w (on_after_work w ok)
  after_cancel :
      (w : Work) → w.stage ≡ withdrawn → Step uv_cancel w (on_after_work w operation_canceled)
  posted_call : (w : Work) (n : ℕ) → w.posted ≡ suc n → Step uv_cancel w (call_posted w n)

pub data Steps (uv_cancel : Stage → Stage) : Work → Work → Type 0 where
  stop : (w : Work) → Steps uv_cancel w w
  go : (w v u : Work) → Step uv_cancel w v → Steps uv_cancel v u → Steps uv_cancel w u

abbrev pub completions : Stage → ℕ
completions created = 0
completions queueing = 0
completions in_pool = 0
completions taken = 0
completions worked = 0
completions withdrawn = 0
completions deleted = 1

-- How often `on_work` may still be called.
abbrev chances : Stage → ℕ
chances created = 1
chances queueing = 1
chances in_pool = 1
chances taken = 1
chances worked = 0
chances withdrawn = 0
chances deleted = 0

-- An item that was not given to libuv yet is not marked as queued.
abbrev At : Stage → Bool → Type 0
At created q = q ≡ false
At queueing q = Unit
At in_pool q = Unit
At taken q = Unit
At worked q = Unit
At withdrawn q = Unit
At deleted q = Unit

abbrev IsValid : Work → Type 0
IsValid w =
    (length w.done + w.posted ≡ completions w.stage + w.posts)
    × (w.works + w.posts + chances w.stage ≤ 1)
    × ((w.posts ≡ 0) ⊎ (w.cancelled ≡ true))
    × At w.stage w.queued

-- The stage alone changes.
moves :
    (w : Work) (s t : Stage)
    → w.stage ≡ s
    → completions t ≡ completions s
    → chances t ≤ chances s
    → At t w.queued
    → IsValid w
    → IsValid (record w { stage = t })
moves w s t e c d k h =
    let a : completions w.stage ≡ completions s = ap completions e in
    let b : chances w.stage ≡ chances s = ap chances e in
    (omega (arith, h.0, a, c), omega (arith, h.1, b, d), h.2, k)

finish-IsValid :
    (w : Work) (s : Stage) (c : StatusCode)
    → w.stage ≡ s
    → completions s ≡ 0
    → IsValid w
    → IsValid (finish w c)
finish-IsValid w s c e z h =
    let a : completions w.stage ≡ 0 = ap completions e ∙ z in
    (omega (arith, length-append w.done (c ∷ []), h.0, a), omega (arith, h.1), h.2, tt)

on_work-IsValid : (w : Work) → w.stage ≡ taken → IsValid w → IsValid (on_work w)
unfolding on_work
on_work-IsValid w e h =
    let a : completions w.stage ≡ 0 = ap completions e in
    let b : chances w.stage ≡ 1 = ap chances e in
    elim (Bool-cases w.cancelled) [
      | inl x ↦
          subst IsValid (sym (if-true _ _ x))
            (omega (arith, h.0, a), omega (arith, h.1, b), inr x, tt)
      | inr x ↦
          subst IsValid (sym (if-false _ _ x))
            (omega (arith, h.0, a), omega (arith, h.1, b), h.2, tt)
    ]

test_cancelled-IsValid : (w : Work) → w.stage ≡ created → IsValid w → IsValid (test_cancelled w)
unfolding test_cancelled
test_cancelled-IsValid w e h = elim (Bool-cases w.cancelled) [
  | inl x ↦
      subst IsValid (sym (if-true _ _ x)) (finish-IsValid w created operation_canceled e refl h)
  | inr x ↦
      subst IsValid (sym (if-false _ _ x)) (moves w created queueing e refl (omega arith) tt h)
]

queue_work-IsValid :
    (w : Work) (a : Bool) (c : StatusCode)
    → w.stage ≡ queueing
    → IsValid w
    → IsValid (queue_work w a c)
unfolding queue_work
queue_work-IsValid w true c e h = moves w queueing in_pool e refl (omega arith) tt h
queue_work-IsValid w false c e h = finish-IsValid w queueing c e refl h

stays : {s : Stage} (q : Bool) (x : Stage) → s ≡ x → (if q then s else x) ≡ x
stays true x e = e
stays false x e = refl

module _ (uv_cancel : Stage → Stage) (uv : IsUvCancel uv_cancel) where
  -- Where it is there.
  cancel_queued-IsValid :
      (w : Work) (s : Stage)
      → w.stage ≡ s
      → is_there s ≡ true
      → IsValid w
      → IsValid (record w { stage = if w.queued then uv_cancel s else s })
  cancel_queued-IsValid w created e t h =
      let q : w.queued ≡ false = subst (λ x. At x w.queued) e h.3 in
      subst (λ x. IsValid (record w { stage = x })) (sym (if-false _ _ q))
        (moves w created created e refl (omega arith) q h)
  cancel_queued-IsValid w queueing e t h = absurd (false≢true t)
  cancel_queued-IsValid w in_pool e t h = elim (Bool-cases w.queued) [
    | inl x ↦
        subst (λ s. IsValid (record w { stage = s })) (sym (if-true _ _ x ∙ uv.0))
          (moves w in_pool withdrawn e refl (omega arith) tt h)
    | inr x ↦
        subst (λ s. IsValid (record w { stage = s })) (sym (if-false _ _ x))
          (moves w in_pool in_pool e refl (omega arith) tt h)
  ]
  cancel_queued-IsValid w taken e t h =
      subst (λ s. IsValid (record w { stage = s })) (sym (stays w.queued taken uv.1))
        (moves w taken taken e refl (omega arith) tt h)
  cancel_queued-IsValid w worked e t h =
      subst (λ s. IsValid (record w { stage = s })) (sym (stays w.queued worked uv.2))
        (moves w worked worked e refl (omega arith) tt h)
  cancel_queued-IsValid w withdrawn e t h =
      subst (λ s. IsValid (record w { stage = s })) (sym (stays w.queued withdrawn uv.3))
        (moves w withdrawn withdrawn e refl (omega arith) tt h)
  cancel_queued-IsValid w deleted e t h = absurd (false≢true t)

  step-IsValid : (w v : Work) → Step uv_cancel w v → IsValid w → IsValid v
  unfolding on_after_work set_queued set_cancelled cancel_queued call_posted
  step-IsValid _ _ (test w e) h = test_cancelled-IsValid w e h
  step-IsValid _ _ (store w e) h = (h.0, h.1, h.2, subst (λ s. At s true) (sym e) tt)
  step-IsValid _ _ (queue w a c e) h = queue_work-IsValid w a c e h
  step-IsValid _ _ (flag w e) h = (h.0, h.1, inr refl, h.3)
  step-IsValid _ _ (cancel w c t) h = cancel_queued-IsValid w w.stage refl t h
  step-IsValid _ _ (take w e) h = moves w in_pool taken e refl (omega arith) tt h
  step-IsValid _ _ (work w e) h = on_work-IsValid w e h
  step-IsValid _ _ (after_work w e) h = finish-IsValid w worked ok e refl h
  step-IsValid _ _ (after_cancel w e) h = finish-IsValid w withdrawn operation_canceled e refl h
  step-IsValid _ _ (posted_call w n e) h =
      (omega (arith, length-append w.done (operation_canceled ∷ []), h.0, e), h.1, h.2, h.3)

  Steps-IsValid_work : (w v : Work) → Steps uv_cancel w v → IsValid w → IsValid v
  Steps-IsValid_work _ _ (stop w) h = h
  Steps-IsValid_work _ _ (go w v u x xs) h = Steps-IsValid_work v u xs (step-IsValid w v x h)

  -- Where `uv_cancel` does what libuv documents, and however the steps of the loop's thread, of the pool's and of
  -- threads that cancel the item fall between each other, as long as no thread cancels an item that was deleted or
  -- calls `uv_cancel` on one that is just being given to libuv: the done callback is called once by the step that deletes the
  -- item, and besides once by each callback that `on_work` has posted. `on_work` posts one at most, and then only if the
  -- item was cancelled and instead of calling the work callback.
  pub Steps-done :
      (w : Work)
      → Steps uv_cancel add_work w
      → (length w.done + w.posted ≡ completions w.stage + w.posts)
        × (w.works + w.posts ≤ 1)
        × ((w.posts ≡ 0) ⊎ (w.cancelled ≡ true))
  Steps-done w xs =
      let h = Steps-IsValid_work add_work w xs (refl, omega arith, inl refl, refl) in
      (h.0, omega (arith, h.1), h.2)

  -- An item that is cancelled between a pool thread's taking it and its call of `on_work`, with nothing posted before:
  -- `uv_cancel`, where it does what libuv documents, comes too late, but `on_work` finds the flag and posts. The
  -- done callback is then called twice. If the loop's thread calls `on_after_work` first, then with success and
  -- after that by the posted callback, which uses the item after it was deleted; if the posted callback comes
  -- first, then both calls are on the item that is there.
  pub cancel_taken :
      (w : Work)
      → w.stage ≡ taken
      → w.posted ≡ 0
      → let v = on_work (cancel_work uv_cancel w) in
        let late = call_posted (on_after_work v ok) 0 in
        let early = on_after_work (call_posted v 0) ok in
        ((cancel_work uv_cancel w).stage ≡ taken)
        × (v.posted ≡ 1)
        × (late.done ≡ (w.done ++ ok ∷ []) ++ operation_canceled ∷ [])
        × (late.dangling ≡ true)
        × (early.done ≡ (w.done ++ operation_canceled ∷ []) ++ ok ∷ [])
        × (early.dangling ≡ w.dangling)
  unfolding on_after_work on_work cancel_work cancel_queued set_cancelled call_posted
  cancel_taken w e p = (
    ap (λ s. if w.queued then uv_cancel s else s) e ∙ stays w.queued taken uv.1,
    ap suc p,
    refl,
    refl,
    refl,
    refl,
  )
