-- ===== src/File/Removal.antt =====
-- The removal of a file, source/io/fs/File.cpp, and what a close leaves behind.
use tarm_io.Prelude.{
  ℕ, zero, suc, ◌≡◌, refl, sym, ap, ◌∙◌, inl, inr, Bool, true, false, not, ◌&&◌, Option, none, some,
  Bool-cases, if-true, if-false, ℤ, is_negative,
}
use tarm_io.StatusCode.{operation_already_in_progress}
use tarm_io.File.{
  File, is_closing, in_use, has_read_buffers_in_use, remove, Reason, of_status, call_closed, close,
  schedule_removal,
}

abbrev pub is_some : Option File → Bool
is_some none = false
is_some (some s) = true

module _ (calls : File → File) (status : ℤ) where
  closing_again :
      (n : ℕ) (s : File)
      → s.has_handle ≡ true
      → is_closing s.state ≡ true
      → schedule_removal calls status (suc n) s
        ≡ call_closed
            (schedule_removal calls status n)
            calls
            remove
            (of_status operation_already_in_progress)
            (record s { removal_scheduled = true })
  unfolding schedule_removal close
  closing_again n s h c = if-true _ _ h ∙ if-false _ _ (ap not h) ∙ if-true _ _ c

  removes_free :
      (again : File → Option File) (r : Reason) (s : File)
      → in_use s.buffers ≡ false
      → call_closed again calls remove r s ≡ again s
  unfolding call_closed has_read_buffers_in_use
  removes_free again r s b = if-false _ _ b

  removes_in_use :
      (again : File → Option File) (r : Reason) (s : File)
      → in_use s.buffers ≡ true
      → call_closed again calls remove r s ≡ some (record s { need_reschedule_remove = true })
  unfolding call_closed has_read_buffers_in_use
  removes_in_use again r s b = if-true _ _ b

  -- While a file that no buffer is in use of is being closed, `schedule_removal` calls itself and never
  -- comes back.
  schedule_removal_never :
      (n : ℕ) (s : File)
      → s.has_handle ≡ true
      → is_closing s.state ≡ true
      → in_use s.buffers ≡ false
      → schedule_removal calls status n s ≡ none
  schedule_removal_never zero s h c b = unfold schedule_removal in refl
  schedule_removal_never (suc n) s h c b =
      closing_again n s h c
      ∙ removes_free (schedule_removal calls status n) _ (record s { removal_scheduled = true }) b
      ∙ schedule_removal_never n (record s { removal_scheduled = true }) h c b

  -- The four ways in which a removal comes back.
  schedule_removal_not_open :
      (n : ℕ) (s : File)
      → s.has_handle ≡ false
      → is_some (schedule_removal calls status (suc n) s) ≡ true
  unfolding schedule_removal has_read_buffers_in_use
  schedule_removal_not_open n s h = elim (Bool-cases (in_use s.buffers)) [
    | inl b ↦ ap is_some (if-false _ _ h ∙ if-true _ _ b)
    | inr b ↦ ap is_some (if-false _ _ h ∙ if-false _ _ b)
  ]

  schedule_removal_open :
      (n : ℕ) (s : File)
      → s.has_handle ≡ true
      → is_closing s.state ≡ false
      → is_some (schedule_removal calls status (suc n) s) ≡ true
  unfolding schedule_removal close
  schedule_removal_open n s h c = elim (Bool-cases (not (is_negative status))) [
    | inl x ↦ ap is_some (if-true _ _ h ∙ if-false _ _ (ap not h) ∙ if-false _ _ c ∙ if-true _ _ x)
    | inr x ↦ ap is_some (if-true _ _ h ∙ if-false _ _ (ap not h) ∙ if-false _ _ c ∙ if-false _ _ x)
  ]

  -- With fuel for one call or more, `schedule_removal` comes back, except for a file that is open, is being closed and
  -- has no read buffer in use; there it does not come back whatever the fuel.
  pub schedule_removal-is_some :
      (n : ℕ) (s : File)
      → is_some (schedule_removal calls status (suc n) s)
        ≡ not (s.has_handle && is_closing s.state && not (in_use s.buffers))
  schedule_removal-is_some n s = elim (Bool-cases s.has_handle) [
    | inr h ↦
        schedule_removal_not_open n s h
        ∙ sym (ap (λ b. not (b && is_closing s.state && not (in_use s.buffers))) h)
    | inl h ↦ elim (Bool-cases (is_closing s.state)) [
      | inr c ↦
          schedule_removal_open n s h c
          ∙ sym (
              ap (λ b. not (b && is_closing s.state && not (in_use s.buffers))) h
              ∙ ap (λ b. not (b && not (in_use s.buffers))) c)
      | inl c ↦
          let left =
            ap (λ b. not (b && is_closing s.state && not (in_use s.buffers))) h
            ∙ ap (λ b. not (b && not (in_use s.buffers))) c in
          elim (Bool-cases (in_use s.buffers)) [
            | inl b ↦
                ap is_some (
                  closing_again n s h c
                  ∙ removes_in_use _ _ (record s { removal_scheduled = true }) b)
                ∙ sym (left ∙ ap (λ x. not (not x)) b)
            | inr b ↦
                ap is_some (schedule_removal_never (suc n) s h c b)
                ∙ sym (left ∙ ap (λ x. not (not x)) b)
          ]
    ]
  ]
