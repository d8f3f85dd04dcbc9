-- ===== src/Dir/Removal.antt =====
-- The removal of a directory, source/io/fs/Dir.cpp.
use tarm_io.Prelude.{
  ℕ, zero, suc, ◌≡◌, refl, sym, ap, ◌∙◌, inl, inr, Bool, true, false, not, ◌&&◌, Option, none, some,
  Bool-cases, if-true, if-false,
}
use tarm_io.Dir.{Dir, is_reading, is_closing, remove, call_closed, close, schedule_removal}

abbrev pub is_some : Option Dir → Bool
is_some none = false
is_some (some s) = true

abbrev marked : Dir → Dir
marked s = record s { removal_scheduled = true }

module _ (calls : Dir → Dir) where
  open_again :
      (n : ℕ) (s : Dir)
      → s.has_uv_dir ≡ true
      → schedule_removal calls (suc n) s ≡ close (schedule_removal calls n) calls remove (marked s)
  unfolding schedule_removal
  open_again n s h = if-true _ _ h

  closing_again :
      (again : Dir → Option Dir) (s : Dir)
      → s.has_uv_dir ≡ true
      → is_reading s.read_request ≡ false
      → is_closing s.state ≡ true
      → close again calls remove s ≡ again s
  unfolding close call_closed
  closing_again again s h r c = if-false _ _ (ap not h) ∙ if-false _ _ r ∙ if-true _ _ c

  schedule_removal_never :
      (n : ℕ) (s : Dir)
      → s.has_uv_dir ≡ true
      → is_reading s.read_request ≡ false
      → is_closing s.state ≡ true
      → schedule_removal calls n s ≡ none
  schedule_removal_never zero s h r c = unfold schedule_removal in refl
  schedule_removal_never (suc n) s h r c =
      open_again n s h
      ∙ closing_again (schedule_removal calls n) (marked s) h r c
      ∙ schedule_removal_never n (marked s) h r c

  close_reading :
      (again : Dir → Option Dir) (s : Dir)
      → s.has_uv_dir ≡ true
      → is_reading s.read_request ≡ true
      → is_some (close again calls remove s) ≡ true
  unfolding close
  close_reading again s h r = ap is_some (if-false _ _ (ap not h) ∙ if-true _ _ r)

  close_open :
      (again : Dir → Option Dir) (s : Dir)
      → s.has_uv_dir ≡ true
      → is_reading s.read_request ≡ false
      → is_closing s.state ≡ false
      → is_some (close again calls remove s) ≡ true
  unfolding close
  close_open again s h r c = ap is_some (if-false _ _ (ap not h) ∙ if-false _ _ r ∙ if-false _ _ c)

  remove_closed :
      (n : ℕ) (s : Dir) → s.has_uv_dir ≡ false → is_some (schedule_removal calls (suc n) s) ≡ true
  unfolding schedule_removal
  remove_closed n s h = ap is_some (if-false _ _ h)

  -- With fuel for one call or more, `schedule_removal` of a directory comes back, except if it is open, is not being
  -- listed and is being closed; there it does not come back whatever the fuel.
  pub schedule_removal_returns :
      (n : ℕ) (s : Dir)
      → is_some (schedule_removal calls (suc n) s)
        ≡ not (s.has_uv_dir && not (is_reading s.read_request) && is_closing s.state)
  schedule_removal_returns n s = elim (Bool-cases s.has_uv_dir) [
    | inr h ↦
        remove_closed n s h
        ∙ sym (ap (λ b. not (b && not (is_reading s.read_request) && is_closing s.state)) h)
    | inl h ↦
        let left = ap (λ b. not (b && not (is_reading s.read_request) && is_closing s.state)) h in
        elim (Bool-cases (is_reading s.read_request)) [
          | inl r ↦
              ap is_some (open_again n s h)
              ∙ close_reading (schedule_removal calls n) (marked s) h r
              ∙ sym (left ∙ ap (λ b. not (not b && is_closing s.state)) r)
          | inr r ↦
              let right = left ∙ ap (λ b. not (not b && is_closing s.state)) r in
              elim (Bool-cases (is_closing s.state)) [
                | inl c ↦
                    ap is_some (schedule_removal_never (suc n) s h r c) ∙ sym (right ∙ ap not c)
                | inr c ↦
                    ap is_some (open_again n s h)
                    ∙ close_open (schedule_removal calls n) (marked s) h r c
                    ∙ sym (right ∙ ap not c)
              ]
        ]
  ]
