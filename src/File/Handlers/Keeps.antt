-- ===== src/File/Handlers/Keeps.antt =====
-- Opening, closing and `stat` of source/io/fs/File.cpp leave the read buffers alone.
use mathlib.Core.Path.{subst}
use tarm_io.Prelude.{
  ℕ, zero, suc, sym, ◌∙◌, inl, inr, Bool, true, false, not, ◌||◌, Option, none, some, Bool-cases,
  if-true, if-false, ℤ, is_negative, if◌then◌else◌,
}
use tarm_io.File.{
  File, is_opened, is_closed, is_closing, has_read_buffers_in_use, CloseCallback, absent, user,
  remove, reopen, Reason, is_failure, is_given, call_closed, close, schedule_removal,
}
use tarm_io.File.Reading.Balance.{IsBalanced, Holds, Keeps, KeepsOption, call_if-Keeps}
use tarm_io.File.Handlers.{
  is_initial, finish_close, open_file, finish_if_closed, on_close, on_failed_close, on_open, stat,
  on_stat, on_report_read, on_report_stat,
}

IsBalanced-either :
    (b : Bool) (s t : File) → IsBalanced s → IsBalanced t → IsBalanced (if b then s else t)
IsBalanced-either true s t h v = h
IsBalanced-either false s t h v = v

module _ (calls : File → File) (k : Keeps calls) where
  module _ (again : File → Option File) (ka : KeepsOption again) where
    call_closed-KeepsOption :
        (c : CloseCallback) (r : Reason) → KeepsOption (call_closed again calls c r)
    unfolding call_closed
    call_closed-KeepsOption absent r s h = h
    call_closed-KeepsOption user r s h = k _ h
    call_closed-KeepsOption (reopen p c) r s h = elim (Bool-cases (is_failure r)) [
      | inl x ↦ subst IsBalanced (sym (if-true _ _ x)) (call_if-Keeps c _ calls k s h)
      | inr x ↦ subst IsBalanced (sym (if-false _ _ x)) h
    ]
    call_closed-KeepsOption remove r s h = elim (Bool-cases (has_read_buffers_in_use s)) [
      | inl x ↦ subst (Holds IsBalanced) (sym (if-true _ _ x)) h
      | inr x ↦ subst (Holds IsBalanced) (sym (if-false _ _ x)) (ka s h)
    ]

    pub close-KeepsOption :
        (status : ℤ) (c : CloseCallback) → KeepsOption (close again calls status c)
    unfolding close
    close-KeepsOption status c s h = elim (Bool-cases (not s.has_handle)) [
      | inl x ↦
          subst (Holds IsBalanced) (sym (if-true _ _ x)) (IsBalanced-either (is_given c) _ _ h h)
      | inr x ↦ elim (Bool-cases (is_closing s.state)) [
        | inl y ↦
            subst (Holds IsBalanced) (sym (if-false _ _ x ∙ if-true _ _ y))
              (call_closed-KeepsOption c _ s h)
        | inr y ↦ elim (Bool-cases (not (is_negative status))) [
          | inl z ↦
              subst (Holds IsBalanced) (sym (if-false _ _ x ∙ if-false _ _ y ∙ if-true _ _ z)) h
          | inr z ↦
              subst (Holds IsBalanced) (sym (if-false _ _ x ∙ if-false _ _ y ∙ if-false _ _ z))
                (IsBalanced-either (is_given c) _ _ h h)
        ]
      ]
    ]

    pub open_file-KeepsOption :
        (status : ℤ) (p : ℕ) (c : Bool) → KeepsOption (open_file again calls status p c)
    unfolding open_file
    open_file-KeepsOption status p c s h = elim (Bool-cases (is_opened s.state)) [
      | inl x ↦
          subst (Holds IsBalanced) (sym (if-true _ _ x)) (close-KeepsOption status (reopen p c) s h)
      | inr x ↦ elim (Bool-cases (not (is_initial s.state || is_closed s.state))) [
        | inl y ↦ subst (Holds IsBalanced) (sym (if-false _ _ x ∙ if-true _ _ y)) h
        | inr y ↦ subst (Holds IsBalanced) (sym (if-false _ _ x ∙ if-false _ _ y)) h
      ]
    ]

    finish_if_closed-Holds :
        (o : Option File) → Holds IsBalanced o → Holds IsBalanced (finish_if_closed again calls o)
    unfolding finish_if_closed finish_close
    finish_if_closed-Holds none h = h
    finish_if_closed-Holds (some s) h = IsBalanced-either (is_closed s.state) _ _ h h

    pub on_close-KeepsOption : (c : CloseCallback) (n : ℤ) → KeepsOption (on_close again calls c n)
    unfolding on_close
    on_close-KeepsOption c n s h = finish_if_closed-Holds _ (call_closed-KeepsOption c _ _ h)

    pub on_failed_close-KeepsOption :
        (c : CloseCallback) (r : Reason) → KeepsOption (on_failed_close again calls c r)
    unfolding on_failed_close
    on_failed_close-KeepsOption c r s h = finish_if_closed-Holds _ (call_closed-KeepsOption c r s h)

    pub on_report_close-KeepsOption :
        (c : CloseCallback) (r : Reason) → KeepsOption (call_closed again calls c r)
    on_report_close-KeepsOption = call_closed-KeepsOption

  pub schedule_removal-KeepsOption :
      (status : ℤ) (n : ℕ) → KeepsOption (schedule_removal calls status n)
  unfolding schedule_removal
  schedule_removal-KeepsOption status zero s h = tt
  schedule_removal-KeepsOption status (suc n) s h = elim (Bool-cases s.has_handle) [
    | inl x ↦ subst (Holds IsBalanced) (sym (if-true _ _ x)) (
        close-KeepsOption (schedule_removal calls status n) (schedule_removal-KeepsOption status n)
          status remove _ h)
    | inr x ↦ elim (Bool-cases (has_read_buffers_in_use (record s { removal_scheduled = true }))) [
      | inl y ↦ subst (Holds IsBalanced) (sym (if-false _ _ x ∙ if-true _ _ y)) h
      | inr y ↦ subst (Holds IsBalanced) (sym (if-false _ _ x ∙ if-false _ _ y)) h
    ]
  ]

  pub on_open-Keeps : (attached : Bool) (n : ℤ) → Keeps (on_open calls attached n)
  unfolding on_open
  on_open-Keeps attached n s h = elim (Bool-cases (not attached)) [
    | inl x ↦ subst IsBalanced (sym (if-true _ _ x)) h
    | inr x ↦ elim (Bool-cases (is_negative n)) [
      | inl y ↦
          subst IsBalanced (sym (if-false _ _ x ∙ if-true _ _ y))
            (call_if-Keeps s.open_callback _ calls k s h)
      | inr y ↦
          subst IsBalanced (sym (if-false _ _ x ∙ if-false _ _ y))
            (IsBalanced-either s.open_callback _ _ (k _ h) h)
    ]
  ]

  pub on_stat-Keeps : (c : Bool) (n : ℤ) → Keeps (on_stat calls c n)
  unfolding on_stat
  on_stat-Keeps c n s h = call_if-Keeps c _ calls k _ h

pub stat-Keeps : (c : Bool) → Keeps (stat c)
unfolding stat
stat-Keeps c s h = elim (Bool-cases (not s.has_handle)) [
  | inl x ↦ subst IsBalanced (sym (if-true _ _ x)) (IsBalanced-either c _ _ h h)
  | inr x ↦ elim (Bool-cases s.stat_request) [
    | inl y ↦ subst IsBalanced (sym (if-false _ _ x ∙ if-true _ _ y)) (IsBalanced-either c _ _ h h)
    | inr y ↦ subst IsBalanced (sym (if-false _ _ x ∙ if-false _ _ y)) h
  ]
]

pub on_report_read-Keeps :
    (calls : File → File) → Keeps calls → (r : Reason) → Keeps (on_report_read calls r)
unfolding on_report_read
on_report_read-Keeps calls k r s h = k _ h

pub on_report_stat-Keeps :
    (calls : File → File) → Keeps calls → (r : Reason) → Keeps (on_report_stat calls r)
unfolding on_report_stat
on_report_stat-Keeps calls k r s h = k _ h
