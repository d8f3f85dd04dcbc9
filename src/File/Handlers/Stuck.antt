-- ===== src/File/Handlers/Stuck.antt =====
-- States that a file of source/io/fs/File.cpp does not leave.
use mathlib.Core.Path.{subst}
use tarm_io.Prelude.{
  suc, [], if◌then◌else◌, ℕ, ◌≡◌, refl, sym, ap, ◌∙◌, Bool, true, false, not, ◌||◌, Option, some,
  List, ◌∷◌, inl, inr, Bool-cases, pos, if-true, if-false, ℤ, is_negative,
}
use tarm_io.StatusCode.{file_not_open}
use tarm_io.File.{
  Event, asks_open, CloseCallback, report_close, report_stat, Reason, of_status, is_given, File,
  closing, closed, is_closing, is_opened, is_closed, user, called_close, posts, logs, call_closed,
  close,
}
use tarm_io.File.Reading.Balance.{Holds}
use tarm_io.File.Handlers.{
  stat, is_initial, open_file, finish_if_closed, on_failed_close, end_open, on_open,
}
use tarm_io.File.Reading.Chunks.{Returns}
use tarm_io.File.Reading.Late.{IsBusy, IsLate, leaves}

-- How often libuv was asked to open a file.
abbrev pub opens_asked : List Event → ℕ
opens_asked [] = 0
opens_asked (asks_open p ∷ es) = suc (opens_asked es)
opens_asked (e ∷ es) = opens_asked es

-- What the user may do, also in a callback. Where the file is stuck none of it calls a callback at once.
pub data Calls (again : File → Option File) : File → File → Type 0 where
  nothing : (s : File) → Calls again s s
  and_then : (s t u : File) → Calls again s t → Calls again t u → Calls again s u
  opens :
      (status : ℤ) (p : ℕ) (c : Bool) (s t : File)
      → open_file again leaves status p c s ≡ some t
      → Calls again s t
  closes :
      (status : ℤ) (c : CloseCallback) (s t : File)
      → close again leaves status c s ≡ some t
      → Calls again s t
  stats : (c : Bool) (s : File) → Calls again s (stat c s)

-- The posted report of the close to the user comes at any time; so do the posted opens, which are opens.
pub data Steps (again : File → Option File) : File → File → Type 0 where
  does : (s t : File) → Calls again s t → Steps again s t
  goes_on : (s t u : File) → Steps again s t → Steps again t u → Steps again s u
  reports :
      (calls : File → File)
      → ((x : File) → Calls again x (calls x))
      → (r : Reason) (s t : File) → on_failed_close again calls user r s ≡ some t
      → Steps again s t

abbrev IsStuck : ℕ → File → Type 0
IsStuck n s = (s.state ≡ closing) × (s.has_handle ≡ false) × (opens_asked s.log ≡ n)

module _ (again : File → Option File) (n : ℕ) where
  post_if-IsStuck :
      (b : Bool) (e : Event) (s : File)
      → opens_asked (e ∷ s.log) ≡ opens_asked s.log
      → IsStuck n s
      → IsStuck n (if b then logs e s else s)
  post_if-IsStuck true e s q h = (h.0, h.1, q ∙ h.2)
  post_if-IsStuck false e s q h = h

  open_file-IsStuck :
      (status : ℤ) (p : ℕ) (c : Bool) (s : File)
      → IsStuck n s
      → Holds (IsStuck n) (open_file again leaves status p c s)
  unfolding open_file
  open_file-IsStuck status p c s h =
      subst (Holds (IsStuck n))
        (sym (
          if-false _ _ (ap is_opened h.0)
          ∙ if-true _ _ (ap (λ x. not (is_initial x || is_closed x)) h.0)))
        h

  close-IsStuck :
      (status : ℤ) (c : CloseCallback) (s : File)
      → IsStuck n s
      → Holds (IsStuck n) (close again leaves status c s)
  unfolding close
  close-IsStuck status c s h =
      subst (Holds (IsStuck n)) (sym (if-true _ _ (ap not h.1)))
        (post_if-IsStuck (is_given c) (posts (report_close c (of_status file_not_open))) s refl h)

  stat-IsStuck : (c : Bool) (s : File) → IsStuck n s → IsStuck n (stat c s)
  unfolding stat
  stat-IsStuck c s h =
      subst (IsStuck n) (sym (if-true _ _ (ap not h.1)))
        (post_if-IsStuck c (posts (report_stat (of_status file_not_open))) s refl h)

  Calls-IsStuck : (s t : File) → Calls again s t → IsStuck n s → IsStuck n t
  Calls-IsStuck _ _ (nothing s) h = h
  Calls-IsStuck _ _ (and_then s t u x y) h = Calls-IsStuck t u y (Calls-IsStuck s t x h)
  Calls-IsStuck _ _ (opens status p c s t e) h =
      subst (Holds (IsStuck n)) e (open_file-IsStuck status p c s h)
  Calls-IsStuck _ _ (closes status c s t e) h =
      subst (Holds (IsStuck n)) e (close-IsStuck status c s h)
  Calls-IsStuck _ _ (stats c s) h = stat-IsStuck c s h

  report-IsStuck :
      (calls : File → File) (r : Reason) (s : File)
      → ((x : File) → Calls again x (calls x))
      → IsStuck n s
      → Holds (IsStuck n) (on_failed_close again calls user r s)
  unfolding on_failed_close finish_if_closed call_closed
  report-IsStuck calls r s w h =
      let told : File = logs (called_close r) s in
      let i : IsStuck n (calls told) = Calls-IsStuck told (calls told) (w told) h in
      subst (λ t. IsStuck n t) (sym (if-false _ _ (ap is_closed i.0))) i

  Steps-IsStuck : (s t : File) → Steps again s t → IsStuck n s → IsStuck n t
  Steps-IsStuck _ _ (does s t c) h = Calls-IsStuck s t c h
  Steps-IsStuck _ _ (goes_on s t u x y) h = Steps-IsStuck t u y (Steps-IsStuck s t x h)
  Steps-IsStuck _ _ (reports calls w r s t e) h =
      subst (Holds (IsStuck n)) e (report-IsStuck calls r s w h)

-- If libuv does not start the close of an open file that is not being closed, then whatever opens, closes and stats the
-- user asks for afterwards, also in the callback that is told of the failure, and however often posted calls repeat
-- them: the file has no handle, stays in the state of being closed, and libuv is never asked to open one again.
pub close_not_started-open :
    (again : File → Option File) (status : ℤ) (s t u : File)
    → s.has_handle ≡ true
    → is_closing s.state ≡ false
    → is_negative status ≡ true
    → close again leaves status user s ≡ some t
    → Steps again t u
    → (u.state ≡ closing) × (u.has_handle ≡ false) × (opens_asked u.log ≡ opens_asked s.log)
unfolding close
close_not_started-open again status s t u h o e q xs =
    let begun = if-false _ _ (ap not h) ∙ if-false _ _ o ∙ if-false _ _ (ap not e) in
    Steps-IsStuck again (opens_asked s.log) t u xs
      (subst (Holds (IsStuck (opens_asked s.log))) (sym begun ∙ q) (refl, refl, refl))

-- A closed file is opened, and the open succeeds.
pub open_file-IsBusy :
    (again : File → Option File) (status : ℤ) (p : ℕ) (c : Bool) (is : List ℕ) (s : File)
    → IsLate is closed s
    → Returns (IsBusy is) (open_file again leaves status p c s)
unfolding open_file
open_file-IsBusy again status p c is s h =
    subst (Returns (IsBusy is))
      (sym (
        if-false _ _ (ap is_opened h.2)
        ∙ if-false _ _ (ap (λ x. not (is_initial x || is_closed x)) h.2)))
      h.0

pub on_open-IsBusy :
    (is : List ℕ) (fd : ℕ) (s : File) → IsBusy is s → IsBusy is (on_open leaves true (pos fd) s)
unfolding on_open
on_open-IsBusy is fd s h = elim (Bool-cases s.open_callback) [
  | inl x ↦ subst (λ t. IsBusy is (end_open t)) (sym (if-true _ _ x)) h
  | inr x ↦ subst (λ t. IsBusy is (end_open t)) (sym (if-false _ _ x)) h
]
