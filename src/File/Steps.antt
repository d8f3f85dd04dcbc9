-- ===== src/File/Steps.antt =====
-- Every run of source/io/fs/File.cpp: the calls of the user, which callbacks may make too, what libuv
-- calls, and the callbacks posted to the loop, in any order.
use mathlib.Core.Path.{subst}
use tarm_io.Prelude.{ℕ, ◌≡◌, refl, Bool, true, Option, some, get_elem?, arith, ℤ, pos}
use tarm_io.File.{File, Reason, CloseCallback, reading, init, close, schedule_removal, call_closed}
use tarm_io.File.Reading.{read, release, on_read, read_block, on_read_block, on_read_not_started}
use tarm_io.File.Reading.Buffers.{pending, total}
use tarm_io.File.Reading.Balance.{IsBalanced, Holds, Keeps}
use tarm_io.File.Reading.Keeps.{
  read-Keeps, read_block-Keeps, release-KeepsOption, on_read-Holds, on_read_block-Keeps,
  on_read_not_started-IsBalanced,
}
use tarm_io.File.Handlers.{
  open_file, stat, on_open, on_close, on_failed_close, on_stat, on_report_read, on_report_stat,
}
use tarm_io.File.Handlers.Keeps.{
  close-KeepsOption, schedule_removal-KeepsOption, open_file-KeepsOption, stat-Keeps, on_open-Keeps,
  on_close-KeepsOption, on_failed_close-KeepsOption, on_report_close-KeepsOption, on_stat-Keeps,
  on_report_read-Keeps, on_report_stat-Keeps,
}

-- What the user may do, also in a callback. `calls` is what the callbacks do that a call makes at
-- once, and a removal that does not come back has no step.
pub data Calls : File → File → Type 0 where
  nothing : (s : File) → Calls s s
  and_then : (s t u : File) → Calls s t → Calls t u → Calls s u
  stats : (c : Bool) (s : File) → Calls s (stat c s)
  reads :
      (calls : File → File)
      → ((x : File) → Calls x (calls x))
      → (running : Bool) (status : ℤ) (c e : Bool) (s : File)
      → Calls s (read calls running status c e s)
  reads_block :
      (calls : File → File)
      → ((x : File) → Calls x (calls x))
      → (running : Bool) (status : ℤ) (offset bytes : ℕ) (c : Bool) (s : File)
      → Calls s (read_block calls running status offset bytes c s)
  opens :
      (calls : File → File)
      → ((x : File) → Calls x (calls x))
      → (status : ℤ) (n p : ℕ) (c : Bool) (s t : File)
      → open_file (schedule_removal calls status n) calls status p c s ≡ some t
      → Calls s t
  closes :
      (calls : File → File)
      → ((x : File) → Calls x (calls x))
      → (status : ℤ) (n : ℕ) (c : CloseCallback) (s t : File)
      → close (schedule_removal calls status n) calls status c s ≡ some t
      → Calls s t
  removes :
      (calls : File → File)
      → ((x : File) → Calls x (calls x))
      → (status : ℤ) (n : ℕ) (s t : File) → schedule_removal calls status n s ≡ some t
      → Calls s t
  releases :
      (calls : File → File)
      → ((x : File) → Calls x (calls x))
      → (running : Bool) (status : ℤ) (n i : ℕ) (s t : File)
      → release calls running status (schedule_removal calls status n) i s ≡ some t
      → Calls s t

-- A read that libuv answers is one that is under way; a posted report that a read was not started finds
-- no read under way.
pub data Steps : File → File → Type 0 where
  does : (s t : File) → Calls s t → Steps s t
  goes_on : (s t u : File) → Steps s t → Steps t u → Steps s u
  is_opened :
      (calls : File → File)
      → ((x : File) → Calls x (calls x))
      → (attached : Bool) (n : ℤ) (s : File) → Steps s (on_open calls attached n s)
  is_stated :
      (calls : File → File)
      → ((x : File) → Calls x (calls x))
      → (c : Bool) (n : ℤ) (s : File) → Steps s (on_stat calls c n s)
  is_closed :
      (calls : File → File)
      → ((x : File) → Calls x (calls x))
      → (status : ℤ) (f : ℕ) (c : CloseCallback) (n : ℤ) (s t : File)
      → on_close (schedule_removal calls status f) calls c n s ≡ some t
      → Steps s t
  is_read :
      (calls : File → File)
      → ((x : File) → Calls x (calls x))
      → (running : Bool) (status : ℤ) (f : ℕ) (keeps : Bool) (i : ℕ) (n : ℤ) (s t : File)
      → get_elem? s.buffers i ≡ some reading
      → on_read calls running status (schedule_removal calls status f) keeps i n s ≡ some t
      → Steps s t
  block_is_read :
      (calls : File → File)
      → ((x : File) → Calls x (calls x))
      → (offset : ℕ) (n : ℤ) (s : File) → Steps s (on_read_block calls offset n s)
  reports_close :
      (calls : File → File)
      → ((x : File) → Calls x (calls x))
      → (status : ℤ) (f : ℕ) (c : CloseCallback) (r : Reason) (s t : File)
      → call_closed (schedule_removal calls status f) calls c r s ≡ some t
      → Steps s t
  reports_failed_close :
      (calls : File → File)
      → ((x : File) → Calls x (calls x))
      → (status : ℤ) (f : ℕ) (c : CloseCallback) (r : Reason) (s t : File)
      → on_failed_close (schedule_removal calls status f) calls c r s ≡ some t
      → Steps s t
  reports_read :
      (calls : File → File)
      → ((x : File) → Calls x (calls x))
      → (r : Reason) (s : File) → Steps s (on_report_read calls r s)
  reports_stat :
      (calls : File → File)
      → ((x : File) → Calls x (calls x))
      → (r : Reason) (s : File) → Steps s (on_report_stat calls r s)
  reports_not_started :
      (calls : File → File)
      → ((x : File) → Calls x (calls x))
      → (running : Bool) (status : ℤ) (s : File) → total pending s.buffers ≡ 0
      → Steps s (on_read_not_started calls running status s)

returned : (o : Option File) (t : File) → o ≡ some t → Holds IsBalanced o → IsBalanced t
returned o t e h = subst (Holds IsBalanced) e h

Calls-IsBalanced : (s t : File) → Calls s t → IsBalanced s → IsBalanced t
Calls-IsBalanced _ _ (nothing s) h = h
Calls-IsBalanced _ _ (and_then s t u x y) h = Calls-IsBalanced t u y (Calls-IsBalanced s t x h)
Calls-IsBalanced _ _ (stats c s) h = stat-Keeps c s h
Calls-IsBalanced _ _ (reads calls w running status c e s) h =
    read-Keeps calls (λ x v. Calls-IsBalanced x (calls x) (w x) v) running status c e s h
Calls-IsBalanced _ _ (reads_block calls w running status offset bytes c s) h =
    read_block-Keeps calls (λ x v. Calls-IsBalanced x (calls x) (w x) v) running status offset bytes
      c s h
Calls-IsBalanced _ _ (opens calls w status n p c s t e) h =
    let k : Keeps calls = λ x v. Calls-IsBalanced x (calls x) (w x) v in
    returned _ t e (
      open_file-KeepsOption calls k _ (schedule_removal-KeepsOption calls k status n) status p c s
        h)
Calls-IsBalanced _ _ (closes calls w status n c s t e) h =
    let k : Keeps calls = λ x v. Calls-IsBalanced x (calls x) (w x) v in
    returned _ t e
      (close-KeepsOption calls k _ (schedule_removal-KeepsOption calls k status n) status c s h)
Calls-IsBalanced _ _ (removes calls w status n s t e) h =
    returned _ t e (
      schedule_removal-KeepsOption calls (λ x v. Calls-IsBalanced x (calls x) (w x) v) status n s h)
Calls-IsBalanced _ _ (releases calls w running status n i s t e) h =
    let k : Keeps calls = λ x v. Calls-IsBalanced x (calls x) (w x) v in
    returned _ t e (
      release-KeepsOption calls k running status _ (schedule_removal-KeepsOption calls k status n) i
        s h)

Steps-IsBalanced_from : (s t : File) → Steps s t → IsBalanced s → IsBalanced t
Steps-IsBalanced_from _ _ (does s t c) h = Calls-IsBalanced s t c h
Steps-IsBalanced_from _ _ (goes_on s t u x y) h =
    Steps-IsBalanced_from t u y (Steps-IsBalanced_from s t x h)
Steps-IsBalanced_from _ _ (is_opened calls w attached n s) h =
    on_open-Keeps calls (λ x v. Calls-IsBalanced x (calls x) (w x) v) attached n s h
Steps-IsBalanced_from _ _ (is_stated calls w c n s) h =
    on_stat-Keeps calls (λ x v. Calls-IsBalanced x (calls x) (w x) v) c n s h
Steps-IsBalanced_from _ _ (is_closed calls w status f c n s t e) h =
    let k : Keeps calls = λ x v. Calls-IsBalanced x (calls x) (w x) v in
    returned _ t e
      (on_close-KeepsOption calls k _ (schedule_removal-KeepsOption calls k status f) c n s h)
Steps-IsBalanced_from _ _ (is_read calls w running status f keeps i n s t g e) h =
    let k : Keeps calls = λ x v. Calls-IsBalanced x (calls x) (w x) v in
    returned _ t e (
      on_read-Holds calls k running status _ (schedule_removal-KeepsOption calls k status f) keeps i
        n s g h)
Steps-IsBalanced_from _ _ (block_is_read calls w offset n s) h =
    on_read_block-Keeps calls (λ x v. Calls-IsBalanced x (calls x) (w x) v) true (pos 0) offset n s
      h
Steps-IsBalanced_from _ _ (reports_close calls w status f c r s t e) h =
    let k : Keeps calls = λ x v. Calls-IsBalanced x (calls x) (w x) v in
    returned _ t e (
      on_report_close-KeepsOption calls k _ (schedule_removal-KeepsOption calls k status f) c r s h)
Steps-IsBalanced_from _ _ (reports_failed_close calls w status f c r s t e) h =
    let k : Keeps calls = λ x v. Calls-IsBalanced x (calls x) (w x) v in
    returned _ t e (
      on_failed_close-KeepsOption calls k _ (schedule_removal-KeepsOption calls k status f) c r s h)
Steps-IsBalanced_from _ _ (reports_read calls w r s) h =
    on_report_read-Keeps calls (λ x v. Calls-IsBalanced x (calls x) (w x) v) r s h
Steps-IsBalanced_from _ _ (reports_stat calls w r s) h =
    on_report_stat-Keeps calls (λ x v. Calls-IsBalanced x (calls x) (w x) v) r s h
Steps-IsBalanced_from _ _ (reports_not_started calls w running status s z) h =
    on_read_not_started-IsBalanced calls (λ x v. Calls-IsBalanced x (calls x) (w x) v) running
      status s z h

-- Whatever the user and the callbacks do, whatever libuv answers and in whatever order: a file of four
-- read buffers keeps its loop from its end once for each buffer that is in use, and never has more
-- than one read of the whole file under way. The answers are to reads that are under way, and no read is under way
-- when a posted report that one was not started comes.
pub Steps-IsBalanced : (s : File) → Steps init s → IsBalanced s
Steps-IsBalanced s xs = Steps-IsBalanced_from init s xs (refl, omega arith, refl)
