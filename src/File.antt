-- ===== src/File.antt =====
-- source/io/fs/File.cpp, `File::Impl`, as it is built for Linux, with fs/detail/FsCommon.h. The results
-- of libuv's calls are arguments; a number that is negative is its error. A path is a number. What
-- the user's callbacks do to the file is a function `calls`. The log has what the file has called,
-- asked of libuv and posted to its loop, the newest first.
pub mod Reading
pub mod Handlers
pub mod Steps
pub mod Removal
pub mod Late
mod Tests
use tarm_io.Prelude.{
  ℕ, zero, suc, Bool, true, false, not, Option, none, some, List, [], ◌∷◌, if◌then◌else◌, ℤ,
  is_negative,
}
use tarm_io.StatusCode.{StatusCode, file_not_open, operation_already_in_progress}

pub data State : Type 0 where
  initial opening opened closing closed : State

-- The error that a callback is given: one made of a result of libuv's, or a status code.
pub data Reason : Type 0 where
  of_result : ℤ → Reason
  of_status : StatusCode → Reason

-- Who refers to a read buffer: nobody, a read of libuv's that is under way, the request alone, the
-- request and the user, or the user alone. All but the first are not `is_free`.
pub data Buffer : Type 0 where
  free reading held shared kept : Buffer

-- The callback that is given to `close`: none, one of the user's, the one by which `open` opens another
-- path, for a user who gave a callback or not, and the one of the removal.
pub data CloseCallback : Type 0 where
  absent user remove : CloseCallback
  reopen : ℕ → Bool → CloseCallback

-- What the loop is to call later.
pub data Post : Type 0 where
  open_again : ℕ → Bool → Post
  report_close report_failed_close : CloseCallback → Reason → Post
  report_read report_stat : Reason → Post
  read_not_started : ℤ → Post

pub data Event : Type 0 where
  called_open called_close called_read_failed called_stat : Reason → Event
  called_read : ℕ → ℕ → Event
  called_end_read throws removes : Event
  asks_open : ℕ → Event
  asks_close : CloseCallback → Event
  asks_read : ℕ → Event
  asks_block : ℕ → ℕ → Event
  asks_stat : Bool → Event
  posts : Post → Event

-- `blocks` counts how often the file keeps its loop from its end. `has_handle` is that the file's handle
-- is not -1, and the other Booleans for callbacks and requests that they are not null.
pub record File : Type 0 where
  pub state : State
  pub has_handle : Bool
  pub path : Option ℕ
  pub open_callback : Bool
  pub read_callback : Bool
  pub end_read_callback : Bool
  pub buffers : List Buffer
  pub current_offset : ℕ
  pub read_in_progress : Bool
  pub done_read : Bool
  pub need_reschedule_remove : Bool
  pub open_request : Bool
  pub stat_request : Bool
  pub removal_scheduled : Bool
  pub blocks : ℕ
  pub log : List Event

abbrev pub init : File
init = record {
  state = initial;
  has_handle = false;
  path = none;
  open_callback = false;
  read_callback = false;
  end_read_callback = false;
  buffers = free ∷ free ∷ free ∷ free ∷ [];
  current_offset = 0;
  read_in_progress = false;
  done_read = false;
  need_reschedule_remove = false;
  open_request = false;
  stat_request = false;
  removal_scheduled = false;
  blocks = 0;
  log = [];
}

abbrev pub logs : Event → File → File
logs e s = record s { log = e ∷ s.log }

abbrev pub is_opened : State → Bool
is_opened opened = true
is_opened initial = false
is_opened opening = false
is_opened closing = false
is_opened closed = false

abbrev pub is_closing : State → Bool
is_closing closing = true
is_closing initial = false
is_closing opening = false
is_closing opened = false
is_closing closed = false

abbrev pub is_closed : State → Bool
is_closed closed = true
is_closed initial = false
is_closed opening = false
is_closed opened = false
is_closed closing = false

abbrev pub is_free : Buffer → Bool
is_free free = true
is_free reading = false
is_free held = false
is_free shared = false
is_free kept = false

abbrev pub in_use : List Buffer → Bool
in_use [] = false
in_use (b ∷ bs) = if is_free b then in_use bs else true

pub has_read_buffers_in_use : File → Bool
has_read_buffers_in_use s = in_use s.buffers

abbrev pub is_given : CloseCallback → Bool
is_given absent = false
is_given user = true
is_given remove = true
is_given (reopen p c) = true

abbrev pub is_failure : Reason → Bool
is_failure (of_result n) = is_negative n
is_failure (of_status c) = true

abbrev pub call_if : Bool → Event → (File → File) → File → File
call_if b e calls s = if b then calls (logs e s) else s

-- `again` is `schedule_removal` of the file.
module _ (again : File → Option File) (calls : File → File) where
  pub call_closed : CloseCallback → Reason → File → Option File
  call_closed absent r s = some s
  call_closed user r s = some (calls (logs (called_close r) s))
  call_closed (reopen p c) r s =
      some (
        if is_failure r then call_if c (called_open r) calls s else logs (posts (open_again p c)) s)
  call_closed remove r s =
      if has_read_buffers_in_use s
      then some (record s { need_reschedule_remove = true })
      else again s

  -- `status` is what libuv returns for the close.
  pub close : ℤ → CloseCallback → File → Option File
  close status c s =
      if not s.has_handle
      then some
          (if is_given c then logs (posts (report_close c (of_status file_not_open))) s else s)
      else if is_closing s.state
      then call_closed c (of_status operation_already_in_progress) s
      else let s' : File = record s { state = closing; log = asks_close c ∷ s.log } in
        if not (is_negative status)
        then some s'
        else let s'' : File = record s' { has_handle = false } in
          some (
            if is_given c then logs (posts (report_failed_close c (of_result status))) s'' else s'')

-- `File::schedule_removal` with `File::Impl::schedule_removal`, with fuel: `none` means that it has not
-- returned within that many calls of itself.
pub schedule_removal : (File → File) → ℤ → ℕ → File → Option File
schedule_removal calls status zero s = none
schedule_removal calls status (suc n) s =
    let s' : File = record s { removal_scheduled = true } in
    if s'.has_handle
    then close (schedule_removal calls status n) calls status remove s'
    else if has_read_buffers_in_use s'
    then some (record s' { need_reschedule_remove = true })
    else some (logs removes s')
