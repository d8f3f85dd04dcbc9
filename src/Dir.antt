-- ===== src/Dir.antt =====
-- source/io/fs/Dir.cpp, `Dir::Impl`, with fs/detail/FsCommon.h. The results of libuv's calls are arguments;
-- a number that is negative is its error. A path and a name are numbers. What the user's callbacks do
-- to the directory is a function `calls`. The log has what the directory has called, asked of libuv and
-- posted to its loop, the newest first.
pub mod Listing
pub mod Removal
pub mod Stuck
mod Tests
use tarm_io.Prelude.{
  ℕ, zero, suc, Bool, true, false, not, ◌||◌, ◌&&◌, Option, none, some, List, [], ◌∷◌,
  if◌then◌else◌, ℤ, pos, negsuc, is_negative,
}
use tarm_io.StatusCode.{StatusCode, dir_not_open, operation_already_in_progress}

pub data State : Type 0 where
  initial opening opened want_close closing closed : State

-- libuv's types of entries, and those of the code.
pub data UvDirent : Type 0 where
  uv_unknown uv_file uv_dir uv_link uv_fifo uv_socket uv_char uv_block : UvDirent

pub data DirectoryEntryType : Type 0 where
  unknown file dir link fifo socket char block : DirectoryEntryType

abbrev pub convert_direntry_type : UvDirent → DirectoryEntryType
convert_direntry_type uv_file = file
convert_direntry_type uv_dir = dir
convert_direntry_type uv_link = link
convert_direntry_type uv_fifo = fifo
convert_direntry_type uv_socket = socket
convert_direntry_type uv_char = char
convert_direntry_type uv_block = block
convert_direntry_type uv_unknown = unknown

-- The error that a callback is given: one made of a result of libuv's, or a status code.
pub data Reason : Type 0 where
  of_result : ℤ → Reason
  of_status : StatusCode → Reason

-- The callback that is given to `close`: none, one of the user's, the one by which `open` opens another
-- path, for a user who gave a callback or not, and the one of the removal.
pub data CloseCallback : Type 0 where
  absent user remove : CloseCallback
  reopen : ℕ → Bool → CloseCallback

-- Whether the callbacks of a listing are given.
pub record Request : Type 0 where
  pub list_callback : Bool
  pub end_list_callback : Bool

pub data Event : Type 0 where
  called_open called_close called_end_list : Reason → Event
  called_entry : ℕ → DirectoryEntryType → Event
  asks_open : ℕ → Event
  asks_read removes : Event
  asks_close posts_close : CloseCallback → Event
  posts_open : ℕ → Bool → Event
  posts_end_list : Reason → Event

-- `uv_dir` is that the directory's handle is not null.
pub record Dir : Type 0 where
  pub state : State
  pub has_uv_dir : Bool
  pub path : Option ℕ
  pub open_callback : Bool
  pub read_request : Option Request
  pub removal_scheduled : Bool
  pub log : List Event

abbrev pub init : Dir
init = record {
  state = initial;
  has_uv_dir = false;
  path = none;
  open_callback = false;
  read_request = none;
  removal_scheduled = false;
  log = [];
}

abbrev pub logs : Event → Dir → Dir
logs e s = record s { log = e ∷ s.log }

abbrev pub call_if : Bool → Event → (Dir → Dir) → Dir → Dir
call_if b e calls s = if b then calls (logs e s) else s

abbrev pub is_opened : State → Bool
is_opened opened = true
is_opened initial = false
is_opened opening = false
is_opened want_close = false
is_opened closing = false
is_opened closed = false

abbrev pub is_new : State → Bool
is_new initial = true
is_new closed = true
is_new opened = false
is_new opening = false
is_new want_close = false
is_new closing = false

abbrev pub is_closing : State → Bool
is_closing closing = true
is_closing initial = false
is_closing opening = false
is_closing opened = false
is_closing want_close = false
is_closing closed = false

abbrev pub is_want_close : State → Bool
is_want_close want_close = true
is_want_close initial = false
is_want_close opening = false
is_want_close opened = false
is_want_close closing = false
is_want_close closed = false

abbrev pub is_reading : Option Request → Bool
is_reading none = false
is_reading (some r) = true

abbrev pub is_failure : Reason → Bool
is_failure (of_result n) = is_negative n
is_failure (of_status c) = true

-- `again` is `schedule_removal` of the directory.
module _ (again : Dir → Option Dir) (calls : Dir → Dir) where
  pub call_closed : CloseCallback → Reason → Dir → Option Dir
  call_closed absent r s = some s
  call_closed user r s = some (calls (logs (called_close r) s))
  call_closed (reopen p c) r s =
      some (if is_failure r then call_if c (called_open r) calls s else logs (posts_open p c) s)
  call_closed remove r s = again s

  pub close : CloseCallback → Dir → Option Dir
  close c s =
      if not s.has_uv_dir
      then some s
      else if is_reading s.read_request
      then some (logs (posts_close c) (record s { state = want_close }))
      else if is_closing s.state
      then call_closed c (of_status operation_already_in_progress) s
      else some (logs (asks_close c) (record s { state = closing }))

  pub open_dir : ℕ → Bool → Dir → Option Dir
  open_dir p c s =
      if is_opened s.state
      then close (reopen p c) s
      else if not (is_new s.state)
      then some (logs (posts_open p c) s)
      else some
          (logs (asks_open p) (record s { state = opening; path = some p; open_callback = c }))

  pub on_close_dir : CloseCallback → ℤ → Dir → Option Dir
  on_close_dir c result s =
      call_closed c (of_result result)
        (record s { has_uv_dir = false; path = none; state = closed })

-- `Dir::schedule_removal` with `Dir::Impl::schedule_removal`, with fuel: `none` means that it has not
-- returned within that many calls of itself.
pub schedule_removal : (Dir → Dir) → ℕ → Dir → Option Dir
schedule_removal calls zero s = none
schedule_removal calls (suc n) s =
    let s' : Dir = record s { removal_scheduled = true } in
    if s'.has_uv_dir
    then close (schedule_removal calls n) calls remove s'
    else some (logs removes s')

abbrev end_open : Bool → Dir → Dir
end_open failed s = if failed then record s { path = none } else s

module _ (calls : Dir → Dir) where
  pub on_open_dir : ℤ → Dir → Dir
  on_open_dir result s =
      let failed = is_negative result in
      let s' : Dir = if failed then s else record s { has_uv_dir = true } in
      end_open failed (
        call_if s'.open_callback (called_open (of_result result)) calls
          (record s' { state = opened }))

  -- `read_status` is what libuv returns for the first read.
  pub list : Request → ℤ → Dir → Dir
  list r read_status s =
      if not s.has_uv_dir
      then if r.end_list_callback then logs (posts_end_list (of_status dir_not_open)) s else s
      else if is_reading s.read_request
      then call_if r.end_list_callback (called_end_list (of_status operation_already_in_progress))
          calls s
      else let s' : Dir = record s { read_request = some r; log = asks_read ∷ s.log } in
        if is_negative read_status && r.end_list_callback
        then logs (posts_end_list (of_result read_status)) s'
        else s'

  end_list : Request → ℤ → Dir → Dir
  end_list r result s =
      call_if r.end_list_callback (called_end_list (of_result result)) calls
        (record s { read_request = none })

  -- An entry is read if the result is positive.
  pub on_read_dir_no_continuation : Request → ℤ → ℕ → UvDirent → Dir → Dir
  unfolding end_list
  on_read_dir_no_continuation r (negsuc n) name type s = end_list r (negsuc n) s
  on_read_dir_no_continuation r (pos zero) name type s = end_list r (pos zero) s
  on_read_dir_no_continuation r (pos (suc n)) name type s =
      let t : Dir =
        call_if r.list_callback (called_entry name (convert_direntry_type type)) calls s in
      if not (is_want_close t.state) then logs asks_read t else end_list r (pos (suc n)) t

  -- `proceeds` is what the list callback has done to the continuation.
  pub on_read_dir_with_continuation : Bool → Request → ℤ → ℕ → UvDirent → Dir → Dir
  unfolding end_list
  on_read_dir_with_continuation proceeds r (negsuc n) name type s = end_list r (negsuc n) s
  on_read_dir_with_continuation proceeds r (pos zero) name type s = end_list r (pos zero) s
  on_read_dir_with_continuation proceeds r (pos (suc n)) name type s =
      let t : Dir =
        call_if r.list_callback (called_entry name (convert_direntry_type type)) calls s in
      if r.list_callback && not proceeds then end_list r (pos (suc n)) t else logs asks_read t
