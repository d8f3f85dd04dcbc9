-- ===== src/File/Handlers.antt =====
-- source/io/fs/File.cpp: `open` and `stat` of `File::Impl`, what libuv calls when an open, a close or a
-- stat is over, and the callbacks that were posted to the loop.
pub mod Keeps
pub mod Stuck
mod Tests
use tarm_io.Prelude.{
  ℕ, Bool, true, false, not, ◌||◌, Option, none, some, List, ◌∷◌, if◌then◌else◌, ℤ, pos,
  is_negative,
}
use tarm_io.StatusCode.{file_not_open, operation_already_in_progress, ok}
use tarm_io.File.{
  File, State, initial, opening, opened, closing, closed, is_opened, is_closed, Reason, of_result,
  of_status, CloseCallback, reopen, Event, called_open, called_stat, called_read_failed, asks_open,
  asks_stat, posts, open_again, report_stat, logs, call_if, call_closed, close,
}

-- Whether a file can be opened at once.
abbrev pub is_initial : State → Bool
is_initial initial = true
is_initial opening = false
is_initial opened = false
is_initial closing = false
is_initial closed = false

unfoldable pub finish_close : File → File
finish_close s = record s { open_request = false; path = none }

module _ (again : File → Option File) (calls : File → File) where
  unfoldable pub open_file : ℤ → ℕ → Bool → File → Option File
  open_file close_status path callback s =
      if is_opened s.state
      then close again calls close_status (reopen path callback) s
      else if not (is_initial s.state || is_closed s.state)
      then some (logs (posts (open_again path callback)) s)
      else some (record s {
        state = opening;
        path = some path;
        current_offset = 0;
        open_request = true;
        open_callback = callback;
        log = asks_open path ∷ s.log;
      })

  unfoldable pub finish_if_closed : Option File → Option File
  finish_if_closed none = none
  finish_if_closed (some s) = some (if is_closed s.state then finish_close s else s)

  unfoldable pub on_close : CloseCallback → ℤ → File → Option File
  unfolding finish_if_closed
  on_close c result s = finish_if_closed (
      call_closed again calls c (of_result result)
        (record s { has_handle = false; state = closed }))

  -- The posted callback of a close that libuv did not start.
  unfoldable pub on_failed_close : CloseCallback → Reason → File → Option File
  unfolding finish_if_closed
  on_failed_close c r s = finish_if_closed (call_closed again calls c r s)

abbrev pub end_open : File → File
end_open s = record s { open_request = false }

abbrev end_failed_open : File → File
end_failed_open s = record s { path = none; state = closed; open_request = false }

-- `attached` is that the request still has the file, which a close takes away from it.
unfoldable pub on_open : (File → File) → Bool → ℤ → File → File
on_open calls attached result s =
    if not attached
    then s
    else if is_negative result
    then end_failed_open (call_if s.open_callback (called_open (of_result result)) calls s)
    else let s' : File = record s { has_handle = true } in
      end_open (
        if s'.open_callback
        then calls (logs (called_open (of_status ok)) (record s' { state = opened }))
        else s')

unfoldable pub stat : Bool → File → File
stat callback s =
    if not s.has_handle
    then if callback then logs (posts (report_stat (of_status file_not_open))) s else s
    else if s.stat_request
    then if callback
      then logs (posts (report_stat (of_status operation_already_in_progress))) s
      else s
    else record s { stat_request = true; log = asks_stat callback ∷ s.log }

unfoldable pub on_stat : (File → File) → Bool → ℤ → File → File
on_stat calls callback result s =
    call_if callback (called_stat (of_result result)) calls (record s { stat_request = false })

-- The posted reports to the user's callbacks.
unfoldable pub on_report_read : (File → File) → Reason → File → File
on_report_read calls r s = calls (logs (called_read_failed r) s)

unfoldable pub on_report_stat : (File → File) → Reason → File → File
on_report_stat calls r s = calls (logs (called_stat r) s)
