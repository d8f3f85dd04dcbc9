-- ===== src/File/Handlers/Tests.antt =====
-- A file whose close is not started, source/io/fs/File.cpp.
use tarm_io.Prelude.{◌≡◌, refl, true, false, Option, some, [], ◌∷◌, pos, negsuc}
use tarm_io.File.{
  File, init, opened, closing, user, close, schedule_removal, logs, posts, open_again,
  report_failed_close, of_result, asks_close, called_close, call_closed,
}
use tarm_io.File.Reading.Late.{leaves}
use tarm_io.File.Handlers.{open_file, on_failed_close, finish_if_closed}
use tarm_io.File.Handlers.Stuck.{
  opens_asked, nothing, opens, Steps, does, goes_on, reports, close_not_started-open,
}

abbrev again : File → Option File
again = schedule_removal leaves (pos 0) 3

abbrev open_one : File
open_one = record init { state = opened; has_handle = true; path = some 7 }

abbrev stuck_file : File
stuck_file = record open_one {
  state = closing;
  has_handle = false;
  log = posts (report_failed_close user (of_result (negsuc 11))) ∷ asks_close user ∷ [];
}

abbrev told_file : File
told_file = logs (called_close (of_result (negsuc 11))) stuck_file

abbrev opened_again : File
opened_again = logs (posts (open_again 8 true)) told_file

gets_stuck : close again leaves (negsuc 11) user open_one ≡ some stuck_file
unfolding close
gets_stuck = refl

stays_stuck : Steps again stuck_file opened_again
unfolding on_failed_close call_closed finish_if_closed open_file
stays_stuck =
    goes_on stuck_file told_file opened_again
      (reports leaves nothing (of_result (negsuc 11)) stuck_file told_file refl)
      (does told_file opened_again (opens (pos 0) 8 true told_file opened_again refl))

close_not_started-open_example :
    (opened_again.state ≡ closing)
    × (opened_again.has_handle ≡ false)
    × (opens_asked opened_again.log ≡ 0)
close_not_started-open_example =
    close_not_started-open again (negsuc 11) open_one stuck_file opened_again refl refl refl
      gets_stuck stays_stuck
