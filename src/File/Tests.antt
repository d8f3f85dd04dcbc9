-- ===== src/File/Tests.antt =====
-- A file that is opened, read and closed, and a removal that waits.
use tarm_io.Prelude.{◌≡◌, refl, true, false, Option, none, some, [], ◌∷◌, pos, negsuc}
use tarm_io.File.{
  File, free, reading, kept, init, opening, opened, closing, closed, schedule_removal, removes,
  logs, asks_open, asks_read,
}
use tarm_io.File.Reading.{
  read, schedule_read, read_into, read_into_found, reset_of, reset, release, deliver, after,
  read_ended, on_read,
}
use tarm_io.File.Reading.Balance.{IsBalanced}
use tarm_io.File.Reading.Chunks.{chunks, Returns, on_reads, on_reads-Returns, bind}
use tarm_io.File.Reading.Late.{leaves, reads_asked}
use tarm_io.File.Reading.Released.{schedule_removal-release}
use tarm_io.File.Handlers.{open_file, on_open}
use tarm_io.File.Removal.{schedule_removal-is_some, is_some}
use tarm_io.File.Late.{on_read-open-read}
use tarm_io.File.Steps.{
  nothing, opens, reads, Steps, does, goes_on, is_opened as libuv_opens, is_read as libuv_reads,
  Steps-IsBalanced,
}

abbrev again : File → Option File
again = schedule_removal leaves (pos 0) 3

-- The path 7 is being opened.
abbrev opening_file : File
opening_file = record init {
  state = opening;
  path = some 7;
  open_request = true;
  open_callback = true;
  log = asks_open 7 ∷ [];
}

abbrev open_steps : Steps init opening_file
open_steps =
    does init opening_file (opens leaves nothing (pos 0) 3 7 true init opening_file opens_init)
  where
    opens_init :
        open_file (schedule_removal leaves (pos 0) 3) leaves (pos 0) 7 true init ≡ some opening_file
    opens_init = unfold open_file in refl

abbrev opened_file : File
opened_file = on_open leaves true (pos 5) opening_file

abbrev read_file : File
read_file = read leaves true (pos 0) true true opened_file

abbrev or_init : Option File → File
or_init none = init
or_init (some s) = s

-- The first buffer is filled with ten bytes, which the user keeps.
abbrev filled_file : File
filled_file = or_init (on_read leaves true (pos 0) again true 0 (pos 10) read_file)

filled_steps : Steps init filled_file
unfolding on_open read schedule_read read_into read_into_found on_read after read_ended deliver
    reset reset_of
filled_steps = goes_on init opening_file filled_file open_steps (
    goes_on opening_file opened_file filled_file
      (libuv_opens leaves nothing true (pos 5) opening_file)
      (goes_on opened_file read_file filled_file
        (does opened_file read_file (reads leaves nothing true (pos 0) true true opened_file))
        (libuv_reads leaves nothing true (pos 0) 3 true 0 (pos 10) read_file filled_file refl
          refl)))

Steps-IsBalanced_example : IsBalanced filled_file
Steps-IsBalanced_example = Steps-IsBalanced filled_file filled_steps

filled_file_log :
    (filled_file.buffers ≡ kept ∷ reading ∷ free ∷ free ∷ []) × (filled_file.blocks ≡ 2)
unfolding on_open read schedule_read read_into read_into_found on_read after read_ended deliver
    reset reset_of
filled_file_log = (refl, refl)

abbrev waiting_file : File
waiting_file = record init { state = closed; buffers = kept ∷ free ∷ free ∷ free ∷ []; blocks = 1 }

schedule_removal-release_example :
    let t : File = record waiting_file {
      removal_scheduled = true;
      need_reschedule_remove = true;
    } in
    (schedule_removal leaves (pos 0) 3 waiting_file ≡ some t)
    × (release leaves true (pos 0) (schedule_removal leaves (pos 0) 3) 0 t
        ≡ some (logs removes (record t { buffers = free ∷ free ∷ free ∷ free ∷ []; blocks = 0 })))
schedule_removal-release_example =
    schedule_removal-release leaves true (pos 0) 2 0 waiting_file refl refl refl

abbrev closing_file : File
closing_file = record init { state = closing; has_handle = true; path = some 7 }

schedule_removal-is_some_example : is_some (schedule_removal leaves (pos 0) 5 closing_file) ≡ false
schedule_removal-is_some_example = schedule_removal-is_some leaves (pos 0) 4 closing_file

abbrev reading_file : File
reading_file = record init {
  state = opened;
  has_handle = true;
  read_callback = true;
  buffers = reading ∷ free ∷ free ∷ free ∷ [];
  read_in_progress = true;
  blocks = 1;
}

-- Three answers, of which the user keeps the second.
on_reads-Returns_example :
    Returns
      (λ t. (t.current_offset ≡ 60) × (chunks t.log ≡ (30, 30) ∷ (10, 20) ∷ (0, 10) ∷ []))
      (on_reads leaves true
        (pos 0)
        again
        ((false, 0, 9) ∷ (true, 1, 19) ∷ (false, 0, 29) ∷ [])
        reading_file)
on_reads-Returns_example =
    on_reads-Returns leaves (λ o cs s h. h) true (pos 0) again
      ((false, 0, 9) ∷ (true, 1, 19) ∷ (false, 0, 29) ∷ []) reading_file refl refl refl

abbrev late_file : File
late_file = record reading_file { state = closed; has_handle = false; log = asks_read 0 ∷ [] }

on_read-open-read_example :
    Returns
      (λ t.
        reads_asked (read leaves true (pos 0) true true (on_open leaves true (pos 5) t)).log
        ≡ 0 ∷ [])
      (bind
        (on_read leaves true (pos 0) again false 0 (negsuc 3) late_file)
        (open_file again leaves (pos 0) 8 true))
on_read-open-read_example =
    on_read-open-read again true false true true true (pos 0) (pos 0) 0 8 5 (negsuc 3) late_file
      refl refl refl refl refl
