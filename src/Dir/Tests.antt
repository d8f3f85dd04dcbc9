-- ===== src/Dir/Tests.antt =====
-- A directory that is listed, closed while it is listed, and opened after a failure.
use tarm_io.Prelude.{◌≡◌, refl, inr, true, false, Option, none, some, [], ◌∷◌, pos, negsuc}
use tarm_io.StatusCode.{operation_already_in_progress}
use tarm_io.Dir.{
  Dir, opened, want_close, closing, uv_file, uv_dir, file, dir, user, of_result, of_status,
  called_end_list, asks_read, posts_close, posts_end_list, init, is_reading, logs, close, open_dir,
  on_open_dir, list, on_read_dir_no_continuation, schedule_removal,
}
use tarm_io.Dir.Listing.{
  leaves, given, ends, asks, both, on_entries, on_entries_until, list-given, list-until_stopped,
}
use tarm_io.Dir.Removal.{is_some, schedule_removal_returns}
use tarm_io.Dir.Stuck.{list_not_started-close, on_open_dir-open_dir}

abbrev again : Dir → Option Dir
again = schedule_removal leaves 2

abbrev open_directory : Dir
open_directory = record init { state = opened; has_uv_dir = true; path = some 7 }

list-given_example :
    let t =
      on_entries 0 ((1, uv_file) ∷ (2, uv_dir) ∷ []) (list leaves both (pos 0) open_directory) in
    let e = on_read_dir_no_continuation leaves both (pos 0) 0 uv_file t in
    (is_reading t.read_request ≡ true)
    × (asks t.log ≡ 3)
    × (given e.log ≡ (2, dir) ∷ (1, file) ∷ [])
    × (ends e.log ≡ of_result (pos 0) ∷ [])
    × (e.read_request ≡ none)
list-given_example =
    list-given ((1, uv_file) ∷ (2, uv_dir) ∷ []) (pos 0) 0 uv_file open_directory (inr refl) refl
      refl refl

list-until_stopped_example :
    let t =
      on_entries_until 0
        ((true, 1, uv_file) ∷ (false, 2, uv_dir) ∷ (true, 3, uv_file) ∷ [])
        (list leaves both (pos 0) open_directory) in
    (given t.log ≡ (2, dir) ∷ (1, file) ∷ [])
    × (is_reading t.read_request ≡ false)
    × (ends t.log ≡ of_result (pos 1) ∷ [])
    × (asks t.log ≡ 2)
list-until_stopped_example =
    list-until_stopped ((true, 1, uv_file) ∷ (false, 2, uv_dir) ∷ (true, 3, uv_file) ∷ [])
      open_directory refl refl refl

abbrev listed : Dir
listed = record open_directory { read_request = some both }

list_not_started-close_example :
    let busy : Dir = record listed {
      log = posts_end_list (of_result (negsuc 11)) ∷ asks_read ∷ [];
    } in
    let wanted : Dir = logs (posts_close user) (record busy { state = want_close }) in
    (list leaves both (negsuc 11) open_directory ≡ busy)
    × (list leaves both (pos 0) busy
        ≡ logs (called_end_list (of_status operation_already_in_progress)) busy)
    × (close again leaves user busy ≡ some wanted)
    × (close again leaves user wanted ≡ some (logs (posts_close user) wanted))
list_not_started-close_example =
    list_not_started-close again (negsuc 11) open_directory refl refl refl

on_open_dir-open_dir_example :
    open_dir again leaves 8 true (on_open_dir leaves (negsuc 1) init)
    ≡ some (on_open_dir leaves (negsuc 1) init)
on_open_dir-open_dir_example = on_open_dir-open_dir again 1 8 true init refl

removal_while_closing :
    is_some (schedule_removal leaves 3 (record open_directory { state = closing })) ≡ false
removal_while_closing =
    schedule_removal_returns leaves 2 (record open_directory { state = closing })
