-- ===== src/Dir/Stuck.antt =====
-- Closing a directory that is being listed, and states that source/io/fs/Dir.cpp does not leave.
use tarm_io.Prelude.{
  ℕ, ◌≡◌, refl, ap, ◌∙◌, Bool, true, false, not, ◌&&◌, Option, none, some, ◌∷◌, if-true, if-false,
  ℤ, pos, negsuc, is_negative,
}
use tarm_io.StatusCode.{operation_already_in_progress}
use tarm_io.Dir.{
  Dir, UvDirent, convert_direntry_type, opened, want_close, closing, user, of_result, of_status,
  Event, called_open, called_entry, called_end_list, asks_close, asks_read, posts_close,
  posts_end_list, is_reading, is_opened, logs, call_if, close, open_dir, on_open_dir, list,
  end_list, on_read_dir_no_continuation,
}
use tarm_io.Dir.Listing.{leaves, both}

-- A directory that is closed while it is listed: the close posts itself, the next entry ends the listing,
-- and the posted close then asks libuv to close the directory. Callbacks do nothing to the directory.
pub close-list :
    (again : Dir → Option Dir) (n : ℕ) (t : UvDirent) (s : Dir)
    → s.has_uv_dir ≡ true
    → is_reading s.read_request ≡ true
    → let wanted : Dir = logs (posts_close user) (record s { state = want_close }) in
      let ended : Dir = record wanted {
        read_request = none;
        log =
            called_end_list (of_result (pos 1))
            ∷ called_entry n (convert_direntry_type t)
            ∷ wanted.log;
      } in
      (close again leaves user s ≡ some wanted)
      × (on_read_dir_no_continuation leaves both (pos 1) n t wanted ≡ ended)
      × (close again leaves user ended
          ≡ some (logs (asks_close user) (record ended { state = closing })))
unfolding close on_read_dir_no_continuation end_list
close-list again n t s h r =
    (if-false _ _ (ap not h) ∙ if-true _ _ r, refl, if-false _ _ (ap not h))

-- The first read of a listing that libuv does not start: the end callback is told by a posted call, but
-- the directory stays as if it were listed, so that another listing is refused and a close only posts
-- itself, again and again. Both callbacks are given, and do nothing to the directory.
pub list_not_started-close :
    (again : Dir → Option Dir) (status : ℤ) (s : Dir)
    → s.has_uv_dir ≡ true
    → s.read_request ≡ none
    → is_negative status ≡ true
    → let busy : Dir = record s {
      read_request = some both;
      log = posts_end_list (of_result status) ∷ asks_read ∷ s.log;
    } in
      let wanted : Dir = logs (posts_close user) (record busy { state = want_close }) in
      (list leaves both status s ≡ busy)
      × (list leaves both (pos 0) busy
          ≡ logs (called_end_list (of_status operation_already_in_progress)) busy)
      × (close again leaves user busy ≡ some wanted)
      × (close again leaves user wanted ≡ some (logs (posts_close user) wanted))
unfolding list close
list_not_started-close again status s h r f = (
  if-false _ _ (ap not h) ∙ if-false _ _ (ap is_reading r) ∙ if-true _ _ (ap (λ b. b && true) f),
  if-false _ _ (ap not h),
  if-false _ _ (ap not h),
  if-false _ _ (ap not h),
)

told_open :
    (b : Bool) (e : Event) (s : Dir)
    → ((call_if b e leaves s).state ≡ s.state) × ((call_if b e leaves s).has_uv_dir ≡ s.has_uv_dir)
told_open true e s = (refl, refl)
told_open false e s = (refl, refl)

-- After an open that failed, an open of the directory, of the same path or another, does nothing at all: no request is made, and its
-- callback is never called. Callbacks do nothing to the directory.
pub on_open_dir-open_dir :
    (again : Dir → Option Dir) (n p : ℕ) (c : Bool) (s : Dir)
    → s.has_uv_dir ≡ false
    → let t = on_open_dir leaves (negsuc n) s in open_dir again leaves p c t ≡ some t
unfolding open_dir on_open_dir close
on_open_dir-open_dir again n p c s h =
    let told =
      told_open s.open_callback (called_open (of_result (negsuc n)))
        (record s { state = opened }) in
    if-true _ _ (ap is_opened told.0) ∙ if-true _ _ (ap not (told.1 ∙ h))
