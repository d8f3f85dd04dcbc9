-- ===== src/File/Reading.antt =====
-- source/io/fs/File.cpp: the reads of `File::Impl`, with the deleter of a read buffer.
pub mod Buffers
pub mod Balance
pub mod Keeps
pub mod Released
pub mod Chunks
pub mod Late
use tarm_io.Prelude.{
  ℕ, zero, suc, ◌+◌, ◌-◌, Bool, true, false, not, ◌||◌, Option, none, some, List, [], ◌∷◌,
  get_elem?, if◌then◌else◌, ℤ, pos, negsuc, is_negative,
}
use tarm_io.StatusCode.{file_not_open}
use tarm_io.File.{
  File, Buffer, free, reading, held, shared, kept, is_free, is_closing, has_read_buffers_in_use,
  Reason, of_result, of_status, Event, called_read_failed, called_read, called_end_read, throws,
  asks_read, asks_block, posts, report_read, read_not_started, logs, call_if,
}

abbrev pub set : List Buffer → ℕ → Buffer → List Buffer
set [] i b = []
set (x ∷ xs) zero b = b ∷ xs
set (x ∷ xs) (suc i) b = x ∷ set xs i b

abbrev pub set_buffer : ℕ → Buffer → File → File
set_buffer i b s = record s { buffers = set s.buffers i b }

abbrev pub next : Option ℕ → Option ℕ
next none = none
next (some i) = some (suc i)

abbrev pub find_free : List Buffer → Option ℕ
find_free [] = none
find_free (b ∷ bs) = if is_free b then some 0 else next (find_free bs)

abbrev advance : ℕ → File → File
advance size s = record s { current_offset = s.current_offset + size }

-- `running` is that the loop runs, and `status` what libuv returns for a read.
module _ (calls : File → File) (running : Bool) (status : ℤ) where
  -- libuv did not start the read. The callback is called without a test.
  unfoldable pub on_read_not_started : File → File
  on_read_not_started s =
      let s' : File = record s { read_in_progress = false } in
      if s'.read_callback
      then calls (logs (called_read_failed (of_result status)) s')
      else logs throws s'

  -- `schedule_read` of a request.
  unfoldable pub read_into : ℕ → File → File
  read_into i s =
      let s' : File = record s {
        buffers = set s.buffers i reading;
        read_in_progress = true;
        blocks = suc s.blocks;
        log = asks_read i ∷ s.log;
      } in
      if not (is_negative status)
      then s'
      else if running
      then on_read_not_started (set_buffer i held s')
      else logs (posts (read_not_started status)) (set_buffer i held s')

  unfoldable pub read_into_found : Option ℕ → File → File
  read_into_found none s = s
  read_into_found (some i) s = read_into i s

  unfoldable pub schedule_read : File → File
  unfolding read_into_found
  schedule_read s =
      if not s.has_handle
      then s
      else if s.removal_scheduled
      then s
      else if is_closing s.state
      then s
      else if s.read_in_progress
      then s
      else read_into_found (find_free s.buffers) s

  unfoldable pub read : Bool → Bool → File → File
  read read_callback end_read_callback s =
      if not s.has_handle
      then if read_callback
        then if running
          then calls (logs (called_read_failed (of_status file_not_open)) s)
          else logs (posts (report_read (of_status file_not_open))) s
        else s
      else schedule_read (record s {
        read_callback = read_callback;
        end_read_callback = end_read_callback;
        done_read = false;
      })

  module _ (again : File → Option File) where
    -- The deleter, which runs when the last reference to the buffer is gone.
    unfoldable pub free_buffer : ℕ → File → Option File
    free_buffer i s =
        let s' : File = record s { buffers = set s.buffers i free; blocks = s.blocks - 1 } in
        if s'.need_reschedule_remove
        then if has_read_buffers_in_use s' then some s' else again s'
        else if s'.done_read
        then some s'
        else some (schedule_read s')

    unfoldable pub reset_of : Option Buffer → ℕ → File → Option File
    reset_of (some held) i s = free_buffer i s
    reset_of (some shared) i s = some (set_buffer i kept s)
    reset_of (some free) i s = some s
    reset_of (some reading) i s = free_buffer i s
    reset_of (some kept) i s = some s
    reset_of none i s = some s

    -- The request drops its reference.
    unfoldable pub reset : ℕ → File → Option File
    unfolding reset_of
    reset i s = reset_of (get_elem? s.buffers i) i s

    unfoldable pub release_of : Option Buffer → ℕ → File → Option File
    release_of (some kept) i s = free_buffer i s
    release_of (some shared) i s = some (set_buffer i held s)
    release_of (some free) i s = some s
    release_of (some reading) i s = some s
    release_of (some held) i s = some s
    release_of none i s = some s

    -- The user drops the last copy of a chunk.
    unfoldable pub release : ℕ → File → Option File
    unfolding release_of
    release i s = release_of (get_elem? s.buffers i) i s

    -- A chunk is given to the user, who keeps a copy of it or not.
    unfoldable pub deliver : Bool → ℕ → ℕ → File → File
    deliver keeps i size s =
        let given : File = if keeps then set_buffer i shared s else s in
        if s.read_callback
        then advance size (calls (logs (called_read s.current_offset size) given))
        else s

    unfoldable pub after : Option File → (File → File) → Option File
    after none f = none
    after (some s) f = some (f s)

    -- `s` is the file with the request ended.
    unfoldable pub read_ended : Bool → ℕ → ℤ → File → Option File
    unfolding after
    read_ended keeps i (negsuc n) s =
        after (reset i (record s { read_in_progress = false; done_read = true }))
          (λ t. call_if t.read_callback (called_read_failed (of_result (negsuc n))) calls t)
    read_ended keeps i (pos zero) s =
        let t : File = record s { read_in_progress = false; done_read = true } in
        reset i (call_if t.end_read_callback called_end_read calls t)
    read_ended keeps i (pos (suc n)) s =
        reset i (schedule_read (deliver keeps i (suc n) (record s { read_in_progress = false })))

    unfoldable pub on_read : Bool → ℕ → ℤ → File → Option File
    unfolding after read_ended
    on_read keeps i result s =
        let s' : File = set_buffer i held s in
        if not s.has_handle
        then after (reset i s')
            (λ t. call_if t.read_callback (called_read_failed (of_status file_not_open)) calls t)
        else read_ended keeps i result s'

  unfoldable pub read_block : ℕ → ℕ → Bool → File → File
  read_block offset bytes read_callback s =
      if not s.has_handle
      then call_if read_callback (called_read_failed (of_status file_not_open)) calls s
      else let s' : File = record s {
        read_callback = read_callback;
        log = asks_block offset bytes ∷ s.log;
      } in
        if not (is_negative status)
        then s'
        else if read_callback
        then logs (posts (report_read (of_result status))) s'
        else s'

unfoldable pub block_ended : (File → File) → ℕ → ℤ → File → File
block_ended calls offset (negsuc n) s = calls (logs (called_read_failed (of_result (negsuc n))) s)
block_ended calls offset (pos zero) s = s
block_ended calls offset (pos (suc n)) s = calls (logs (called_read offset (suc n)) s)

unfoldable pub on_read_block : (File → File) → ℕ → ℤ → File → File
unfolding block_ended
on_read_block calls offset result s =
    if not s.has_handle
    then call_if s.read_callback (called_read_failed (of_status file_not_open)) calls s
    else if s.read_callback
    then block_ended calls offset result s
    else s
