-- ===== src/File/Late.antt =====
-- A file of source/io/fs/File.cpp that is closed while libuv reads, and opened again.
use tarm_io.Prelude.{ℕ, ◌≡◌, refl, Bool, true, false, Option, none, some, get_elem?, ℤ, pos}
use tarm_io.File.{File, closed, reading}
use tarm_io.File.Reading.{on_read, read}
use tarm_io.File.Reading.Chunks.{Returns, bind, bind-Returns}
use tarm_io.File.Reading.Late.{IsBusy, IsLate, leaves, reads_asked, on_read-IsLate, read-IsBusy}
use tarm_io.File.Handlers.{open_file, on_open}
use tarm_io.File.Handlers.Stuck.{open_file-IsBusy, on_open-IsBusy}

-- A file that was closed while a read was under way, and that no removal waits for: when the answer comes, and the
-- file is then opened again with success, a `read` asks libuv for no data, whether the earlier one was
-- answered with data or not. This is where the callbacks do nothing to the file.
pub on_read-open-read :
    (again : File → Option File) (running keeps c r e : Bool) (status status' : ℤ) (i p fd : ℕ)
    (n : ℤ) (s : File)
    → get_elem? s.buffers i ≡ some reading
    → s.read_in_progress ≡ true
    → s.has_handle ≡ false
    → s.state ≡ closed
    → s.need_reschedule_remove ≡ false
    → Returns
        (λ t.
          reads_asked (read leaves running status r e (on_open leaves true (pos fd) t)).log
          ≡ reads_asked s.log)
        (bind
          (on_read leaves running status again keeps i n s)
          (open_file again leaves status' p c))
on_read-open-read again running keeps c r e status status' i p fd n s g b h st m =
    bind-Returns (IsLate (reads_asked s.log) closed) _ _ _
      (on_read-IsLate running status (reads_asked s.log) again closed keeps i n s g m
        ((b, refl), h, st))
      (λ t v. opened t v)
  where
    opened :
        (t : File)
        → IsLate (reads_asked s.log) closed t
        → Returns
            (λ u.
              reads_asked (read leaves running status r e (on_open leaves true (pos fd) u)).log
              ≡ reads_asked s.log)
            (open_file again leaves status' p c t)
    opened t v = read_again _ (open_file-IsBusy again status' p c (reads_asked s.log) t v)
      where
        read_again :
            (o : Option File)
            → Returns (IsBusy (reads_asked s.log)) o
            → Returns
                (λ u.
                  reads_asked (read leaves running status r e (on_open leaves true (pos fd) u)).log
                  ≡ reads_asked s.log)
                o
        read_again none w = w
        read_again (some u) w =
            (read-IsBusy running status (reads_asked s.log) r e _
              (on_open-IsBusy (reads_asked s.log) fd u w)).1
