-- ===== src/File/Reading/Released.antt =====
-- A removal that waits for a read buffer, source/io/fs/File.cpp.
use tarm_io.Prelude.{
  ℕ, suc, ◌-◌, ◌≡◌, refl, ap, ◌∙◌, Bool, true, false, Option, some, get_elem?, if-true, if-false, ℤ,
}
use tarm_io.File.{
  File, free, kept, in_use, has_read_buffers_in_use, removes, logs, schedule_removal,
}
use tarm_io.File.Reading.{set, free_buffer, release_of, release}
use tarm_io.File.Reading.Buffers.{get_elem?-in_use}

module _ (calls : File → File) (running : Bool) (status : ℤ) (n i : ℕ) where
  abbrev again : File → Option File
  again = schedule_removal calls status (suc n)

  release_kept :
      (s : File)
      → get_elem? s.buffers i ≡ some kept
      → release calls running status again i s ≡ free_buffer calls running status again i s
  unfolding release release_of
  release_kept s g = ap (λ o. release_of calls running status again o i s) g

  -- A file that is not open, and of which the user keeps one buffer and no other is in use: a removal only
  -- makes it wait, and when the user drops the buffer the file is removed.
  pub schedule_removal-release :
      (s : File)
      → s.has_handle ≡ false
      → get_elem? s.buffers i ≡ some kept
      → in_use (set s.buffers i free) ≡ false
      → let t : File = record s { removal_scheduled = true; need_reschedule_remove = true } in
        (again s ≡ some t)
        × (release calls running status again i t
            ≡ some
                (logs removes (record t { buffers = set s.buffers i free; blocks = s.blocks - 1 })))
  unfolding schedule_removal has_read_buffers_in_use free_buffer
  schedule_removal-release s h g b = (
    if-false _ _ h ∙ if-true _ _ (get_elem?-in_use s.buffers i kept g refl),
    release_kept (record s { removal_scheduled = true; need_reschedule_remove = true }) g
        ∙ if-false _ _ b
        ∙ if-false _ _ h
        ∙ if-false _ _ b,
  )
