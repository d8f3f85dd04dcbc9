-- ===== src/File/Reading/Chunks.antt =====
-- The chunks that a read of source/io/fs/File.cpp gives to the user.
use mathlib.Core.Path.{subst}
use tarm_io.Prelude.{
  ℕ, suc, ◌+◌, ◌≡◌, refl, sym, ap, ◌∙◌, inl, inr, Bool, true, false, not, Option, none, some, List,
  [], ◌∷◌, Bool-cases, if-true, if-false, if◌then◌else◌, ℤ, pos, is_negative,
}
use tarm_io.File.{
  File, Buffer, free, reading, held, shared, kept, is_closing, Event, called_read, logs,
}
use tarm_io.File.Reading.{
  set_buffer, find_free, on_read_not_started, read_into, read_into_found, schedule_read,
  free_buffer, reset_of, reset, deliver, read_ended, on_read,
}

-- The offsets and sizes of the chunks of a log.
abbrev pub chunks : List Event → List (ℕ × ℕ)
chunks [] = []
chunks (called_read o n ∷ es) = (o, n) ∷ chunks es
chunks (e ∷ es) = chunks es

-- The file is open and being read, at this offset and with these chunks, and no removal waits for it.
abbrev pub IsAt : ℕ → List (ℕ × ℕ) → File → Type 0
IsAt o cs s =
    (s.has_handle ≡ true)
    × (s.need_reschedule_remove ≡ false)
    × (s.read_callback ≡ true)
    × (s.current_offset ≡ o)
    × (chunks s.log ≡ cs)

abbrev pub Returns : (File → Type 0) → Option File → Type 0
Returns P none = ⊥
Returns P (some s) = P s

-- A callback that does not touch the file's reading.
abbrev pub IsQuiet : (File → File) → Type 0
IsQuiet calls = (o : ℕ) (cs : List (ℕ × ℕ)) (s : File) → IsAt o cs s → IsAt o cs (calls s)

-- Chunks of the sizes, one after the other from the offset on, the newest first.
abbrev pub spread : ℕ → List ℕ → List (ℕ × ℕ) → List (ℕ × ℕ)
spread o [] cs = cs
spread o (n ∷ ns) cs = spread (o + n) ns ((o, n) ∷ cs)

abbrev pub total_size : ℕ → List ℕ → ℕ
total_size o [] = o
total_size o (n ∷ ns) = total_size (o + n) ns

-- An answer of libuv's: whether the user keeps the chunk, the buffer, and the size less one.
abbrev pub sizes : List (Bool × ℕ × ℕ) → List ℕ
sizes [] = []
sizes ((k, i, n) ∷ ds) = suc n ∷ sizes ds

abbrev pub bind : Option File → (File → Option File) → Option File
bind none f = none
bind (some s) f = f s

pub bind-Returns :
    (P Q : File → Type 0) (o : Option File) (f : File → Option File)
    → Returns P o
    → ((s : File) → P s → Returns Q (f s))
    → Returns Q (bind o f)
bind-Returns P Q none f h k = absurd h
bind-Returns P Q (some s) f h k = k s h

module _ (calls : File → File) (running : Bool) (status : ℤ) (again : File → Option File) where
  -- The answers of libuv's, one after the other.
  pub on_reads : List (Bool × ℕ × ℕ) → File → Option File
  on_reads [] s = some s
  on_reads ((k, i, n) ∷ ds) s =
      bind (on_read calls running status again k i (pos (suc n)) s) (on_reads ds)

module _ (calls : File → File) (quiet : IsQuiet calls) (running : Bool) (status : ℤ)
    (again : File → Option File) where
  module _ (o : ℕ) (cs : List (ℕ × ℕ)) where
    not_started-IsAt :
        (s : File) → IsAt o cs s → IsAt o cs (on_read_not_started calls running status s)
    unfolding on_read_not_started
    not_started-IsAt s h = subst (IsAt o cs) (sym (if-true _ _ h.2)) (quiet o cs _ h)

    read_into-IsAt :
        (i : ℕ) (s : File) → IsAt o cs s → IsAt o cs (read_into calls running status i s)
    unfolding read_into
    read_into-IsAt i s h = elim (Bool-cases (not (is_negative status))) [
      | inl x ↦ subst (IsAt o cs) (sym (if-true _ _ x)) h
      | inr x ↦ elim (Bool-cases running) [
        | inl y ↦ subst (IsAt o cs) (sym (if-false _ _ x ∙ if-true _ _ y)) (not_started-IsAt _ h)
        | inr y ↦ subst (IsAt o cs) (sym (if-false _ _ x ∙ if-false _ _ y)) h
      ]
    ]

    found-IsAt :
        (f : Option ℕ) (s : File)
        → IsAt o cs s
        → IsAt o cs (read_into_found calls running status f s)
    unfolding read_into_found
    found-IsAt none s h = h
    found-IsAt (some i) s h = read_into-IsAt i s h

    schedule_read-IsAt : (s : File) → IsAt o cs s → IsAt o cs (schedule_read calls running status s)
    unfolding schedule_read
    schedule_read-IsAt s h =
        subst (IsAt o cs) (sym (if-false _ _ (ap not h.0))) (elim (Bool-cases s.removal_scheduled) [
          | inl y ↦ subst (IsAt o cs) (sym (if-true _ _ y)) h
          | inr y ↦ elim (Bool-cases (is_closing s.state)) [
            | inl z ↦ subst (IsAt o cs) (sym (if-false _ _ y ∙ if-true _ _ z)) h
            | inr z ↦ elim (Bool-cases s.read_in_progress) [
              | inl r ↦ subst (IsAt o cs) (sym (if-false _ _ y ∙ if-false _ _ z ∙ if-true _ _ r)) h
              | inr r ↦
                  subst (IsAt o cs) (sym (if-false _ _ y ∙ if-false _ _ z ∙ if-false _ _ r))
                    (found-IsAt (find_free s.buffers) s h)
            ]
          ]
        ])

    free_buffer-IsAt :
        (i : ℕ) (s : File)
        → IsAt o cs s
        → Returns (IsAt o cs) (free_buffer calls running status again i s)
    unfolding free_buffer
    free_buffer-IsAt i s h =
        subst (Returns (IsAt o cs)) (sym (if-false _ _ h.1)) (elim (Bool-cases s.done_read) [
          | inl y ↦ subst (Returns (IsAt o cs)) (sym (if-true _ _ y)) h
          | inr y ↦ subst (Returns (IsAt o cs)) (sym (if-false _ _ y)) (schedule_read-IsAt _ h)
        ])

    reset_of-IsAt :
        (b : Option Buffer) (i : ℕ) (s : File)
        → IsAt o cs s
        → Returns (IsAt o cs) (reset_of calls running status again b i s)
    unfolding reset_of
    reset_of-IsAt none i s h = h
    reset_of-IsAt (some free) i s h = h
    reset_of-IsAt (some reading) i s h = free_buffer-IsAt i s h
    reset_of-IsAt (some held) i s h = free_buffer-IsAt i s h
    reset_of-IsAt (some shared) i s h = h
    reset_of-IsAt (some kept) i s h = h

  deliver-IsAt :
      (o n : ℕ) (cs : List (ℕ × ℕ)) (keeps : Bool) (i : ℕ) (s : File)
      → IsAt o cs s
      → IsAt (o + n) ((o, n) ∷ cs) (deliver calls running status again keeps i n s)
  unfolding deliver
  deliver-IsAt o n cs keeps i s h = subst (IsAt (o + n) ((o, n) ∷ cs)) (sym (if-true _ _ h.2)) (
      let c =
        quiet o ((o, n) ∷ cs)
          (logs (called_read s.current_offset n) (if keeps then set_buffer i shared s else s))
          (given keeps) in
      (c.0, c.1, c.2, ap (λ x. x + n) c.3, c.4))
    where
      entry : (s.current_offset, n) ∷ chunks s.log ≡ (o, n) ∷ cs
      entry = ap (λ x. (x, n) ∷ chunks s.log) h.3 ∙ ap (λ l. (o, n) ∷ l) h.4

      given :
          (b : Bool)
          → IsAt o
              ((o, n) ∷ cs)
              (logs (called_read s.current_offset n) (if b then set_buffer i shared s else s))
      given true = (h.0, h.1, h.2, h.3, entry)
      given false = (h.0, h.1, h.2, h.3, entry)

  on_read-IsAt :
      (o n : ℕ) (cs : List (ℕ × ℕ)) (keeps : Bool) (i : ℕ) (s : File)
      → IsAt o cs s
      → Returns
          (IsAt (o + suc n) ((o, suc n) ∷ cs))
          (on_read calls running status again keeps i (pos (suc n)) s)
  unfolding on_read read_ended reset
  on_read-IsAt o n cs keeps i s h =
      subst (Returns (IsAt (o + suc n) ((o, suc n) ∷ cs))) (sym (if-false _ _ (ap not h.0)))
        (reset_of-IsAt _ _ _ i _ (schedule_read-IsAt _ _ _ (deliver-IsAt o (suc n) cs keeps i _ h)))

  on_reads-IsAt :
      (ds : List (Bool × ℕ × ℕ)) (o : ℕ) (cs : List (ℕ × ℕ)) (s : File)
      → IsAt o cs s
      → Returns
          (IsAt (total_size o (sizes ds)) (spread o (sizes ds) cs))
          (on_reads calls running status again ds s)
  unfolding on_reads
  on_reads-IsAt [] o cs s h = h
  on_reads-IsAt ((k, i, n) ∷ ds) o cs s h =
      bind-Returns (IsAt (o + suc n) ((o, suc n) ∷ cs))
        (IsAt (total_size (o + suc n) (sizes ds)) (spread (o + suc n) (sizes ds) ((o, suc n) ∷ cs)))
        _ (on_reads calls running status again ds) (on_read-IsAt o n cs k i s h)
        (λ t v. on_reads-IsAt ds (o + suc n) ((o, suc n) ∷ cs) t v)

  -- Data that libuv reads for an open file that no removal waits for is given to the user without a gap: the chunks follow one
  -- another from the current offset on, and the offset is then past the last of them. This holds
  -- whichever chunks the user keeps and whatever libuv returns for the next reads, as long as the callbacks do
  -- not touch the reading, and every answer is handled to its end.
  pub on_reads-Returns :
      (ds : List (Bool × ℕ × ℕ)) (s : File)
      → s.has_handle ≡ true
      → s.need_reschedule_remove ≡ false
      → s.read_callback ≡ true
      → Returns
          (λ t.
            (t.current_offset ≡ total_size s.current_offset (sizes ds))
            × (chunks t.log ≡ spread s.current_offset (sizes ds) (chunks s.log)))
          (on_reads calls running status again ds s)
  on_reads-Returns ds s h n r =
      weaken _ (on_reads-IsAt ds s.current_offset (chunks s.log) s (h, n, r, refl, refl))
    where
      weaken :
          (o : Option File)
          → Returns
              (IsAt
                (total_size s.current_offset (sizes ds))
                (spread s.current_offset (sizes ds) (chunks s.log)))
              o
          → Returns
              (λ t.
                (t.current_offset ≡ total_size s.current_offset (sizes ds))
                × (chunks t.log ≡ spread s.current_offset (sizes ds) (chunks s.log)))
              o
      weaken none v = v
      weaken (some t) v = (v.3, v.4)
