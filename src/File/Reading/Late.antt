-- ===== src/File/Reading/Late.antt =====
-- A read of source/io/fs/File.cpp that is answered after the file was closed.
use mathlib.Core.Path.{subst}
use tarm_io.Prelude.{
  ℕ, ◌≡◌, sym, ap, ◌∙◌, inl, inr, Bool, true, false, not, Option, none, some, List, [], ◌∷◌,
  get_elem?, Bool-cases, if-true, if-false, ℤ,
}
use tarm_io.File.{
  File, State, reading, held, is_closing, Event, asks_read, called_read_failed, call_if, Reason,
}
use tarm_io.File.Reading.{
  set_buffer, schedule_read, read, free_buffer, reset_of, reset, after, on_read,
}
use tarm_io.File.Reading.Buffers.{get_elem?-set_self}
use tarm_io.File.Reading.Chunks.{Returns}

-- The buffers of the reads that libuv was asked for.
abbrev pub reads_asked : List Event → List ℕ
reads_asked [] = []
reads_asked (asks_read i ∷ es) = i ∷ reads_asked es
reads_asked (e ∷ es) = reads_asked es

abbrev pub leaves : File → File
leaves s = s

-- A read is under way as far as the file knows, and no further one was asked for.
abbrev pub IsBusy : List ℕ → File → Type 0
IsBusy is s = (s.read_in_progress ≡ true) × (reads_asked s.log ≡ is)

-- So, and the file is closed.
abbrev pub IsLate : List ℕ → State → File → Type 0
IsLate is st s = IsBusy is s × (s.has_handle ≡ false) × (s.state ≡ st)

module _ (running : Bool) (status : ℤ) (is : List ℕ) where
  pub read-IsBusy :
      (r e : Bool) (s : File) → IsBusy is s → IsBusy is (read leaves running status r e s)
  unfolding read schedule_read
  read-IsBusy r e s h = elim (Bool-cases (not s.has_handle)) [
    | inr x ↦
        subst (IsBusy is) (sym (if-false _ _ x ∙ if-false _ _ x))
          (elim (Bool-cases s.removal_scheduled) [
            | inl y ↦ subst (IsBusy is) (sym (if-true _ _ y)) h
            | inr y ↦ elim (Bool-cases (is_closing s.state)) [
              | inl z ↦ subst (IsBusy is) (sym (if-false _ _ y ∙ if-true _ _ z)) h
              | inr z ↦
                  subst (IsBusy is) (sym (if-false _ _ y ∙ if-false _ _ z ∙ if-true _ _ h.0)) h
            ]
          ])
    | inl x ↦ elim (Bool-cases r) [
      | inr y ↦ subst (IsBusy is) (sym (if-true _ _ x ∙ if-false _ _ y)) h
      | inl y ↦ elim (Bool-cases running) [
        | inl z ↦ subst (IsBusy is) (sym (if-true _ _ x ∙ if-true _ _ y ∙ if-true _ _ z)) h
        | inr z ↦ subst (IsBusy is) (sym (if-true _ _ x ∙ if-true _ _ y ∙ if-false _ _ z)) h
      ]
    ]
  ]

  module _ (again : File → Option File) (st : State) where
    free_buffer-IsLate :
        (i : ℕ) (s : File)
        → s.need_reschedule_remove ≡ false
        → IsLate is st s
        → Returns (IsLate is st) (free_buffer leaves running status again i s)
    unfolding free_buffer schedule_read
    free_buffer-IsLate i s m h =
        subst (Returns (IsLate is st)) (sym (if-false _ _ m)) (elim (Bool-cases s.done_read) [
          | inl y ↦ subst (Returns (IsLate is st)) (sym (if-true _ _ y)) h
          | inr y ↦
              subst (Returns (IsLate is st))
                (sym (if-false _ _ y ∙ ap some (if-true _ _ (ap not h.1)))) h
        ])

    after-IsLate :
        (o : Option File) (f : File → File)
        → Returns (IsLate is st) o
        → ((t : File) → IsLate is st t → IsLate is st (f t))
        → Returns (IsLate is st) (after leaves running status again o f)
    unfolding after
    after-IsLate none f h k = h
    after-IsLate (some t) f h k = k t h

    told :
        (b : Bool) (r : Reason) (t : File)
        → IsLate is st t
        → IsLate is st (call_if b (called_read_failed r) leaves t)
    told true r t h = h
    told false r t h = h

    -- Only where no removal waits for the buffer.
    pub on_read-IsLate :
        (keeps : Bool) (i : ℕ) (n : ℤ) (s : File)
        → get_elem? s.buffers i ≡ some reading
        → s.need_reschedule_remove ≡ false
        → IsLate is st s
        → Returns (IsLate is st) (on_read leaves running status again keeps i n s)
    unfolding on_read reset reset_of
    on_read-IsLate keeps i n s g m h =
        subst (Returns (IsLate is st)) (sym (if-true _ _ (ap not h.1))) (
          after-IsLate _ _
            (subst
              (λ b.
                Returns (IsLate is st)
                  (reset_of leaves running status again b i (set_buffer i held s)))
              (sym (get_elem?-set_self s.buffers i reading held g))
              (free_buffer-IsLate i (set_buffer i held s) m h))
            (λ t v. told t.read_callback _ t v))
