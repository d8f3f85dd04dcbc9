-- ===== src/File/Reading/Keeps.antt =====
-- What the reads of source/io/fs/File.cpp keep of the read buffers.
use mathlib.Core.Path.{subst}
use tarm_io.Prelude.{
  ℕ, zero, suc, ◌-◌, ◌≡◌, refl, sym, ◌∙◌, inl, inr, Bool, true, false, not, Option, none, some,
  List, get_elem?, arith, Bool-cases, if-true, if-false, ℤ, pos, negsuc, is_negative, if◌then◌else◌,
}
use tarm_io.File.{
  File, Buffer, free, reading, held, shared, kept, has_read_buffers_in_use, is_closing,
}
use tarm_io.File.Reading.{
  set, set_buffer, find_free, block_ended, on_read_not_started, read_into, read_into_found,
  schedule_read, read, free_buffer, reset_of, reset, release_of, release, deliver, after,
  read_ended, on_read, read_block, on_read_block,
}
use tarm_io.File.Reading.Buffers.{
  used, pending, total, total-set, get_elem?-set_self, find_free-get_elem?,
}
use tarm_io.File.Reading.Balance.{
  Fits, IsBalanced, Holds, Keeps, KeepsOption, Fits-hands, Fits-read, Fits-free, Fits-over,
  call_if-Keeps,
}

module _ (calls : File → File) (k : Keeps calls) (running : Bool) (status : ℤ) where
  -- Where no read is under way.
  pub on_read_not_started-IsBalanced :
      (s : File)
      → total pending s.buffers ≡ 0
      → IsBalanced s
      → IsBalanced (on_read_not_started calls running status s)
  unfolding on_read_not_started
  on_read_not_started-IsBalanced s z h =
      let v : Fits s.buffers s.blocks false = (h.0, omega (arith, z), h.2) in
      elim (Bool-cases s.read_callback) [
        | inl x ↦ subst IsBalanced (sym (if-true _ _ x)) (k _ v)
        | inr x ↦ subst IsBalanced (sym (if-false _ _ x)) v
      ]

  read_into-IsBalanced :
      (i : ℕ) (s : File)
      → get_elem? s.buffers i ≡ some free
      → Fits s.buffers s.blocks false
      → IsBalanced (read_into calls running status i s)
  unfolding read_into
  read_into-IsBalanced i s g h =
      let v = Fits-read s.buffers i s.blocks g h in
      let again = get_elem?-set_self s.buffers i free reading g in
      let bs : List Buffer = set s.buffers i reading in
      let w = Fits-over bs i (suc s.blocks) true true again v in
      let z : total pending (set bs i held) ≡ 0 =
        omega (arith, v.1, total-set pending bs i reading held again) in
      elim (Bool-cases (not (is_negative status))) [
        | inl x ↦ subst IsBalanced (sym (if-true _ _ x)) v
        | inr x ↦ elim (Bool-cases running) [
          | inl y ↦
              subst IsBalanced (sym (if-false _ _ x ∙ if-true _ _ y))
                (on_read_not_started-IsBalanced _ z w)
          | inr y ↦ subst IsBalanced (sym (if-false _ _ x ∙ if-false _ _ y)) w
        ]
      ]

  read_into_found-IsBalanced :
      (o : Option ℕ) (s : File)
      → find_free s.buffers ≡ o
      → Fits s.buffers s.blocks false
      → Fits s.buffers s.blocks s.read_in_progress
      → IsBalanced (read_into_found calls running status o s)
  unfolding read_into_found
  read_into_found-IsBalanced none s e h v = v
  read_into_found-IsBalanced (some i) s e h v =
      read_into-IsBalanced i s (find_free-get_elem? s.buffers i e) h

  pub schedule_read-Keeps : Keeps (schedule_read calls running status)
  unfolding schedule_read
  schedule_read-Keeps s h = elim (Bool-cases (not s.has_handle)) [
    | inl x ↦ subst IsBalanced (sym (if-true _ _ x)) h
    | inr x ↦ elim (Bool-cases s.removal_scheduled) [
      | inl y ↦ subst IsBalanced (sym (if-false _ _ x ∙ if-true _ _ y)) h
      | inr y ↦ elim (Bool-cases (is_closing s.state)) [
        | inl z ↦ subst IsBalanced (sym (if-false _ _ x ∙ if-false _ _ y ∙ if-true _ _ z)) h
        | inr z ↦ elim (Bool-cases s.read_in_progress) [
          | inl r ↦
              subst IsBalanced
                (sym (if-false _ _ x ∙ if-false _ _ y ∙ if-false _ _ z ∙ if-true _ _ r)) h
          | inr r ↦
              subst IsBalanced
                (sym (if-false _ _ x ∙ if-false _ _ y ∙ if-false _ _ z ∙ if-false _ _ r))
                (read_into_found-IsBalanced (find_free s.buffers) s refl
                  (subst (Fits s.buffers s.blocks) r h) h)
        ]
      ]
    ]
  ]

  pub read-Keeps : (r e : Bool) → Keeps (read calls running status r e)
  unfolding read
  read-Keeps r e s h = elim (Bool-cases (not s.has_handle)) [
    | inr x ↦ subst IsBalanced (sym (if-false _ _ x)) (
        schedule_read-Keeps
          (record s { read_callback = r; end_read_callback = e; done_read = false }) h)
    | inl x ↦ elim (Bool-cases r) [
      | inr y ↦ subst IsBalanced (sym (if-true _ _ x ∙ if-false _ _ y)) h
      | inl y ↦ elim (Bool-cases running) [
        | inl z ↦ subst IsBalanced (sym (if-true _ _ x ∙ if-true _ _ y ∙ if-true _ _ z)) (k _ h)
        | inr z ↦ subst IsBalanced (sym (if-true _ _ x ∙ if-true _ _ y ∙ if-false _ _ z)) h
      ]
    ]
  ]

  pub read_block-Keeps :
      (offset bytes : ℕ) (c : Bool) → Keeps (read_block calls running status offset bytes c)
  unfolding read_block
  read_block-Keeps offset bytes c s h = elim (Bool-cases (not s.has_handle)) [
    | inl x ↦ subst IsBalanced (sym (if-true _ _ x)) (call_if-Keeps c _ calls k s h)
    | inr x ↦ elim (Bool-cases (not (is_negative status))) [
      | inl y ↦ subst IsBalanced (sym (if-false _ _ x ∙ if-true _ _ y)) h
      | inr y ↦ elim (Bool-cases c) [
        | inl z ↦ subst IsBalanced (sym (if-false _ _ x ∙ if-false _ _ y ∙ if-true _ _ z)) h
        | inr z ↦ subst IsBalanced (sym (if-false _ _ x ∙ if-false _ _ y ∙ if-false _ _ z)) h
      ]
    ]
  ]

  block_ended-Keeps : (offset : ℕ) (n : ℤ) → Keeps (block_ended calls offset n)
  unfolding block_ended
  block_ended-Keeps offset (negsuc n) s h = k _ h
  block_ended-Keeps offset (pos zero) s h = h
  block_ended-Keeps offset (pos (suc n)) s h = k _ h

  pub on_read_block-Keeps : (offset : ℕ) (n : ℤ) → Keeps (on_read_block calls offset n)
  unfolding on_read_block
  on_read_block-Keeps offset n s h = elim (Bool-cases (not s.has_handle)) [
    | inl x ↦ subst IsBalanced (sym (if-true _ _ x)) (call_if-Keeps s.read_callback _ calls k s h)
    | inr x ↦ elim (Bool-cases s.read_callback) [
      | inl y ↦
          subst IsBalanced (sym (if-false _ _ x ∙ if-true _ _ y)) (block_ended-Keeps offset n s h)
      | inr y ↦ subst IsBalanced (sym (if-false _ _ x ∙ if-false _ _ y)) h
    ]
  ]

  module _ (again : File → Option File) (ka : KeepsOption again) where
    free_buffer-Holds :
        (i : ℕ) (s : File) (a : Buffer)
        → get_elem? s.buffers i ≡ some a
        → used a ≡ 1
        → IsBalanced s
        → Holds IsBalanced (free_buffer calls running status again i s)
    unfolding free_buffer
    free_buffer-Holds i s a g u h =
        let s' : File = record s { buffers = set s.buffers i free; blocks = s.blocks - 1 } in
        let v : IsBalanced s' = Fits-free s.buffers i s.blocks s.read_in_progress a g u h in
        elim (Bool-cases s.need_reschedule_remove) [
          | inl x ↦ elim (Bool-cases (has_read_buffers_in_use s')) [
            | inl y ↦ subst (Holds IsBalanced) (sym (if-true _ _ x ∙ if-true _ _ y)) v
            | inr y ↦ subst (Holds IsBalanced) (sym (if-true _ _ x ∙ if-false _ _ y)) (ka s' v)
          ]
          | inr x ↦ elim (Bool-cases s.done_read) [
            | inl y ↦ subst (Holds IsBalanced) (sym (if-false _ _ x ∙ if-true _ _ y)) v
            | inr y ↦
                subst (Holds IsBalanced) (sym (if-false _ _ x ∙ if-false _ _ y))
                  (schedule_read-Keeps s' v)
          ]
        ]

    reset_of-Holds :
        (o : Option Buffer) (i : ℕ) (s : File)
        → get_elem? s.buffers i ≡ o
        → IsBalanced s
        → Holds IsBalanced (reset_of calls running status again o i s)
    unfolding reset_of
    reset_of-Holds none i s g h = h
    reset_of-Holds (some free) i s g h = h
    reset_of-Holds (some reading) i s g h = free_buffer-Holds i s reading g refl h
    reset_of-Holds (some held) i s g h = free_buffer-Holds i s held g refl h
    reset_of-Holds (some shared) i s g h =
        Fits-hands s.buffers i s.blocks s.read_in_progress shared kept g refl refl refl h
    reset_of-Holds (some kept) i s g h = h

    pub reset-KeepsOption : (i : ℕ) → KeepsOption (reset calls running status again i)
    unfolding reset
    reset-KeepsOption i s h = reset_of-Holds (get_elem? s.buffers i) i s refl h

    release_of-Holds :
        (o : Option Buffer) (i : ℕ) (s : File)
        → get_elem? s.buffers i ≡ o
        → IsBalanced s
        → Holds IsBalanced (release_of calls running status again o i s)
    unfolding release_of
    release_of-Holds none i s g h = h
    release_of-Holds (some free) i s g h = h
    release_of-Holds (some reading) i s g h = h
    release_of-Holds (some held) i s g h = h
    release_of-Holds (some shared) i s g h =
        Fits-hands s.buffers i s.blocks s.read_in_progress shared held g refl refl refl h
    release_of-Holds (some kept) i s g h = free_buffer-Holds i s kept g refl h

    pub release-KeepsOption : (i : ℕ) → KeepsOption (release calls running status again i)
    unfolding release
    release-KeepsOption i s h = release_of-Holds (get_elem? s.buffers i) i s refl h

    deliver-IsBalanced :
        (keeps : Bool) (i size : ℕ) (s : File)
        → get_elem? s.buffers i ≡ some held
        → IsBalanced s
        → IsBalanced (deliver calls running status again keeps i size s)
    unfolding deliver
    deliver-IsBalanced keeps i size s g h = elim (Bool-cases s.read_callback) [
      | inr x ↦ subst IsBalanced (sym (if-false _ _ x)) h
      | inl x ↦ subst IsBalanced (sym (if-true _ _ x)) (k _ (given keeps))
    ]
      where
        given : (b : Bool) → IsBalanced (if b then set_buffer i shared s else s)
        given true =
            Fits-hands s.buffers i s.blocks s.read_in_progress held shared g refl refl refl h
        given false = h

    after-Holds :
        (o : Option File) (f : File → File)
        → Holds IsBalanced o
        → Keeps f
        → Holds IsBalanced (after calls running status again o f)
    unfolding after
    after-Holds none f h kf = tt
    after-Holds (some s) f h kf = kf s h

    -- The buffer is held by its request, which is over.
    read_ended-Holds :
        (keeps : Bool) (i : ℕ) (n : ℤ) (s : File)
        → get_elem? s.buffers i ≡ some held
        → Fits s.buffers s.blocks false
        → Holds IsBalanced (read_ended calls running status again keeps i n s)
    unfolding read_ended
    read_ended-Holds keeps i (negsuc n) s g h =
        after-Holds _ _ (reset-KeepsOption i _ h)
          (λ t v. call_if-Keeps t.read_callback _ calls k t v)
    read_ended-Holds keeps i (pos zero) s g h =
        reset-KeepsOption i _ (call_if-Keeps s.end_read_callback _ calls k _ h)
    read_ended-Holds keeps i (pos (suc n)) s g h =
        reset-KeepsOption i _ (schedule_read-Keeps _ (deliver-IsBalanced keeps i (suc n) _ g h))

    -- libuv answers a read that is under way.
    pub on_read-Holds :
        (keeps : Bool) (i : ℕ) (n : ℤ) (s : File)
        → get_elem? s.buffers i ≡ some reading
        → IsBalanced s
        → Holds IsBalanced (on_read calls running status again keeps i n s)
    unfolding on_read
    on_read-Holds keeps i n s g h = elim (Bool-cases (not s.has_handle)) [
      | inl x ↦ subst (Holds IsBalanced) (sym (if-true _ _ x)) (
          after-Holds _ _
            (reset-KeepsOption i _
              (Fits-over s.buffers i s.blocks s.read_in_progress s.read_in_progress g h))
            (λ t v. call_if-Keeps t.read_callback _ calls k t v))
      | inr x ↦ subst (Holds IsBalanced) (sym (if-false _ _ x)) (
          read_ended-Holds keeps i n (set_buffer i held s)
            (get_elem?-set_self s.buffers i reading held g)
            (Fits-over s.buffers i s.blocks s.read_in_progress false g h))
    ]
