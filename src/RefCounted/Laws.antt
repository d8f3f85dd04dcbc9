-- ===== src/RefCounted/Laws.antt =====
-- An object is deleted once, source/io/Removable.cpp and RefCounted.cpp.
use mathlib.Core.Path.{subst}
use tarm_io.Prelude.{
  ℕ, zero, suc, ◌+◌, ◌-◌, ◌<◌, ◌≡◌, refl, sym, ap, ◌∙◌, arith, Bool, false, Bool-cases, ◌==◌,
  if-true, if-false, inl, inr,
}
use tarm_io.RefCounted.{
  Removable, schedule_removal, set_on_schedule_removal, on_removal, on_delete_idle_handle_close,
  RefCounted, init, ref, unref,
}

-- The removals of an object, on whatever way they are.
abbrev pub removals : Removable → ℕ
removals s = s.idles + s.closing + s.deleted

abbrev pub expected : ℕ → ℕ
expected zero = 1
expected (suc n) = 0

-- One removal once there is no reference, and none before, besides `n` that were asked for directly.
abbrev pub IsValid : ℕ → RefCounted → Type 0
IsValid n s = removals s.removable ≡ n + expected s.ref_counter

-- A holder of a reference takes another one. The number counts the direct calls of `schedule_removal`.
pub data Step : ℕ → RefCounted → ℕ → RefCounted → Type 0 where
  refs : (n : ℕ) (s : RefCounted) → 0 < s.ref_counter → Step n s n (ref s)
  unrefs : (n : ℕ) (s : RefCounted) → Step n s n (unref s)
  schedules :
      (n : ℕ) (s : RefCounted)
      → Step n s (suc n) (record s { removable = schedule_removal s.removable })
  sets :
      (n : ℕ) (s : RefCounted) (b : Bool)
      → Step n s n (record s { removable = set_on_schedule_removal s.removable b })
  removes :
      (n : ℕ) (s : RefCounted)
      → 0 < s.removable.idles
      → Step n s n (record s { removable = on_removal s.removable })
  deletes :
      (n : ℕ) (s : RefCounted)
      → 0 < s.removable.closing
      → Step n s n (record s { removable = on_delete_idle_handle_close s.removable })

pub data Steps : ℕ → RefCounted → ℕ → RefCounted → Type 0 where
  stop : (n : ℕ) (s : RefCounted) → Steps n s n s
  go : (n m k : ℕ) (s t u : RefCounted) → Step n s m t → Steps m t k u → Steps n s k u

expected_held : (c : ℕ) → 0 < c → expected c ≡ expected (suc c)
expected_held zero h = absurd (omega arith)
expected_held (suc c) h = refl

expected_zero : (n : ℕ) → n ≡ 0 → expected n ≡ 1
expected_zero n e = ap expected e

expected_more : (n : ℕ) → (n == 0) ≡ false → expected n ≡ 0
expected_more zero h = ground arith
expected_more (suc n) h = refl

unref-IsValid : (n : ℕ) (s : RefCounted) → IsValid n s → IsValid n (unref s)
unfolding unref schedule_removal
unref-IsValid n s h = elim (Bool-cases (s.ref_counter == 0)) [
  | inl x ↦ subst (IsValid n) (sym (if-true _ _ x)) h
  | inr x ↦
      let before = expected_more s.ref_counter x in
      elim (Bool-cases ((s.ref_counter - 1) == 0)) [
        | inl y ↦
            let last : s.ref_counter - 1 ≡ 0 = ground arith in
            let one = expected_zero (s.ref_counter - 1) last in
            subst (IsValid n) (sym (if-false _ _ x ∙ if-true _ _ y)) (omega (arith, h, before, one))
        | inr y ↦
            let more = expected_more (s.ref_counter - 1) y in
            subst (IsValid n) (sym (if-false _ _ x ∙ if-false _ _ y))
              (omega (arith, h, before, more))
      ]
]

sets-IsValid :
    (n : ℕ) (s : RefCounted) (b : Bool)
    → IsValid n s
    → IsValid n (record s { removable = set_on_schedule_removal s.removable b })
unfolding set_on_schedule_removal
sets-IsValid n s b h = elim (Bool-cases s.removable.about_to_remove) [
  | inl x ↦ ap removals (if-true _ _ x) ∙ h
  | inr x ↦ ap removals (if-false _ _ x) ∙ h
]

step-IsValid : (n m : ℕ) (s t : RefCounted) → Step n s m t → IsValid n s → IsValid m t
unfolding ref on_removal on_delete_idle_handle_close schedule_removal
step-IsValid _ _ _ _ (refs n s h) e = omega (arith, e, expected_held s.ref_counter h)
step-IsValid _ _ _ _ (unrefs n s) e = unref-IsValid n s e
step-IsValid _ _ _ _ (schedules n s) e = omega (arith, e)
step-IsValid _ _ _ _ (sets n s b) e = sets-IsValid n s b e
step-IsValid _ _ _ _ (removes n s h) e = omega (arith, h, e)
step-IsValid _ _ _ _ (deletes n s h) e = omega (arith, h, e)

Steps-IsValid : (n m : ℕ) (s t : RefCounted) → Steps n s m t → IsValid n s → IsValid m t
Steps-IsValid _ _ _ _ (stop n s) e = e
Steps-IsValid _ _ _ _ (go n m k s t u x xs) e = Steps-IsValid m k t u xs (step-IsValid n m s t x e)

-- However references are taken by those who hold one and given up, also more often than there are
-- any, however often a removal is scheduled directly, and however the loop's steps fall between: the
-- removals of the object that are to come, under way or done, each of which deletes it once, are those scheduled directly, and one more
-- exactly if there is no reference left. References are only taken while there are any.
pub Steps-removals :
    (n : ℕ) (s : RefCounted)
    → Steps 0 init n s
    → s.removable.idles + s.removable.closing + s.removable.deleted ≡ n + expected s.ref_counter
Steps-removals n s xs = Steps-IsValid 0 n init s xs refl
