-- ===== src/Backlog/Rounds.antt =====
-- The timers' rounds, source/io/BacklogWithTimeout.h: no item is lost or doubled.
use mathlib.Core.Path.{subst}
use tarm_io.Prelude.{
  ℕ, zero, suc, ◌+◌, ◌-◌, ◌<◌, ◌≡◌, refl, sym, ap, ◌∙◌, arith, Bool, true, false, Bool-cases, some,
  none, List, [], ◌∷◌, ◌++◌, length, get_elem?, if-true, if-false, length-append, ◌==◌, leb, inl,
  inr,
}
use mathlib.Core.List.{append-nil, append_assoc}
use tarm_io.Backlog.{
  Backlog, Outcome, returned, stuck, expired_first, bucket, push_at, put_at, bucket_index_from_time,
  sub_u64, round, at_item, on_timer_loop, on_timer, is_empty,
}
use tarm_io.Backlog.Timers.{bucket_index_from_time_bounds}
use tarm_io.Backlog.Buckets.{
  one, count, total, count-append, total-push_at, total-put_at, length-push_at, length-put_at,
  bucket-push_at,
}

-- An expiry callback that leaves the backlog as it is.
abbrev pub leaves : {T : Type 0} → Backlog T → T → Backlog T
leaves s t = s

-- A bucket for each timer.
abbrev pub IsBuilt : {T : Type 0} → Backlog T → Type 0
IsBuilt s = (length s.items ≡ length s.timers) × (0 < length s.timers)

-- The outcome is a backlog with its buckets, and the items of it and those that expired add up.
abbrev pub Totals : {T : Type 0} → (T → Bool) → Outcome T → ℕ → Type 0
Totals p (returned s ts) n = IsBuilt s × (total p s.items + count p ts ≡ n)
Totals p stuck n = ⊥

get_elem?-append :
    {T : Type 0} (xs ys : List T) (t : T) → get_elem? (xs ++ t ∷ ys) (length xs) ≡ some t
get_elem?-append [] ys t = refl
get_elem?-append (x ∷ xs) ys t = get_elem?-append xs ys t

get_elem?-end : {T : Type 0} (xs : List T) → get_elem? xs (length xs) ≡ none
get_elem?-end [] = refl
get_elem?-end (x ∷ xs) = get_elem?-end xs

pub built_full : {T : Type 0} (s : Backlog T) → IsBuilt s → is_empty s.timers ≡ false
built_full s h = full s.timers h.1
  where
    full : (ts : List ℕ) → 0 < length ts → is_empty ts ≡ false
    full [] h = absurd (omega arith)
    full (t ∷ ts) h = refl

module _ {T : Type 0} (time_of : T → ℕ) (next : Backlog T → List T → Outcome T)
    (now index : ℕ) where
  abbrev goal_bucket : Backlog T → T → ℕ
  goal_bucket s t = bucket_index_from_time s.timers (s.entity_timeout - sub_u64 now (time_of t))

  round_expired :
      (s : Backlog T) (kept : List T) (t : T)
      → leb s.entity_timeout (sub_u64 now (time_of t)) ≡ true
      → is_empty s.timers ≡ false
      → round time_of leaves next now index s kept t ≡ expired_first t (next s kept)
  unfolding round
  round_expired s kept t e f = if-true _ _ e ∙ ap (expired_first t) (if-false _ _ f)

  round_kept :
      (s : Backlog T) (kept : List T) (t : T)
      → leb s.entity_timeout (sub_u64 now (time_of t)) ≡ false
      → (goal_bucket s t == index) ≡ true
      → round time_of leaves next now index s kept t ≡ next s (kept ++ t ∷ [])
  unfolding round
  round_kept s kept t e f = if-false _ _ e ∙ if-true _ _ f

  round_moved :
      (s : Backlog T) (kept : List T) (t : T)
      → leb s.entity_timeout (sub_u64 now (time_of t)) ≡ false
      → (goal_bucket s t == index) ≡ false
      → round time_of leaves next now index s kept t
        ≡ next (record s { items = push_at (goal_bucket s t) t s.items }) kept
  unfolding round
  round_moved s kept t e f = if-false _ _ e ∙ if-false _ _ f

module _ {T : Type 0} (time_of : T → ℕ) (p : T → Bool) (clock : ℕ → ℕ) (index : ℕ) where
  Totals-expired :
      (t : T) (o : Outcome T) (n m : ℕ)
      → Totals p o n
      → m ≡ n + one p t
      → Totals p (expired_first t o) m
  Totals-expired t (returned s ts) n m (b, e) h = (b, omega arith)
  Totals-expired t stuck n m o h = absurd o

  abbrev loop : ℕ → ℕ → Backlog T → List T → Outcome T
  loop fuel i s kept = on_timer_loop time_of leaves clock index fuel i s kept

  loop_end :
      (fuel i : ℕ) (s : Backlog T) (kept : List T)
      → get_elem? (bucket index s.items) i ≡ none
      → loop (suc fuel) i s kept ≡ returned (record s { items = put_at index kept s.items }) []
  unfolding on_timer_loop at_item
  loop_end fuel i s kept e =
      ap (at_item time_of leaves (λ s' kept'. loop fuel (suc i) s' kept') (clock i) index s kept) e

  loop_next :
      (fuel i : ℕ) (s : Backlog T) (kept : List T) (t : T)
      → get_elem? (bucket index s.items) i ≡ some t
      → loop (suc fuel) i s kept
        ≡ round time_of leaves (λ s' kept'. loop fuel (suc i) s' kept') (clock i) index s kept t
  unfolding on_timer_loop at_item
  loop_next fuel i s kept t e =
      ap (at_item time_of leaves (λ s' kept'. loop fuel (suc i) s' kept') (clock i) index s kept) e

  abbrev Reached : Backlog T → List T → List T → List T → ℕ → Type 0
  Reached s kept pre rest n =
      IsBuilt s
      × (index < length s.items)
      × (bucket index s.items ≡ pre ++ rest)
      × (n + count p (pre ++ rest) ≡ total p s.items + count p kept + count p rest)

  ends_Totals :
      (fuel : ℕ) (s : Backlog T) (kept pre : List T) (n : ℕ)
      → Reached s kept pre [] n
      → Totals p (loop (suc fuel) (length pre) s kept) n
  ends_Totals fuel s kept pre n (b, i, e, h) =
      let whole : bucket index s.items ≡ pre = e ∙ append-nil pre in
      let at_end : get_elem? (bucket index s.items) (length pre) ≡ none =
        ap (λ l. get_elem? l (length pre)) whole ∙ get_elem?-end pre in
      let put = total-put_at p index kept s.items i in
      let same : count p (bucket index s.items) ≡ count p (pre ++ []) = ap (count p) e in
      subst (λ o. Totals p o n) (sym (loop_end fuel (length pre) s kept at_end))
        ((length-put_at index kept s.items ∙ b.0, b.1), omega arith)

  extended :
      (pre rest : List T) (t : T) (s : Backlog T)
      → bucket index s.items ≡ pre ++ t ∷ rest
      → bucket index s.items ≡ (pre ++ t ∷ []) ++ rest
  extended pre rest t s e = e ∙ sym (append_assoc pre (t ∷ []) rest)

  round-Totals :
      (next : Backlog T → List T → Outcome T) (now : ℕ) (s : Backlog T) (kept pre rest : List T)
      (t : T) (n : ℕ)
      → Reached s kept pre (t ∷ rest) n
      → ((s' : Backlog T) (kept' : List T) (m : ℕ)
          → Reached s' kept' (pre ++ t ∷ []) rest m
          → Totals p (next s' kept') m)
      → Totals p (round time_of leaves next now index s kept t) n
  round-Totals next now s kept pre rest t n (b, i, e, h) go =
      let counts = ap (count p) (append_assoc pre (t ∷ []) rest) in
      let j = goal_bucket time_of next now index s t in
      let split = count-append p pre (t ∷ rest) in
      let put = total-put_at p index [] s.items i in
      let same : count p (bucket index s.items) ≡ count p (pre ++ t ∷ rest) = ap (count p) e in
      elim (Bool-cases (leb s.entity_timeout (sub_u64 now (time_of t)))) [
        | inl x ↦
            let m : ℕ = n - one p t in
            subst (λ o. Totals p o n)
              (sym (round_expired time_of next now index s kept t x (built_full s b)))
              (Totals-expired t (next s kept) m n
                (go s kept m (b, i, extended pre rest t s e, omega arith)) (omega arith))
        | inr x ↦ elim (Bool-cases (j == index)) [
          | inl y ↦
              let more = count-append p kept (t ∷ []) in
              subst (λ o. Totals p o n) (sym (round_kept time_of next now index s kept t x y))
                (go s (kept ++ t ∷ []) n (b, i, extended pre rest t s e, omega arith))
          | inr y ↦
              let s' : Backlog T = record s { items = push_at j t s.items } in
              let small : j < length s.items = omega (
                arith,
                b.0,
                bucket_index_from_time_bounds s.timers (s.entity_timeout - sub_u64 now (time_of t))
                    b.1,
              ) in
              let len = length-push_at j t s.items in
              let pushed = total-push_at p j t s.items small in
              subst (λ o. Totals p o n) (sym (round_moved time_of next now index s kept t x y))
                (go s' kept n (
                  (len ∙ b.0, b.1),
                  omega arith,
                  bucket-push_at index j t s.items y ∙ extended pre rest t s e,
                  omega arith,
                ))
        ]
      ]

  -- What the loop has done once it has gone through `pre` of the bucket `pre ++ rest`.
  loop-Totals :
      (fuel : ℕ) (s : Backlog T) (kept pre rest : List T) (n : ℕ)
      → length rest < fuel
      → Reached s kept pre rest n
      → Totals p (loop fuel (length pre) s kept) n
  loop-Totals zero s kept pre rest n f r = absurd (omega arith)
  loop-Totals (suc fuel) s kept pre [] n f r = ends_Totals fuel s kept pre n r
  loop-Totals (suc fuel) s kept pre (t ∷ rest) n f r =
      let found : get_elem? (bucket index s.items) (length pre) ≡ some t =
        ap (λ l. get_elem? l (length pre)) r.2 ∙ get_elem?-append pre rest t in
      let longer : length (pre ++ t ∷ []) ≡ suc (length pre) =
        omega (arith, length-append pre (t ∷ [])) in
      subst (λ o. Totals p o n) (sym (loop_next fuel (length pre) s kept t found))
        (round-Totals (λ s' kept'. loop fuel (suc (length pre)) s' kept') (clock (length pre)) s
          kept pre rest t n r
          (λ s' kept' m r'.
            subst (λ k. Totals p (loop fuel k s' kept') m) longer
              (loop-Totals fuel s' kept' (pre ++ t ∷ []) rest m (omega arith) r')))

  -- A round of a timer ends, and no item is lost or doubled in it: for every test, the items in the
  -- buckets afterwards and those that expired are as many as the items in the buckets before. The
  -- expiry callback leaves the backlog as it is, and the backlog has a bucket for each timer.
  pub on_timer-Totals :
      (s : Backlog T)
      → IsBuilt s
      → index < length s.items
      → Totals p (on_timer time_of leaves clock index s) (total p s.items)
  unfolding on_timer
  on_timer-Totals s b i =
      loop-Totals (suc (length (bucket index s.items))) s [] [] (bucket index s.items)
        (total p s.items) (omega arith) (b, i, refl, omega arith)
