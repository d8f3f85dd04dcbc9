-- ===== src/Backlog/Adding.antt =====
-- Adding items, source/io/BacklogWithTimeout.h: no item is lost or doubled.
use mathlib.Core.Path.{subst}
use tarm_io.Prelude.{
  ℕ, ◌+◌, ◌-◌, ◌<◌, ◌≡◌, sym, ap, ◌∙◌, arith, Bool, true, false, not, Bool-cases, List, [], ◌∷◌,
  length, if◌then◌else◌, if-true, if-false, leb, ltb, inl, inr,
}
use tarm_io.Backlog.{Backlog, push_at, bucket_index_from_time, add_item, is_empty}
use tarm_io.Backlog.Timers.{bucket_index_from_time_bounds}
use tarm_io.Backlog.Buckets.{one, count, total, total-push_at}
use tarm_io.Backlog.Rounds.{leaves, IsBuilt, built_full}

module _ {T : Type 0} (time_of : T → ℕ) (p : T → Bool) where
  abbrev Added : Backlog T × Bool × List T → Backlog T → T → Bool → Type 0
  Added r s t early =
      (r.1 ≡ not early)
      × (total p r.0.items + count p r.2 ≡ total p s.items + (if early then 0 else one p t))

  -- An item from the future is refused, and any other one is taken: it is then in a bucket, or it
  -- expired at once. The other items stay. The expiry callback leaves the backlog as it is, and the
  -- backlog has a bucket for each timer.
  pub add_item-total :
      (now : ℕ) (s : Backlog T) (t : T)
      → IsBuilt s
      → let r = add_item time_of leaves now s t in
        (r.1 ≡ not (ltb now (time_of t)))
        × (total p r.0.items + count p r.2
            ≡ total p s.items + (if ltb now (time_of t) then 0 else one p t))
  unfolding add_item
  add_item-total now s t b = elim (Bool-cases (ltb now (time_of t))) [
    | inl e ↦
        subst (λ r. Added r s t (ltb now (time_of t))) (sym (if-true _ _ e))
          (sym (ap not e), omega (arith, if-true 0 (one p t) e))
    | inr e ↦
        subst (λ r. Added r s t (ltb now (time_of t)))
          (sym (if-false _ _ e ∙ if-false _ _ (built_full s b))) (late e)
  ]
    where
      index : ℕ
      index = bucket_index_from_time s.timers (s.entity_timeout - (now - time_of t))

      late :
          ltb now (time_of t) ≡ false
          → Added
              (if leb s.entity_timeout (now - time_of t)
                then (s, not (is_empty s.timers), t ∷ [])
                else (record s { items = push_at index t s.items }, true, []))
              s
              t
              (ltb now (time_of t))
      late e =
          let taken = if-false 0 (one p t) e in
          elim (Bool-cases (leb s.entity_timeout (now - time_of t))) [
            | inl x ↦
                subst (λ r. Added r s t (ltb now (time_of t))) (sym (if-true _ _ x))
                  (ap not (built_full s b) ∙ sym (ap not e), omega (arith, taken))
            | inr x ↦
                let small : index < length s.items = omega (
                  arith,
                  b.0,
                  bucket_index_from_time_bounds s.timers (s.entity_timeout - (now - time_of t)) b.1,
                ) in
                subst (λ r. Added r s t (ltb now (time_of t))) (sym (if-false _ _ x))
                  (sym (ap not e), omega (arith, taken, total-push_at p index t s.items small))
          ]
