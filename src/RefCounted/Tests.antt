-- ===== src/RefCounted/Tests.antt =====
-- An object that is given up twice.
use tarm_io.Prelude.{◌+◌, ◌≡◌, refl, arith}
use tarm_io.RefCounted.{RefCounted, init, ref, unref, schedule_removal}
use tarm_io.RefCounted.Laws.{Steps, stop, go, refs, unrefs, expected, Steps-removals}

abbrev given_up : RefCounted
given_up = unref (unref (ref init))

gives_up : Steps 0 init 0 given_up
gives_up =
    go 0 0 0 _ _ _ (refs 0 init (omega arith)) (
      go 0 0 0 _ _ _ (unrefs 0 (ref init))
        (go 0 0 0 _ _ _ (unrefs 0 (unref (ref init))) (stop 0 _)))

Steps-removals_example :
    given_up.removable.idles + given_up.removable.closing + given_up.removable.deleted
    ≡ 0 + expected given_up.ref_counter
Steps-removals_example = Steps-removals 0 given_up gives_up

one_removal : given_up.removable.idles ≡ 1
unfolding unref ref schedule_removal
one_removal = refl
