-- ===== src/Tas/Examples.antt =====
-- Runs of ps7/tasTest.c, and its theorems at them.
use ece.Base.{◌⊎◌, arith, refl, true, update}
use ece.Tas.System.{
  unborn, head, spin, locked, loaded, stored, System, Step, Reach, begin, later, fork, enter, take,
  read, write,
}
use ece.Tas.Atomic.{Additions, counter_of, Reach-Additions}
use ece.Tas.Outcome.{Ended, never_stuck}

-- One child, behind its first addition.
abbrev one_child : System
one_child = record {
  count = 1;
  lock = 1;
  forked = 1;
  forking = true;
  pc =
      update
        (update (update (update (update (λ i. unborn) 0 (head 0)) 0 (spin 0)) 0 (locked 0)) 0
          (loaded 0 0))
        0 (stored 0);
}

one_child-Reach : Reach one_child
one_child-Reach =
    later
      (later
        (later (later (later begin (fork refl (omega arith))) (enter 0 0 refl (omega arith)))
          (take 0 0 refl refl))
        (read 0 0 refl))
      (write 0 0 0 refl)

Reach-Additions_example : Additions (counter_of one_child)
Reach-Additions_example = Reach-Additions one_child-Reach

never_stuck_example : Ended one_child ⊎ ((t : System) × Step one_child t)
never_stuck_example = never_stuck one_child-Reach
