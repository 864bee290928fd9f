-- ===== src/Sched/Examples.antt =====
-- Runs of the scheduler of ps9/sched.c, and its theorems at them.
use ece.Base.{ℕ, ◌≡◌, ◌≢◌, arith, refl, none, some, find_from}
use ece.Base.Int.{ℤ, pos, ◌≤ℤ◌, to_int, ◌-ℤ◌, ◌/ℤ◌}
use ece.Sched.Types.{sleeping, returned, reaped, looping, waking, from_wait, Proc, Slots, Sched}
use ece.Sched.Switch.{
  nobody, deref, sched_switch, dynamic_priority, prepare, select, select_from, switch_to,
}
use ece.Sched.Calls.{
  reap, enlist, nextpid, first_state, install, sched_init, child, sched_fork, sched_wait, wait_loop,
  doze, reblock, sched_exit, bury, wake,
}
use ece.Sched.Machine.{fork, exit, wait, look, sleep, wake_up, Boot, Reach, boot, next}
use ece.Sched.Invariant.{Inv}
use ece.Sched.Safety.{Boot-Inv, Reach-Inv}
use ece.Sched.Priority.{dynamic_priority_fair}
use ece.Sched.Choice.{Choice, sched_switch-Choice}
use ece.Sched.Fork.{Forked, sched_fork-Forked}
use ece.Sched.Family.{Waited, sched_wait-Waited}
use ece.Sched.Handover.{Awaited, exit_then_reap}
use ece.Sched.Count.{Counted, Reach-Counted}
use ece.Sched.Lives.{lives_of, History, Reach-History}
use ece.Sched.Graves.{Grave, Fate, Step-Fate}
use ece.Sched.Demo.{
  Demo, Code, Move, as_parent, begin_with, child_task, goes_to, computes, Runs, begin, move,
}
use ece.Sched.OwnPid.{AllOwn, Round, Runs-Round}
use ece.Sched.Lonely.{Lonely, rounds, Lonely-wait_spins}

abbrev queue : Slots
queue i = none

-- What `malloc` gives for a task.
abbrev raw : Proc
raw = nobody

abbrev kept : ℤ → ℤ
kept code = code

abbrev start : Sched
start = first_state queue raw 0x10000 1

start-Boot : Boot start
unfolding sched_init install nextpid find_from
start-Boot = record { queue = queue; raw = raw; area = 0x10000; empty = λ i. refl; starts = refl }

-- The initial task forks, waits and sleeps; its child runs.
forked : Sched
unfolding sched_fork enlist nextpid find_from child
forked = sched_fork (some raw) 0x30000 start

waiting : Sched
unfolding forked sched_wait
waiting = sched_wait forked

dozing : Sched
unfolding waiting wait_loop reap
dozing = wait_loop kept waiting

child_runs : Sched
unfolding dozing doze sched_switch prepare select select_from switch_to dynamic_priority to_int ◌-ℤ◌
    ◌/ℤ◌
child_runs = doze dozing

child_runs_lem :
    (child_runs.cur ≡ 1)
    × (child_runs.point ≡ returned (pos 0))
    × ((deref (child_runs.procs 0)).state ≡ sleeping)
unfolding child_runs
child_runs_lem = (refl, refl, refl)

-- The first three steps, and the fourth.
dozing-Reach : Reach kept dozing
unfolding dozing
dozing-Reach =
    next
      (next
        (next (boot start-Boot) (fork (some raw) 0x30000 (record { outside = refl; alive = refl })))
        (wait (record { outside = refl; alive = refl })))
      (look refl)

child_runs-Reach : Reach kept child_runs
unfolding child_runs
child_runs-Reach = next dozing-Reach (sleep refl)

Reach-Inv_example : Inv child_runs
Reach-Inv_example = Reach-Inv child_runs-Reach

sched_switch-Choice_example : Choice from_wait dozing (sched_switch from_wait dozing)
sched_switch-Choice_example = sched_switch-Choice from_wait dozing (Reach-Inv dozing-Reach).sound

dynamic_priority_fair_example :
    (dynamic_priority (pos 12) (pos 50) ≤ℤ dynamic_priority (pos 4) (pos 30))
    × (pos 1 ≤ℤ dynamic_priority (pos 12) (pos 50))
    × (dynamic_priority (pos 4) (pos 30) ≤ℤ pos 40)
dynamic_priority_fair_example =
    dynamic_priority_fair (pos 4) (pos 12) 30 50 (omega arith) (omega arith) (omega arith)
      (omega arith) (omega arith)

sched_fork-Forked_example : Forked (some raw) start (sched_fork (some raw) 0x30000 start) 0x30000
sched_fork-Forked_example = sched_fork-Forked (some raw) 0x30000 start

sched_wait-Waited_example : Waited child_runs (sched_wait child_runs)
sched_wait-Waited_example = sched_wait-Waited child_runs

awaited : Awaited child_runs 0 (deref (child_runs.procs 0))
unfolding child_runs
awaited = record { apart = omega arith; here = refl; asleep = refl; mother = refl; stopped = refl }

exit_then_reap_example :
    let t = sched_exit (pos 7) child_runs in
    let u = wait_loop kept (reblock t) in
    (t.point ≡ waking)
    × (t.cur ≡ 0)
    × (u.point ≡ reaped (pos 7))
    × (u.cur ≡ 0)
    × (u.procs child_runs.cur ≡ none)
    × ((j : ℕ) → j ≢ child_runs.cur → j ≢ 0 → u.procs j ≡ child_runs.procs j)
exit_then_reap_example =
    exit_then_reap (pos 7) child_runs (Reach-Inv child_runs-Reach).sound 0
      (deref (child_runs.procs 0)) awaited kept

alone : Sched
unfolding sched_wait find_from
alone = sched_wait start

alone-Lonely : Lonely alone
unfolding alone
alone-Lonely = record {
  alone = λ i other. ground arith;
  alive = refl;
  waits = refl;
  sound = (Boot-Inv start start-Boot).sound;
}

Lonely-wait_spins_example : (rounds kept 3 alone).point ≡ looping
Lonely-wait_spins_example = Lonely-wait_spins kept 3 alone alone-Lonely

-- The child ends, and wakes its parent.
child_ends : Sched
unfolding child_runs sched_exit bury wake find_from
child_ends = sched_exit (pos 7) child_runs

child_ends-Reach : Reach kept child_ends
unfolding child_ends
child_ends-Reach = next child_runs-Reach (exit (pos 7) (record { outside = refl; alive = refl }))

Reach-Counted_example : Counted child_ends
Reach-Counted_example = Reach-Counted child_ends-Reach

Reach-History_example : History (lives_of child_ends.procs)
Reach-History_example = Reach-History child_ends-Reach

parent_wakes : child_ends.point ≡ waking
unfolding child_ends
parent_wakes = refl

-- The parent is back in its loop, and collects the child.
parent_back : Sched
unfolding child_ends reblock
parent_back = reblock child_ends

parent_back-Reach : Reach kept parent_back
unfolding parent_back
parent_back-Reach = next child_ends-Reach (wake_up parent_wakes)

parent_looks : parent_back.point ≡ looping
unfolding parent_back
parent_looks = refl

buried : Grave parent_back 1 (deref (parent_back.procs 1))
unfolding parent_back
buried = record { here = refl; dead = refl }

Step-Fate_example :
    Fate kept parent_back (wait_loop kept parent_back) 1 (deref (parent_back.procs 1))
Step-Fate_example =
    Step-Fate parent_back-Reach (look parent_looks) 1 (deref (parent_back.procs 1)) buried

-- The program of ps9/main.c, when `init` has forked its first child and goes on.
demo_forked : Demo
unfolding forked
demo_forked = record (begin_with start (pos 0)) {
  sched = forked;
  task =
      child_task (some raw) (nextpid start.procs) (Code.forked 0)
        (goes_to (begin_with start (pos 0)) (Code.forked 0));
}

demo_goes_on : Demo
unfolding demo_forked
demo_goes_on = record demo_forked {
  sched = computes demo_forked.sched.cpu demo_forked.sched;
  task = goes_to demo_forked (Code.forking 1);
}

demo-Runs : Runs kept demo_goes_on
unfolding demo_goes_on
demo-Runs =
    move
      (move (begin (pos 0) start-Boot) refl (
        Move.fork 0 (some raw) 0x30000 (record { outside = refl; alive = refl }) refl
          (omega arith)))
      refl (as_parent 0 1 demo_forked.sched.cpu (record { outside = refl; alive = refl }) refl refl)

Runs-Round_example :
    AllOwn demo_goes_on.sched.procs
    × Round kept demo_goes_on.sched (wait_loop kept demo_goes_on.sched)
Runs-Round_example = Runs-Round demo-Runs
