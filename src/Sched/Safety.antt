-- ===== src/Sched/Safety.antt =====
-- The invariant holds of every state that the scheduler can reach.
use ece.Base.{ℕ, ◌-◌, ◌≡◌, refl, none, some, find_from-hit, arith}
use ece.Base.Int.{ℤ}
use ece.Sched.Types.{Proc, Slots, Sched}
use ece.Sched.Calls.{is_free, nextpid, first_task, first_state, install, sched_init}
use ece.Sched.Machine.{
  Step, compute, fork, exit, wait, nice, look, sleep, wake_up, leave, tick, Boot, Reach, boot, next,
}
use ece.Sched.Invariant.{Inv}
use ece.Sched.Moves.{
  sched_fork-Inv, sched_wait-Inv, sched_nice-Inv, doze-Inv, reblock-Inv, depart-Inv, sched_tick-Inv,
}
use ece.Sched.Death.{sched_exit-Inv}
use ece.Sched.Reap.{wait_loop-Inv}

-- The initial task has pid 1 in slot 0, if the queue is empty.
nextpid-empty : (queue : Slots) → ((i : ℕ) → queue i ≡ none) → nextpid queue ≡ some 1
unfolding nextpid
nextpid-empty queue empty = find_from-hit (λ i. is_free (queue (i - 1))) 1022 1 (rw (empty 0))

first_state-Inv :
    (queue : Slots) (raw : Proc) (area : ℕ)
    → ((i : ℕ) → queue i ≡ none)
    → Inv (first_state queue raw area 1)
first_state-Inv queue raw area empty = record {
  sound = record {
    fits = λ i p e. ground (arith, empty i);
    live = (first_task raw area 1, refl);
    one_running = λ i p e r. ground (arith, empty i);
    awake = λ i j p z ep ez sleeps dead. ground (arith, empty i);
  };
  at_work = λ w. cc;
}

-- A start on an empty queue gives this state.
pub Boot-first : (s : Sched) (b : Boot s) → first_state b.queue b.raw b.area 1 ≡ s
unfolding sched_init install
Boot-first s b =
    let starts : install b.queue b.raw b.area (some 1) ≡ some s =
      rw (nextpid-empty b.queue b.empty) at b.starts in
    cc starts

-- The invariant holds of it.
pub Boot-Inv : (s : Sched) → Boot s → Inv s
Boot-Inv s b = rw (← Boot-first s b) (first_state-Inv b.queue b.raw b.area b.empty)

pub Step-Inv : {freed : ℤ → ℤ} {s t : Sched} → Inv s → Step freed s t → Inv t
Step-Inv {s = s} v (compute r call) = record { sound = v.sound; at_work = λ w. cc }
Step-Inv {s = s} v (fork block area call) = sched_fork-Inv block area s v
Step-Inv {s = s} v (exit code call) = sched_exit-Inv code s v
Step-Inv {s = s} v (wait call) = sched_wait-Inv s call v
Step-Inv {s = s} v (nice niceval call) = sched_nice-Inv niceval s call v
Step-Inv {freed} {s = s} v (look at) = wait_loop-Inv freed s at v
Step-Inv {s = s} v (sleep at) = doze-Inv s at v
Step-Inv {s = s} v (wake_up at) = reblock-Inv s at v
Step-Inv {s = s} v (leave at) = depart-Inv s v
Step-Inv {s = s} v (tick open_mask) = sched_tick-Inv s v

-- In every reachable state each slot below 1023 that is in use holds a task whose pid is one more
-- than the slot and whose nice value is in -20 .. 19; `current` points to a task; no other task is
-- RUNNING; no SLEEPING task has a zombie child, so that no wakeup is lost; and no zombie is in the
-- loop of `sched_wait`.
pub Reach-Inv : {freed : ℤ → ℤ} {s : Sched} → Reach freed s → Inv s
Reach-Inv {s = s} (boot b) = Boot-Inv s b
Reach-Inv (next r st) = Step-Inv (Reach-Inv r) st
