-- ===== src/Sem/Examples.antt =====
-- Runs of a semaphore of ps7/sem.c, and its theorems at them.
use ece.Base.{ℕ, ◌+◌, ◌≡◌, ◌≢◌, refl, arith, true, false, update}
use ece.Base.Int.{pos, to_int, ◌+ℤ◌}
use ece.Sem.System.{
  wait_suspend, call_inc, inc_lock, inc_add, inc_skip, inc_kill, inc_spin, inc_locked, inc_wake,
  wait_woken, signalled, wait_doze, wait_asleep, idle, try_locked, System, call_wait, wait_lock,
  wait_signal, wait_block, init, Reach, start, later, wait_spin, wait_locked, wait_test,
}
use ece.Sem.Invariant.{Guarded, Reach-Guarded}
use ece.Sem.Delivery.{wakes_sleeper}
use ece.Sem.Wakeup.{Steps, Window, wakeup_lost}

-- The process ids.
abbrev pid : ℕ → ℕ
pid i = 1000 + i

-- Process 3 begins to wait on an empty semaphore.
abbrev about_to_sleep : System
about_to_sleep = record {
  sem = record { lock = 0; count = pos 0; procs = update (λ i. 0) 3 1003 };
  pc =
      update (update (update (update (λ i. idle) 3 wait_spin) 3 wait_locked) 3 wait_test) 3
        wait_doze;
  handler = update (λ i. false) 3 true;
  taken = 0;
  given = 0;
}

about_to_sleep-Reach : Reach pid (pos 0) about_to_sleep
unfolding init
about_to_sleep-Reach =
    later
      (later (later (later start (call_wait 3 (omega arith) refl)) (wait_lock 3 refl refl))
        (wait_signal 3 refl))
      (wait_block 3 refl (omega arith))

Reach-Guarded_example : Guarded pid 0 about_to_sleep
Reach-Guarded_example = Reach-Guarded 0 (omega arith) about_to_sleep-Reach

about_to_sleep-Window : Window pid about_to_sleep 3 5
about_to_sleep-Window = record {
  apart = omega arith;
  known = omega arith;
  posts = omega arith;
  dozes = refl;
  out = refl;
  open_lock = refl;
  empty = refl;
  own = refl;
  named = omega arith;
  handled = refl;
  alone = λ k other. ground arith;
}

wakeup_lost_example :
    (t : System) × Steps pid about_to_sleep t
    × (t.pc 3 ≡ wait_asleep)
    × (t.sem.count ≡ pos 1)
    × (t.sem.lock ≡ 0)
    × (t.pc 5 ≡ idle)
    × ((j : ℕ) → j ≢ 5 → j ≢ 3 → t.pc j ≡ about_to_sleep.pc j)
wakeup_lost_example = wakeup_lost about_to_sleep-Window

abbrev trying : System
trying = record about_to_sleep { pc = update (λ i. idle) 1 try_locked }

-- Process 3 sleeps; process 5 is in `sem_inc`, before slot 3.
abbrev before_slot : System
before_slot = record {
  sem = record { lock = 1; count = pos 1; procs = update (λ i. 0) 3 1003 };
  pc =
      (update
        (update
          (update
            (update
              (update (update (update about_to_sleep.pc 3 wait_asleep) 5 inc_spin) 5 inc_locked) 5
              (inc_wake 0))
            5 (inc_wake 1))
          5 (inc_wake 2))
        5 (inc_wake 3));
  handler = update (λ i. false) 3 true;
  taken = 0;
  given = 1;
}

before_slot-Reach : Reach pid (pos 0) before_slot
unfolding to_int ◌+ℤ◌
before_slot-Reach =
    later
      (later
        (later
          (later
            (later
              (later (later about_to_sleep-Reach (wait_suspend 3 refl))
                (call_inc 5 (omega arith) refl))
              (inc_lock 5 refl refl))
            (inc_add 5 refl (omega arith)))
          (inc_skip 5 0 refl (omega arith) refl))
        (inc_skip 5 1 refl (omega arith) refl))
      (inc_skip 5 2 refl (omega arith) refl)

wakes_sleeper_example :
    signalled before_slot.handler (update before_slot.pc 5 (inc_wake 4)) 3 3 ≡ wait_woken
wakes_sleeper_example =
    wakes_sleeper 0 5 3 (omega arith) (λ a b e. omega arith) (omega arith) before_slot-Reach refl
      refl (inc_kill 5 3 3 refl (omega arith) (omega arith) refl) refl
