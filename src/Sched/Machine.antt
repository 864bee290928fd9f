-- ===== src/Sched/Machine.antt =====
-- The moves of the scheduler of ps9/sched.c as a step relation: what the current task and the
-- timer may do next. A task that has called `sched_exit` makes no further call.
use ece.Base.{ℕ, Bool, true, false, Option, none, some, ◌≡◌}
use ece.Base.Int.{ℤ}
use ece.Sched.Types.{
  Point, user, returned, reaped, looping, dozing, waking, departing, Regs, Proc, Slots, Sched,
  is_zombie,
}
use ece.Sched.Switch.{current}
use ece.Sched.Calls.{
  sched_init, sched_fork, sched_exit, depart, sched_wait, wait_loop, doze, reblock, sched_nice,
  sched_tick,
}

-- In the task's own code.
abbrev pub in_user : Point → Bool
in_user user = true
in_user (returned _) = true
in_user (reaped _) = true
in_user _ = false

pub record CanCall (s : Sched) : Type 0 where
  pub outside : in_user s.point ≡ true
  pub alive : is_zombie (current s).state ≡ false

-- `freed` is what a read of freed memory makes of what was stored there.
pub data Step (freed : ℤ → ℤ) (s : Sched) : Sched → Type 0 where
  compute : (r : Regs) → CanCall s → Step freed s (record s { cpu = r; point = user })
  fork : (block : Option Proc) (area : ℕ) → CanCall s → Step freed s (sched_fork block area s)
  exit : (code : ℤ) → CanCall s → Step freed s (sched_exit code s)
  wait : CanCall s → Step freed s (sched_wait s)
  nice : (niceval : ℤ) → CanCall s → Step freed s (sched_nice niceval s)
  look : s.point ≡ looping → Step freed s (wait_loop freed s)
  sleep : s.point ≡ dozing → Step freed s (doze s)
  wake_up : s.point ≡ waking → Step freed s (reblock s)
  leave : s.point ≡ departing → Step freed s (depart s)
  tick : s.masked ≡ false → Step freed s (sched_tick s)

-- A start of the scheduler on an empty queue.
pub record Boot (s : Sched) : Type 0 where
  pub queue : Slots
  pub raw : Proc
  pub area : ℕ
  pub empty : (i : ℕ) → queue i ≡ none
  pub starts : sched_init (some queue) true (some raw) area ≡ some s

pub data Reach (freed : ℤ → ℤ) : Sched → Type 0 where
  boot : {s : Sched} → Boot s → Reach freed s
  next : {s t : Sched} → Reach freed s → Step freed s t → Reach freed t
