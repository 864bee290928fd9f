-- ===== src/Sched/Types.antt =====
-- The data of the scheduler (ps9/sched.h, ps9/sched.c): a task, where the processor stands, and the
-- globals of the file.
use ece.Base.{ℕ, Bool, true, false, Option, none, some, ◌==◌, if◌then◌else◌}
use ece.Base.Int.{ℤ}
use mathlib.Core.Option

abbrev pub nproc : ℕ
nproc = 1023

abbrev pub stack_size : ℕ
stack_size = 65536

-- `SCHED_READY`, `SCHED_RUNNING`, `SCHED_SLEEPING`, `SCHED_ZOMBIE`.
pub data TaskState : Type 0 where
  ready running sleeping zombie : TaskState

-- Where the processor stands in the code of the current task, between two moves of the system.
pub data Point : Type 0 where
  -- in the task's own code
  user : Point
  -- in the task's own code, a call of this file having just returned this value
  returned : ℤ → Point
  -- `sched_wait` has just returned 0, having stored this exit code
  reaped : ℤ → Point
  -- at the head of the loop of `sched_wait`, signals blocked
  looping : Point
  -- in that loop, between the unblocking of the signals and the call of `sched_switch`
  dozing : Point
  -- in that loop, `sched_switch` having unblocked the signals as the task was resumed, and before
  -- they are blocked again
  waking : Point
  -- in `sched_exit`, between the unblocking of the signals and the call of `sched_switch`
  departing : Point

-- Who called `sched_switch`: the timer's handler, which interrupted the task at a point, the loop
-- of `sched_wait`, or `sched_exit`.
pub data Caller : Type 0 where
  from_tick : Point → Caller
  from_wait from_exit : Caller

-- The program counter of a saved context: the start of the initial task, or the return of one of
-- the two calls of `savectx`.
pub data Resume : Type 0 where
  at_start at_fork : Resume
  at_switch : Caller → Resume

-- The stack pointer and the frame pointer.
pub record Regs : Type 0 where
  pub sp : ℕ
  pub bp : ℕ

-- `struct savectx`.
pub record Context : Type 0 where
  pub resume : Resume
  pub regs : Regs

-- `struct sched_proc`, without `recent_start_time`, which nothing reads or writes.
pub record Proc : Type 0 where
  pub pid : ℕ
  pub ppid : ℕ
  pub state : TaskState
  pub priority : ℤ
  pub niceval : ℤ
  pub exit_code : ℤ
  pub total_ticks : ℤ
  pub stack : ℕ
  pub ctx : Context

-- `struct sched_waitq`: a slot is `none` where the pointer is null. Only the slots below `nproc`
-- exist.
abbrev pub Slots : Type 0
Slots = ℕ → Option Proc

-- The globals of the file, with the registers, the signal mask of the process (all signals blocked
-- or none) and the place of the processor. `current`, a pointer, is the slot that it points into.
pub record Sched : Type 0 where
  pub procs : Slots
  pub cur : ℕ
  pub proc_count : ℤ
  pub tick_count : ℤ
  pub masked : Bool
  pub cpu : Regs
  pub point : Point

-- `procs[i]->... = ...;`: nothing where the slot is empty.
abbrev pub modify : Slots → ℕ → (Proc → Proc) → Slots
modify procs i f j = if i == j then Option.map f (procs j) else procs j

-- A test of `procs[i] && ...`, and of a field that may be read only through a pointer that is not
-- null.
abbrev pub holds : (Proc → Bool) → Option Proc → Bool
holds test none = false
holds test (some p) = test p

abbrev pub is_ready : TaskState → Bool
is_ready ready = true
is_ready _ = false

abbrev pub is_running : TaskState → Bool
is_running running = true
is_running _ = false

abbrev pub is_sleeping : TaskState → Bool
is_sleeping sleeping = true
is_sleeping _ = false

abbrev pub is_zombie : TaskState → Bool
is_zombie zombie = true
is_zombie _ = false
