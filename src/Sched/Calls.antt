-- ===== src/Sched/Calls.antt =====
-- The calls of ps9/sched.c that tasks make, the start of the scheduler and the timer's handler. What
-- they print is left out, and the contents of the stacks are in Sched/Stack.
use ece.Base.{
  ℕ, ◌+◌, ◌-◌, ◌%◌, ◌^◌, Bool, true, false, ◌&&◌, Option, none, some, ◌==◌, if◌then◌else◌,
  find_from, update,
}
use ece.Base.Int.{ℤ, pos, negsuc, ◌+ℤ◌, ◌-ℤ◌, ltb_ℤ, to_int, to_long}
use ece.Sched.Types.{
  nproc, stack_size, ready, running, sleeping, zombie, user, returned, reaped, looping, dozing,
  departing, from_tick, from_wait, from_exit, at_fork, Regs, Proc, Slots, Sched, modify, holds,
  is_sleeping, is_zombie,
}
use ece.Sched.Switch.{deref, current, restore_ctx, sched_switch}

abbrev pub is_free : Option Proc → Bool
is_free none = true
is_free (some _) = false

-- The lowest available pid; `none` is -1.
unfoldable pub nextpid : Slots → Option ℕ
nextpid procs = find_from (λ i. is_free (procs (i - 1))) nproc 1

-- `void *` arithmetic.
abbrev pub word : ℕ → ℕ
word n = n % 2 ^ 64

-- The initial task.
abbrev pub first_task : Proc → ℕ → ℕ → Proc
first_task raw area pid = record raw {
  pid = pid;
  ppid = pid;
  stack = area;
  state = running;
  priority = pos 20;
  niceval = pos 0;
  total_ticks = pos 0;
}

-- The globals when `init_fn` starts. The two registers point to the end of the stack's area.
abbrev pub first_state : Slots → Proc → ℕ → ℕ → Sched
first_state queue raw area pid = record {
  procs = update queue 0 (some (first_task raw area pid));
  cur = 0;
  proc_count = pos 1;
  tick_count = pos 0;
  masked = false;
  cpu = record { sp = word (stack_size + area); bp = word (stack_size + area) };
  point = user;
}

-- The part of `sched_init` from the test of `nextpid` on; `none` where it calls `exit(1)`. The test
-- of the address that `mmap` gives against 0 cannot fail: a pointer is never less than 0.
unfoldable pub install : Slots → Proc → ℕ → Option ℕ → Option Sched
install queue raw area none = none
install queue raw area (some pid) = some (first_state queue raw area pid)

-- `malloc` gives a queue and a task with any contents, or fails; `timer` says that `setitimer` did
-- not; `area` is what `mmap` gives.
unfoldable pub sched_init : Option Slots → Bool → Option Proc → ℕ → Option Sched
sched_init none timer block area = none
sched_init (some queue) false block area = none
sched_init (some queue) true none area = none
sched_init (some queue) true (some raw) area = install queue raw area (nextpid queue)

-- The new task of `sched_fork`: `raw` is what `malloc` gave, `area` what `mmap` gave.
unfoldable pub child : Proc → ℕ → ℕ → Regs → Proc → Proc
child parent pid area regs raw =
    let stack_diff = word (area + 2 ^ 64 - parent.stack) in
    record raw {
      pid = pid;
      ppid = parent.pid;
      state = ready;
      priority = pos 20;
      niceval = pos 0;
      total_ticks = parent.total_ticks;
      stack = area;
      ctx = record {
        resume = at_fork;
        regs = record { sp = word (regs.sp + stack_diff); bp = word (regs.bp + stack_diff) };
      };
    }

-- The part of `sched_fork` from the test of `nextpid` on. The errors return with the signals still
-- blocked.
unfoldable pub enlist : Proc → ℕ → Sched → Option ℕ → Sched
enlist raw area s none = record s { masked = true; point = returned (negsuc 0) }
enlist raw area s (some pid) = record s {
  procs = update s.procs (pid - 1) (some (child (current s) pid area s.cpu raw));
  proc_count = to_int (s.proc_count +ℤ pos 1);
  masked = false;
  point = returned (pos pid);
}

unfoldable pub sched_fork : Option Proc → ℕ → Sched → Sched
sched_fork none area s = record s { masked = true; point = returned (negsuc 0) }
sched_fork (some raw) area s = enlist raw area s (nextpid s.procs)

-- The test of the loop of `sched_exit`.
abbrev pub sleeps_as : ℕ → Option Proc → Bool
sleeps_as parent = holds (λ p. p.pid == parent && is_sleeping p.state)

-- The first part of `sched_exit`: the end of the task.
unfoldable pub bury : ℤ → Sched → Sched
bury code s = record s {
  proc_count = to_int (s.proc_count -ℤ pos 1);
  procs = modify s.procs s.cur (λ p. record p { state = zombie; exit_code = code });
}

-- `restorectx` does not return, so the first sleeping parent ends the loop.
unfoldable pub wake : Sched → Option ℕ → Sched
wake s none = record s { masked = false; point = departing }
wake s (some i) =
    restore_ctx (record s { cur = i; procs = modify s.procs i (λ p. record p { state = running }) })

-- `sched_exit`, up to its call of `sched_switch`.
unfoldable pub sched_exit : ℤ → Sched → Sched
unfolding wake
sched_exit code s =
    let s' = bury code s in
    wake s' (find_from (λ i. sleeps_as (current s').ppid (s'.procs i)) nproc 0)

unfoldable pub depart : Sched → Sched
depart s = sched_switch from_exit s

abbrev pub is_child : ℕ → Option Proc → Bool
is_child parent = holds (λ p. p.ppid == parent)

abbrev pub is_dead_child : ℕ → Option Proc → Bool
is_dead_child parent = holds (λ p. p.ppid == parent && is_zombie p.state)

abbrev pub enter_wait : Sched → Option ℕ → Sched
enter_wait s none = record s { masked = true; point = returned (negsuc 0) }
enter_wait s (some _) = record s { masked = true; point = looping }

-- `sched_wait`, up to its loop. The error returns with the signals still blocked.
unfoldable pub sched_wait : Sched → Sched
sched_wait s = enter_wait s (find_from (λ i. is_child (current s).pid (s.procs i)) nproc 0)

-- The exit code is read after `free`: `freed` is what such a read makes of what was stored.
unfoldable pub reap : (ℤ → ℤ) → Sched → Option ℕ → Sched
reap freed s none = record s {
  procs = modify s.procs s.cur (λ p. record p { state = sleeping });
  masked = false;
  point = dozing;
}
reap freed s (some i) = record s {
  procs = update s.procs i none;
  masked = false;
  point = reaped (freed (deref (s.procs i)).exit_code);
}

-- One round of the loop of `sched_wait`, up to its end or to the call of `sched_switch`.
unfoldable pub wait_loop : (ℤ → ℤ) → Sched → Sched
wait_loop freed s =
    reap freed s (find_from (λ i. is_dead_child (current s).pid (s.procs i)) nproc 0)

-- The blocking of the signals at the end of a round, where a switch has unblocked them.
unfoldable pub reblock : Sched → Sched
reblock s = record s { masked = true; point = looping }

unfoldable pub doze : Sched → Sched
doze s = sched_switch from_wait s

abbrev pub clamp : ℤ → ℤ
clamp niceval =
    if ltb_ℤ (pos 19) niceval
    then pos 19
    else if ltb_ℤ niceval (negsuc 19)
    then negsuc 19
    else niceval

unfoldable pub sched_nice : ℤ → Sched → Sched
sched_nice niceval s = record s {
  procs = modify s.procs s.cur (λ p. record p { niceval = clamp niceval });
}

unfoldable pub sched_getpid : Sched → ℕ
sched_getpid s = (current s).pid

unfoldable pub sched_getppid : Sched → ℕ
sched_getppid s = (current s).ppid

unfoldable pub sched_gettick : Sched → ℤ
sched_gettick s = s.tick_count

unfoldable pub sched_getcurrenttick : Sched → ℤ
sched_getcurrenttick s = (current s).total_ticks

-- The counters of `sched_tick`.
unfoldable pub count_tick : Sched → Sched
count_tick s = record s {
  procs = modify s.procs s.cur (λ p. record p { total_ticks = to_long (p.total_ticks +ℤ pos 1) });
  tick_count = to_long (s.tick_count +ℤ pos 1);
}

unfoldable pub sched_tick : Sched → Sched
sched_tick s = sched_switch (from_tick s.point) (count_tick s)
