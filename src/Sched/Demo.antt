-- ===== src/Sched/Demo.antt =====
-- The program of ps9/main.c, as a client of the scheduler: its tasks call what their code says.
use ece.Base.{
  ℕ, suc, ◌+◌, ◌-◌, ◌*◌, ◌<◌, ◌≡◌, Bool, true, false, List, [], ◌∷◌, ◌++◌, Option, none, some,
  update,
}
use ece.Base.Int.{ℤ, pos, negsuc}
use ece.Sched.Types.{
  Point, user, returned, reaped, looping, dozing, waking, departing, Regs, Proc, Sched,
}
use ece.Sched.Calls.{
  nextpid, sched_fork, sched_exit, depart, sched_wait, wait_loop, doze, reblock, sched_nice,
  sched_tick, sched_getpid,
}
use ece.Sched.Machine.{CanCall, Boot}

abbrev pub num_children : ℕ
num_children = 4

-- Where a task is: in the loop of forks of `init`, before the call or behind it; in the new child,
-- before sched_nice; in the loop of `child`; behind its sched_exit; in the loop of waits of `init`,
-- before the call or behind it. The number is that of the round.
pub data Code : Type 0 where
  forking forked nicing counting waiting waited : ℕ → Code
  exited : Code

pub data Line : Type 0 where
  error_forking : Line
  child_exited : ℤ → Line
  done_waiting : Line

-- The scheduler; the task in each slot; `code` of `init`; what has been printed; whether the process has
-- ended by `exit`.
pub record Demo : Type 0 where
  pub sched : Sched
  pub task : ℕ → Code
  pub last : ℤ
  pub printed : List Line
  pub over : Bool

abbrev pub code_at : Demo → Code
code_at d = d.task d.sched.cur

abbrev pub goes_to : Demo → Code → ℕ → Code
goes_to d c = update d.task d.sched.cur c

-- The new stack is a copy of the old one, with the round in it.
abbrev pub child_task : Option Proc → Option ℕ → Code → (ℕ → Code) → ℕ → Code
child_task none pid c task = task
child_task (some raw) none c task = task
child_task (some raw) (some pid) c task = update task (pid - 1) c

-- `code` when sched_wait has returned: the exit code, or what it was.
abbrev pub code_of : ℤ → Point → ℤ
code_of last (reaped c) = c
code_of last _ = last

-- The state in the task's own code.
abbrev pub computes : Regs → Sched → Sched
computes r s = record s { cpu = r; point = user }

-- A move of the current task, or of the scheduler in it.
pub data Move (freed : ℤ → ℤ) (d : Demo) : Demo → Type 0 where
  fork :
      (i : ℕ) (block : Option Proc) (area : ℕ)
      → CanCall d.sched
      → code_at d ≡ forking i
      → i < num_children
      → Move freed d (record d {
        sched = sched_fork block area d.sched;
        task = child_task block (nextpid d.sched.procs) (forked i) (goes_to d (forked i));
      })
  as_parent :
      (i n : ℕ) (r : Regs)
      → CanCall d.sched
      → code_at d ≡ forked i
      → d.sched.point ≡ returned (pos (suc n))
      → Move freed d (record d { sched = computes r d.sched; task = goes_to d (forking (i + 1)) })
  as_child :
      (i : ℕ) (r : Regs)
      → CanCall d.sched
      → code_at d ≡ forked i
      → d.sched.point ≡ returned (pos 0)
      → Move freed d (record d { sched = computes r d.sched; task = goes_to d (nicing i) })
  fork_failed :
      (i n : ℕ)
      → code_at d ≡ forked i
      → d.sched.point ≡ returned (negsuc n)
      → Move freed d (record d { printed = d.printed ++ (error_forking ∷ []); over = true })
  nice :
      (i : ℕ)
      → CanCall d.sched
      → code_at d ≡ nicing i
      → Move freed d
          (record d { sched = sched_nice (pos (i * 4)) d.sched; task = goes_to d (counting 0) })
  count :
      (n : ℕ) (r : Regs)
      → CanCall d.sched
      → code_at d ≡ counting n
      → n < 5_000_000_000
      → Move freed d (record d { sched = computes r d.sched; task = goes_to d (counting (n + 1)) })
  exit :
      CanCall d.sched
      → code_at d ≡ counting 5_000_000_000
      → Move freed d (record d {
        sched = sched_exit (pos (sched_getpid d.sched)) d.sched;
        task = goes_to d exited;
      })
  all_forked :
      CanCall d.sched
      → code_at d ≡ forking num_children
      → Move freed d (record d { task = goes_to d (waiting 0) })
  wait :
      (i : ℕ)
      → CanCall d.sched
      → code_at d ≡ waiting i
      → i < num_children
      → Move freed d (record d { sched = sched_wait d.sched; task = goes_to d (waited i) })
  print :
      (i : ℕ) (r : Regs)
      → CanCall d.sched
      → code_at d ≡ waited i
      → Move freed d (record d {
        sched = computes r d.sched;
        task = goes_to d (waiting (i + 1));
        last = code_of d.last d.sched.point;
        printed = d.printed ++ (child_exited (code_of d.last d.sched.point) ∷ []);
      })
  finish :
      CanCall d.sched
      → code_at d ≡ waiting num_children
      → Move freed d (record d { printed = d.printed ++ (done_waiting ∷ []); over = true })
  look : d.sched.point ≡ looping → Move freed d (record d { sched = wait_loop freed d.sched })
  sleep : d.sched.point ≡ dozing → Move freed d (record d { sched = doze d.sched })
  wake_up : d.sched.point ≡ waking → Move freed d (record d { sched = reblock d.sched })
  leave : d.sched.point ≡ departing → Move freed d (record d { sched = depart d.sched })
  tick : d.sched.masked ≡ false → Move freed d (record d { sched = sched_tick d.sched })

-- `main`: the initial task is at the head of `init`. `junk` is what `code` holds before.
abbrev pub begin_with : Sched → ℤ → Demo
begin_with s junk = record {
  sched = s;
  task = λ i. forking 0;
  last = junk;
  printed = [];
  over = false;
}

pub data Runs (freed : ℤ → ℤ) : Demo → Type 0 where
  begin : {s : Sched} (junk : ℤ) → Boot s → Runs freed (begin_with s junk)
  move : {d e : Demo} → Runs freed d → d.over ≡ false → Move freed d e → Runs freed e
