-- ===== src/Sched/Fork.antt =====
-- What `sched_fork` of ps9/sched.c promises its caller.
use ece.Base.{
  ℕ, ◌+◌, ◌-◌, ◌^◌, ◌≤◌, ◌<◌, ◌≡◌, ◌≢◌, refl, true, none, some, Option, find_from-none, arith,
}
use ece.Base.Int.{pos, negsuc}
use ece.Sched.Types.{nproc, stack_size, ready, returned, at_fork, Regs, Proc, Slots, Sched}
use ece.Sched.Switch.{current}
use ece.Sched.Calls.{is_free, nextpid, child, enlist, sched_fork}
use ece.Sched.Moves.{nextpid-Found}

-- The new task.
pub record IsChild (parent : Proc) (pid area : ℕ) (c : Proc) : Type 0 where
  pub own_pid : c.pid ≡ pid
  pub of : c.ppid ≡ parent.pid
  pub waits : c.state ≡ ready
  pub neutral : c.niceval ≡ pos 0
  pub inherits : c.total_ticks ≡ parent.total_ticks
  pub on_stack : c.stack ≡ area
  pub starts : c.ctx.resume ≡ at_fork

-- The three ways in which `sched_fork` ends, by what `malloc` gives for the task.
pub data Forked (block : Option Proc) (s t : Sched) (area : ℕ) : Type 0 where
  -- no memory: -1, and no task is touched, but the signals are left blocked
  no_memory :
      block ≡ none
      → t.point ≡ returned (negsuc 0)
      → t.procs ≡ s.procs
      → t.masked ≡ true
      → Forked block s t area
  -- every slot is in use: the same
  refused :
      block ≢ none
      → ((i : ℕ) → i < nproc → s.procs i ≢ none)
      → t.point ≡ returned (negsuc 0)
      → t.procs ≡ s.procs
      → t.masked ≡ true
      → Forked block s t area
  -- the lowest free slot gets the new task, and the caller its pid
  made :
      (pid : ℕ) (c : Proc)
      → block ≢ none
      → s.procs (pid - 1) ≡ none
      → ((i : ℕ) → i < pid - 1 → s.procs i ≢ none)
      → (1 ≤ pid) × (pid ≤ nproc)
      → t.point ≡ returned (pos pid)
      → t.procs (pid - 1) ≡ some c
      → IsChild (current s) pid area c
      → ((i : ℕ) → i ≢ pid - 1 → t.procs i ≡ s.procs i)
      → Forked block s t area

nextpid-none : (procs : Slots) → nextpid procs ≡ none → (i : ℕ) → i < nproc → procs i ≢ none
unfolding nextpid
nextpid-none procs e i below free =
    let taken =
      find_from-none (λ j. is_free (procs (j - 1))) nproc 1 (i + 1) e (omega arith) (omega arith) in
    let same : i + 1 - 1 ≡ i = omega arith in cc (rw (same, free) at taken)

child-IsChild :
    (parent raw : Proc) (pid area : ℕ) (r : Regs)
    → IsChild parent pid area (child parent pid area r raw)
unfolding child
child-IsChild parent raw pid area r = ground arith

enlist-Forked :
    (raw : Proc) (area : ℕ) (s : Sched) (o : Option ℕ)
    → nextpid s.procs ≡ o
    → Forked (some raw) s (enlist raw area s o) area
unfolding enlist
enlist-Forked raw area s none e = refused (λ h. cc) (nextpid-none s.procs e) refl refl refl
enlist-Forked raw area s (some pid) e =
    let f = nextpid-Found s.procs pid e in
    made pid (child (current s) pid area s.cpu raw) (λ h. cc) (ground (arith, f.passes))
      (λ i below free.
        let taken = f.first (i + 1) (omega arith) (omega arith) in
        let same : i + 1 - 1 ≡ i = omega arith in cc (rw (same, free) at taken))
      (f.above, omega (arith, f.below)) refl (ground arith)
      (child-IsChild (current s) raw pid area s.cpu) (λ i other. ground arith)

-- `sched_fork` fails, with -1, no slot changed and the signals left blocked, if `malloc` gives no
-- memory for the task or all 1023 slots are in use, and only then. Else the lowest free slot gets a
-- READY child of the caller with a neutral nice value, the caller's ticks and the new stack, which
-- will return from the fork; the caller gets the child's pid, one more than the slot; and no other
-- slot changes.
pub sched_fork-Forked :
    (block : Option Proc) (area : ℕ) (s : Sched) → Forked block s (sched_fork block area s) area
unfolding sched_fork
sched_fork-Forked none area s = no_memory refl refl refl refl
sched_fork-Forked (some raw) area s = enlist-Forked raw area s (nextpid s.procs) refl

-- The child's stack and frame pointers stand in the new stack where the caller's stand in its own,
-- if both stacks end below 2 ^ 64.
pub child_regs :
    (parent raw : Proc) (pid area : ℕ) (r : Regs)
    → parent.stack ≤ r.sp
    → r.sp ≤ parent.stack + stack_size
    → parent.stack ≤ r.bp
    → r.bp ≤ parent.stack + stack_size
    → parent.stack + stack_size < 2 ^ 64
    → area + stack_size < 2 ^ 64
    → let c = (child parent pid area r raw).ctx.regs in
      (c.sp ≡ area + (r.sp - parent.stack)) × (c.bp ≡ area + (r.bp - parent.stack))
unfolding child
child_regs parent raw pid area r a b c d e f = omega arith
