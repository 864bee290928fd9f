-- ===== src/Sched/Listing.antt =====
-- sched_ps of ps9/sched.c, and how its rows go with `proc_count`.
use ece.Base.{
  ℕ, zero, suc, ◌+◌, ◌≡◌, refl, ap, sym, ◌∙◌, List, [], ◌∷◌, ◌++◌, Option, none, some, ◌==◌,
  if◌then◌else◌, total, total-zero, total-suc, arith,
}
use ece.Base.Int.{ℤ, pos}
use ece.Sched.Types.{
  nproc, TaskState, ready, running, sleeping, zombie, Proc, Slots, Sched, is_zombie,
}
use ece.Sched.Machine.{Reach}
use ece.Sched.Count.{alive, Reach-Counted}

-- The number that stands for a state.
abbrev pub state_number : TaskState → ℕ
state_number ready = 100
state_number running = 200
state_number sleeping = 300
state_number zombie = 400

-- A row of the table, with the values that are printed.
pub record Row : Type 0 where
  pub pid : ℕ
  pub ppid : ℕ
  pub state : ℕ
  pub stack : ℕ
  pub niceval : ℤ
  pub priority : ℤ
  pub total_ticks : ℤ

-- A round of the loop.
abbrev pub row_of : Option Proc → List Row
row_of none = []
row_of (some p) =
    record {
      pid = p.pid;
      ppid = p.ppid;
      state = state_number p.state;
      stack = p.stack;
      niceval = p.niceval;
      priority = p.priority;
      total_ticks = p.total_ticks;
    }
    ∷ []

-- The rows of the slots below a bound, in their order.
unfoldable pub rows_below : ℕ → Slots → List Row
rows_below zero procs = []
rows_below (suc n) procs = rows_below n procs ++ row_of (procs n)

unfoldable pub sched_ps : Sched → List Row
unfolding rows_below
sched_ps s = rows_below nproc s.procs

-- The rows of a table that show another state than that of a zombie.
abbrev pub rows_alive : List Row → ℕ
rows_alive [] = 0
rows_alive (r ∷ rows) = (if r.state == 400 then 0 else 1) + rows_alive rows

rows_alive-append : (a b : List Row) → rows_alive (a ++ b) ≡ rows_alive a + rows_alive b
rows_alive-append [] b = omega arith
rows_alive-append (r ∷ a) b = omega (arith, rows_alive-append a b)

state_number-zombie : (state : TaskState) → (state_number state == 400) ≡ is_zombie state
state_number-zombie ready = refl
state_number-zombie running = refl
state_number-zombie sleeping = refl
state_number-zombie zombie = refl

row_of-alive : (o : Option Proc) → rows_alive (row_of o) ≡ alive o
row_of-alive none = refl
row_of-alive (some p) = ground (arith, state_number-zombie p.state)

rows_below-alive : (n : ℕ) (procs : Slots) → rows_alive (rows_below n procs) ≡ total alive n procs
unfolding rows_below
rows_below-alive zero procs = sym (total-zero alive procs)
rows_below-alive (suc n) procs =
    rows_alive-append (rows_below n procs) (row_of (procs n))
    ∙ omega (arith, rows_below-alive n procs, row_of-alive (procs n), total-suc alive n procs)

-- In every reachable state, the rows that sched_ps prints with another state than 400, that of a zombie,
-- are as many as `proc_count` says.
pub sched_ps-alive :
    {freed : ℤ → ℤ} {s : Sched} → Reach freed s → s.proc_count ≡ pos (rows_alive (sched_ps s))
unfolding sched_ps
sched_ps-alive {s = s} r = Reach-Counted r ∙ ap pos (sym (rows_below-alive nproc s.procs))
