-- ===== src/Sched/Change.antt =====
-- What may become of the lives of the tasks of ps9/sched.c in one step.
use ece.Base.{ℕ, ◌<◌, ◌≡◌, ◌≢◌, refl, true, false, Option, none, some, update, arith}
use ece.Base.Int.{ℤ, pos, ◌+ℤ◌, ◌-ℤ◌, to_int}
use ece.Sched.Types.{nproc, reaped, Proc, Slots, Sched, is_zombie}
use ece.Sched.Shuffle.{Alike, Same, Same-refl, Shuffled, Shuffled-refl, Shuffles}

-- All slots but one keep their tasks.
abbrev pub Others : ℕ → Slots → Slots → Type 0
Others i procs procs' = (j : ℕ) → j ≢ i → Same (procs j) (procs' j)

-- A task that is born in a free slot, with the current task for its parent.
pub record Born (s t : Sched) : Type 0 where
  pub slot : ℕ
  pub parent : Proc
  pub task : Proc
  pub inside : slot < nproc
  pub mother : (s.procs s.cur ≡ some parent) × (is_zombie parent.state ≡ false)
  pub vacant : s.procs slot ≡ none
  pub there : t.procs slot ≡ some task
  pub lives : is_zombie task.state ≡ false
  pub of : task.ppid ≡ parent.pid
  pub others : Others slot s.procs t.procs
  pub count : t.proc_count ≡ to_int (s.proc_count +ℤ pos 1)

-- The current task, which dies.
pub record Died (code : ℤ) (s t : Sched) : Type 0 where
  pub before : Proc
  pub after : Proc
  pub inside : s.cur < nproc
  pub was : s.procs s.cur ≡ some before
  pub lived : is_zombie before.state ≡ false
  pub is : t.procs s.cur ≡ some after
  pub dead : is_zombie after.state ≡ true
  pub code_kept : after.exit_code ≡ code
  pub pid_kept : after.pid ≡ before.pid
  pub ppid_kept : after.ppid ≡ before.ppid
  pub others : Others s.cur s.procs t.procs
  pub count : t.proc_count ≡ to_int (s.proc_count -ℤ pos 1)

-- A dead child of the current task, whose slot is freed, and whose exit code is handed over.
pub record Freed (freed : ℤ → ℤ) (s t : Sched) : Type 0 where
  pub slot : ℕ
  pub task : Proc
  pub parent : Proc
  pub inside : slot < nproc
  pub was : s.procs slot ≡ some task
  pub dead : is_zombie task.state ≡ true
  pub mother : (s.procs s.cur ≡ some parent) × (is_zombie parent.state ≡ false)
  pub of : task.ppid ≡ parent.pid
  pub gone : t.procs slot ≡ none
  pub others : Others slot s.procs t.procs
  pub code : t.point ≡ reaped (freed task.exit_code)
  pub same_task : t.cur ≡ s.cur
  pub count : t.proc_count ≡ s.proc_count

-- `dies` says of what exit code a death may be.
pub data Change (freed : ℤ → ℤ) (dies : ℤ → Type 0) (s t : Sched) : Type 0 where
  shuffle : Shuffles s t → Change freed dies s t
  birth : Born s t → Change freed dies s t
  death : (code : ℤ) → dies code → Died code s t → Change freed dies s t
  release : Freed freed s t → Change freed dies s t

-- A write to one slot.
pub Others-update : (procs : Slots) (i : ℕ) (o : Option Proc) → Others i procs (update procs i o)
Others-update procs i o j other =
    let kept : update procs i o j ≡ procs j = ground arith in rw kept (Same-refl (procs j))

-- Tasks that keep their slots, and no count.
pub kept-Shuffles : (s t : Sched) → t.procs ≡ s.procs → t.proc_count ≡ s.proc_count → Shuffles s t
kept-Shuffles s t same count = record { slots = rw same (Shuffled-refl s.procs); count = count }

-- What a slot with a task holds after a shuffle.
pub Same-some :
    (p : Proc) (o : Option Proc) → Same (some p) o → (q : Proc) × (o ≡ some q) × Alike p q
Same-some p none h = absurd h
Same-some p (some q) h = (q, refl, h)

pub Shuffled-some :
    (procs procs' : Slots) (i : ℕ) (p : Proc)
    → Shuffled procs procs'
    → procs i ≡ some p
    → (q : Proc) × (procs' i ≡ some q) × Alike p q
Shuffled-some procs procs' i p h e =
    let there : Same (some p) (procs' i) = rw e at (h i) in Same-some p (procs' i) there
