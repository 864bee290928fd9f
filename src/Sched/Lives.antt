-- ===== src/Sched/Lives.antt =====
-- The lives of tasks, which is what a user of ps9/sched.c sees of its table: the scheduler refines
-- them.
use mathlib.Core.Path.{fun_ext}
use ece.Base.{
  ℕ, ◌≡◌, refl, sym, ap, ◌∙◌, inl, inr, true, false, Option, none, some, ◌==◌, if◌then◌else◌,
  Bool-cases, ==→≡, update, arith,
}
use ece.Base.Int.{ℤ}
use ece.Sched.Types.{Proc, Slots, Sched, is_zombie}
use ece.Sched.Calls.{first_task}
use ece.Sched.Machine.{Reach, boot, next}
use ece.Sched.Safety.{Reach-Inv, Boot-first}
use ece.Sched.Shuffle.{Same, Shuffled}
use ece.Sched.Effects.{Step-Change}
use ece.Sched.Change.{Others, Change, shuffle, birth, death, release}

-- What is in a slot: nothing, a living task with its pid and its parent's, or a dead one with its exit
-- code as well.
pub data Life : Type 0 where
  vacant : Life
  living : (pid ppid : ℕ) → Life
  dead : (pid ppid : ℕ) (code : ℤ) → Life

abbrev pub life_of : Option Proc → Life
life_of none = vacant
life_of (some p) = if is_zombie p.state then dead p.pid p.ppid p.exit_code else living p.pid p.ppid

abbrev pub lives_of : Slots → ℕ → Life
lives_of procs i = life_of (procs i)

-- A living task has a child in a slot that was vacant; or ends with an exit code; or collects a child
-- of its own that has ended.
pub data Event (lives : ℕ → Life) : (ℕ → Life) → Type 0 where
  spawn :
      (i k pid parent grandparent : ℕ)
      → lives i ≡ vacant
      → lives k ≡ living parent grandparent
      → Event lives (update lives i (living pid parent))
  die :
      (i pid ppid : ℕ) (code : ℤ)
      → lives i ≡ living pid ppid
      → Event lives (update lives i (dead pid ppid code))
  collect :
      (i k pid parent grandparent : ℕ) (code : ℤ)
      → lives i ≡ dead pid parent code
      → lives k ≡ living parent grandparent
      → Event lives (update lives i vacant)

pub data History : (ℕ → Life) → Type 0 where
  -- the initial task is its own parent
  origin : History (update (λ i. vacant) 0 (living 1 1))
  event : {lives lives' : ℕ → Life} → History lives → Event lives lives' → History lives'

life-Same : (a b : Option Proc) → Same a b → life_of b ≡ life_of a
life-Same none none h = refl
life-Same none (some q) h = absurd h
life-Same (some p) none h = absurd h
life-Same (some p) (some q) h = ground arith

living_of :
    (o : Option Proc) (p : Proc)
    → o ≡ some p
    → is_zombie p.state ≡ false
    → life_of o ≡ living p.pid p.ppid
living_of o p here lives = ground arith

dead_of :
    (o : Option Proc) (p : Proc)
    → o ≡ some p
    → is_zombie p.state ≡ true
    → life_of o ≡ dead p.pid p.ppid p.exit_code
dead_of o p here is = ground arith

none_of : (o : Option Proc) → o ≡ none → life_of o ≡ vacant
none_of o e = ground arith

-- The lives where one slot has changed.
changed :
    (procs procs' : Slots) (i : ℕ) (l : Life)
    → Others i procs procs'
    → life_of (procs' i) ≡ l
    → lives_of procs' ≡ update (lives_of procs) i l
changed procs procs' i l others here = fun_ext λ j. elim (Bool-cases (i == j)) [
  | inl same ↦
      let at : i ≡ j = ==→≡ i j same in
      let now : life_of (procs' j) ≡ l = ap (λ (k : ℕ). life_of (procs' k)) (sym at) ∙ here in
      ground arith
  | inr other ↦ let kept = life-Same (procs j) (procs' j) (others j (ground arith)) in ground arith
]

shuffled : (procs procs' : Slots) → Shuffled procs procs' → lives_of procs' ≡ lives_of procs
shuffled procs procs' h = fun_ext λ j. life-Same (procs j) (procs' j) (h j)

Change-History :
    {freed : ℤ → ℤ} {dies : ℤ → Type 0} {s t : Sched}
    → Change freed dies s t
    → History (lives_of s.procs)
    → History (lives_of t.procs)
Change-History {s = s} {t} (shuffle h) past = rw (shuffled s.procs t.procs h.slots) past
Change-History {s = s} {t} (birth b) past =
    let now = living_of (t.procs b.slot) b.task b.there b.lives ∙ ap (living b.task.pid) b.of in
    rw (changed s.procs t.procs b.slot (living b.task.pid b.parent.pid) b.others now) (
      event past (
        spawn b.slot s.cur b.task.pid b.parent.pid b.parent.ppid (none_of (s.procs b.slot) b.vacant)
          (living_of (s.procs s.cur) b.parent b.mother.0 b.mother.1)))
Change-History {s = s} {t} (death code by d) past =
    let now : life_of (t.procs s.cur) ≡ dead d.before.pid d.before.ppid code =
      dead_of (t.procs s.cur) d.after d.is d.dead ∙ rw (d.pid_kept, d.ppid_kept, d.code_kept) in
    rw (changed s.procs t.procs s.cur (dead d.before.pid d.before.ppid code) d.others now) (
      event past (
        die s.cur d.before.pid d.before.ppid code
          (living_of (s.procs s.cur) d.before d.was d.lived)))
Change-History {s = s} {t} (release r) past =
    let was =
      dead_of (s.procs r.slot) r.task r.was r.dead
      ∙ ap (λ (n : ℕ). dead r.task.pid n r.task.exit_code) r.of in
    rw (changed s.procs t.procs r.slot vacant r.others (none_of (t.procs r.slot) r.gone)) (
      event past (
        collect r.slot s.cur r.task.pid r.parent.pid r.parent.ppid r.task.exit_code was
          (living_of (s.procs s.cur) r.parent r.mother.0 r.mother.1)))

first-lives :
    (queue : Slots) (raw : Proc) (area : ℕ)
    → ((i : ℕ) → queue i ≡ none)
    → lives_of (update queue 0 (some (first_task raw area 1))) ≡ update (λ i. vacant) 0 (living 1 1)
first-lives queue raw area empty = fun_ext λ j. ground (arith, empty j)

-- The table of every reachable state shows lives that come about, from the initial task on, by
-- births in vacant slots to living parents, by ends of living tasks, and by the collecting of dead
-- children by their living parents.
pub Reach-History : {freed : ℤ → ℤ} {s : Sched} → Reach freed s → History (lives_of s.procs)
Reach-History {s = s} (boot b) =
    rw (← Boot-first s b) (rw (first-lives b.queue b.raw b.area b.empty) origin)
Reach-History (next r st) = Change-History (Step-Change (Reach-Inv r) st) (Reach-History r)
