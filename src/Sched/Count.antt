-- ===== src/Sched/Count.antt =====
-- `proc_count` of ps9/sched.c.
use ece.Base.{
  ℕ, ◌+◌, ◌<◌, ◌≤◌, ◌≡◌, refl, sym, ap, ◌∙◌, true, false, Option, none, some, if◌then◌else◌, update,
  total, total_congr, total_at, total_const, total_le, arith,
}
use ece.Base.Int.{ℤ, pos, ◌+ℤ◌, ◌-ℤ◌, to_int}
use ece.Sched.Types.{nproc, Proc, Slots, Sched, is_zombie}
use ece.Sched.Calls.{first_task, first_state}
use ece.Sched.Machine.{Reach, boot, next}
use ece.Sched.Safety.{Reach-Inv, Boot-first}
use ece.Sched.Shuffle.{Same, Shuffles}
use ece.Sched.Effects.{Step-Change}
use ece.Sched.Change.{Others, Change, shuffle, birth, death, release}

-- 1 for a task that is not a zombie.
abbrev pub alive : Option Proc → ℕ
alive none = 0
alive (some p) = if is_zombie p.state then 0 else 1

-- How many tasks are not zombies.
abbrev pub population : Slots → ℕ
population procs = total alive nproc procs

abbrev pub Counted : Sched → Type 0
Counted s = s.proc_count ≡ pos (population s.procs)

alive-Same : (a b : Option Proc) → Same a b → alive b ≡ alive a
alive-Same none none h = refl
alive-Same none (some q) h = absurd h
alive-Same (some p) none h = absurd h
alive-Same (some p) (some q) h = ground arith

alive-le : (o : Option Proc) → alive o ≤ 1
alive-le none = omega arith
alive-le (some p) = ground arith

population-le : (procs : Slots) → population procs ≤ nproc
population-le procs = omega (arith, total_le alive nproc 1 procs (λ i below. alive-le (procs i)))

-- What only shuffles the tasks keeps the count.
Shuffles-Counted : (s t : Sched) → Shuffles s t → Counted s → Counted t
Shuffles-Counted s t h e =
    h.count
    ∙ e
    ∙ ap pos (
        total_congr alive nproc s.procs t.procs
          (λ i below. sym (alive-Same (s.procs i) (t.procs i) (h.slots i))))

-- A change of one slot.
population-at :
    (procs procs' : Slots) (i : ℕ)
    → i < nproc
    → Others i procs procs'
    → population procs' + alive (procs i) ≡ population procs + alive (procs' i)
population-at procs procs' i below same =
    total_at alive nproc procs' procs i below
      (λ j low other. alive-Same (procs j) (procs' j) (same j other))

one_more : (n m : ℕ) → m ≤ nproc → m ≡ n + 1 → to_int (pos n +ℤ pos 1) ≡ pos m
unfolding to_int ◌+ℤ◌
one_more n m h e = ground arith

one_less : (n m : ℕ) → n ≤ nproc → n ≡ m + 1 → to_int (pos n -ℤ pos 1) ≡ pos m
unfolding to_int ◌-ℤ◌
one_less n m h e = ground arith

alive_of : (o : Option Proc) (p : Proc) → o ≡ some p → is_zombie p.state ≡ false → alive o ≡ 1
alive_of o p here lives = ground arith

dead_of : (o : Option Proc) (p : Proc) → o ≡ some p → is_zombie p.state ≡ true → alive o ≡ 0
dead_of o p here dead = ground arith

none_of : (o : Option Proc) → o ≡ none → alive o ≡ 0
none_of o e = ground arith

-- Every step keeps the count.
Change-Counted :
    {freed : ℤ → ℤ} {dies : ℤ → Type 0} {s t : Sched}
    → Change freed dies s t
    → Counted s
    → Counted t
Change-Counted {s = s} {t} (shuffle h) e = Shuffles-Counted s t h e
Change-Counted {s = s} {t} (birth b) e =
    let moved = population-at s.procs t.procs b.slot b.inside b.others in
    let was = none_of (s.procs b.slot) b.vacant in
    let is = alive_of (t.procs b.slot) b.task b.there b.lives in
    b.count
    ∙ rw e (
        one_more (population s.procs) (population t.procs) (population-le t.procs)
          (omega (arith, moved, was, is)))
Change-Counted {s = s} {t} (death code of d) e =
    let moved = population-at s.procs t.procs s.cur d.inside d.others in
    let was = alive_of (s.procs s.cur) d.before d.was d.lived in
    let is = dead_of (t.procs s.cur) d.after d.is d.dead in
    d.count
    ∙ rw e (
        one_less (population s.procs) (population t.procs) (population-le s.procs)
          (omega (arith, moved, was, is)))
Change-Counted {s = s} {t} (release r) e =
    let moved = population-at s.procs t.procs r.slot r.inside r.others in
    let was = dead_of (s.procs r.slot) r.task r.was r.dead in
    let is = none_of (t.procs r.slot) r.gone in r.count ∙ e ∙ ap pos (omega (arith, moved, was, is))

-- The only task of the start.
first-population :
    (queue : Slots) (raw : Proc) (area : ℕ)
    → ((i : ℕ) → queue i ≡ none)
    → population (update queue 0 (some (first_task raw area 1))) ≡ 1
first-population queue raw area empty =
    let procs = update queue 0 (some (first_task raw area 1)) in
    let none_yet = total_const alive nproc 0 queue (λ i below. none_of (queue i) (empty i)) in
    let moved = total_at alive nproc procs queue 0 (omega arith) (λ j low other. ground arith) in
    let free = none_of (queue 0) (empty 0) in omega (arith, none_yet, moved, free)

first_state-Counted :
    (queue : Slots) (raw : Proc) (area : ℕ)
    → ((i : ℕ) → queue i ≡ none)
    → Counted (first_state queue raw area 1)
first_state-Counted queue raw area empty = ap pos (sym (first-population queue raw area empty))

-- In every reachable state `proc_count` is the number of the tasks in the 1023 slots that are not
-- zombies.
pub Reach-Counted : {freed : ℤ → ℤ} {s : Sched} → Reach freed s → Counted s
Reach-Counted {s = s} (boot b) =
    rw (← Boot-first s b) (first_state-Counted b.queue b.raw b.area b.empty)
Reach-Counted (next r st) = Change-Counted (Step-Change (Reach-Inv r) st) (Reach-Counted r)
