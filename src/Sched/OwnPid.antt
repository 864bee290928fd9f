-- ===== src/Sched/OwnPid.antt =====
-- The exit codes in the program of ps9/main.c.
use ece.Base.{
  ℕ, ◌≡◌, inl, inr, refl, sym, ap, ◌∙◌, true, false, Option, none, some, ◌==◌, Bool-cases, ==→≡,
  find_from, find_from-some, arith,
}
use ece.Base.Int.{ℤ, pos}
use ece.Sched.Types.{nproc, reaped, dozing, Proc, Slots, Sched, is_zombie}
use ece.Sched.Switch.{deref, current}
use ece.Sched.Calls.{first_task, first_state, is_dead_child, reap, wait_loop, sched_getpid}
use ece.Sched.Machine as K
use ece.Sched.Machine.{Step, Boot, Reach, boot, next}
use ece.Sched.Invariant.{Inv}
use ece.Sched.Safety.{Reach-Inv, Boot-first}
use ece.Sched.Reap.{is_dead_child-some}
use ece.Sched.Shuffle.{Same}
use ece.Sched.Change.{Others, Others-update, Change, shuffle, birth, death, release}
use ece.Sched.Effects.{Dies, Step-Change}
use ece.Sched.Demo.{
  Demo, Move, fork, as_parent, as_child, fork_failed, nice, count, exit, all_forked, wait, print,
  finish, look, sleep, wake_up, leave, tick, Runs, begin, move,
}

-- The zombie's exit code is its own pid.
abbrev pub Own : Option Proc → Type 0
Own none = Unit
Own (some z) = is_zombie z.state ≡ true → z.exit_code ≡ pos z.pid

abbrev pub AllOwn : Slots → Type 0
AllOwn procs = (i : ℕ) → Own (procs i)

Own-Same : (o o' : Option Proc) → Same o o' → Own o → Own o'
Own-Same none none h own = tt
Own-Same none (some q) h own = absurd h
Own-Same (some p) none h own = absurd h
Own-Same (some p) (some q) h own = λ dead. h.code ∙ own (sym h.life ∙ dead) ∙ ap pos (sym h.pid)

-- All slots but one keep their tasks.
AllOwn-Others :
    (procs procs' : Slots) (k : ℕ)
    → Others k procs procs'
    → Own (procs' k)
    → AllOwn procs
    → AllOwn procs'
AllOwn-Others procs procs' k others here own i = elim (Bool-cases (i == k)) [
  | inl same ↦ let e : i ≡ k = ==→≡ i k same in rw e here
  | inr other ↦ Own-Same (procs i) (procs' i) (others i (ground arith)) (own i)
]

alive-Own : (o : Option Proc) (p : Proc) → o ≡ some p → is_zombie p.state ≡ false → Own o
alive-Own o p e alive = rw e (λ dead. absurd (ground arith))

empty-Own : (o : Option Proc) → o ≡ none → Own o
empty-Own o e = rw e tt

-- A change in which the current task can only die with its own pid.
Change-AllOwn :
    {freed : ℤ → ℤ} {dies : ℤ → Type 0} {s t : Sched}
    → Change freed dies s t
    → ((c : ℤ) → dies c → c ≡ pos (current s).pid)
    → AllOwn s.procs
    → AllOwn t.procs
Change-AllOwn {s = s} {t} (shuffle h) only own =
    λ i. Own-Same (s.procs i) (t.procs i) (h.slots i) (own i)
Change-AllOwn {s = s} {t} (birth b) only own =
    AllOwn-Others s.procs t.procs b.slot b.others
      (alive-Own (t.procs b.slot) b.task b.there b.lives) own
Change-AllOwn {s = s} {t} (death code by d) only own =
    let mine : (current s).pid ≡ d.before.pid = ground (arith, d.was) in
    let is : d.after.exit_code ≡ pos d.after.pid =
      d.code_kept ∙ only code by ∙ ap pos (mine ∙ sym d.pid_kept) in
    AllOwn-Others s.procs t.procs s.cur d.others (rw d.is (λ dead. is)) own
Change-AllOwn {s = s} {t} (release r) only own =
    AllOwn-Others s.procs t.procs r.slot r.others (empty-Own (t.procs r.slot) r.gone) own

-- What the program does with the scheduler.
pub data Use (freed : ℤ → ℤ) (s t : Sched) : Type 0 where
  unused : t ≡ s → Use freed s t
  used : (st : Step freed s t) → ((c : ℤ) → Dies st c → c ≡ pos (current s).pid) → Use freed s t

Move-Use : {freed : ℤ → ℤ} {d e : Demo} → Move freed d e → Use freed d.sched e.sched
unfolding sched_getpid
Move-Use (fork i block area c h low) = used (K.fork block area c) (λ c' h. absurd h)
Move-Use (as_parent i n r c h p) = used (K.compute r c) (λ c' h. absurd h)
Move-Use (as_child i r c h p) = used (K.compute r c) (λ c' h. absurd h)
Move-Use (fork_failed i n h p) = unused refl
Move-Use (nice i c h) = used (K.nice _ c) (λ c' h. absurd h)
Move-Use (count n r c h low) = used (K.compute r c) (λ c' h. absurd h)
Move-Use (exit c h) = used (K.exit _ c) (λ c' h. h)
Move-Use (all_forked c h) = unused refl
Move-Use (wait i c h low) = used (K.wait c) (λ c' h. absurd h)
Move-Use (print i r c h) = used (K.compute r c) (λ c' h. absurd h)
Move-Use (finish c h) = unused refl
Move-Use (look p) = used (K.look p) (λ c' h. absurd h)
Move-Use (sleep p) = used (K.sleep p) (λ c' h. absurd h)
Move-Use (wake_up p) = used (K.wake_up p) (λ c' h. absurd h)
Move-Use (leave p) = used (K.leave p) (λ c' h. absurd h)
Move-Use (tick open_mask) = used (K.tick open_mask) (λ c' h. absurd h)

Use-Reach : {freed : ℤ → ℤ} {s t : Sched} → Reach freed s → Use freed s t → Reach freed t
Use-Reach r (unused e) = rw e r
Use-Reach r (used st only) = next r st

Use-AllOwn : {freed : ℤ → ℤ} {s t : Sched} → Inv s → Use freed s t → AllOwn s.procs → AllOwn t.procs
Use-AllOwn v (unused e) own = rw e own
Use-AllOwn v (used st only) own = Change-AllOwn (Step-Change v st) only own

pub Runs-Reach : {freed : ℤ → ℤ} {d : Demo} → Runs freed d → Reach freed d.sched
Runs-Reach (begin junk b) = boot b
Runs-Reach (move r on m) = Use-Reach (Runs-Reach r) (Move-Use m)

first-AllOwn :
    (queue : Slots) (raw : Proc) (area : ℕ)
    → ((i : ℕ) → queue i ≡ none)
    → AllOwn (first_state queue raw area 1).procs
first-AllOwn queue raw area empty =
    let procs = (first_state queue raw area 1).procs in
    AllOwn-Others queue procs 0 (Others-update queue 0 (some (first_task raw area 1)))
      (λ dead. absurd (ground arith)) (λ i. empty-Own (queue i) (empty i))

Boot-AllOwn : (s : Sched) → Boot s → AllOwn s.procs
Boot-AllOwn s b = rw (← Boot-first s b) (first-AllOwn b.queue b.raw b.area b.empty)

pub Runs-AllOwn : {freed : ℤ → ℤ} {d : Demo} → Runs freed d → AllOwn d.sched.procs
Runs-AllOwn (begin {s} junk b) = Boot-AllOwn s b
Runs-AllOwn (move r on m) = Use-AllOwn (Reach-Inv (Runs-Reach r)) (Move-Use m) (Runs-AllOwn r)

-- A zombie child of the current task, whose pid is what this exit code was made of.
pub record Collected (freed : ℤ → ℤ) (s : Sched) (code : ℤ) : Type 0 where
  pub slot : ℕ
  pub task : Proc
  pub here : s.procs slot ≡ some task
  pub dead : is_zombie task.state ≡ true
  pub of : task.ppid ≡ (current s).pid
  pub made : code ≡ freed (pos task.pid)

-- What a round of the loop of sched_wait comes to: it finds no zombie, or it ends the loop with an exit code.
pub data Round (freed : ℤ → ℤ) (s t : Sched) : Type 0 where
  none_yet : t.point ≡ dozing → Round freed s t
  collects : (code : ℤ) → t.point ≡ reaped code → Collected freed s code → Round freed s t

reap-Round :
    (freed : ℤ → ℤ) (s : Sched) (o : Option ℕ)
    → AllOwn s.procs
    → find_from (λ i. is_dead_child (current s).pid (s.procs i)) nproc 0 ≡ o
    → Round freed s (reap freed s o)
unfolding reap
reap-Round freed s none own e = none_yet refl
reap-Round freed s (some i) own e =
    let f = find_from-some (λ i. is_dead_child (current s).pid (s.procs i)) nproc 0 i e in
    let (z, here, of, dead) = is_dead_child-some (current s).pid (s.procs i) f.passes in
    let mine : Own (some z) = rw here at (own i) in
    let exit_code : z.exit_code ≡ pos z.pid = mine (ground arith) in
    collects (freed (deref (s.procs i)).exit_code) refl (record {
      slot = i;
      task = z;
      here = here;
      dead = ground arith;
      of = ground arith;
      made = ground (arith, here, exit_code);
    })

-- In every state of a run of the program, whatever the ticks: the exit code of each zombie is its own
-- pid; and a round of the loop of sched_wait finds no zombie, or its exit code is what a read of
-- freed memory makes of the pid of a zombie that is a child of the current task.
pub Runs-Round :
    {freed : ℤ → ℤ} {d : Demo}
    → Runs freed d
    → AllOwn d.sched.procs × Round freed d.sched (wait_loop freed d.sched)
unfolding wait_loop
Runs-Round {freed} {d} r = (Runs-AllOwn r, reap-Round freed d.sched _ (Runs-AllOwn r) refl)
