-- ===== src/Sched/Effects.antt =====
-- What each step of ps9/sched.c makes of the lives of the tasks.
use ece.Base.{ℕ, ◌≡◌, refl, false, Option, none, some, find_from, find_from-some, arith}
use ece.Base.Int.{ℤ}
use ece.Sched.Types.{nproc, sleeping, from_tick, from_wait, from_exit, Sched, is_zombie}
use ece.Sched.Switch.{current}
use ece.Sched.Calls.{
  depart, enter_wait, sched_wait, is_dead_child, reap, wait_loop, doze, reblock, sched_nice,
  count_tick, sched_tick,
}
use ece.Sched.Machine.{Step, compute, fork, exit, wait, nice, look, sleep, wake_up, leave, tick}
use ece.Sched.Invariant.{Sound, Inv}
use ece.Sched.Moves.{count_tick-Sound}
use ece.Sched.Reap.{is_dead_child-some}
use ece.Sched.Shuffle.{modify-Shuffled, Shuffles, Shuffles-trans, sched_switch-Shuffles}
use ece.Sched.Change.{Others-update, Change, shuffle, release, kept-Shuffles}
use ece.Sched.Births.{fork-Change, exit-Change}

reap-Change :
    {dies : ℤ → Type 0} (freed : ℤ → ℤ) (s : Sched) (o : Option ℕ)
    → find_from (λ i. is_dead_child (current s).pid (s.procs i)) nproc 0 ≡ o
    → Sound s
    → is_zombie (current s).state ≡ false
    → Change freed dies s (reap freed s o)
unfolding reap
reap-Change freed s none e v lives = shuffle (record {
  slots = modify-Shuffled s.procs s.cur (λ p. record p { state = sleeping }) (λ p h. ground arith);
  count = refl;
})
reap-Change freed s (some i) e v lives =
    let f = find_from-some (λ i. is_dead_child (current s).pid (s.procs i)) nproc 0 i e in
    let (z, here, of, dead) = is_dead_child-some (current s).pid (s.procs i) f.passes in
    let (p, mine) = v.live in
    release (record {
      slot = i;
      task = z;
      parent = p;
      inside = f.below;
      was = here;
      dead = ground arith;
      mother = (mine, ground arith);
      of = ground arith;
      gone = ground arith;
      others = Others-update s.procs i none;
      code = ground arith;
      same_task = refl;
      count = refl;
    })

wait_loop-Change :
    {dies : ℤ → Type 0} (freed : ℤ → ℤ) (s : Sched)
    → Sound s
    → is_zombie (current s).state ≡ false
    → Change freed dies s (wait_loop freed s)
unfolding wait_loop
wait_loop-Change freed s v lives = reap-Change freed s _ refl v lives

enter_wait-Shuffles : (s : Sched) (o : Option ℕ) → Shuffles s (enter_wait s o)
enter_wait-Shuffles s none = kept-Shuffles s _ refl refl
enter_wait-Shuffles s (some i) = kept-Shuffles s _ refl refl

sched_wait-Shuffles : (s : Sched) → Shuffles s (sched_wait s)
unfolding sched_wait
sched_wait-Shuffles s = enter_wait-Shuffles s _

sched_nice-Shuffles : (n : ℤ) (s : Sched) → Shuffles s (sched_nice n s)
unfolding sched_nice
sched_nice-Shuffles n s = record {
  slots = modify-Shuffled s.procs s.cur _ (λ p e. ground arith);
  count = refl;
}

count_tick-Shuffles : (s : Sched) → Shuffles s (count_tick s)
unfolding count_tick
count_tick-Shuffles s = record {
  slots = modify-Shuffled s.procs s.cur _ (λ p e. ground arith);
  count = refl;
}

sched_tick-Shuffles : (s : Sched) → Sound s → Shuffles s (sched_tick s)
unfolding sched_tick
sched_tick-Shuffles s v =
    Shuffles-trans s (count_tick s) (sched_tick s) (count_tick-Shuffles s)
      (sched_switch-Shuffles (from_tick s.point) (count_tick s) (count_tick-Sound s v))

reblock-Shuffles : (s : Sched) → Shuffles s (reblock s)
unfolding reblock
reblock-Shuffles s = kept-Shuffles s _ refl refl

doze-Shuffles : (s : Sched) → Sound s → Shuffles s (doze s)
unfolding doze
doze-Shuffles s v = sched_switch-Shuffles from_wait s v

depart-Shuffles : (s : Sched) → Sound s → Shuffles s (depart s)
unfolding depart
depart-Shuffles s v = sched_switch-Shuffles from_exit s v

-- The exit code of a step, if it is one.
abbrev pub Dies : {freed : ℤ → ℤ} {s t : Sched} → Step freed s t → ℤ → Type 0
Dies (exit code call) c = c ≡ code
Dies _ c = ⊥

-- Every step from a state in which the invariant holds shuffles the tasks, or is the birth of one, the
-- death of the current one, or the release of a dead child of the current one.
pub Step-Change :
    {freed : ℤ → ℤ} {s t : Sched} → Inv s → (st : Step freed s t) → Change freed (Dies st) s t
Step-Change {s = s} v (compute r call) = shuffle (kept-Shuffles s _ refl refl)
Step-Change {freed} {s = s} v (fork block area call) =
    fork-Change freed block area s call.alive v.sound
Step-Change {freed} {s = s} v (exit code call) = exit-Change freed code s v.sound call.alive
Step-Change {s = s} v (wait call) = shuffle (sched_wait-Shuffles s)
Step-Change {s = s} v (nice niceval call) = shuffle (sched_nice-Shuffles niceval s)
Step-Change {freed} {s = s} v (look at) = wait_loop-Change freed s v.sound (v.at_work (rw at))
Step-Change {s = s} v (sleep at) = shuffle (doze-Shuffles s v.sound)
Step-Change {s = s} v (wake_up at) = shuffle (reblock-Shuffles s)
Step-Change {s = s} v (leave at) = shuffle (depart-Shuffles s v.sound)
Step-Change {s = s} v (tick open_mask) = shuffle (sched_tick-Shuffles s v.sound)
