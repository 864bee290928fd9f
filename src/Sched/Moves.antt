-- ===== src/Sched/Moves.antt =====
-- Every call of a task, and every tick, keeps the invariant.
use ece.Base.{
  ℕ, ◌+◌, ◌-◌, ◌<◌, ◌≤◌, ◌≡◌, refl, inl, inr, Option, none, some, ◌==◌, Bool-cases, Found,
  find_from-some, update, arith,
}
use ece.Base.Int.{ℤ}
use ece.Sched.Types.{
  nproc, ready, dozing, waking, from_tick, from_wait, from_exit, Regs, Proc, Slots, Sched,
  is_zombie,
}
use ece.Sched.Switch.{deref, current}
use ece.Sched.Calls.{
  is_free, nextpid, child, enlist, sched_fork, depart, enter_wait, sched_wait, doze, reblock,
  sched_nice, count_tick, sched_tick,
}
use ece.Sched.Machine.{CanCall}
use ece.Sched.Invariant.{SlotFits, Valid, Sound, Inv, Valid-modify}
use ece.Sched.Keep.{sched_switch-Sound, sched_switch-AtWork}

-- A pid that `nextpid` gives names a free slot, the lowest one.
pub nextpid-Found :
    (procs : Slots) (pid : ℕ)
    → nextpid procs ≡ some pid
    → Found (λ i. is_free (procs (i - 1))) nproc 1 pid
unfolding nextpid
nextpid-Found procs pid e = find_from-some (λ i. is_free (procs (i - 1))) nproc 1 pid e

pub sched_nice-Sound : (n : ℤ) (s : Sched) → Sound s → Sound (sched_nice n s)
unfolding sched_nice
sched_nice-Sound n s v = Valid-modify v s.cur _ (λ p here. ground arith) (λ p here r. refl)

pub count_tick-Sound : (s : Sched) → Sound s → Sound (count_tick s)
unfolding count_tick
count_tick-Sound s v = Valid-modify v s.cur _ (λ p here. ground arith) (λ p here r. refl)

count_tick-dead :
    (s : Sched) → is_zombie (current (count_tick s)).state ≡ is_zombie (current s).state
unfolding count_tick
count_tick-dead s = ground arith

pub sched_tick-Inv : (s : Sched) → Inv s → Inv (sched_tick s)
unfolding sched_tick
sched_tick-Inv s v = record {
  sound = sched_switch-Sound (from_tick s.point) (count_tick s) (count_tick-Sound s v.sound);
  at_work =
      sched_switch-AtWork (from_tick s.point) (count_tick s)
        (λ w. rw (count_tick-dead s) (v.at_work w));
}

pub reblock-Inv : (s : Sched) → s.point ≡ waking → Inv s → Inv (reblock s)
unfolding reblock
reblock-Inv s at v = record { sound = v.sound; at_work = λ w. v.at_work (rw at) }

pub doze-Inv : (s : Sched) → s.point ≡ dozing → Inv s → Inv (doze s)
unfolding doze
doze-Inv s at v = record {
  sound = sched_switch-Sound from_wait s v.sound;
  at_work = sched_switch-AtWork from_wait s (λ w. v.at_work (rw at));
}

pub depart-Inv : (s : Sched) → Inv s → Inv (depart s)
unfolding depart
depart-Inv s v = record {
  sound = sched_switch-Sound from_exit s v.sound;
  at_work = sched_switch-AtWork from_exit s (λ w. cc);
}

pub sched_nice-Inv : (n : ℤ) (s : Sched) → CanCall s → Inv s → Inv (sched_nice n s)
unfolding sched_nice
sched_nice-Inv n s call v = record {
  sound = sched_nice-Sound n s v.sound;
  at_work = λ w. ground arith;
}

-- A new READY task in a free slot.
Valid-add :
    {procs : Slots} {cur : ℕ} (i : ℕ) (c : Proc)
    → Valid procs cur
    → procs i ≡ none
    → SlotFits i c
    → c.state ≡ ready
    → Valid (update procs i (some c)) cur
Valid-add {procs} {cur} i c v free fits is = record {
  fits = λ j p e. elim (Bool-cases (i == j)) [
    | inl here ↦ ground arith
    | inr other ↦ v.fits j p (ground arith)
  ];
  live = let (p, here) = v.live in (deref (update procs i (some c) cur), ground arith);
  one_running = λ j p e r. ground (arith, v.one_running j p);
  awake = λ j k p z ep ez sleeps dead. ground (arith, v.awake j k p z);
}

child-SlotFits :
    (parent raw : Proc) (pid area : ℕ) (r : Regs)
    → 1 ≤ pid
    → pid < 1 + nproc
    → SlotFits (pid - 1) (child parent pid area r raw)
unfolding child
child-SlotFits parent raw pid area r low high = ground arith

child-ready :
    (parent raw : Proc) (pid area : ℕ) (r : Regs) → (child parent pid area r raw).state ≡ ready
unfolding child
child-ready parent raw pid area r = refl

enlist-Inv :
    (raw : Proc) (area : ℕ) (s : Sched) (o : Option ℕ)
    → nextpid s.procs ≡ o
    → Inv s
    → Inv (enlist raw area s o)
unfolding enlist
enlist-Inv raw area s none e v = record { sound = v.sound; at_work = λ w. cc }
enlist-Inv raw area s (some pid) e v =
    let f = nextpid-Found s.procs pid e in
    record {
      sound =
          Valid-add (pid - 1) _ v.sound (ground (arith, f.passes))
            (child-SlotFits _ raw pid area _ f.above f.below) (child-ready _ raw pid area _);
      at_work = λ w. cc;
    }

pub sched_fork-Inv :
    (block : Option Proc) (area : ℕ) (s : Sched) → Inv s → Inv (sched_fork block area s)
unfolding sched_fork
sched_fork-Inv none area s v = record { sound = v.sound; at_work = λ w. cc }
sched_fork-Inv (some raw) area s v = enlist-Inv raw area s (nextpid s.procs) refl v

enter_wait-Inv : (s : Sched) (o : Option ℕ) → CanCall s → Inv s → Inv (enter_wait s o)
enter_wait-Inv s none call v = record { sound = v.sound; at_work = λ w. cc }
enter_wait-Inv s (some i) call v = record { sound = v.sound; at_work = λ w. call.alive }

pub sched_wait-Inv : (s : Sched) → CanCall s → Inv s → Inv (sched_wait s)
unfolding sched_wait
sched_wait-Inv s call v = enter_wait-Inv s _ call v
