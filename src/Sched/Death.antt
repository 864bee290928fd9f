-- ===== src/Sched/Death.antt =====
-- The end of a task, and of what is left of it, keeps the invariant.
use ece.Base.{
  ℕ, ◌≡◌, ◌≢◌, ◌⊎◌, refl, inl, inr, true, false, Option, none, some, Bool, Found, find_from,
  find_from-some, find_from-none, arith,
}
use ece.Base.Int.{ℤ}
use ece.Sched.Types.{nproc, running, sleeping, zombie, Proc, Slots, Sched, modify, is_zombie}
use ece.Sched.Switch.{deref, current, restore_ctx}
use ece.Sched.Calls.{sleeps_as, bury, wake, sched_exit}
use ece.Sched.Invariant.{SlotFits, Valid, Sound, AtWork, Inv, modify-some}
use ece.Sched.Keep.{Quiet, restore_ctx-Sound, continue-current}

-- `q` is `p` after a change that makes no sleeper, and no zombie but in one slot.
pub record Mourned (dead : ℕ) (j : ℕ) (p q : Proc) : Type 0 where
  pub same_pid : q.pid ≡ p.pid
  pub same_ppid : q.ppid ≡ p.ppid
  pub same_nice : q.niceval ≡ p.niceval
  pub same_sleep : q.state ≡ sleeping → p.state ≡ sleeping
  pub same_death : q.state ≡ zombie → (p.state ≡ zombie) ⊎ (j ≡ dead)

-- The current task dies, and no task sleeps that is its parent.
Valid-mourn :
    {procs : Slots} {cur : ℕ} (procs' : Slots) (cur' : ℕ)
    → Valid procs cur
    → ((j : ℕ) (q : Proc) → procs' j ≡ some q → (p : Proc) × (procs j ≡ some p) × Mourned cur j p q)
    → ((j : ℕ) (q : Proc)
        → procs' j ≡ some q
        → q.state ≡ sleeping
        → q.pid ≢ (deref (procs cur)).ppid)
    → (p : Proc) × (procs' cur' ≡ some p)
    → ((j : ℕ) (q : Proc) → procs' j ≡ some q → q.state ≡ running → j ≡ cur')
    → Valid procs' cur'
Valid-mourn {procs} {cur} procs' cur' v from orphan live one = record {
  fits = λ j q e. let (p, old, m) = from j q e in ground (arith, v.fits j p old);
  live = live;
  one_running = one;
  awake = λ i j q z' eq ez hq hz.
      let (p, oldp, mp) = from i q eq in
      let (z, oldz, mz) = from j z' ez in
      elim (mz.same_death hz) [
        | inl before ↦ λ bad. v.awake i j p z oldp oldz (mp.same_sleep hq) before (ground arith)
        | inr now ↦ λ bad. orphan i q eq hq (ground arith)
      ];
}

pub bury-from :
    (code : ℤ) (s : Sched) (j : ℕ) (q : Proc)
    → (bury code s).procs j ≡ some q
    → (p : Proc) × (s.procs j ≡ some p) × Mourned s.cur j p q
unfolding bury
bury-from code s j q e =
    let (p, here, which) = modify-some s.procs s.cur j _ q e in (p, here, ground arith)

-- After the death no task is RUNNING.
bury-Quiet : (code : ℤ) (s : Sched) → Sound s → Quiet (bury code s).procs
unfolding bury
bury-Quiet code s v j q e r =
    let (p, here, which) = modify-some s.procs s.cur j _ q e in ground (arith, v.one_running j p)

pub bury-ppid : (code : ℤ) (s : Sched) → Sound s → (current (bury code s)).ppid ≡ (current s).ppid
unfolding bury
bury-ppid code s v = let (p, here) = v.live in ground arith

bury-live :
    (code : ℤ) (s : Sched) → Sound s → (p : Proc) × ((bury code s).procs (bury code s).cur ≡ some p)
unfolding bury
bury-live code s v =
    let (p, here) = v.live in (record p { state = zombie; exit_code = code }, ground arith)

pub sleeps_as-some :
    (parent : ℕ) (o : Option Proc)
    → sleeps_as parent o ≡ true
    → (p : Proc) × (o ≡ some p) × (p.pid ≡ parent) × (p.state ≡ sleeping)
sleeps_as-some parent none e = cc
sleeps_as-some parent (some p) e = (p, refl, ground arith, ground arith)

module _ (code : ℤ) (s : Sched) (v : Sound s) where
  abbrev pub grave : Sched
  grave = bury code s

  abbrev is_parent : ℕ → Bool
  is_parent i = sleeps_as (current grave).ppid (grave.procs i)

  pub grave-fits : (j : ℕ) (q : Proc) → grave.procs j ≡ some q → SlotFits j q
  grave-fits j q e = let (p, old, m) = bury-from code s j q e in ground (arith, v.fits j p old)

  -- No parent sleeps.
  unseen-Sound : find_from is_parent nproc 0 ≡ none → Sound grave
  unseen-Sound e =
      Valid-mourn grave.procs grave.cur v (bury-from code s)
        (λ j q here sleeps bad.
          let miss =
            find_from-none is_parent nproc 0 j e (omega arith)
              (omega (arith, (grave-fits j q here).inside)) in
          ground (arith, bury-ppid code s v))
        (bury-live code s v) (λ j q here r. absurd (bury-Quiet code s v j q here r))

  -- The parent in slot `i` sleeps, and is made RUNNING.
  abbrev woken : ℕ → Slots
  woken i = modify grave.procs i (λ p. record p { state = running })

  woken-from :
      (i j : ℕ) (q : Proc)
      → woken i j ≡ some q
      → (p : Proc) × (grave.procs j ≡ some p)
        × (((j ≡ i) × (q ≡ record p { state = running })) ⊎ ((j ≢ i) × (q ≡ p)))
  woken-from i j q e = modify-some grave.procs i j _ q e

  seen-Sound : (i : ℕ) → find_from is_parent nproc 0 ≡ some i → Valid (woken i) i
  seen-Sound i e =
      Valid-mourn (woken i) i v
        (λ j q here.
          let (b, middle, which) = woken-from i j q here in
          let (p, old, m) = bury-from code s j b middle in (p, old, ground arith))
        (λ j q here sleeps bad.
          let (b, middle, which) = woken-from i j q here in
          let (m, at, its, asleep) = sleeps_as-some (current grave).ppid (grave.procs i) f.passes in
          ground (arith, grave-fits i m at, grave-fits j b middle, bury-ppid code s v))
        (deref (woken i i), ground (arith, f.passes))
        (λ j q here r.
          let (b, middle, which) = woken-from i j q here in
          ground (arith, bury-Quiet code s v j b middle))
    where
      f : Found is_parent nproc 0 i
      f = find_from-some is_parent nproc 0 i e

wake-Sound :
    (code : ℤ) (s : Sched) (v : Sound s) (o : Option ℕ)
    → find_from (is_parent code s v) nproc 0 ≡ o
    → Sound (wake (bury code s) o)
unfolding wake
wake-Sound code s v none e = unseen-Sound code s v e
wake-Sound code s v (some i) e =
    restore_ctx-Sound (record (bury code s) { cur = i; procs = woken code s v i })
      (seen-Sound code s v i e)

restore_ctx-AtWork :
    (s : Sched) → is_zombie (current s).state ≡ false → AtWork (restore_ctx s).point (restore_ctx s)
restore_ctx-AtWork s alive w = rw (continue-current (current s).ctx.resume) alive

wake-AtWork :
    (code : ℤ) (s : Sched) (v : Sound s) (o : Option ℕ)
    → find_from (is_parent code s v) nproc 0 ≡ o
    → AtWork (wake (bury code s) o).point (wake (bury code s) o)
unfolding wake
wake-AtWork code s v none e = λ w. cc
wake-AtWork code s v (some i) e =
    let (p, here) = (seen-Sound code s v i e).live in
    restore_ctx-AtWork (record (bury code s) { cur = i; procs = woken code s v i })
      (ground (arith, woken-from code s v i i p here))

pub sched_exit-Inv : (code : ℤ) (s : Sched) → Inv s → Inv (sched_exit code s)
unfolding sched_exit
sched_exit-Inv code s v = record {
  sound = wake-Sound code s v.sound _ refl;
  at_work = wake-AtWork code s v.sound _ refl;
}
