-- ===== src/Sched/Reap.antt =====
-- The loop of `sched_wait` keeps the invariant.
use ece.Base.{
  ℕ, ◌≡◌, ◌≢◌, ◌⊎◌, refl, true, false, Option, none, some, find_from, find_from-some,
  find_from-none, update, arith,
}
use ece.Base.Int.{ℤ}
use ece.Sched.Types.{nproc, sleeping, zombie, looping, Proc, Slots, Sched, modify}
use ece.Sched.Switch.{deref, current}
use ece.Sched.Calls.{is_dead_child, reap, wait_loop}
use ece.Sched.Invariant.{Valid, Inv, modify-some}

-- No child of the current task is a zombie: it goes to sleep.
pub Valid-sleep :
    {procs : Slots} {cur : ℕ}
    → Valid procs cur
    → find_from (λ i. is_dead_child (deref (procs cur)).pid (procs i)) nproc 0 ≡ none
    → Valid (modify procs cur (λ p. record p { state = sleeping })) cur
Valid-sleep {procs} {cur} v e = record {
  fits = λ j q h. let (p, old, which) = drowsy j q h in ground (arith, v.fits j p old);
  live = let (p, here) = v.live in (record p { state = sleeping }, ground arith);
  one_running = λ j q h r. let (p, old, which) = drowsy j q h in ground (arith, v.one_running j p);
  awake = λ i j q z' hq hz sleeps dead bad.
      let (p, oldp, whichp) = drowsy i q hq in
      let (z, oldz, whichz) = drowsy j z' hz in ground (arith, v.awake i j p z, none_dead j z);
}
  where
    drowsy :
        (j : ℕ) (q : Proc)
        → modify procs cur (λ p. record p { state = sleeping }) j ≡ some q
        → (p : Proc) × (procs j ≡ some p)
          × (((j ≡ cur) × (q ≡ record p { state = sleeping })) ⊎ ((j ≢ cur) × (q ≡ p)))
    drowsy j q h = modify-some procs cur j _ q h

    none_dead :
        (j : ℕ) (z : Proc)
        → procs j ≡ some z
        → is_dead_child (deref (procs cur)).pid (some z) ≡ false
    none_dead j z old =
        rw old at
          (find_from-none _ nproc 0 j e (omega arith) (omega (arith, (v.fits j z old).inside)))

-- The slot of a zombie, not the current task's, is emptied.
Valid-free :
    {procs : Slots} {cur : ℕ} (i : ℕ) → Valid procs cur → i ≢ cur → Valid (update procs i none) cur
Valid-free i v other = record {
  fits = λ j p e. ground (arith, v.fits j p);
  live = let (p, here) = v.live in (p, ground arith);
  one_running = λ j p e r. ground (arith, v.one_running j p);
  awake = λ j k p z ep ez sleeps dead. ground (arith, v.awake j k p z);
}

pub is_dead_child-some :
    (parent : ℕ) (o : Option Proc)
    → is_dead_child parent o ≡ true
    → (z : Proc) × (o ≡ some z) × (z.ppid ≡ parent) × (z.state ≡ zombie)
is_dead_child-some parent none e = cc
is_dead_child-some parent (some z) e = (z, refl, ground arith, ground arith)

reap-Inv :
    (freed : ℤ → ℤ) (s : Sched) (o : Option ℕ)
    → find_from (λ i. is_dead_child (current s).pid (s.procs i)) nproc 0 ≡ o
    → s.point ≡ looping
    → Inv s
    → Inv (reap freed s o)
unfolding reap
reap-Inv freed s none e at v = record {
  sound = Valid-sleep v.sound e;
  at_work = λ w. let (p, here) = v.sound.live in ground arith;
}
reap-Inv freed s (some i) e at v = record {
  sound = Valid-free i v.sound (λ same.
      let f = find_from-some (λ i. is_dead_child (current s).pid (s.procs i)) nproc 0 i e in
      let (z, here, of, dead) = is_dead_child-some (current s).pid (s.procs i) f.passes in
      ground (arith, v.at_work (rw at)));
  at_work = λ w. cc;
}

pub wait_loop-Inv :
    (freed : ℤ → ℤ) (s : Sched) → s.point ≡ looping → Inv s → Inv (wait_loop freed s)
unfolding wait_loop
wait_loop-Inv freed s at v = reap-Inv freed s _ refl at v
