-- ===== src/Sched/Handover.antt =====
-- A child that exits wakes the parent that sleeps in `sched_wait`, which then gets its exit code.
use ece.Base.{
  ℕ, ◌≡◌, ◌≢◌, refl, sym, ap, ◌∙◌, inl, inr, true, none, some, find_from, find_from_unique, ◌==◌,
  Bool-cases, ==→≡, arith,
}
use ece.Base.Int.{ℤ}
use ece.Sched.Types.{
  nproc, running, sleeping, zombie, reaped, waking, from_wait, at_switch, Proc, Slots, Sched,
  modify,
}
use ece.Sched.Switch.{deref, current, restore_ctx}
use ece.Sched.Calls.{is_dead_child, sleeps_as, bury, wake, sched_exit, reap, reblock, wait_loop}
use ece.Sched.Invariant.{Sound, modify-some}
use ece.Sched.Death.{sleeps_as-some, bury-ppid, grave-fits}
use ece.Sched.Reap.{is_dead_child-some}

-- The parent `p` of the current task sleeps in slot `i`; it was switched away from by the call of
-- `sched_switch` in `sched_wait`.
pub record Awaited (s : Sched) (i : ℕ) (p : Proc) : Type 0 where
  pub apart : i ≢ s.cur
  pub here : s.procs i ≡ some p
  pub asleep : p.state ≡ sleeping
  pub mother : p.pid ≡ (current s).ppid
  pub stopped : p.ctx.resume ≡ at_switch from_wait

restore_from_wait :
    (u : Sched)
    → (current u).ctx.resume ≡ at_switch from_wait
    → ((restore_ctx u).point ≡ waking)
      × ((restore_ctx u).cur ≡ u.cur)
      × ((restore_ctx u).procs ≡ u.procs)
restore_from_wait u e = rw e (refl, refl, refl)

sleeps_as-parent : (p : Proc) (n : ℕ) → p.pid ≡ n → p.state ≡ sleeping → sleeps_as n (some p) ≡ true
sleeps_as-parent p n e asleep = ground arith

bury-other : (code : ℤ) (s : Sched) (j : ℕ) → j ≢ s.cur → (bury code s).procs j ≡ s.procs j
unfolding bury
bury-other code s j other = ground arith

-- The dead task, as `bury` leaves it.
bury-dead :
    (code : ℤ) (s : Sched)
    → Sound s
    → (z : Proc) × ((bury code s).procs s.cur ≡ some z)
      × (z.ppid ≡ (current s).ppid)
      × (z.state ≡ zombie)
      × (z.exit_code ≡ code)
unfolding bury
bury-dead code s v =
    let (p, here) = v.live in
    (record p { state = zombie; exit_code = code }, ground arith, ground arith, refl, refl)

module _ (code : ℤ) (s : Sched) (v : Sound s) (i : ℕ) (p : Proc) (h : Awaited s i p) where
  abbrev woken : Slots
  woken = modify (bury code s).procs i (λ q. record q { state = running })

  parent_here : (bury code s).procs i ≡ some p
  parent_here = bury-other code s i h.apart ∙ h.here

  parent_found :
      find_from (λ j. sleeps_as (current (bury code s)).ppid ((bury code s).procs j)) nproc 0
      ≡ some i
  parent_found =
      find_from_unique (λ j. sleeps_as (current (bury code s)).ppid ((bury code s).procs j)) nproc 0
        i (omega arith) (omega (arith, (v.fits i p h.here).inside))
        (rw parent_here (sleeps_as-parent p _ (h.mother ∙ sym (bury-ppid code s v)) h.asleep))
        (λ j low high e.
          let (q, at, pid, asleep) =
            sleeps_as-some (current (bury code s)).ppid ((bury code s).procs j) e in
          ground
            (arith, grave-fits code s v j q at, v.fits i p h.here, bury-ppid code s v, h.mother))

  -- The parent is back from `sched_switch`.
  exit_resumes : let t = sched_exit code s in (t.point ≡ waking) × (t.cur ≡ i) × (t.procs ≡ woken)
  unfolding sched_exit wake
  exit_resumes = rw parent_found (
      restore_from_wait (record (bury code s) { cur = i; procs = woken })
        (ground (arith, parent_here, h.stopped)))

  woken-dead :
      (z : Proc) × (woken s.cur ≡ some z)
      × (z.ppid ≡ p.pid)
      × (z.state ≡ zombie)
      × (z.exit_code ≡ code)
  woken-dead =
      let (z, at, of, dead, coded) = bury-dead code s v in
      (z, ground (arith, h.apart), ground (arith, h.mother), dead, coded)

  -- No other task is a dead child of the parent: it would not sleep.
  only_dead : (j : ℕ) → is_dead_child p.pid (woken j) ≡ true → j ≡ s.cur
  only_dead j e =
      let (z, at, of, dead) = is_dead_child-some p.pid (woken j) e in
      let (b, middle, which) = modify-some (bury code s).procs i j _ z at in
      elim (Bool-cases (j == s.cur)) [
        | inl same ↦ ==→≡ j s.cur same
        | inr other ↦ absurd (ground (arith, bury-other code s j, v.awake i j p z h.here, h.asleep))
      ]

  dead_found :
      (t : Sched)
      → t.cur ≡ i
      → t.procs ≡ woken
      → find_from (λ j. is_dead_child (current t).pid (t.procs j)) nproc 0 ≡ some s.cur
  dead_found t at same =
      rw (at, same)
        let (z, here, of, dead, coded) = woken-dead in
          let (me, live) = v.live in
          let mine : (deref (woken i)).pid ≡ p.pid = ground (arith, parent_here) in
          rw mine (
            find_from_unique (λ j. is_dead_child p.pid (woken j)) nproc 0 s.cur (omega arith)
              (omega (arith, (v.fits s.cur me live).inside)) (rw here (ground arith))
              (λ j low high e. only_dead j e))

  reaps_dead :
      (freed : ℤ → ℤ)
      → let u = wait_loop freed (reblock (sched_exit code s)) in
        (u.point ≡ reaped (freed code))
        × (u.cur ≡ i)
        × (u.procs s.cur ≡ none)
        × ((j : ℕ) → j ≢ s.cur → j ≢ i → u.procs j ≡ s.procs j)
  unfolding wait_loop reap reblock
  reaps_dead freed =
      let (at, now, same) = exit_resumes in
      let (z, here, of, dead, coded) = woken-dead in
      rw (dead_found (reblock (sched_exit code s)) now same) (
        ground (arith, here),
        now,
        ground arith,
        λ j other apart. ground (arith, ap (λ (f : Slots). f j) same, bury-other code s j other),
      )

  -- A task exits, in a state whose tables are sound, while its parent, in another slot, sleeps in
  -- `sched_wait`, where its own call of `sched_switch` has switched away from it. The parent is
  -- current at once, before it blocks the signals again; and if no tick comes in there, the round of
  -- its loop that follows frees the slot of the dead task, changes no third slot, and returns what a
  -- read of the freed memory makes of the exit code.
  pub exit_then_reap :
      (freed : ℤ → ℤ)
      → let t = sched_exit code s in
        let u = wait_loop freed (reblock t) in
        (t.point ≡ waking)
        × (t.cur ≡ i)
        × (u.point ≡ reaped (freed code))
        × (u.cur ≡ i)
        × (u.procs s.cur ≡ none)
        × ((j : ℕ) → j ≢ s.cur → j ≢ i → u.procs j ≡ s.procs j)
  exit_then_reap freed =
      let (at, now, same) = exit_resumes in
      let (reads, kept, gone, others) = reaps_dead freed in (at, now, reads, kept, gone, others)
