-- ===== src/Sched/Invariant.antt =====
-- What holds of the scheduler between two of its moves, and the changes of the slots that keep it.
use ece.Base.{ℕ, ◌+◌, ◌<◌, ◌≡◌, ◌≢◌, ◌⊎◌, inl, inr, Bool, true, false, some, Option-cases, arith}
use ece.Base.Int.{pos, negsuc, ◌≤ℤ◌}
use ece.Sched.Types.{
  nproc, running, sleeping, zombie, Point, looping, dozing, waking, Proc, Slots, Sched, modify,
  is_zombie,
}
use ece.Sched.Switch.{deref, current}

-- Each slot below `nproc` holds a task of its own pid, whose nice value is in range.
pub record SlotFits (i : ℕ) (p : Proc) : Type 0 where
  pub inside : i < nproc
  pub own_pid : p.pid ≡ i + 1
  pub nice_above : negsuc 19 ≤ℤ p.niceval
  pub nice_below : p.niceval ≤ℤ pos 19

-- The slots fit, `current` points to a task, no task but that one is RUNNING, and no task sleeps
-- that has a zombie child.
pub record Valid (procs : Slots) (cur : ℕ) : Type 0 where
  pub fits : (i : ℕ) (p : Proc) → procs i ≡ some p → SlotFits i p
  pub live : (p : Proc) × (procs cur ≡ some p)
  pub one_running : (i : ℕ) (p : Proc) → procs i ≡ some p → p.state ≡ running → i ≡ cur
  pub awake :
      (i j : ℕ) (p z : Proc)
      → procs i ≡ some p
      → procs j ≡ some z
      → p.state ≡ sleeping
      → z.state ≡ zombie
      → z.ppid ≢ p.pid

abbrev pub Sound : Sched → Type 0
Sound s = Valid s.procs s.cur

-- In the loop of `sched_wait`.
abbrev pub in_wait : Point → Bool
in_wait looping = true
in_wait dozing = true
in_wait waking = true
in_wait _ = false

-- No zombie is in the loop of `sched_wait`.
abbrev pub AtWork : Point → Sched → Type 0
AtWork p s = in_wait p ≡ true → is_zombie (current s).state ≡ false

pub record Inv (s : Sched) : Type 0 where
  pub sound : Sound s
  pub at_work : AtWork s.point s

-- `q` is `p` after a change that makes no sleeper and no zombie.
pub record Calmer (p q : Proc) : Type 0 where
  pub same_pid : q.pid ≡ p.pid
  pub same_ppid : q.ppid ≡ p.ppid
  pub same_sleep : q.state ≡ sleeping → p.state ≡ sleeping
  pub same_death : q.state ≡ zombie → p.state ≡ zombie
  pub still_above : negsuc 19 ≤ℤ p.niceval → negsuc 19 ≤ℤ q.niceval
  pub still_below : p.niceval ≤ℤ pos 19 → q.niceval ≤ℤ pos 19

-- Such a change of any slots keeps what holds, if only the current task is left RUNNING.
pub Valid-Calmer :
    {procs : Slots} {cur : ℕ} (procs' : Slots) (cur' : ℕ)
    → Valid procs cur
    → ((i : ℕ) (q : Proc) → procs' i ≡ some q → (p : Proc) × (procs i ≡ some p) × Calmer p q)
    → (p : Proc) × (procs' cur' ≡ some p)
    → ((i : ℕ) (q : Proc) → procs' i ≡ some q → q.state ≡ running → i ≡ cur')
    → Valid procs' cur'
Valid-Calmer procs' cur' v from live one = record {
  fits = λ i q e. let (p, old, c) = from i q e in ground (arith, v.fits i p old);
  live = live;
  one_running = one;
  awake = λ i j q z' eq ez hq hz.
      let (p, oldp, cp) = from i q eq in
      let (z, oldz, cz) = from j z' ez in
      λ bad. v.awake i j p z oldp oldz (cp.same_sleep hq) (cz.same_death hz) (ground arith);
}

-- What a slot held before `modify`.
pub modify-some :
    (procs : Slots) (i j : ℕ) (f : Proc → Proc) (q : Proc)
    → modify procs i f j ≡ some q
    → (p : Proc) × (procs j ≡ some p) × (((j ≡ i) × (q ≡ f p)) ⊎ ((j ≢ i) × (q ≡ p)))
modify-some procs i j f q e = elim (Option-cases (procs j)) [
  | inl gone ↦ absurd (ground arith)
  | inr (p, here) ↦ (p, here, ground arith)
]

module _ {procs : Slots} {cur : ℕ} (v : Valid procs cur) (i : ℕ) (f : Proc → Proc) where
  -- A calm change of one slot, which makes only the current task RUNNING.
  pub Valid-modify :
      ((p : Proc) → procs i ≡ some p → Calmer p (f p))
      → ((p : Proc) → procs i ≡ some p → (f p).state ≡ running → i ≡ cur)
      → Valid (modify procs i f) cur
  Valid-modify calm one = Valid-Calmer (modify procs i f) cur v from (lives (v.live)) runs
    where
      from :
          (j : ℕ) (q : Proc)
          → modify procs i f j ≡ some q
          → (p : Proc) × (procs j ≡ some p) × Calmer p q
      from j q e =
          let (p, here, which) = modify-some procs i j f q e in (p, here, ground (arith, calm p))

      lives : (p : Proc) × (procs cur ≡ some p) → (p : Proc) × (modify procs i f cur ≡ some p)
      lives (p, here) = (deref (modify procs i f cur), ground arith)

      runs : (j : ℕ) (q : Proc) → modify procs i f j ≡ some q → q.state ≡ running → j ≡ cur
      runs j q e r =
          let (p, here, which) = modify-some procs i j f q e in
          ground (arith, one p, v.one_running j p)
