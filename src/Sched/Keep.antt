-- ===== src/Sched/Keep.antt =====
-- `sched_switch` keeps the slots sound, and leaves no dead task at work.
use ece.Base.{
  ℕ, ◌≡◌, ◌≢◌, refl, sym, ap, ◌∙◌, inl, inr, Option, none, some, ◌==◌, Bool-cases, Option-cases,
  arith,
}
use ece.Sched.Types.{
  running, Point, user, looping, Caller, from_tick, from_wait, from_exit, Resume, at_start, at_fork,
  at_switch, Regs, Proc, Slots, Sched, modify, is_zombie,
}
use ece.Sched.Switch.{
  deref, current, set_priority, reprioritise, prepare, select, stay, continue, restore_ctx,
  switch_to, switch_best, sched_switch,
}
use ece.Sched.Invariant.{Valid, Sound, AtWork, Calmer, Valid-Calmer, Valid-modify, modify-some}
use ece.Sched.Select.{select-best, best-IsBest}

-- No task is RUNNING.
abbrev pub Quiet : Slots → Type 0
Quiet procs = (i : ℕ) (p : Proc) → procs i ≡ some p → p.state ≢ running

set_priority-Calmer : (p : Proc) → Calmer p (set_priority p)
set_priority-Calmer p = ground arith

pub reprioritise-some :
    (procs : Slots) (i : ℕ) (q : Proc)
    → reprioritise procs i ≡ some q
    → (p : Proc) × (procs i ≡ some p) × (q ≡ set_priority p)
reprioritise-some procs i q e = elim (Option-cases (procs i)) [
  | inl gone ↦ absurd (ground arith)
  | inr (p, here) ↦ (p, here, ground arith)
]

pub Valid-reprioritise :
    {procs : Slots} {cur : ℕ} → Valid procs cur → Valid (reprioritise procs) cur
Valid-reprioritise {procs} {cur} v =
    Valid-Calmer (reprioritise procs) cur v
      (λ i q e.
        let (p, here, same) = reprioritise-some procs i q e in
        (p, here, ground (arith, set_priority-Calmer p)))
      (let (p, here) = v.live in (set_priority p, ground arith))
      (λ i q e r.
        let (p, here, same) = reprioritise-some procs i q e in ground (arith, v.one_running i p))

pub prepare-Sound : (s : Sched) → Sound s → Sound (prepare s)
unfolding prepare
prepare-Sound s v =
    Valid-modify (Valid-reprioritise v) s.cur _ (λ p here. ground arith) (λ p here r. refl)

prepare-Quiet : (s : Sched) → Sound s → Quiet (prepare s).procs
unfolding prepare
prepare-Quiet s v i q e r =
    let (p, here, which) = modify-some (reprioritise s.procs) s.cur i _ q e in
    ground (arith, (Valid-reprioritise v).one_running i p)

-- Where no task is RUNNING, any task can become the current one.
Valid-move :
    {procs : Slots} {cur : ℕ} (i : ℕ) (p : Proc)
    → Valid procs cur
    → Quiet procs
    → procs i ≡ some p
    → Valid procs i
Valid-move i p v quiet here = record {
  fits = v.fits;
  live = (p, here);
  one_running = λ j q e r. absurd (quiet j q e r);
  awake = v.awake;
}

-- The slot chosen becomes the one RUNNING task.
pub Valid-run :
    {procs : Slots} {cur : ℕ} (i : ℕ) (p : Proc)
    → Valid procs cur
    → Quiet procs
    → procs i ≡ some p
    → Valid (modify procs i (λ q. record q { state = running })) i
Valid-run i p v quiet here =
    Valid-modify (Valid-move i p v quiet here) i _ (λ q e. ground arith) (λ q e r. refl)

pub continue-Sound : (r : Resume) (s : Sched) → Sound s → Sound (continue r s)
continue-Sound at_start s v = v
continue-Sound at_fork s v = v
continue-Sound (at_switch (from_tick p)) s v = v
continue-Sound (at_switch from_wait) s v = v
continue-Sound (at_switch from_exit) s v = v

pub restore_ctx-Sound : (s : Sched) → Sound s → Sound (restore_ctx s)
restore_ctx-Sound s v = continue-Sound (current s).ctx.resume _ v

stay-Sound : (c : Caller) (s : Sched) → Sound s → Sound (stay c s)
stay-Sound (from_tick p) s v = v
stay-Sound from_wait s v = v
stay-Sound from_exit s v = v

pub save : Caller → Regs → Proc → Proc
save c r p = record p { ctx = record { resume = at_switch c; regs = r } }

switch_to-Sound :
    (c : Caller) (i : ℕ) (s : Sched) (p : Proc)
    → Sound s
    → Quiet s.procs
    → s.procs i ≡ some p
    → Sound (switch_to c i s)
unfolding switch_to save
switch_to-Sound c i s p v quiet here =
    restore_ctx-Sound
      (record s { procs = modify saved i (λ q. record q { state = running }); cur = i })
      (Valid-run i (deref (saved i)) kept still (ground arith))
  where
    saved : Slots
    saved = modify s.procs s.cur (save c s.cpu)

    kept : Valid saved s.cur
    kept = Valid-modify v s.cur _ (λ q e. ground arith) (λ q e r. refl)

    still : Quiet saved
    still j q e =
        let (o, old, which) = modify-some s.procs s.cur j _ q e in ground (arith, quiet j o)

switch_best-Sound :
    (c : Caller) (s : Sched) (o : Option ℕ)
    → Sound s
    → Quiet s.procs
    → ((i : ℕ) → o ≡ some i → (p : Proc) × (s.procs i ≡ some p))
    → Sound (switch_best c s o)
switch_best-Sound c s none v quiet there = stay-Sound c s v
switch_best-Sound c s (some i) v quiet there =
    elim (Bool-cases ((deref (s.procs i)).pid == (current s).pid)) [
      | inl same ↦
          rw same (stay-Sound c _ (Valid-modify v s.cur _ (λ p e. ground arith) (λ p e r. refl)))
      | inr other ↦ let (p, here) = there i refl in rw other (switch_to-Sound c i s p v quiet here)
    ]

-- A chosen slot holds a task.
pub select-some : (procs : Slots) (i : ℕ) → select procs ≡ some i → (p : Proc) × (procs i ≡ some p)
select-some procs i e =
    let (p, here, r, same, below) = (best-IsBest procs).holder i (sym (select-best procs) ∙ e) in
    (p, here)

-- `sched_switch`, whoever calls it.
pub sched_switch-Sound : (c : Caller) (s : Sched) → Sound s → Sound (sched_switch c s)
unfolding sched_switch
sched_switch-Sound c s v =
    switch_best-Sound c (prepare s) (select (prepare s).procs) (prepare-Sound s v)
      (prepare-Quiet s v) (select-some (prepare s).procs)

abbrev after : Caller → Point
after (from_tick p) = p
after from_wait = looping
after from_exit = user

pub continue-current : (r : Resume) (s : Sched) → current (continue r s) ≡ current s
continue-current at_start s = refl
continue-current at_fork s = refl
continue-current (at_switch (from_tick p)) s = refl
continue-current (at_switch from_wait) s = refl
continue-current (at_switch from_exit) s = refl

-- A task just resumed is RUNNING.
pub switch_to-running :
    (c : Caller) (i : ℕ) (s : Sched) (p : Proc)
    → s.procs i ≡ some p
    → (current (switch_to c i s)).state ≡ running
unfolding switch_to save
switch_to-running c i s p here =
    let t : Sched = record s {
      procs = modify (modify s.procs s.cur (save c s.cpu)) i (λ q. record q { state = running });
      cur = i;
    } in
    ap (λ (q : Proc). q.state)
      (continue-current (current t).ctx.resume (record t { cpu = (current t).ctx.regs }))
    ∙ ground arith

prepare-dead : (s : Sched) → is_zombie (current (prepare s)).state ≡ is_zombie (current s).state
unfolding prepare
prepare-dead s = ground arith

stay-AtWork : (c : Caller) (s : Sched) → AtWork (after c) s → AtWork (stay c s).point (stay c s)
stay-AtWork (from_tick p) s h = h
stay-AtWork from_wait s h = h
stay-AtWork from_exit s h = h

switch_best-AtWork :
    (c : Caller) (s : Sched) (o : Option ℕ)
    → AtWork (after c) s
    → ((i : ℕ) → o ≡ some i → (p : Proc) × (s.procs i ≡ some p))
    → AtWork (switch_best c s o).point (switch_best c s o)
switch_best-AtWork c s none h there = stay-AtWork c s h
switch_best-AtWork c s (some i) h there =
    elim (Bool-cases ((deref (s.procs i)).pid == (current s).pid)) [
      | inl same ↦ rw same (stay-AtWork c _ (λ w. ground (arith, h w)))
      | inr other ↦
          let (p, here) = there i refl in rw other (λ w. rw (switch_to-running c i s p here))
    ]

-- `sched_switch` leaves no zombie in the loop of `sched_wait`, if it was called by none.
pub sched_switch-AtWork :
    (c : Caller) (s : Sched)
    → AtWork (after c) s
    → AtWork (sched_switch c s).point (sched_switch c s)
unfolding sched_switch
sched_switch-AtWork c s h =
    switch_best-AtWork c (prepare s) (select (prepare s).procs) (λ w. rw (prepare-dead s) (h w))
      (select-some (prepare s).procs)
