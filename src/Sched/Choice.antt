-- ===== src/Sched/Choice.antt =====
-- Which task `sched_switch` of ps9/sched.c runs next.
use ece.Base.{
  ℕ, ◌<◌, ◌≡◌, ◌≢◌, refl, sym, ap, ◌∙◌, inl, inr, none, some, ◌==◌, Bool-cases, Option, ==→≡, arith,
}
use ece.Base.Int.{pos, ◌≤ℤ◌, ◌<ℤ◌}
use ece.Sched.Types.{
  nproc, ready, running, Caller, from_tick, from_wait, from_exit, Resume, at_start, at_fork,
  at_switch, Proc, Slots, Sched, modify,
}
use ece.Sched.Switch.{
  deref, current, reprioritise, prepare, select, continue, stay, switch_to, switch_best,
  sched_switch,
}
use ece.Sched.Invariant.{Sound, modify-some}
use ece.Sched.Select.{select-best, best-IsBest}
use ece.Sched.Keep.{reprioritise-some, prepare-Sound, switch_to-running}
use ece.Sched.Priority.{dynamic_priority_pos}

-- A READY task that no READY task beats, and that each before it falls short of.
pub record Chosen (procs : Slots) (k : ℕ) (p : Proc) : Type 0 where
  pub here : procs k ≡ some p
  pub is : p.state ≡ ready
  pub top :
      (j : ℕ) (q : Proc) → j < nproc → procs j ≡ some q → q.state ≡ ready → q.priority ≤ℤ p.priority
  pub first :
      (j : ℕ) (q : Proc) → j < k → procs j ≡ some q → q.state ≡ ready → q.priority <ℤ p.priority

-- After a change of context from `s` to the task `p` of slot `k`.
pub record Switched (c : Caller) (s t : Sched) (k : ℕ) (p : Proc) : Type 0 where
  pub now : t.cur ≡ k
  pub runs : (current t).state ≡ running
  pub loaded : t.cpu ≡ p.ctx.regs
  pub saved : (deref (t.procs s.cur)).ctx ≡ record { resume = at_switch c; regs = s.cpu }

prepare-priority :
    (s : Sched) (j : ℕ) (q : Proc) → (prepare s).procs j ≡ some q → pos 1 ≤ℤ q.priority
unfolding prepare
prepare-priority s j q e =
    let (m, middle, which) = modify-some (reprioritise s.procs) s.cur j _ q e in
    let (p, old, same) = reprioritise-some s.procs j m middle in
    ground (arith, dynamic_priority_pos p.niceval p.total_ticks)

select-none :
    (s : Sched)
    → Sound s
    → select (prepare s).procs ≡ none
    → (j : ℕ) (q : Proc) → (prepare s).procs j ≡ some q
    → q.state ≢ ready
select-none s v e j q here is =
    let b = best-IsBest (prepare s).procs in
    let low = b.none_yet (sym (select-best (prepare s).procs) ∙ e) in
    ground (arith, b.top j q, (prepare-Sound s v).fits j q here, prepare-priority s j q here)

select-Chosen : (procs : Slots) (k : ℕ) → select procs ≡ some k → (p : Proc) × Chosen procs k p
select-Chosen procs k e =
    let b = best-IsBest procs in
    let e' = sym (select-best procs) ∙ e in
    let (p, here, is, same, below) = b.holder k e' in
    (
      p,
      record {
        here = here;
        is = is;
        top = λ j q l at r. rw same (b.top j q l at r);
        first = λ j q l at r. rw same (b.first k j q e' l at r);
      },
    )

-- `continue` moves the processor and the mask alone.
record Moved (s t : Sched) : Type 0 where
  procs_same : t.procs ≡ s.procs
  cur_same : t.cur ≡ s.cur
  cpu_same : t.cpu ≡ s.cpu

continue-Moved : (r : Resume) (s : Sched) → Moved s (continue r s)
continue-Moved at_start s = record { procs_same = refl; cur_same = refl; cpu_same = refl }
continue-Moved at_fork s = record { procs_same = refl; cur_same = refl; cpu_same = refl }
continue-Moved (at_switch (from_tick p)) s = record {
  procs_same = refl;
  cur_same = refl;
  cpu_same = refl;
}
continue-Moved (at_switch from_wait) s = record {
  procs_same = refl;
  cur_same = refl;
  cpu_same = refl;
}
continue-Moved (at_switch from_exit) s = record {
  procs_same = refl;
  cur_same = refl;
  cpu_same = refl;
}

-- The state in which `switch_to` loads the context.
loading : Caller → ℕ → Sched → Sched
loading c i s = record s {
  procs =
      modify
        (modify s.procs s.cur
          (λ p. record p { ctx = record { resume = at_switch c; regs = s.cpu } }))
        i (λ p. record p { state = running });
  cur = i;
}

switch_to-Moved :
    (c : Caller) (i : ℕ) (s : Sched)
    → Moved (record (loading c i s) { cpu = (current (loading c i s)).ctx.regs }) (switch_to c i s)
unfolding switch_to loading
switch_to-Moved c i s = continue-Moved (current (loading c i s)).ctx.resume _

switch_to-Switched :
    (c : Caller) (i : ℕ) (s : Sched) (p q : Proc)
    → i ≢ s.cur
    → s.procs i ≡ some p
    → s.procs s.cur ≡ some q
    → Switched c s (switch_to c i s) i p
unfolding loading
switch_to-Switched c i s p q other here old =
    let m = switch_to-Moved c i s in
    record {
      now = m.cur_same;
      runs = switch_to-running c i s p here;
      loaded = m.cpu_same ∙ ground arith;
      saved = ap (λ (f : Slots). (deref (f s.cur)).ctx) m.procs_same ∙ ground arith;
    }

-- What `sched_switch` does, seen from the state in which it chooses.
pub data Choice (c : Caller) (s t : Sched) : Type 0 where
  -- no task is READY
  idle :
      ((j : ℕ) (q : Proc) → (prepare s).procs j ≡ some q → q.state ≢ ready)
      → t ≡ stay c (prepare s)
      → Choice c s t
  -- the current task is the best one: it goes on, and is left READY
  keep :
      (p : Proc)
      → Chosen (prepare s).procs s.cur p
      → t.cur ≡ s.cur
      → current t ≡ p
      → t.cpu ≡ s.cpu
      → Choice c s t
  -- another is
  change :
      (k : ℕ) (p : Proc)
      → k ≢ s.cur
      → Chosen (prepare s).procs k p
      → Switched c (prepare s) t k p
      → Choice c s t

stay-Moved : (c : Caller) (s : Sched) → Moved s (stay c s)
stay-Moved (from_tick p) s = record { procs_same = refl; cur_same = refl; cpu_same = refl }
stay-Moved from_wait s = record { procs_same = refl; cur_same = refl; cpu_same = refl }
stay-Moved from_exit s = record { procs_same = refl; cur_same = refl; cpu_same = refl }

Moved-current : {s t : Sched} → Moved s t → current t ≡ current s
Moved-current m = rw (m.procs_same, m.cur_same)

prepare-cur : (s : Sched) → ((prepare s).cur ≡ s.cur) × ((prepare s).cpu ≡ s.cpu)
unfolding prepare
prepare-cur s = (refl, refl)

keep-Choice :
    (c : Caller) (s : Sched) (k : ℕ) (p : Proc)
    → k ≡ s.cur
    → Chosen (prepare s).procs k p
    → Choice c s (
        stay c (record (prepare s) {
          procs = modify (prepare s).procs (prepare s).cur (λ q. record q { state = ready });
        }))
keep-Choice c s k p at f =
    let u : Sched = record (prepare s) {
      procs = modify (prepare s).procs (prepare s).cur (λ q. record q { state = ready });
    } in
    let m = stay-Moved c u in
    let e = prepare-cur s in
    keep p (rw at at f) (m.cur_same ∙ e.0) (Moved-current m ∙ ground (arith, e.0))
      (m.cpu_same ∙ e.1)

-- The pid tells the current task from the others.
same_pid_iff :
    (s : Sched) (k : ℕ) (p : Proc)
    → Sound s
    → s.procs k ≡ some p
    → ((deref (s.procs k)).pid == (current s).pid) ≡ (k == s.cur)
same_pid_iff s k p v here =
    let (q, at) = v.live in ground (arith, v.fits k p here, v.fits s.cur q at)

choose-Choice :
    (c : Caller) (s : Sched) (o : Option ℕ)
    → Sound s
    → select (prepare s).procs ≡ o
    → Choice c s (switch_best c (prepare s) o)
choose-Choice c s none v e = idle (select-none s v e) refl
choose-Choice c s (some k) v e =
    let (p, f) = select-Chosen (prepare s).procs k e in
    let tested = same_pid_iff (prepare s) k p (prepare-Sound s v) f.here in
    let (q, at) = (prepare-Sound s v).live in
    elim (Bool-cases (k == (prepare s).cur)) [
      | inl same ↦ rw (tested, same) (keep-Choice c s k p (==→≡ _ _ same ∙ (prepare-cur s).0) f)
      | inr other ↦
          rw (tested, other)
            (change k p (ground (arith, (prepare-cur s).0)) f
              (switch_to-Switched c k (prepare s) p q (ground arith) f.here at))
    ]

-- `sched_switch` runs on, with the current task as it is, if no task is READY. Else the task chosen
-- is READY, has the highest dynamic priority and is in the lowest slot of those that have it: if it
-- is the current task, it goes on; if not, it becomes the current task and RUNNING, its registers
-- are loaded and those of the task left are saved.
pub sched_switch-Choice : (c : Caller) (s : Sched) → Sound s → Choice c s (sched_switch c s)
unfolding sched_switch
sched_switch-Choice c s v = choose-Choice c s (select (prepare s).procs) v refl
