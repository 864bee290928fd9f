-- ===== src/Sched/Shuffle.antt =====
-- What the moves of ps9/sched.c leave alone in every task: who it is, whether it is dead, and its
-- exit code.
use ece.Base.{
  ℕ, ◌≡◌, refl, sym, ◌∙◌, inl, inr, Option, none, some, ◌==◌, ==→≡, Bool-cases, ap, arith, Bool,
  true, false, if◌then◌else◌,
}
use mathlib.Core.Option
use ece.Sched.Types.{
  ready, running, Caller, from_tick, from_wait, from_exit, Resume, at_start, at_fork, at_switch,
  Proc, Slots, Sched, modify, is_zombie,
}
use ece.Sched.Switch.{
  deref, current, set_priority, reprioritise, prepare, select, stay, continue, restore_ctx,
  switch_to, switch_best, sched_switch,
}
use ece.Sched.Invariant.{Sound}
use ece.Sched.Keep.{prepare-Sound}
use ece.Sched.Select.{select-best, best-IsBest}

-- `q` is the same task as `p`, dead if that is, with its exit code.
pub record Alike (p q : Proc) : Type 0 where
  pub pid : q.pid ≡ p.pid
  pub ppid : q.ppid ≡ p.ppid
  pub life : is_zombie q.state ≡ is_zombie p.state
  pub code : q.exit_code ≡ p.exit_code

-- The same of what a slot holds.
abbrev pub Same : Option Proc → Option Proc → Type 0
Same none none = Unit
Same none (some q) = ⊥
Same (some p) none = ⊥
Same (some p) (some q) = Alike p q

-- Nothing is born, dies or is freed.
abbrev pub Shuffled : Slots → Slots → Type 0
Shuffled procs procs' = (j : ℕ) → Same (procs j) (procs' j)

pub Same-refl : (o : Option Proc) → Same o o
Same-refl none = tt
Same-refl (some p) = ground arith

pub Shuffled-refl : (procs : Slots) → Shuffled procs procs
Shuffled-refl procs j = Same-refl (procs j)

pub Same-trans : (a b c : Option Proc) → Same a b → Same b c → Same a c
Same-trans none none none h k = tt
Same-trans none none (some r) h k = absurd k
Same-trans none (some q) c h k = absurd h
Same-trans (some p) none c h k = absurd h
Same-trans (some p) (some q) none h k = absurd k
Same-trans (some p) (some q) (some r) h k = ground (arith, h.pid, k.pid)

pub Shuffled-trans : (a b c : Slots) → Shuffled a b → Shuffled b c → Shuffled a c
Shuffled-trans a b c h k j = Same-trans (a j) (b j) (c j) (h j) (k j)

Same-if :
    (o : Option Proc) (b : Bool) (f : Proc → Proc)
    → ((p : Proc) → o ≡ some p → b ≡ true → Alike p (f p))
    → Same o (if b then Option.map f o else o)
Same-if none true f h = tt
Same-if none false f h = tt
Same-if (some p) true f h = h p refl refl
Same-if (some p) false f h = Same-refl (some p)

-- A change of one slot that only shuffles it.
pub modify-Shuffled :
    (procs : Slots) (i : ℕ) (f : Proc → Proc)
    → ((p : Proc) → procs i ≡ some p → Alike p (f p))
    → Shuffled procs (modify procs i f)
modify-Shuffled procs i f same j =
    Same-if (procs j) (i == j) f (λ p e hit. same p (ap procs (==→≡ i j hit) ∙ e))

reprioritise-Same : (o : Option Proc) → Same o (Option.map set_priority o)
reprioritise-Same none = tt
reprioritise-Same (some p) = ground arith

prepare-Shuffled : (s : Sched) → Shuffled s.procs (prepare s).procs
unfolding prepare
prepare-Shuffled s =
    Shuffled-trans s.procs (reprioritise s.procs) (prepare s).procs
      (λ j. reprioritise-Same (s.procs j))
      (modify-Shuffled (reprioritise s.procs) s.cur _ (λ p e. ground arith))

prepare-count : (s : Sched) → (prepare s).proc_count ≡ s.proc_count
unfolding prepare
prepare-count s = refl

-- Going on leaves the slots and the number of tasks alone.
pub continue-procs : (r : Resume) (s : Sched) → (continue r s).procs ≡ s.procs
continue-procs at_start s = refl
continue-procs at_fork s = refl
continue-procs (at_switch (from_tick p)) s = refl
continue-procs (at_switch from_wait) s = refl
continue-procs (at_switch from_exit) s = refl

pub continue-count : (r : Resume) (s : Sched) → (continue r s).proc_count ≡ s.proc_count
continue-count at_start s = refl
continue-count at_fork s = refl
continue-count (at_switch (from_tick p)) s = refl
continue-count (at_switch from_wait) s = refl
continue-count (at_switch from_exit) s = refl

-- A move that only shuffles the tasks, and counts none.
pub record Shuffles (s t : Sched) : Type 0 where
  pub slots : Shuffled s.procs t.procs
  pub count : t.proc_count ≡ s.proc_count

pub Shuffles-trans : (s t u : Sched) → Shuffles s t → Shuffles t u → Shuffles s u
Shuffles-trans s t u h k = record {
  slots = Shuffled-trans s.procs t.procs u.procs h.slots k.slots;
  count = k.count ∙ h.count;
}

pub restore_ctx-Shuffles : (s : Sched) → Shuffles s (restore_ctx s)
restore_ctx-Shuffles s =
    let t : Sched = record s { cpu = (current s).ctx.regs } in
    record {
      slots = rw (continue-procs (current s).ctx.resume t) (Shuffled-refl s.procs);
      count = continue-count (current s).ctx.resume t;
    }

stay-Shuffles : (c : Caller) (s : Sched) → Shuffles s (stay c s)
stay-Shuffles (from_tick p) s = record { slots = Shuffled-refl s.procs; count = refl }
stay-Shuffles from_wait s = record { slots = Shuffled-refl s.procs; count = refl }
stay-Shuffles from_exit s = record { slots = Shuffled-refl s.procs; count = refl }

switch_to-Shuffles :
    (c : Caller) (i : ℕ) (s : Sched) (p : Proc)
    → s.procs i ≡ some p
    → p.state ≡ ready
    → Shuffles s (switch_to c i s)
unfolding switch_to
switch_to-Shuffles c i s p here is =
    let saved =
      modify s.procs s.cur
        (λ q. record q { ctx = record { resume = at_switch c; regs = s.cpu } }) in
    let procs' = modify saved i (λ q. record q { state = running }) in
    let first =
      modify-Shuffled s.procs s.cur
        (λ q. record q { ctx = record { resume = at_switch c; regs = s.cpu } })
        (λ q e. ground arith) in
    let second =
      modify-Shuffled saved i (λ q. record q { state = running })
        (λ q e. ground (arith, first i)) in
    Shuffles-trans s (record s { procs = procs'; cur = i }) (switch_to c i s)
      (record { slots = Shuffled-trans s.procs saved procs' first second; count = refl })
      (restore_ctx-Shuffles (record s { procs = procs'; cur = i }))

-- A slot that was chosen holds a READY task.
select-ready :
    (procs : Slots) (i : ℕ)
    → select procs ≡ some i
    → (p : Proc) × (procs i ≡ some p) × (p.state ≡ ready)
select-ready procs i e =
    let (p, here, r, same, below) = (best-IsBest procs).holder i (sym (select-best procs) ∙ e) in
    (p, here, r)

switch_best-Shuffles :
    (c : Caller) (s : Sched) (o : Option ℕ)
    → Sound s
    → ((i : ℕ) → o ≡ some i → (p : Proc) × (s.procs i ≡ some p) × (p.state ≡ ready))
    → Shuffles s (switch_best c s o)
switch_best-Shuffles c s none v there = stay-Shuffles c s
switch_best-Shuffles c s (some i) v there =
    let (p, here, is) = there i refl in
    let (q, mine) = v.live in
    elim (Bool-cases ((deref (s.procs i)).pid == (current s).pid)) [
      | inl same ↦
          let slot : i ≡ s.cur = ground (arith, v.fits i p here, v.fits s.cur q mine) in
          let t : Sched = record s {
            procs = modify s.procs s.cur (λ r. record r { state = ready });
          } in
          rw same (
            Shuffles-trans s t (stay c t)
              (record {
                slots =
                    modify-Shuffled s.procs s.cur (λ r. record r { state = ready })
                      (λ r e. ground arith);
                count = refl;
              })
              (stay-Shuffles c t))
      | inr other ↦ rw other (switch_to-Shuffles c i s p here is)
    ]

-- Every call of `sched_switch`.
pub sched_switch-Shuffles : (c : Caller) (s : Sched) → Sound s → Shuffles s (sched_switch c s)
unfolding sched_switch
sched_switch-Shuffles c s v =
    let t = prepare s in
    Shuffles-trans s t (sched_switch c s)
      (record { slots = prepare-Shuffled s; count = prepare-count s })
      (switch_best-Shuffles c t (select t.procs) (prepare-Sound s v) (select-ready t.procs))
