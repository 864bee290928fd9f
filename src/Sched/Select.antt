-- ===== src/Sched/Select.antt =====
-- The choice of `sched_switch`: the READY task of the highest priority, the lowest slot among equals.
use ece.Base.{
  ℕ, zero, suc, ◌+◌, ◌<◌, ◌≡◌, refl, sym, ◌∙◌, inl, inr, ◌&&◌, Option, none, some, ◌==◌, ==→≡,
  Bool-cases, arith,
}
use ece.Base.Int.{pos, ◌≤ℤ◌, ◌<ℤ◌, ltb_ℤ}
use ece.Sched.Types.{nproc, ready, Proc, Slots, is_ready}
use ece.Sched.Switch.{Best, consider, select_from, no_best, select}

-- What the loop knows after the slots below `n`.
pub record IsBest (procs : Slots) (n : ℕ) (b : Best) : Type 0 where
  pub none_yet : b.index ≡ none → b.priority ≡ pos 0
  pub holder :
      (k : ℕ)
      → b.index ≡ some k
      → (p : Proc) × (procs k ≡ some p) × (p.state ≡ ready) × (p.priority ≡ b.priority) × (k < n)
  pub top :
      (j : ℕ) (p : Proc) → j < n → procs j ≡ some p → p.state ≡ ready → p.priority ≤ℤ b.priority
  pub first :
      (k j : ℕ) (p : Proc)
      → b.index ≡ some k
      → j < k
      → procs j ≡ some p
      → p.state ≡ ready
      → p.priority <ℤ b.priority

-- A slot that holds no better task changes nothing.
IsBest-widen :
    (procs : Slots) (i : ℕ) (b : Best)
    → IsBest procs i b
    → ((p : Proc) → procs i ≡ some p → p.state ≡ ready → p.priority ≤ℤ b.priority)
    → IsBest procs (i + 1) b
IsBest-widen procs i b h worse = record {
  none_yet = h.none_yet;
  holder = λ k e. let (p, here, r, same, below) = h.holder k e in (p, here, r, same, omega arith);
  top = λ j p below here r. elim (Bool-cases (j == i)) [
    | inl last ↦ let same : j ≡ i = ==→≡ j i last in worse p (rw same at here) r
    | inr old ↦ h.top j p (ground arith) here r
  ];
  first = h.first;
}

-- A better task takes over.
IsBest-replace :
    (procs : Slots) (i : ℕ) (b : Best) (p : Proc)
    → IsBest procs i b
    → procs i ≡ some p
    → p.state ≡ ready
    → b.priority <ℤ p.priority
    → IsBest procs (i + 1) (record { priority = p.priority; index = some i })
IsBest-replace procs i b p h here r better = record {
  none_yet = λ e. cc;
  holder = λ k e. let same : i ≡ k = cc in (p, rw (← same) here, r, refl, omega arith);
  top = λ j q below there rq. elim (Bool-cases (j == i)) [
    | inl last ↦
        let same : j ≡ i = ==→≡ j i last in
        let one : some q ≡ some p = sym (rw same at there) ∙ here in ground arith
    | inr old ↦ ground (arith, h.top j q)
  ];
  first = λ k j q e below there rq. let same : i ≡ k = cc in ground (arith, h.top j q);
}

consider-IsBest :
    (procs : Slots) (i : ℕ) (b : Best) (o : Option Proc)
    → procs i ≡ o
    → IsBest procs i b
    → IsBest procs (i + 1) (consider o i b)
consider-IsBest procs i b none e h = IsBest-widen procs i b h (λ p here r. absurd (ground arith))
consider-IsBest procs i b (some p) e h =
    elim (Bool-cases (is_ready p.state && ltb_ℤ b.priority p.priority)) [
      | inl better ↦ rw better (IsBest-replace procs i b p h e (ground arith) (ground arith))
      | inr worse ↦ rw worse (IsBest-widen procs i b h (λ q here r. ground arith))
    ]

select_from-IsBest :
    (procs : Slots) (n i t : ℕ) (b : Best)
    → i + n ≡ t
    → IsBest procs i b
    → IsBest procs t (select_from procs n i b)
unfolding select_from
select_from-IsBest procs zero i t b e h = let done : i ≡ t = omega arith in rw (← done) h
select_from-IsBest procs (suc n) i t b e h =
    select_from-IsBest procs n (i + 1) t (consider (procs i) i b) (omega arith)
      (consider-IsBest procs i b (procs i) refl h)

-- What `select` finds, all slots seen.
pub best : Slots → Best
best procs = select_from procs nproc 0 no_best

pub select-best : (procs : Slots) → select procs ≡ (best procs).index
unfolding select best
select-best procs = refl

pub best-IsBest : (procs : Slots) → IsBest procs nproc (best procs)
unfolding best
best-IsBest procs = select_from-IsBest procs nproc 0 nproc no_best (omega arith) (record {
  none_yet = λ _. refl;
  holder = λ k e. absurd (ground arith);
  top = λ j p below here r. absurd (omega arith);
  first = λ k j p e below here r. absurd (ground arith);
})
