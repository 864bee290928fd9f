-- ===== src/Sched/Family.antt =====
-- How `sched_wait` and `sched_exit` of ps9/sched.c meet.
use ece.Base.{
  ℕ, ◌<◌, ◌≡◌, ◌≢◌, refl, true, Option, none, some, find_from, find_from-some, find_from-none,
  arith,
}
use ece.Base.Int.{negsuc}
use ece.Sched.Types.{nproc, returned, looping, Proc, Sched}
use ece.Sched.Switch.{current}
use ece.Sched.Calls.{is_child, enter_wait, sched_wait}
use ece.Sched.Invariant.{Sound}

-- The two ways in which `sched_wait` begins.
pub data Waited (s t : Sched) : Type 0 where
  -- no task is a child of the caller: -1, and the signals are left blocked
  childless :
      ((i : ℕ) (p : Proc) → i < nproc → s.procs i ≡ some p → p.ppid ≢ (current s).pid)
      → t.point ≡ returned (negsuc 0)
      → t.masked ≡ true
      → t.procs ≡ s.procs
      → Waited s t
  -- some task is, and the loop begins
  waiting :
      (i : ℕ) (p : Proc)
      → i < nproc
      → s.procs i ≡ some p
      → p.ppid ≡ (current s).pid
      → t.point ≡ looping
      → t.procs ≡ s.procs
      → Waited s t

is_child-some :
    (n : ℕ) (o : Option Proc) → is_child n o ≡ true → (p : Proc) × (o ≡ some p) × (p.ppid ≡ n)
is_child-some n none e = cc
is_child-some n (some p) e = (p, refl, ground arith)

enter_wait-Waited :
    (s : Sched) (o : Option ℕ)
    → find_from (λ i. is_child (current s).pid (s.procs i)) nproc 0 ≡ o
    → Waited s (enter_wait s o)
enter_wait-Waited s none e =
    childless
      (λ i p below here of.
        let miss =
          find_from-none (λ i. is_child (current s).pid (s.procs i)) nproc 0 i e (omega arith)
            (omega arith) in
        ground arith)
      refl refl refl
enter_wait-Waited s (some i) e =
    let f = find_from-some (λ i. is_child (current s).pid (s.procs i)) nproc 0 i e in
    let (p, here, of) = is_child-some (current s).pid (s.procs i) f.passes in
    waiting i p (omega (arith, f.below)) here of refl refl

-- `sched_wait` returns -1 at once, the signals still blocked, exactly if no task has the caller for
-- its parent. Else its loop begins.
pub sched_wait-Waited : (s : Sched) → Waited s (sched_wait s)
unfolding sched_wait
sched_wait-Waited s = enter_wait-Waited s _ refl

-- The initial task is its own parent, so that it is never told that it has no child.
pub wait_own_child :
    (s : Sched) → Sound s → (current s).ppid ≡ (current s).pid → (sched_wait s).point ≡ looping
wait_own_child s v own = elim (sched_wait-Waited s) [
  | childless only e m same ↦
      let (p, here) = v.live in
      absurd (only s.cur p ((v.fits s.cur p here).inside) here (ground arith))
  | waiting i p below here of at same ↦ at
]
