-- ===== src/Sem/Wakeup.antt =====
-- What `sem_inc` and `sem_try` of ps7/sem.c do to their callers and to those who wait.
use ece.Base.{
  ℕ, zero, suc, ◌+◌, ◌<◌, ◌≤◌, ◌≡◌, ◌≢◌, refl, true, update, Bool-cases, inl, inr, ◌==◌, arith,
  if◌then◌else◌,
}
use ece.Base.Int.{pos, ◌+ℤ◌, ltb_ℤ, to_int}
use ece.Sem.System.{
  n_proc, idle, wait_doze, wait_asleep, inc_spin, inc_locked, inc_wake, try_locked, try_read,
  try_done, System, is_zero, try_take, set_lock, signalled, Step, wait_suspend, inc_lock, inc_add,
  inc_skip, inc_kill, inc_unlock, call_inc, try_decrement, try_test,
}

-- Any number of steps.
pub data Steps (pid : ℕ → ℕ) (s : System) : System → Type 0 where
  done : Steps pid s s
  more : {t u : System} → Steps pid s t → Step pid t u → Steps pid s u

-- A process waits for a signal that is not coming: `waiter`, the one process registered, has freed
-- the lock after it found the count 0, and does not sleep yet. `poster` is outside the calls.
pub record Window (pid : ℕ → ℕ) (s : System) (waiter poster : ℕ) : Type 0 where
  pub apart : waiter ≢ poster
  pub known : waiter < n_proc
  pub posts : poster < n_proc
  pub dozes : s.pc waiter ≡ wait_doze
  pub out : s.pc poster ≡ idle
  pub open_lock : s.sem.lock ≡ 0
  pub empty : s.sem.count ≡ pos 0
  pub own : s.sem.procs waiter ≡ pid waiter
  pub named : pid waiter ≢ 0
  pub handled : s.handler waiter ≡ true
  pub alone : (k : ℕ) → k ≢ waiter → s.sem.procs k ≡ 0

-- `poster` has added 1 and stands before slot `k` of its loop; the others have not moved.
record Posted (pid : ℕ → ℕ) (s t : System) (poster k : ℕ) : Type 0 where
  way : Steps pid s t
  here : t.pc poster ≡ inc_wake k
  others : (j : ℕ) → j ≢ poster → t.pc j ≡ s.pc j
  added : t.sem.count ≡ pos 1
  table : t.sem.procs ≡ s.sem.procs
  handlers : t.handler ≡ s.handler

one_more : to_int (pos 0 +ℤ pos 1) ≡ pos 1
unfolding to_int ◌+ℤ◌
one_more = refl

module _ {pid : ℕ → ℕ} {s : System} {waiter poster : ℕ} (w : Window pid s waiter poster) where
  called : System
  called = record s { pc = update s.pc poster inc_spin }

  locked : System
  locked = record called { sem = set_lock 1 called.sem; pc = update called.pc poster inc_locked }

  begun : System
  begun = record locked {
    sem = record locked.sem { count = to_int (locked.sem.count +ℤ pos 1) };
    pc = update locked.pc poster (inc_wake 0);
    given = locked.given + 1;
  }

  begun-Posted : Posted pid s begun poster 0
  unfolding begun locked called
  begun-Posted = record {
    way =
        more
          (more (more done (call_inc poster w.posts w.out))
            (inc_lock poster (ground arith) w.open_lock))
          (inc_add poster (ground arith) (ground (arith, w.empty)));
    here = ground arith;
    others = λ j other. ground arith;
    added = rw w.empty one_more;
    table = refl;
    handlers = refl;
  }

  -- The signal goes to a process that does not sleep, and is lost.
  next_slot :
      (k : ℕ) (t : System)
      → k < n_proc
      → Posted pid s t poster k
      → (u : System) × Posted pid s u poster (k + 1)
  next_slot k t below q = elim (Bool-cases (k == waiter)) [
    | inl same ↦ (
      record t { pc = signalled t.handler (update t.pc poster (inc_wake (k + 1))) waiter },
      record {
        way = more q.way (
            inc_kill poster k waiter q.here below (ground (arith, q.table, w.own, w.named))
              (ground (arith, q.table, w.own)));
        here = ground (arith, w.apart, q.here);
        others = λ j other.
            ground (arith, w.apart, q.others j, q.others waiter, q.handlers, w.dozes, w.handled);
        added = q.added;
        table = q.table;
        handlers = q.handlers;
      },
    )
    | inr other ↦ (
      record t { pc = update t.pc poster (inc_wake (k + 1)) },
      record {
        way = more q.way (inc_skip poster k q.here below (ground (arith, q.table, w.alone k)));
        here = ground arith;
        others = λ j apart. ground (arith, q.others j);
        added = q.added;
        table = q.table;
        handlers = q.handlers;
      },
    )
  ]

  to_slot : (k : ℕ) → k ≤ n_proc → (t : System) × Posted pid s t poster k
  to_slot zero below = (begun, begun-Posted)
  to_slot (suc k) below =
      let (t, q) = to_slot k (omega arith) in
      let (u, q') = next_slot k t (omega arith) q in
      let same : k + 1 ≡ suc k = omega arith in (u, rw (← same) q')

  -- From such a state a whole `sem_inc` and the `sigsuspend` that follows lead to a state where the
  -- waiter sleeps, though the count is 1, the lock is free, the poster is done, and no other process
  -- has moved: the wakeup is lost.
  pub wakeup_lost :
      (t : System) × Steps pid s t
      × (t.pc waiter ≡ wait_asleep)
      × (t.sem.count ≡ pos 1)
      × (t.sem.lock ≡ 0)
      × (t.pc poster ≡ idle)
      × ((j : ℕ) → j ≢ poster → j ≢ waiter → t.pc j ≡ s.pc j)
  wakeup_lost =
      let (t, q) = to_slot n_proc (omega arith) in
      let u : System = record t { sem = set_lock 0 t.sem; pc = update t.pc poster idle } in
      (
        record u { pc = update u.pc waiter wait_asleep },
        more (more q.way (inc_unlock poster q.here))
            (wait_suspend waiter (ground (arith, w.apart, q.others waiter, w.dozes))),
        ground arith,
        q.added,
        refl,
        ground (arith, w.apart),
        λ j other apart. ground (arith, q.others j),
      )

-- `sem_try` with the lock, on a count of 0, takes nothing and yet comes to return 1.
pub try_on_empty :
    {pid : ℕ → ℕ} (s : System) (i : ℕ)
    → s.pc i ≡ try_locked
    → s.sem.count ≡ pos 0
    → (t : System) × Steps pid s t
      × (t.pc i ≡ try_done true)
      × (t.sem.count ≡ pos 0)
      × (t.taken ≡ s.taken)
unfolding to_int ◌+ℤ◌
try_on_empty s i at empty =
    let t : System = record s {
      sem = set_lock 0 (try_take s.sem);
      pc = update s.pc i try_read;
      taken = if is_zero s.sem.count then s.taken else s.taken + 1;
    } in
    (
      record t { pc = update t.pc i (try_done (ltb_ℤ (pos 0) (to_int (t.sem.count +ℤ pos 1)))) },
      more (more done (try_decrement i at)) (try_test i (ground arith)),
      ground (arith, empty),
      ground (arith, empty),
      ground (arith, empty),
    )
