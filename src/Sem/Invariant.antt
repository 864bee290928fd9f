-- ===== src/Sem/Invariant.antt =====
-- What holds of a semaphore of ps7/sem.c in every state that its processes can reach.
use ece.Base.{ℕ, ◌+◌, ◌<◌, ◌≡◌, ◌≢◌, Bool, true, false, update, ap, arith, refl}
use ece.Base.Int.{ℤ, pos, negsuc, pos_part, ◌≤ℤ◌, ◌<ℤ◌, ◌+ℤ◌, ◌-ℤ◌, ltb_ℤ, to_int}
use ece.Sem.System.{
  Pc, idle, wait_spin, wait_locked, wait_test, wait_doze, wait_asleep, wait_woken, inc_spin,
  inc_locked, inc_wake, try_spin, try_locked, try_read, try_done, System, signalled, Step,
  call_wait, wait_lock, wait_signal, wait_take, wait_block, wait_suspend, wait_again, call_inc,
  inc_lock, inc_add, inc_skip, inc_kill, inc_unlock, call_try, try_lock, try_decrement, try_test,
  try_return, init, Reach, start, later,
}

-- Between a `tas` that took the lock and the store that frees it.
abbrev pub locks : Pc → Bool
locks wait_locked = true
locks wait_test = true
locks inc_locked = true
locks (inc_wake k) = true
locks try_locked = true
locks _ = false

-- In a call of `sem_wait`.
abbrev pub waits : Pc → Bool
waits wait_spin = true
waits wait_locked = true
waits wait_test = true
waits wait_doze = true
waits wait_asleep = true
waits wait_woken = true
waits _ = false

-- Past the `signal` of `sem_wait`, in a round that found nothing.
abbrev pub ready_to_sleep : Pc → Bool
ready_to_sleep wait_test = true
ready_to_sleep wait_doze = true
ready_to_sleep wait_asleep = true
ready_to_sleep wait_woken = true
ready_to_sleep _ = false

-- One process at a time has the lock; the count is not negative and is the initial one with what was
-- added less what was taken; who waits is registered; who sleeps has a handler.
pub record Guarded (pid : ℕ → ℕ) (count : ℕ) (s : System) : Type 0 where
  pub one : (i j : ℕ) → locks (s.pc i) ≡ true → locks (s.pc j) ≡ true → i ≡ j
  pub free : (i : ℕ) → s.sem.lock ≡ 0 → locks (s.pc i) ≡ false
  pub nonneg : pos 0 ≤ℤ s.sem.count
  pub fits : s.sem.count <ℤ pos 0x8000_0000
  pub conserved : pos_part s.sem.count + s.taken ≡ count + s.given
  pub registered : (i : ℕ) → waits (s.pc i) ≡ true → s.sem.procs i ≡ pid i
  pub handled : (i : ℕ) → ready_to_sleep (s.pc i) ≡ true → s.handler i ≡ true

init-Guarded :
    (pid : ℕ → ℕ) (count : ℕ) → count < 0x8000_0000 → Guarded pid count (init (pos count))
unfolding init
init-Guarded pid count small = record {
  one = λ i j h k. cc;
  free = λ i h. refl;
  nonneg = omega arith;
  fits = omega arith;
  conserved = refl;
  registered = λ i h. cc;
  handled = λ i h. cc;
}

-- A count in range is changed by one within an `int`.
down :
    (c : ℤ)
    → pos 0 <ℤ c
    → c <ℤ pos 0x8000_0000
    → (pos 0 ≤ℤ to_int (c -ℤ pos 1))
      × (to_int (c -ℤ pos 1) <ℤ pos 0x8000_0000)
      × (pos_part (to_int (c -ℤ pos 1)) + 1 ≡ pos_part c)
unfolding ◌-ℤ◌ to_int
down (pos n) h k = ground arith
down (negsuc n) h k = absurd (omega arith)

up :
    (c : ℤ)
    → pos 0 ≤ℤ c
    → c <ℤ pos 0x7fff_ffff
    → (pos 0 ≤ℤ to_int (c +ℤ pos 1))
      × (to_int (c +ℤ pos 1) <ℤ pos 0x8000_0000)
      × (pos_part (to_int (c +ℤ pos 1)) ≡ pos_part c + 1)
unfolding ◌+ℤ◌ to_int
up (pos n) h k = ground arith
up (negsuc n) h k = absurd (omega arith)

-- How a move of one process from `p` to `p'` changes the lock.
pub data LockMove (lock lock' : ℕ) (p p' : Pc) : Type 0 where
  keep : lock' ≡ lock → locks p' ≡ locks p → LockMove lock lock' p p'
  acquire : lock ≡ 0 → lock' ≡ 1 → LockMove lock lock' p p'
  release : locks p ≡ true → locks p' ≡ false → LockMove lock lock' p p'

-- A move of process `i` to `p'`, seen from the invariant.
pub record Local (pid : ℕ → ℕ) (count : ℕ) (s t : System) (i : ℕ) (p' : Pc) : Type 0 where
  pub pc_moved : t.pc ≡ update s.pc i p'
  pub lock_moved : LockMove s.sem.lock t.sem.lock (s.pc i) p'
  pub nonneg : pos 0 ≤ℤ t.sem.count
  pub fits : t.sem.count <ℤ pos 0x8000_0000
  pub conserved : pos_part t.sem.count + t.taken ≡ count + t.given
  pub others : (j : ℕ) → j ≢ i → t.sem.procs j ≡ s.sem.procs j
  pub own : waits p' ≡ true → t.sem.procs i ≡ pid i
  pub still : (j : ℕ) → s.handler j ≡ true → t.handler j ≡ true
  pub set : ready_to_sleep p' ≡ true → t.handler i ≡ true

module _ {pid : ℕ → ℕ} {count : ℕ} {s t : System} (v : Guarded pid count s) (i : ℕ) (p' : Pc)
    (m : Local pid count s t i p') where
  moved : (j : ℕ) → t.pc j ≡ update s.pc i p' j
  moved j = ap (λ (f : ℕ → Pc). f j) m.pc_moved

  Local-one : (j k : ℕ) → locks (t.pc j) ≡ true → locks (t.pc k) ≡ true → j ≡ k
  Local-one j k h h' = elim (m.lock_moved) [
    | keep a b ↦ ground (arith, moved j, moved k, v.one j k, v.one i k, v.one j i)
    | acquire a b ↦ ground (arith, moved j, moved k, v.free j a, v.free k a)
    | release a b ↦ ground (arith, moved j, moved k, v.one i j a, v.one i k a)
  ]

  Local-free : (j : ℕ) → t.sem.lock ≡ 0 → locks (t.pc j) ≡ false
  Local-free j h = elim (m.lock_moved) [
    | keep a b ↦ ground (arith, moved j, v.free j, v.free i)
    | acquire a b ↦ absurd (ground arith)
    | release a b ↦ ground (arith, moved j, v.one i j a)
  ]

  -- Such a move keeps the invariant.
  pub Local-Guarded : Guarded pid count t
  Local-Guarded = record {
    one = Local-one;
    free = Local-free;
    nonneg = m.nonneg;
    fits = m.fits;
    conserved = m.conserved;
    registered = λ j h. ground (arith, moved j, m.others j, m.own, v.registered j);
    handled = λ j h. ground (arith, moved j, m.set, m.still j, v.handled j);
  }

-- So does a signal.
signalled-Guarded :
    {pid : ℕ → ℕ} {count : ℕ} {s : System} (j : ℕ)
    → Guarded pid count s
    → Guarded pid count (record s { pc = signalled s.handler s.pc j })
signalled-Guarded {s = s} j v = record {
  one = λ i k h h'. ground (arith, v.one i k);
  free = λ i h. ground (arith, v.free i h);
  nonneg = v.nonneg;
  fits = v.fits;
  conserved = v.conserved;
  registered = λ i h. ground (arith, v.registered i);
  handled = λ i h. ground (arith, v.handled i);
}

-- Every step keeps the invariant.
pub Step-Guarded :
    {pid : ℕ → ℕ} {count : ℕ} {s t : System}
    → Step pid s t
    → Guarded pid count s
    → Guarded pid count t
Step-Guarded (call_wait i lt at) v =
    Local-Guarded v i wait_spin (ground (arith, v.registered i, v.handled i))
Step-Guarded (wait_lock i at open_lock) v =
    Local-Guarded v i wait_locked (ground (arith, v.registered i, v.handled i))
Step-Guarded (wait_signal i at) v =
    Local-Guarded v i wait_test (ground (arith, v.registered i, v.handled i))
Step-Guarded (wait_block i at none_left) v =
    Local-Guarded v i wait_doze (ground (arith, v.registered i, v.handled i))
Step-Guarded (wait_suspend i at) v =
    Local-Guarded v i wait_asleep (ground (arith, v.registered i, v.handled i))
Step-Guarded (wait_again i at) v =
    Local-Guarded v i wait_spin (ground (arith, v.registered i, v.handled i))
Step-Guarded (call_inc i lt at) v =
    Local-Guarded v i inc_spin (ground (arith, v.registered i, v.handled i))
Step-Guarded (inc_lock i at open_lock) v =
    Local-Guarded v i inc_locked (ground (arith, v.registered i, v.handled i))
Step-Guarded (inc_skip i k at lt gone) v =
    Local-Guarded v i (inc_wake (k + 1)) (ground (arith, v.registered i, v.handled i))
Step-Guarded (inc_unlock i at) v =
    Local-Guarded v i idle (ground (arith, v.registered i, v.handled i))
Step-Guarded (call_try i lt at) v =
    Local-Guarded v i try_spin (ground (arith, v.registered i, v.handled i))
Step-Guarded (try_lock i at open_lock) v =
    Local-Guarded v i try_locked (ground (arith, v.registered i, v.handled i))
Step-Guarded {s = s} (try_test i at) v =
    Local-Guarded v i (try_done (ltb_ℤ (pos 0) (to_int (s.sem.count +ℤ pos 1))))
      (ground (arith, v.registered i, v.handled i))
Step-Guarded (try_return i b at) v =
    Local-Guarded v i idle (ground (arith, v.registered i, v.handled i))
Step-Guarded {s = s} (wait_take i at left) v =
    Local-Guarded v i idle (ground (arith, v.registered i, down s.sem.count left v.fits))
Step-Guarded {s = s} (inc_add i at room) v =
    Local-Guarded v i (inc_wake 0) (ground (arith, up s.sem.count v.nonneg room))
Step-Guarded {s = s} (try_decrement i at) v =
    Local-Guarded v i try_read (ground (arith, v.registered i, down s.sem.count))
Step-Guarded {s = s} (inc_kill i k j at lt here of) v =
    signalled-Guarded {s = record s { pc = update s.pc i (inc_wake (k + 1)) }} j
      (Local-Guarded v i (inc_wake (k + 1)) (ground (arith, v.registered i, v.handled i)))

-- Of a semaphore with an initial count that is not negative, in every reachable state: one process
-- at most is between its `tas` and the freeing of the lock; the count is not negative and is the
-- initial count with what was added less what was taken, so that no more is taken than was there;
-- who is in `sem_wait` is registered, and who may sleep there has a handler for the signal.
pub Reach-Guarded :
    {pid : ℕ → ℕ} (count : ℕ) {s : System}
    → count < 0x8000_0000
    → Reach pid (pos count) s
    → Guarded pid count s
Reach-Guarded {pid} count small start = init-Guarded pid count small
Reach-Guarded count small (later r st) = Step-Guarded st (Reach-Guarded count small r)
