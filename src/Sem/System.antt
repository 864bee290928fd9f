-- ===== src/Sem/System.antt =====
-- One semaphore and the processes that use it (ps7/sem.c, ps7/sem.h, ps7/tas64.S), an access to
-- shared memory or a change of the signal state at a time. What a process does while it holds the
-- lock is not split further, but for the sending of the signals.
use ece.Base.{ℕ, ◌+◌, ◌<◌, ◌≡◌, ◌≢◌, Bool, true, false, update, if◌then◌else◌}
use ece.Base.Int.{ℤ, pos, ◌+ℤ◌, ◌-ℤ◌, ◌<ℤ◌, ◌≤ℤ◌, leb_ℤ, ltb_ℤ, to_int}

abbrev pub n_proc : ℕ
n_proc = 64

-- `struct sem`.
pub record Sem : Type 0 where
  pub lock : ℕ
  pub count : ℤ
  pub procs : ℕ → ℕ

-- `sem_init`.
unfoldable pub sem_init : ℤ → Sem
sem_init count = record { lock = 0; count = count; procs = λ i. 0 }

-- `tas`: what the lock was, and what it is then.
abbrev pub tas : ℕ → ℕ × ℕ
tas lock = (lock, 1)

-- Where a process stands.
pub data Pc : Type 0 where
  -- outside the calls of this file, or ended by SIGUSR1
  idle killed : Pc
  -- in `sem_wait`: at `tas`; with the lock, before `signal`; before the test of the count; without
  -- the lock, before `sigsuspend`; in it; behind it
  wait_spin wait_locked wait_test wait_doze wait_asleep wait_woken : Pc
  -- in `sem_inc`: at `tas`; with the lock, before the increment; before slot `k` of the loop
  inc_spin inc_locked : Pc
  inc_wake : (k : ℕ) → Pc
  -- in `sem_try`: at `tas`; with the lock; without it, before the second reading of the count;
  -- before the return of a value
  try_spin try_locked try_read : Pc
  try_done : (success : Bool) → Pc

-- The processes by their `my_procnum`; `handler` says that `usr1_handler` is set. `taken` and `given`
-- count what was taken from the semaphore and added to it.
pub record System : Type 0 where
  pub sem : Sem
  pub pc : ℕ → Pc
  pub handler : ℕ → Bool
  pub taken : ℕ
  pub given : ℕ

-- SIGUSR1 at a process: with no handler it ends the process. The handler does nothing, and ends a
-- `sigsuspend`.
abbrev pub deliver : Bool → Pc → Pc
deliver false p = killed
deliver true wait_asleep = wait_woken
deliver true p = p

-- `kill` of process `j` with SIGUSR1.
abbrev pub signalled : (ℕ → Bool) → (ℕ → Pc) → ℕ → ℕ → Pc
signalled handler pc j = update pc j (deliver (handler j) (pc j))

-- `s->procs[i] = pid;`
abbrev pub register : Sem → ℕ → ℕ → Sem
register s i pid = record s { procs = update s.procs i pid }

abbrev pub set_lock : ℕ → Sem → Sem
set_lock l s = record s { lock = l }

-- `if (s->count) s->count--;`
abbrev pub is_zero : ℤ → Bool
is_zero c = if leb_ℤ c (pos 0) then leb_ℤ (pos 0) c else false

abbrev pub try_take : Sem → Sem
try_take s = if is_zero s.count then s else record s { count = to_int (s.count -ℤ pos 1) }

-- A `tas` that finds the lock taken changes nothing, and is no step.
-- `pid` gives the process id of each process, by its number. A count that an `int` cannot hold has
-- no meaning in C, and no step.
pub data Step (pid : ℕ → ℕ) (s : System) : System → Type 0 where
  call_wait :
      (i : ℕ)
      → i < n_proc
      → s.pc i ≡ idle
      → Step pid s (record s { sem = register s.sem i (pid i); pc = update s.pc i wait_spin })
  wait_lock :
      (i : ℕ)
      → s.pc i ≡ wait_spin
      → (tas s.sem.lock).0 ≡ 0
      → Step pid s
          (record s { sem = set_lock (tas s.sem.lock).1 s.sem; pc = update s.pc i wait_locked })
  wait_signal :
      (i : ℕ)
      → s.pc i ≡ wait_locked
      → Step pid s (record s { handler = update s.handler i true; pc = update s.pc i wait_test })
  wait_take :
      (i : ℕ)
      → s.pc i ≡ wait_test
      → pos 0 <ℤ s.sem.count
      → Step pid s (record s {
        sem = record {
          lock = 0;
          count = to_int (s.sem.count -ℤ pos 1);
          procs = update s.sem.procs i 0;
        };
        pc = update s.pc i idle;
        taken = s.taken + 1;
      })
  wait_block :
      (i : ℕ)
      → s.pc i ≡ wait_test
      → s.sem.count ≤ℤ pos 0
      → Step pid s (record s { sem = set_lock 0 s.sem; pc = update s.pc i wait_doze })
  wait_suspend :
      (i : ℕ) → s.pc i ≡ wait_doze → Step pid s (record s { pc = update s.pc i wait_asleep })
  wait_again :
      (i : ℕ) → s.pc i ≡ wait_woken → Step pid s (record s { pc = update s.pc i wait_spin })
  call_inc :
      (i : ℕ) → i < n_proc → s.pc i ≡ idle → Step pid s (record s { pc = update s.pc i inc_spin })
  inc_lock :
      (i : ℕ)
      → s.pc i ≡ inc_spin
      → (tas s.sem.lock).0 ≡ 0
      → Step pid s
          (record s { sem = set_lock (tas s.sem.lock).1 s.sem; pc = update s.pc i inc_locked })
  inc_add :
      (i : ℕ)
      → s.pc i ≡ inc_locked
      → s.sem.count <ℤ pos 0x7fff_ffff
      → Step pid s (record s {
        sem = record s.sem { count = to_int (s.sem.count +ℤ pos 1) };
        pc = update s.pc i (inc_wake 0);
        given = s.given + 1;
      })
  inc_skip :
      (i k : ℕ)
      → s.pc i ≡ inc_wake k
      → k < n_proc
      → s.sem.procs k ≡ 0
      → Step pid s (record s { pc = update s.pc i (inc_wake (k + 1)) })
  inc_kill :
      (i k j : ℕ)
      → s.pc i ≡ inc_wake k
      → k < n_proc
      → s.sem.procs k ≢ 0
      → s.sem.procs k ≡ pid j
      → Step pid s (record s { pc = signalled s.handler (update s.pc i (inc_wake (k + 1))) j })
  inc_unlock :
      (i : ℕ)
      → s.pc i ≡ inc_wake n_proc
      → Step pid s (record s { sem = set_lock 0 s.sem; pc = update s.pc i idle })
  call_try :
      (i : ℕ) → i < n_proc → s.pc i ≡ idle → Step pid s (record s { pc = update s.pc i try_spin })
  try_lock :
      (i : ℕ)
      → s.pc i ≡ try_spin
      → (tas s.sem.lock).0 ≡ 0
      → Step pid s
          (record s { sem = set_lock (tas s.sem.lock).1 s.sem; pc = update s.pc i try_locked })
  try_decrement :
      (i : ℕ)
      → s.pc i ≡ try_locked
      → Step pid s (record s {
        sem = set_lock 0 (try_take s.sem);
        pc = update s.pc i try_read;
        taken = if is_zero s.sem.count then s.taken else s.taken + 1;
      })
  try_test :
      (i : ℕ)
      → s.pc i ≡ try_read
      → Step pid s (record s {
        pc = update s.pc i (try_done (ltb_ℤ (pos 0) (to_int (s.sem.count +ℤ pos 1))));
      })
  try_return :
      (i : ℕ) (b : Bool) → s.pc i ≡ try_done b → Step pid s (record s { pc = update s.pc i idle })

-- After `sem_init`, no process in a call.
unfoldable pub init : ℤ → System
unfolding sem_init
init count = record {
  sem = sem_init count;
  pc = λ i. idle;
  handler = λ i. false;
  taken = 0;
  given = 0;
}

pub data Reach (pid : ℕ → ℕ) (count : ℤ) : System → Type 0 where
  start : Reach pid count (init count)
  later : {s t : System} → Reach pid count s → Step pid s t → Reach pid count t
