-- ===== src/Sem/Delivery.antt =====
-- The loop of `sem_inc` of ps7/sem.c wakes who sleeps.
use ece.Base.{ℕ, ◌+◌, ◌<◌, ◌≡◌, ◌≢◌, arith}
use ece.Base.Int.{pos}
use ece.Sem.System.{
  wait_asleep, wait_woken, inc_wake, System, Step, call_wait, wait_lock, wait_signal, wait_take,
  wait_block, wait_suspend, wait_again, call_inc, inc_lock, inc_add, inc_skip, inc_kill, inc_unlock,
  call_try, try_lock, try_decrement, try_test, try_return, Reach,
}
use ece.Sem.Invariant.{Guarded, Reach-Guarded}

-- A process that goes from before slot `j` to behind it wakes the process of that slot.
passes_slot :
    {pid : ℕ → ℕ} {count : ℕ} {s t : System} (i j : ℕ)
    → ((a b : ℕ) → pid a ≡ pid b → a ≡ b)
    → pid j ≢ 0
    → Guarded pid count s
    → s.pc i ≡ inc_wake j
    → s.pc j ≡ wait_asleep
    → Step pid s t
    → t.pc i ≡ inc_wake (j + 1)
    → t.pc j ≡ wait_woken
passes_slot i j inj real v at sleeps (call_wait a lt from) after = absurd (ground arith)
passes_slot i j inj real v at sleeps (wait_lock a from open_lock) after = absurd (ground arith)
passes_slot i j inj real v at sleeps (wait_signal a from) after = absurd (ground arith)
passes_slot i j inj real v at sleeps (wait_take a from left) after = absurd (ground arith)
passes_slot i j inj real v at sleeps (wait_block a from none_left) after = absurd (ground arith)
passes_slot i j inj real v at sleeps (wait_suspend a from) after = absurd (ground arith)
passes_slot i j inj real v at sleeps (wait_again a from) after = absurd (ground arith)
passes_slot i j inj real v at sleeps (call_inc a lt from) after = absurd (ground arith)
passes_slot i j inj real v at sleeps (inc_lock a from open_lock) after = absurd (ground arith)
passes_slot i j inj real v at sleeps (inc_add a from room) after = absurd (ground arith)
passes_slot i j inj real v at sleeps (inc_unlock a from) after = absurd (ground arith)
passes_slot i j inj real v at sleeps (call_try a lt from) after = absurd (ground arith)
passes_slot i j inj real v at sleeps (try_lock a from open_lock) after = absurd (ground arith)
passes_slot i j inj real v at sleeps (try_decrement a from) after = absurd (ground arith)
passes_slot i j inj real v at sleeps (try_test a from) after = absurd (ground arith)
passes_slot i j inj real v at sleeps (try_return a b from) after = absurd (ground arith)
passes_slot i j inj real v at sleeps (inc_skip a k from lt gone) after =
    absurd (ground (arith, v.registered j))
passes_slot i j inj real v at sleeps (inc_kill a k l from lt some_one of) after =
    ground (arith, v.registered j, v.handled j, inj j l)

-- From a reachable state of a semaphore with an initial count that is not negative, where process
-- `j` sleeps in `sem_wait` and process `i` stands in the loop of `sem_inc` before slot `j`: the step
-- that takes `i` past that slot wakes `j`, if process ids are not 0 and differ.
pub wakes_sleeper :
    {pid : ℕ → ℕ} (count : ℕ) {s t : System} (i j : ℕ)
    → count < 0x8000_0000
    → ((a b : ℕ) → pid a ≡ pid b → a ≡ b)
    → pid j ≢ 0
    → Reach pid (pos count) s
    → s.pc i ≡ inc_wake j
    → s.pc j ≡ wait_asleep
    → Step pid s t
    → t.pc i ≡ inc_wake (j + 1)
    → t.pc j ≡ wait_woken
wakes_sleeper count i j small inj real r at sleeps st after =
    passes_slot i j inj real (Reach-Guarded count small r) at sleeps st after
