-- ===== src/Tas/System.antt =====
-- The parent and the children of ps7/tasTest.c, an access to the shared memory at a time.
use ece.Base.{ℕ, ◌+◌, ◌%◌, ◌^◌, ◌<◌, ◌≡◌, Bool, true, false, update}
use ece.Sem.System.{tas}

abbrev pub n_proc : ℕ
n_proc = 64

-- The rounds of each child.
abbrev pub rounds : ℕ
rounds = 100000

-- Where a child stands, in round `j`.
pub data Pc : Type 0 where
  -- not forked yet; behind its loop
  unborn finished : Pc
  -- at the test of its loop; at `tas`; with the lock, before `map[0]` is read; with the value that
  -- was read; behind the write, before the lock is freed
  head spin locked stored : (j : ℕ) → Pc
  loaded : (j v : ℕ) → Pc

-- `map[0]`, by its bits, and `map[1]`; the `i` of the parent's loop; whether that loop still runs.
pub record System : Type 0 where
  pub count : ℕ
  pub lock : ℕ
  pub forked : ℕ
  pub forking : Bool
  pub pc : ℕ → Pc

-- `+= 1` on an `int`.
abbrev pub add_one : ℕ → ℕ
add_one v = (v + 1) % 2 ^ 32

-- A `tas` that finds the lock taken changes nothing, and is no step.
pub data Step (s : System) : System → Type 0 where
  fork :
      s.forking ≡ true
      → s.forked < n_proc
      → Step s (record s { pc = update s.pc s.forked (head 0); forked = s.forked + 1 })
  -- `fork` fails, and the parent exits.
  no_fork : s.forking ≡ true → s.forked < n_proc → Step s (record s { forking = false })
  parent_ends : s.forking ≡ true → s.forked ≡ n_proc → Step s (record s { forking = false })
  enter :
      (i j : ℕ) → s.pc i ≡ head j → j < rounds → Step s (record s { pc = update s.pc i (spin j) })
  leave :
      (i j : ℕ) → s.pc i ≡ head j → j ≡ rounds → Step s (record s { pc = update s.pc i finished })
  take :
      (i j : ℕ)
      → s.pc i ≡ spin j
      → (tas s.lock).0 ≡ 0
      → Step s (record s { lock = (tas s.lock).1; pc = update s.pc i (locked j) })
  read : (i j : ℕ) → s.pc i ≡ locked j → Step s (record s { pc = update s.pc i (loaded j s.count) })
  write :
      (i j v : ℕ)
      → s.pc i ≡ loaded j v
      → Step s (record s { count = add_one v; pc = update s.pc i (stored j) })
  free :
      (i j : ℕ)
      → s.pc i ≡ stored j
      → Step s (record s { lock = 0; pc = update s.pc i (head (j + 1)) })

-- The parent before its loop.
abbrev pub start : System
start = record { count = 0; lock = 0; forked = 0; forking = true; pc = λ i. unborn }

pub data Reach : System → Type 0 where
  begin : Reach start
  later : {s t : System} → Reach s → Step s t → Reach t
