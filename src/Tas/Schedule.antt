-- ===== src/Tas/Schedule.antt =====
-- A run of ps7/tasTest.c to its end: all children are forked, and then run one behind another.
use ece.Base.{ℕ, zero, suc, ◌+◌, ◌<◌, ◌≤◌, ◌≡◌, ◌≢◌, true, arith, refl}
use ece.Tas.System.{
  n_proc, rounds, Pc, finished, head, System, fork, enter, leave, take, read, write, free, start,
  Reach, begin, later,
}

-- A state in which no child has the lock, with child `i` at `p` and the others as in `s`.
record Arrived (s : System) (i : ℕ) (p : Pc) : Type 0 where
  state : System
  reached : Reach state
  here : state.pc i ≡ p
  open_lock : state.lock ≡ 0
  others : (k : ℕ) → k ≢ i → state.pc k ≡ s.pc k

one_round :
    (s : System) (i j : ℕ)
    → Reach s
    → s.pc i ≡ head j
    → s.lock ≡ 0
    → j < rounds
    → Arrived s i (head (j + 1))
one_round s i j r at open_now below =
    let r1 = later r (enter i j at below) in
    let r2 = later r1 (take i j (ground arith) open_now) in
    let r3 = later r2 (read i j (ground arith)) in
    let r4 = later r3 (write i j s.count (ground arith)) in
    let r5 = later r4 (free i j (ground arith)) in
    record {
      state = _;
      reached = r5;
      here = ground arith;
      open_lock = refl;
      others = λ k apart. ground arith;
    }

all_rounds :
    (n : ℕ) (s : System) (i j : ℕ)
    → Reach s
    → s.pc i ≡ head j
    → s.lock ≡ 0
    → j + n ≡ rounds
    → Arrived s i finished
all_rounds zero s i j r at open_now all = record {
  state = _;
  reached = later r (leave i j at (omega arith));
  here = ground arith;
  open_lock = open_now;
  others = λ k apart. ground arith;
}
all_rounds (suc n) s i j r at open_now all =
    let a = one_round s i j r at open_now (omega arith) in
    let b = all_rounds n a.state i (j + 1) a.reached a.here a.open_lock (omega arith) in
    record {
      state = b.state;
      reached = b.reached;
      here = b.here;
      open_lock = b.open_lock;
      others = λ k apart. ground (arith, a.others k apart, b.others k apart);
    }

-- `n` children are forked.
record Forked (n : ℕ) : Type 0 where
  state : System
  reached : Reach state
  forks : state.forking ≡ true
  number : state.forked ≡ n
  open_lock : state.lock ≡ 0
  ready : (i : ℕ) → i < n → state.pc i ≡ head 0

fork_all : (n : ℕ) → n ≤ n_proc → Forked n
fork_all zero h = record {
  state = start;
  reached = begin;
  forks = refl;
  number = refl;
  open_lock = refl;
  ready = λ i below. absurd (omega arith);
}
fork_all (suc n) h =
    let f = fork_all n (omega arith) in
    record {
      state = _;
      reached = later f.reached (fork f.forks (omega (arith, f.number)));
      forks = f.forks;
      number = omega (arith, f.number);
      open_lock = f.open_lock;
      ready = λ i below. ground (arith, f.number, f.ready i);
    }

-- The first `n` children have finished, the others have not begun.
pub record Finished (n : ℕ) : Type 0 where
  pub state : System
  pub reached : Reach state
  pub open_lock : state.lock ≡ 0
  pub ended : (i : ℕ) → i < n → state.pc i ≡ finished
  pub ready : (i : ℕ) → n ≤ i → i < n_proc → state.pc i ≡ head 0

finish_all : (n : ℕ) → n ≤ n_proc → Finished n
finish_all zero h =
    let f = fork_all n_proc (omega arith) in
    record {
      state = f.state;
      reached = f.reached;
      open_lock = f.open_lock;
      ended = λ i below. absurd (omega arith);
      ready = λ i from below. f.ready i below;
    }
finish_all (suc n) h =
    let f = finish_all n (omega arith) in
    let a =
      all_rounds rounds f.state n 0 f.reached (f.ready n (omega arith) (omega arith)) f.open_lock
        (omega arith) in
    record {
      state = a.state;
      reached = a.reached;
      open_lock = a.open_lock;
      ended = λ i below. ground (arith, f.ended i, a.others i, a.here);
      ready = λ i from below. ground (arith, f.ready i, a.others i);
    }

-- There is a run in which all children finish.
pub completes : Finished n_proc
completes = finish_all n_proc (omega arith)
