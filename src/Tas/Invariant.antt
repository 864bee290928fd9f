-- ===== src/Tas/Invariant.antt =====
-- What holds of the processes of ps7/tasTest.c in every state that they can reach.
use ece.Base.{
  ◌⊎◌, ℕ, ◌+◌, ◌≤◌, ◌<◌, ◌≡◌, ◌≢◌, Bool, true, false, update, ◌==◌, Bool-cases, inl, inr, ap, arith,
  refl, total, total_at, total_const, total_le, ◌*◌,
}
use ece.Tas.System.{
  n_proc, rounds, Pc, unborn, finished, head, spin, locked, stored, loaded, System, Step, fork,
  no_fork, parent_ends, enter, leave, take, read, write, free, start, Reach, begin, later,
}

-- Between a `tas` that took the lock and the store that frees it.
abbrev pub holds : Pc → Bool
holds (locked j) = true
holds (loaded j v) = true
holds (stored j) = true
holds _ = false

-- The additions to `map[0]` that a child has made.
abbrev pub done_of : Pc → ℕ
done_of unborn = 0
done_of finished = rounds
done_of (head j) = j
done_of (spin j) = j
done_of (locked j) = j
done_of (loaded j v) = j
done_of (stored j) = j + 1

-- The round of a child is one of its loop, and the value that it read is the one that is there.
abbrev pub Fits : ℕ → Pc → Type 0
Fits count unborn = Unit
Fits count finished = Unit
Fits count (head j) = j ≤ rounds
Fits count (spin j) = j < rounds
Fits count (locked j) = j < rounds
Fits count (loaded j v) = (j < rounds) × (v ≡ count)
Fits count (stored j) = j < rounds

-- One child at a time has the lock, and one has it while it is taken; no child is there that was not forked; the counter is the sum
-- of the additions made.
pub record Consistent (s : System) : Type 0 where
  pub one : (i j : ℕ) → holds (s.pc i) ≡ true → holds (s.pc j) ≡ true → i ≡ j
  pub open_lock : (i : ℕ) → s.lock ≡ 0 → holds (s.pc i) ≡ false
  pub holder : s.lock ≢ 0 → (i : ℕ) × (holds (s.pc i) ≡ true)
  pub within : s.forked ≤ n_proc
  pub new : (i : ℕ) → s.forked ≤ i → s.pc i ≡ unborn
  pub fits : (i : ℕ) → Fits s.count (s.pc i)
  pub counted : s.count ≡ total done_of n_proc s.pc

-- How a move of one child from `p` to `p'` changes the lock.
pub data LockMove (lock lock' : ℕ) (p p' : Pc) : Type 0 where
  keep : lock' ≡ lock → holds p' ≡ holds p → LockMove lock lock' p p'
  acquire : lock ≡ 0 → lock' ≡ 1 → holds p' ≡ true → LockMove lock lock' p p'
  release : lock' ≡ 0 → holds p ≡ true → holds p' ≡ false → LockMove lock lock' p p'

-- A move of a child `i` to `p'`, seen from the invariant.
pub record Local (s t : System) (i : ℕ) (p' : Pc) : Type 0 where
  pub pc_moved : t.pc ≡ update s.pc i p'
  pub lock_moved : LockMove s.lock t.lock (s.pc i) p'
  pub count_moved : (t.count ≡ s.count) ⊎ (holds (s.pc i) ≡ true)
  pub forked_kept : t.forked ≡ s.forked
  pub born : i < s.forked
  pub in_range : Fits t.count p'
  pub adds : t.count + done_of (s.pc i) ≡ s.count + done_of p'

Fits-quiet : (c d : ℕ) (p : Pc) → holds p ≡ false → Fits c p → Fits d p
Fits-quiet c d unborn h k = k
Fits-quiet c d finished h k = k
Fits-quiet c d (head j) h k = k
Fits-quiet c d (spin j) h k = k
Fits-quiet c d (locked j) h k = k
Fits-quiet c d (loaded j v) h k = cc
Fits-quiet c d (stored j) h k = k

module _ {s t : System} (v : Consistent s) (i : ℕ) (p' : Pc) (m : Local s t i p') where
  moved : (j : ℕ) → t.pc j ≡ update s.pc i p' j
  moved j = ap (λ (f : ℕ → Pc). f j) m.pc_moved

  Local-one : (j k : ℕ) → holds (t.pc j) ≡ true → holds (t.pc k) ≡ true → j ≡ k
  Local-one j k h h' = elim (m.lock_moved) [
    | keep a b ↦ ground (arith, moved j, moved k, v.one j k, v.one i k, v.one j i)
    | acquire a b c ↦ ground (arith, moved j, moved k, v.open_lock j a, v.open_lock k a)
    | release z a b ↦ ground (arith, moved j, moved k, v.one i j a, v.one i k a)
  ]

  Local-open : (j : ℕ) → t.lock ≡ 0 → holds (t.pc j) ≡ false
  Local-open j h = elim (m.lock_moved) [
    | keep a b ↦ ground (arith, moved j, v.open_lock j, v.open_lock i)
    | acquire a b c ↦ absurd (ground arith)
    | release z a b ↦ ground (arith, moved j, v.one i j a)
  ]

  Local-holder : t.lock ≢ 0 → (j : ℕ) × (holds (t.pc j) ≡ true)
  Local-holder h = elim (m.lock_moved) [
    | keep a b ↦ let (k, it) = v.holder (ground arith) in (k, ground (arith, moved k))
    | acquire a b c ↦ (i, ground (arith, moved i))
    | release z a b ↦ absurd (h z)
  ]

  other-Fits : (j : ℕ) → i ≢ j → Fits t.count (s.pc j)
  other-Fits j apart = elim (Bool-cases (holds (s.pc j))) [
    | inl holder ↦ elim (m.count_moved) [
      | inl same ↦ rw same (v.fits j)
      | inr mine ↦ absurd (apart (v.one i j mine holder))
    ]
    | inr quiet ↦ Fits-quiet s.count t.count (s.pc j) quiet (v.fits j)
  ]

  Local-Fits : (j : ℕ) → Fits t.count (t.pc j)
  Local-Fits j = elim (Bool-cases (i == j)) [
    | inl same ↦ let here : t.pc j ≡ p' = ground (arith, moved j) in rw here m.in_range
    | inr other ↦
        let here : t.pc j ≡ s.pc j = ground (arith, moved j) in
        rw here (other-Fits j (ground arith))
  ]

  Local-counted : t.count ≡ total done_of n_proc t.pc
  Local-counted =
      let sum =
        total_at done_of n_proc s.pc t.pc i (omega (arith, m.born, v.within))
          (λ j below other. ground (arith, moved j)) in
      ground (arith, sum, moved i, m.adds, v.counted)

  -- Such a move keeps the invariant.
  pub Local-Consistent : Consistent t
  Local-Consistent = record {
    one = Local-one;
    open_lock = Local-open;
    holder = Local-holder;
    within = omega (arith, v.within, m.forked_kept);
    new = λ j h. ground (arith, moved j, v.new j, m.forked_kept, m.born);
    fits = Local-Fits;
    counted = Local-counted;
  }

-- The counter stays far below the bound of an `int`.
done_of-le : (count : ℕ) (p : Pc) → Fits count p → done_of p ≤ rounds
done_of-le count unborn h = omega arith
done_of-le count finished h = omega arith
done_of-le count (head j) h = omega arith
done_of-le count (spin j) h = omega arith
done_of-le count (locked j) h = omega arith
done_of-le count (loaded j v) h = omega arith
done_of-le count (stored j) h = omega arith

pub count-le : {s : System} → Consistent s → s.count ≤ n_proc * rounds
count-le {s} v = omega (
  arith,
  v.counted,
  total_le done_of n_proc rounds s.pc (λ i p. done_of-le s.count (s.pc i) (v.fits i)),
)

-- A child that is not `unborn` was forked.
is_born : {s : System} → Consistent s → (i : ℕ) → s.pc i ≢ unborn → i < s.forked
is_born v i h = ground (arith, v.new i)

start-Consistent : Consistent start
start-Consistent = record {
  one = λ i j h k. cc;
  open_lock = λ i h. refl;
  holder = λ h. absurd (h refl);
  within = omega arith;
  new = λ i h. refl;
  fits = λ i. tt;
  counted = omega (arith, total_const done_of n_proc 0 (λ i. unborn) (λ i h. refl));
}

fork-Consistent :
    {s : System}
    → Consistent s
    → s.forked < n_proc
    → Consistent (record s { pc = update s.pc s.forked (head 0); forked = s.forked + 1 })
fork-Consistent {s} v below = record {
  one = λ i j h k. ground (arith, v.one i j);
  open_lock = λ i h. ground (arith, v.open_lock i);
  holder = λ h. let (k, it) = v.holder h in (k, ground (arith, v.new k));
  within = omega arith;
  new = λ i h. ground (arith, v.new i);
  fits = λ i. elim (Bool-cases (s.forked == i)) [
    | inl same ↦ rw same (omega arith)
    | inr other ↦ rw other (v.fits i)
  ];
  counted = ground (
    arith,
    v.counted,
    v.new s.forked,
    total_at done_of n_proc s.pc (update s.pc s.forked (head 0)) s.forked below
        (λ j p other. ground arith),
  );
}

halt-Consistent : {s : System} → Consistent s → Consistent (record s { forking = false })
halt-Consistent v = record {
  one = v.one;
  open_lock = v.open_lock;
  holder = v.holder;
  within = v.within;
  new = v.new;
  fits = v.fits;
  counted = v.counted;
}

-- Every step keeps the invariant.
pub Step-Consistent : {s t : System} → Step s t → Consistent s → Consistent t
Step-Consistent (fork on below) v = fork-Consistent v below
Step-Consistent (no_fork on below) v = halt-Consistent v
Step-Consistent (parent_ends on all) v = halt-Consistent v
Step-Consistent (enter i j at below) v = Local-Consistent v i (spin j) (ground (arith, is_born v i))
Step-Consistent (leave i j at all) v = Local-Consistent v i finished (ground (arith, is_born v i))
Step-Consistent (take i j at open_now) v =
    Local-Consistent v i (locked j) (ground (arith, is_born v i, v.fits i))
Step-Consistent {s} (read i j at) v =
    Local-Consistent v i (loaded j s.count) (ground (arith, is_born v i, v.fits i))
Step-Consistent (write i j w at) v =
    Local-Consistent v i (stored j) (ground (arith, is_born v i, v.fits i, count-le v))
Step-Consistent (free i j at) v =
    Local-Consistent v i (head (j + 1)) (ground (arith, is_born v i, v.fits i))

pub Reach-Consistent : {s : System} → Reach s → Consistent s
Reach-Consistent begin = start-Consistent
Reach-Consistent (later r st) = Step-Consistent st (Reach-Consistent r)
