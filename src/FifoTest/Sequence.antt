-- ===== src/FifoTest/Sequence.antt =====
-- Every run of test1 in ps7/fifoTest.c ends, with the result 1.
use ece.Base.{
  ℕ, zero, suc, ◌+◌, ◌<◌, ◌≤◌, ◌≡◌, ◌⊎◌, inl, inr, refl, sym, ap, ◌∙◌, Bool, true, false, ◌==◌,
  if◌then◌else◌, List, [], ◌∷◌, ◌++◌, Option, some, none, Option-cases, Bool-cases, ==→≡, arith,
}
use ece.FifoTest.Fifo.{Fifo, IsFifo}
use ece.FifoTest.Numbers.{longs_per_writer}
use ece.FifoTest.Progress.{empty-cases}
use ece.FifoTest.Pair.{Pair, Move, forks, writes, reads, prints, Moves, start, then_move}

-- The `n` numbers from `i` on.
abbrev pub count_up : ℕ → ℕ → List ℕ
count_up i zero = []
count_up i (suc n) = i ∷ count_up (i + 1) n

count_up-snoc : (i n : ℕ) → count_up i n ++ ((i + n) ∷ []) ≡ count_up i (suc n)
count_up-snoc i zero = ap (λ (k : ℕ). k ∷ []) (omega arith)
count_up-snoc i (suc n) =
    let same : i + suc n ≡ i + 1 + n = omega arith in
    ap (λ (l : List ℕ). i ∷ l) (rw same (count_up-snoc (i + 1) n))

-- The first of what waits.
count_up-head :
    (i n num : ℕ) (l : List ℕ)
    → count_up i n ≡ num ∷ l
    → (i ≡ num) × (m : ℕ) × (n ≡ m + 1) × (l ≡ count_up (i + 1) m)
count_up-head i zero num l e = absurd (ground arith)
count_up-head i (suc n) num l e = (ground arith, n, omega arith, ground arith)

count_up-nil : (i n : ℕ) → count_up i n ≡ [] → n ≡ 0
count_up-nil i zero e = refl
count_up-nil i (suc n) e = absurd (ground arith)

module _ (F : Fifo) (law : IsFifo F) where
  -- The fifo holds the numbers that have been written and not read, in their order.
  record Sequent (s : Pair F) : Type 0 where
    pub waiting : ℕ
    pub balance : s.read + waiting ≡ s.written
    pub contents : F.contents s.fifo ≡ count_up s.read waiting
    pub below : s.written ≤ longs_per_writer
    pub right : s.success ≡ true
    pub printed : (b : Bool) → s.result ≡ some b → (b ≡ true) × (s.read ≡ longs_per_writer)
    pub unforked : s.forked ≡ false → s.written ≡ 0

  Move-Sequent : {s t : Pair F} → Sequent s → Move F s t → Sequent t
  Move-Sequent {s} v (forks e) = record {
    waiting = v.waiting;
    balance = v.balance;
    contents = v.contents;
    below = v.below;
    right = v.right;
    printed = v.printed;
    unforked = λ h. absurd (ground (arith, h));
  }
  Move-Sequent {s} v (writes t on low e) = record {
    waiting = suc v.waiting;
    balance = omega (arith, v.balance);
    contents =
        law.contents-wr s.fifo t s.written e
        ∙ rw (v.contents, sym v.balance) (count_up-snoc s.read v.waiting);
    below = omega (arith, low);
    right = v.right;
    printed = v.printed;
    unforked = λ h. absurd (ground (arith, h, on));
  }
  Move-Sequent {s} v (reads num t on low e) =
      let seen = sym v.contents ∙ law.contents-rd s.fifo t num e in
      let (same, m, more, rest) = count_up-head s.read v.waiting num (F.contents t) seen in
      record {
        waiting = m;
        balance = omega (arith, v.balance, more);
        contents = rest;
        below = v.below;
        right = ground (arith, v.right, same);
        printed = λ b h. absurd (omega (arith, (v.printed b h).1, low));
        unforked = λ h. absurd (ground (arith, h, on));
      }
  Move-Sequent {s} v (prints on all fresh) = record {
    waiting = v.waiting;
    balance = v.balance;
    contents = v.contents;
    below = v.below;
    right = v.right;
    printed = λ b h. (ground (arith, h, v.right), all);
    unforked = v.unforked;
  }

  Moves-Sequent : {s : Pair F} → Moves F s → Sequent s
  Moves-Sequent start = record {
    waiting = 0;
    balance = refl;
    contents = law.contents-init;
    below = omega arith;
    right = refl;
    printed = λ b h. absurd (ground arith);
    unforked = λ h. refl;
  }
  Moves-Sequent (then_move r m) = Move-Sequent (Moves-Sequent r) m

  -- How many steps a run has.
  abbrev pub moves : {s : Pair F} → Moves F s → ℕ
  moves start = 0
  moves (then_move r m) = suc (moves r)

  abbrev given : Option Bool → ℕ
  given none = 0
  given (some b) = 1

  abbrev done : Pair F → ℕ
  done s = (if s.forked then 1 else 0) + s.written + s.read + given s.result

  done-le : {s : Pair F} → Sequent s → done s ≤ 202
  done-le {s} v = ground (arith, v.below, v.balance)

  Moves-done : {s : Pair F} → (r : Moves F s) → moves r ≡ done s
  Moves-done start = refl
  Moves-done (then_move {s} r (forks e)) = ground (arith, Moves-done r)
  Moves-done (then_move {s} r (writes t on low e)) = ground (arith, Moves-done r)
  Moves-done (then_move {s} r (reads num t on low e)) = ground (arith, Moves-done r)
  Moves-done (then_move {s} r (prints on all fresh)) = ground (arith, Moves-done r)

  -- Where the reader is blocked, the fifo is empty.
  empty : {s : Pair F} → Sequent s → F.rd s.fifo ≡ none → F.contents s.fifo ≡ []
  empty {s} v blocked = elim (empty-cases (F.contents s.fifo)) [
    | inl e ↦ e
    | inr more ↦ absurd (law.ready s.fifo more blocked)
  ]

  written_below :
      {s : Pair F}
      → Sequent s
      → F.rd s.fifo ≡ none
      → s.read < longs_per_writer
      → s.written < longs_per_writer
  written_below {s} v blocked low =
      let none_wait = count_up-nil s.read v.waiting (sym v.contents ∙ empty v blocked) in
      omega (arith, v.balance, none_wait, low)

  -- The reader has not got all: it reads, or the writer writes.
  goes_on_forked :
      {s : Pair F}
      → Sequent s
      → s.forked ≡ true
      → s.read < longs_per_writer
      → (t : Pair F) × Move F s t
  goes_on_forked {s} v on low = elim (Option-cases (F.rd s.fifo)) [
    | inr ((num, t), got) ↦ (_, reads num t on low got)
    | inl blocked ↦ elim (Option-cases (F.wr s.fifo s.written)) [
      | inr (t, wrote) ↦ (_, writes t on (written_below v blocked low) wrote)
      | inl full ↦ absurd (law.room s.fifo s.written (rw (empty v blocked) (omega arith)) full)
    ]
  ]

  -- Where nothing is printed yet, there is a step.
  goes_on : {s : Pair F} → Sequent s → s.result ≡ none → (t : Pair F) × Move F s t
  goes_on {s} v fresh = elim (Bool-cases s.forked) [
    | inr not_yet ↦ (_, forks not_yet)
    | inl on ↦ elim (Bool-cases (s.read == longs_per_writer)) [
      | inl all ↦ (_, prints on (==→≡ s.read longs_per_writer all) fresh)
      | inr more ↦ goes_on_forked v on (ground (arith, v.below, v.balance, more))
    ]
  ]

  -- Every state that test1 of the fifo comes to has printed nothing, or the result 1; it is reached in at
  -- most 202 steps; and there is a step from it, if nothing is printed.
  pub test_1_ends :
      {s : Pair F}
      → (r : Moves F s)
      → (moves r ≤ 202)
        × ((s.result ≡ some true) ⊎ ((s.result ≡ none) × ((t : Pair F) × Move F s t)))
  test_1_ends {s} r =
      let v = Moves-Sequent r in
      (
        omega (arith, Moves-done r, done-le v),
        elim (Option-cases s.result) [
          | inl fresh ↦ inr (fresh, goes_on v fresh)
          | inr (b, e) ↦ inl (e ∙ ap some (v.printed b e).0)
        ],
      )
