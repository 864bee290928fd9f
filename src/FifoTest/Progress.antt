-- ===== src/FifoTest/Progress.antt =====
-- Every run of `test2` in ps7/fifoTest.c ends, with success.
use ece.Base.{
  ℕ, zero, suc, ◌+◌, ◌*◌, ◌<◌, ◌≤◌, ◌≡◌, ◌≢◌, ◌⊎◌, inl, inr, refl, sym, ◌∙◌, List, [], ◌∷◌, ◌==◌,
  ltb, Option-cases, Bool-cases, update, total, total_at, total_const, total_le, total_full,
  find_from, find_from-some, find_from-none, arith, ==→≡,
}
use ece.FifoTest.Fifo.{Fifo, IsFifo}
use ece.FifoTest.Numbers.{longs_per_writer, num_writers, number}
use ece.FifoTest.System.{
  Status, reading, success, failed, undefined, System, Step, begin_loop, write, read, finish, Reach,
  begin, later,
}
use ece.FifoTest.Order.{Merged, Merged-le, Ordered, Reach-Ordered, read_check}

-- Where the counters that the numbers bring on can get no further, there are no numbers.
Merged-full :
    (f : ℕ → ℕ) (nums : List ℕ) (g : ℕ → ℕ)
    → Merged f nums g
    → ((i : ℕ) → i < num_writers → f i ≡ longs_per_writer)
    → ((i : ℕ) → g i ≤ longs_per_writer)
    → nums ≡ []
Merged-full f [] g m full bound = refl
Merged-full f (num ∷ nums) g (k, below, same, m) full bound =
    let le = Merged-le (update f k (f k + 1)) nums g m k in
    absurd (ground (arith, le, full k, bound k))

pub empty-cases : (nums : List ℕ) → (nums ≡ []) ⊎ (nums ≢ [])
empty-cases [] = inl refl
empty-cases (num ∷ nums) = inr (λ e. cc)

module _ (F : Fifo) (law : IsFifo F) where
  -- In a state with all rounds of the reader done, everything has been written and read.
  full_trackers :
      {s : System F}
      → Ordered F s
      → s.reader.j ≡ num_writers * longs_per_writer
      → (i : ℕ) → i < num_writers
      → s.reader.trackers i ≡ longs_per_writer
  full_trackers {s} v all =
      total_full (λ (n : ℕ). n) num_writers longs_per_writer s.reader.trackers
        (λ i below.
          omega
            (arith, Merged-le s.reader.trackers (F.contents s.fifo) s.next v.merged i, v.fits i))
        (sym v.counted ∙ all)

  -- When the reader has reported success, every writer has written all its numbers, the reader has
  -- counted all of each, and the fifo is empty.
  pub success_all :
      {s : System F}
      → Reach F s
      → s.reader.status ≡ success
      → ((i : ℕ)
          → i < num_writers
          → (s.next i ≡ longs_per_writer) × (s.reader.trackers i ≡ longs_per_writer))
        × (F.contents s.fifo ≡ [])
  success_all {s} r e =
      let v = Reach-Ordered F law r in
      let full = full_trackers v (v.at_end e) in
      (
        λ i below. (
          omega (
            arith,
            Merged-le s.reader.trackers (F.contents s.fifo) s.next v.merged i,
            v.fits i,
            full i below,
          ),
          full i below,
        ),
        Merged-full s.reader.trackers (F.contents s.fifo) s.next v.merged full v.fits,
      )

  bound : {s : System F} → Ordered F s → s.reader.j ≤ num_writers * longs_per_writer
  bound {s} v =
      let le =
        total_le (λ (n : ℕ). n) num_writers longs_per_writer s.reader.trackers
          (λ i below.
            omega (
              arith,
              Merged-le s.reader.trackers (F.contents s.fifo) s.next v.merged i,
              v.fits i,
            )) in
      omega (arith, le, v.counted)

  -- A state in which the reader has not ended goes on.
  module _ {s : System F} (v : Ordered F s) (on : s.reader.status ≡ reading) where
    -- With the fifo empty a writer writes, or all is done.
    writes :
        (i : ℕ)
        → F.contents s.fifo ≡ []
        → i < s.born
        → s.next i < longs_per_writer
        → (t : System F) × Step F s t
    writes i empty born below = elim (Option-cases (F.wr s.fifo (number (i + 1) (s.next i)))) [
      | inl blocked ↦
          absurd (law.room s.fifo (number (i + 1) (s.next i)) (rw empty (omega arith)) blocked)
      | inr (t, wrote) ↦ (_, write i t born below wrote)
    ]

    counted_all :
        F.contents s.fifo ≡ []
        → ((i : ℕ) → i < num_writers → longs_per_writer ≤ s.next i)
        → s.reader.j ≡ num_writers * longs_per_writer
    counted_all empty all =
        let same : (i : ℕ) → s.reader.trackers i ≡ s.next i = rw empty at v.merged in
        v.counted
        ∙ total_const (λ (n : ℕ). n) num_writers longs_per_writer s.reader.trackers
            (λ i below. omega (arith, same i, all i below, v.fits i))

    empty_moves : F.contents s.fifo ≡ [] → (t : System F) × Step F s t
    empty_moves empty = elim (Bool-cases (ltb s.born num_writers)) [
      | inl fewer ↦ (_, begin_loop (ground arith))
      | inr all_born ↦
          elim (Option-cases (find_from (λ i. ltb (s.next i) longs_per_writer) num_writers 0)) [
            | inl e ↦
                let all : (i : ℕ) → i < num_writers → longs_per_writer ≤ s.next i = λ i below.
                  ground (
                    arith,
                    find_from-none (λ i. ltb (s.next i) longs_per_writer) num_writers 0 i e
                        (omega arith) (omega arith),
                  ) in
                (_, finish on (counted_all empty all))
            | inr (k, e) ↦
                let found =
                  find_from-some (λ i. ltb (s.next i) longs_per_writer) num_writers 0 k e in
                writes k empty (ground (arith, found.below)) (ground (arith, found.passes))
          ]
    ]

    moves : (t : System F) × Step F s t
    moves = elim (Option-cases (F.rd s.fifo)) [
      | inl blocked ↦ elim (empty-cases (F.contents s.fifo)) [
        | inl empty ↦ empty_moves empty
        | inr full ↦ absurd (law.ready s.fifo full blocked)
      ]
      | inr ((num, t), got) ↦ elim (Bool-cases (s.reader.j == num_writers * longs_per_writer)) [
        | inl all ↦ (_, finish on (==→≡ s.reader.j (num_writers * longs_per_writer) all))
        | inr more ↦ (_, read num t on (ground (arith, bound v)) got)
      ]
    ]

  -- How many steps a run has.
  abbrev pub steps : {s : System F} → Reach F s → ℕ
  steps begin = 0
  steps (later r st) = suc (steps r)

  -- What a state tells of the steps that led to it.
  abbrev ended : Status → ℕ
  ended reading = 0
  ended _ = 1

  abbrev done : System F → ℕ
  done s = s.born + total (λ (n : ℕ). n) num_writers s.next + s.reader.j + ended s.reader.status

  ended-le : (status : Status) → ended status ≤ 1
  ended-le reading = omega arith
  ended-le success = omega arith
  ended-le failed = omega arith
  ended-le undefined = omega arith

  write-done :
      (s : System F) (i : ℕ)
      → i < num_writers
      → total (λ (n : ℕ). n) num_writers (update s.next i (s.next i + 1))
        ≡ total (λ (n : ℕ). n) num_writers s.next + 1
  write-done s i below =
      let sum =
        total_at (λ (n : ℕ). n) num_writers s.next (update s.next i (s.next i + 1)) i below
          (λ j low other. ground arith) in
      ground (arith, sum)

  Reach-done : {s : System F} → (r : Reach F s) → steps r ≡ done s
  Reach-done begin =
      omega (arith, total_const (λ (n : ℕ). n) num_writers 0 (λ i. 0) (λ i below. refl))
  Reach-done (later r (begin_loop below)) = omega (arith, Reach-done r)
  Reach-done (later {s} r (write i t born below wrote)) =
      let v = Reach-Ordered F law r in
      omega (arith, Reach-done r, write-done s i (omega (arith, v.within)))
  Reach-done (later {s} r (read num t on below got)) =
      let (i, low, checked, m) = read_check F law s num t (Reach-Ordered F law r) got in
      rw checked (omega (arith, Reach-done r))
  Reach-done (later {s} r (finish on all)) = ground (arith, Reach-done r)

  -- However the processes take turns, no run has more than 11257 steps, and one that cannot go on has
  -- come to success.
  pub run_ends :
      {s : System F}
      → (r : Reach F s)
      → (steps r ≤ 11_257) × ((s.reader.status ≡ success) ⊎ ((t : System F) × Step F s t))
  run_ends {s} r =
      let v = Reach-Ordered F law r in
      let written =
        total_le (λ (n : ℕ). n) num_writers longs_per_writer s.next (λ i below. v.fits i) in
      (
        omega (arith, Reach-done r, written, v.within, bound v, ended-le s.reader.status),
        elim v.sound [ inl on ↦ inr (moves v on) | inr e ↦ inl e ],
      )

  -- A run to success.
  pub record Whole : Type 0 where
    pub state : System F
    pub reached : Reach F state
    pub succeeded : state.reader.status ≡ success

  -- Every run goes on to one.
  pub completes : (n : ℕ) {s : System F} (r : Reach F s) → steps r + n ≡ 11_257 → Whole
  completes zero {s} r e = elim ((run_ends r).1) [
    | inl done ↦ record { state = s; reached = r; succeeded = done }
    | inr (t, st) ↦ absurd (omega (arith, (run_ends (later r st)).0))
  ]
  completes (suc n) {s} r e = elim ((run_ends r).1) [
    | inl done ↦ record { state = s; reached = r; succeeded = done }
    | inr (t, st) ↦ completes n (later r st) (omega arith)
  ]
