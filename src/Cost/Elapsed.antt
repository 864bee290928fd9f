-- ===== src/Cost/Elapsed.antt =====
-- When ps8/costTest.c prints the time that has passed.
use ece.Base.{
  ℕ, true, false, zero, suc, ◌+◌, ◌-◌, ◌*◌, ◌/◌, ◌<◌, ◌≤◌, ◌≡◌, inl, inr, refl, List, ◌∷◌, ◌==◌,
  if◌then◌else◌, Bool-cases, arith,
}
use ece.Base.Int.{ℤ, pos, ◌+ℤ◌, ◌-ℤ◌, to_int}
use ece.Cost.Parts.{
  Timespec, Machine, Output, time, printed_time, rounds, loop, measure, empty_function, dispatch,
  main,
}

printed_short :
    (a b : Timespec) (n m : ℕ)
    → (a.tv_nsec < 1000000000) × (a.tv_sec * 1000000000 + a.tv_nsec ≡ n)
    → (b.tv_nsec < 1000000000) × (b.tv_sec * 1000000000 + b.tv_nsec ≡ m)
    → n ≤ m
    → printed_time a b +ℤ pos (1000000000 * (m / 1000000000 - n / 1000000000)) ≡ pos (m - n)
unfolding to_int ◌-ℤ◌ ◌+ℤ◌
printed_short a b n m from to later = ground arith

module _ (M : Machine) where
  -- A clock in nanoseconds that does not go backwards, from which clock_gettime reads.
  pub record Monotonic : Type 0 where
    pub now : M.State → ℕ
    pub reads :
        (s : M.State)
        → let t = (M.clock_gettime s).0 in
          (t.tv_nsec < 1000000000) × (t.tv_sec * 1000000000 + t.tv_nsec ≡ now s)
    pub call : (s : M.State) → now s ≤ now (M.clock_gettime s).1
    pub user : (s : M.State) → now s ≤ now (M.getuid s)
    pub work : (s : M.State) → now s ≤ now (M.round s)

  module _ (C : Monotonic) where
    abbrev Forward : (M.State → M.State) → Type 0
    Forward body = (s : M.State) → C.now s ≤ C.now (body s)

    loop-Forward : (body : M.State → M.State) → Forward body → (n : ℕ) → Forward (loop M body n)
    unfolding loop
    loop-Forward body h zero s = omega arith
    loop-Forward body h (suc n) s =
        omega (arith, loop-Forward body h n (body (M.round s)), h (M.round s), C.work s)

    -- What a part prints, by the clock before the loop of 100000 rounds and behind it: it is short of the
    -- time that has passed by 10 ^ 9 for each second that has begun in between.
    pub record Measured (body : M.State → M.State) (s : M.State) (o : Output) : Type 0 where
      pub printed : ℤ
      pub shows : o ≡ time printed
      pub later : C.now s ≤ C.now (loop M body rounds (M.clock_gettime s).1)
      pub short :
          let start = C.now s in
          let end = C.now (loop M body rounds (M.clock_gettime s).1) in
          printed +ℤ pos (1000000000 * (end / 1000000000 - start / 1000000000)) ≡ pos (end - start)

    measure-Measured :
        (body : M.State → M.State)
        → Forward body
        → (s : M.State) → Measured body s (measure M body s).0
    unfolding measure
    measure-Measured body h s =
        let s₁ = (M.clock_gettime s).1 in
        let e = loop M body rounds s₁ in
        let from = C.reads s in
        let to = C.reads e in
        let later = loop-Forward body h rounds s₁ in
        record {
          printed = printed_time (M.clock_gettime s).0 (M.clock_gettime e).0;
          shows = refl;
          later = omega (arith, later, C.call s);
          short =
              printed_short (M.clock_gettime s).0 (M.clock_gettime e).0 (C.now s) (C.now e) from to
                (omega (arith, later, C.call s));
        }

    -- What the loop of a part calls, that has an effect.
    abbrev pub called : ℕ → M.State → M.State
    called part = if part == 3 then M.getuid else (λ s. s)

    dispatch-Measured :
        (part : ℕ) (s : M.State)
        → 1 ≤ part
        → part ≤ 3
        → Measured (called part) s (dispatch M (pos part) s).0
    dispatch-Measured part s low high = elim (Bool-cases (part == 3)) [
      | inl three ↦
          let one : (part == 1) ≡ false = ground (arith, three) in
          let two : (part == 2) ≡ false = ground (arith, three) in
          rw (one, two, three) (measure-Measured M.getuid C.user s)
      | inr more ↦ elim (Bool-cases (part == 1)) [
        | inl one ↦ rw (one, more) (measure-Measured (λ t. t) (λ t. omega arith) s)
        | inr others ↦
            let two : (part == 2) ≡ true = ground (arith, more, others) in
            rw (others, two, more) (measure-Measured (empty_function M) (λ t. omega arith) s)
      ]
    ]

    -- For the part numbers 1 to 3, on a clock that does not go backwards: main prints a time, which is
    -- short of what passes during 100000 rounds of a loop, which calls getuid in part 3, by 10 ^ 9
    -- nanoseconds for each full second that the clock comes to in between.
    pub main-Measured :
        {Text : Type 0} (atoi : Text → ℤ) (arg : Text) (args : List Text) (part : ℕ) (s : M.State)
        → atoi arg ≡ pos part
        → 1 ≤ part
        → part ≤ 3
        → Measured (called part) s (main M atoi (arg ∷ args) s).0
    unfolding main
    main-Measured atoi arg args part s e low high = rw e (dispatch-Measured part s low high)
