-- ===== src/Cost/Parts.antt =====
-- The parts of ps8/costTest.c, and its main.
use ece.Base.{ℕ, zero, suc, List, [], ◌∷◌, ◌==◌, if◌then◌else◌}
use ece.Base.Int.{ℤ, pos, negsuc, ◌-ℤ◌, to_int}

-- `struct timespec`, as clock_gettime fills it.
pub record Timespec : Type 0 where
  pub tv_sec : ℕ
  pub tv_nsec : ℕ

-- The machine: CLOCK_MONOTONIC, the call of getuid, and the work of a round of a loop.
pub record Machine : Type 1 where
  pub State : Type 0
  pub clock_gettime : State → Timespec × State
  pub getuid : State → State
  pub round : State → State

-- What is printed.
pub data Output : Type 0 where
  usage bad_part : Output
  time : ℤ → Output

-- `%d` with a `long`, of which the low 32 bits are printed.
abbrev pub printed_time : Timespec → Timespec → ℤ
printed_time start end = to_int (pos end.tv_nsec -ℤ pos start.tv_nsec)

abbrev pub rounds : ℕ
rounds = 100000

module _ (M : Machine) where
  -- The loop, with what a round calls.
  unfoldable pub loop : (M.State → M.State) → ℕ → M.State → M.State
  loop body zero s = s
  loop body (suc n) s = loop body n (body (M.round s))

  -- What the three parts have in common: start, the loop, end, and the print.
  unfoldable pub measure : (M.State → M.State) → M.State → Output × M.State
  measure body s =
      let (start, s₁) = M.clock_gettime s in
      let (end, s₂) = M.clock_gettime (loop body rounds s₁) in (time (printed_time start end), s₂)

  -- `emptyFunction`.
  abbrev pub empty_function : M.State → M.State
  empty_function s = s

  abbrev pub part_a : M.State → Output × M.State
  part_a s = measure (λ t. t) s

  abbrev pub part_b : M.State → Output × M.State
  part_b s = measure empty_function s

  abbrev pub part_c : M.State → Output × M.State
  part_c s = measure M.getuid s

  -- The `switch` of `main`.
  abbrev pub dispatch : ℤ → M.State → Output × M.State
  dispatch (pos n) s =
      if n == 1
      then part_a s
      else if n == 2
      then part_b s
      else if n == 3
      then part_c s
      else (bad_part, s)
  dispatch (negsuc n) s = (bad_part, s)

  -- `main`, on what follows the program's name in argv.
  unfoldable pub main : {Text : Type 0} → (Text → ℤ) → List Text → M.State → Output × M.State
  main atoi [] s = (usage, s)
  main atoi (arg ∷ args) s = dispatch (atoi arg) s
