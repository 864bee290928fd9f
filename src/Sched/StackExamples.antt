-- ===== src/Sched/StackExamples.antt =====
-- Stacks of two frames of ps9/sched.c, and the theorems of their copies at them.
use ece.Base.{
  ℕ, ◌+◌, ◌*◌, ◌<◌, ◌≤◌, ◌≡◌, ◌≢◌, ◌⊎◌, inr, refl, arith, [], ◌∷◌, Option, none, some, ◌==◌,
  if◌then◌else◌,
}
use ece.Sched.Stack.{Memory, stack_words, adjusted, fault, fork_stack}
use ece.Sched.Frames.{Chain, Inner}
use ece.Sched.Copied.{fork_stack_adjusted, fork_stack_fault}

abbrev base : ℕ
base = 32768

abbrev here : ℕ
here = 16384

-- A chain whose second frame holds `top`, with the word behind the new stack as given.
abbrev memory : ℕ → Option ℕ → Memory
memory top behind j =
    if j == base + 8
    then some (8 * (base + 16))
    else if j == base + 16
    then some top
    else if j == here + stack_words
    then behind
    else some 0

fork_stack_fault_example :
    fork_stack 3 (8 * here) (8 * base) (8 * (base + 8)) (memory (8 * (base + stack_words)) none)
    ≡ fault
fork_stack_fault_example =
    fork_stack_fault base here 3 8 (16 ∷ []) (memory (8 * (base + stack_words)) none) (omega arith)
      (omega arith) (omega arith) (refl, omega arith, omega arith, refl) refl (omega arith)

-- The word behind the new stack holds 0.
fork_stack_adjusted_example :
    (t : Memory) × (fork_stack 3
        (8 * here)
        (8 * base)
        (8 * (base + 8))
        (memory (8 * (base + stack_words)) (some 0))
      ≡ adjusted t)
    × Chain t here here 8 (16 ∷ []) (8 * (here + stack_words))
    × ((j : ℕ)
        → j < stack_words
        → ((i : ℕ) → Inner 8 (16 ∷ []) i → j ≢ i)
        → j ≢ 16
        → t (here + j) ≡ memory (8 * (base + stack_words)) (some 0) (base + j))
    × ((j : ℕ)
        → (j < here) ⊎ (here + stack_words ≤ j)
        → t j ≡ memory (8 * (base + stack_words)) (some 0) j)
fork_stack_adjusted_example =
    fork_stack_adjusted base here 3 8 (16 ∷ []) (memory (8 * (base + stack_words)) (some 0))
      (omega arith) (omega arith) (omega arith) 0 (refl, omega arith, omega arith, refl) refl
      (inr (omega arith)) (omega arith)
