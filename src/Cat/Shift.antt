-- ===== src/Cat/Shift.antt =====
-- The removal of the options in place, as ps1/main.c does it, against the removal of a prefix.
use ece.Base.{
  ℕ, zero, suc, ◌+◌, ◌-◌, ◌<◌, ◌≤◌, ◌≡◌, refl, List, length, get_elem?, Option, arith, ◌==◌,
  Bool-cases, inl, inr, update,
}
use ece.Cat.Options.{Text, Options, remove_args, get_inputs}

-- Slots below `i` and behind the last round keep their contents.
remove_args-other :
    (rounds i n : ℕ) (files : ℕ → Option Text) (j : ℕ)
    → j < i
    → remove_args rounds i n files j ≡ files j
unfolding remove_args
remove_args-other zero i n files j below = refl
remove_args-other (suc rounds) i n files j below =
    ground (arith, remove_args-other rounds (i + 1) n (update files i (files (i + n))) j)

-- The removal in place gives every slot of the loop what stood `n` slots above it before the loop,
-- for `n` > 0.
pub remove_args_lem :
    (rounds i n : ℕ) (files : ℕ → Option Text) (j : ℕ)
    → 0 < n
    → i ≤ j
    → j < i + rounds
    → remove_args rounds i n files j ≡ files (j + n)
unfolding remove_args
remove_args_lem zero i n files j pos low high = absurd (omega arith)
remove_args_lem (suc rounds) i n files j pos low high = elim (Bool-cases (j == i)) [
  | inl same ↦ ground (arith, remove_args-other rounds (i + 1) n (update files i (files (i + n))) j)
  | inr other ↦ ground (arith, remove_args_lem rounds (i + 1) n (update files i (files (i + n))) j)
]

-- Where fewer arguments are to be removed than there are, and at least one, the input files are the
-- arguments behind as many as are removed, whichever they are.
pub get_inputs_lem :
    (o : Options) (args : List Text) (j : ℕ)
    → 0 < o.num_to_remove
    → j + o.num_to_remove < length args
    → (get_inputs o args).input_files j ≡ get_elem? args (j + o.num_to_remove)
unfolding get_inputs
get_inputs_lem o args j pos below =
    ground
      (arith, remove_args_lem (length args - o.num_to_remove) 0 o.num_to_remove (get_elem? args) j)
