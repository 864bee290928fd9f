-- ===== src/Cat/Options.antt =====
-- The options of ps1/main.c and the files that are left when they are removed.
use ece.Base.{
  ℕ, zero, suc, ◌+◌, ◌-◌, Bool, true, false, ◌&&◌, List, [], ◌∷◌, length, get_elem?, Option, none,
  some, ◌==◌, if◌then◌else◌, update,
}
use ece.Base.Int.{ℤ, pos}

-- A text is the list of its bytes, without the final 0.
abbrev pub Text : Type 0
Text = List ℕ

-- `strcmp(a, b) == 0`.
abbrev pub equal : Text → Text → Bool
equal [] [] = true
equal [] (d ∷ b) = false
equal (c ∷ a) [] = false
equal (c ∷ a) (d ∷ b) = c == d && equal a b

-- "-", "-o" and "-b".
abbrev pub dash : Text
dash = b'-' ∷ []

abbrev pub dash_o : Text
dash_o = b'-' ∷ b'o' ∷ []

abbrev pub dash_b : Text
dash_b = b'-' ∷ b'b' ∷ []

pub record Options : Type 0 where
  pub outfile : Option Text
  pub buffer_size : ℤ
  pub num_to_remove : ℕ

abbrev pub no_options : Options
no_options = record { outfile = none; buffer_size = pos 4096; num_to_remove = 1 }

abbrev pub set_outfile : Option Text → Options → Options
set_outfile file o = record o { outfile = file; num_to_remove = o.num_to_remove + 2 }

abbrev pub set_buffer_size : ℤ → Options → Options
set_buffer_size size o = record o { buffer_size = size; num_to_remove = o.num_to_remove + 2 }

-- The loop over the arguments. Behind the last one there is a null pointer, which `-o` takes for no
-- file, and through which `-b` makes `atoi` read: that is `none`.
unfoldable pub get_options : (Text → ℤ) → List Text → Options → Option Options
get_options atoi [] o = some o
get_options atoi (a ∷ []) o =
    if equal a dash_o then some (set_outfile none o) else if equal a dash_b then none else some o
get_options atoi (a ∷ b ∷ args) o =
    let next = get_options atoi (b ∷ args) o in
    let out = get_options atoi args (set_outfile (some b) o) in
    let size = get_options atoi args (set_buffer_size (atoi b) o) in
    if equal a dash_o then out else if equal a dash_b then size else next

-- The loop that removes the options, `i` at slot `i`: `inputFiles` is `argv` itself.
unfoldable pub remove_args : ℕ → ℕ → ℕ → (ℕ → Option Text) → ℕ → Option Text
remove_args zero i n files = files
remove_args (suc rounds) i n files = remove_args rounds (i + 1) n (update files i (files (i + n)))

-- `numInputFiles` and `inputFiles`. Where there are fewer arguments than are to be removed, the
-- number is negative in the source, and no loop over it has a round.
pub record Inputs : Type 0 where
  pub num_input_files : ℕ
  pub input_files : ℕ → Option Text

unfoldable pub get_inputs : Options → List Text → Inputs
unfolding remove_args
get_inputs o args =
    let left = length args - o.num_to_remove in
    let files = remove_args left 0 o.num_to_remove (get_elem? args) in
    if length args == o.num_to_remove
    then record { num_input_files = 1; input_files = update files 0 (some dash) }
    else record { num_input_files = left; input_files = files }

-- What the loop "Loop through input files" comes by, with `rounds` to go from slot `i`.
unfoldable pub names : ℕ → ℕ → (ℕ → Option Text) → List (Option Text)
names zero i files = []
names (suc rounds) i files = files i ∷ names rounds (i + 1) files
