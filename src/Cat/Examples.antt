-- ===== src/Cat/Examples.antt =====
-- Runs of ps1/main.c, and its theorems at them.
use ece.Base.{ℕ, List, [], ◌∷◌, length, Option, some, ◌≡◌, true, refl, inl, inr}
use ece.Base.Int.{ℤ, pos}
use ece.Posix.Input.{Reads}
use ece.Cat.Options.{Text, dash, get_options, get_inputs, remove_args, names}
use ece.Cat.CommandLine.{Choice, to_file, render}
use ece.Cat.Copy.{Run, finished, copy_file, copy_files}
use ece.Cat.Content.{Beginning, copy_files-Beginning}
use ece.Cat.Main.{main, main-contents}

-- `cat -o x a -`, where `a` holds "hi" and the standard input "!".
abbrev prog : Text
prog = b'c' ∷ b'a' ∷ b't' ∷ []

abbrev file_x : Text
file_x = b'x' ∷ []

abbrev file_a : Text
file_a = b'a' ∷ []

abbrev choices : List Choice
choices = to_file file_x ∷ []

abbrev files : List Text
files = file_a ∷ dash ∷ []

abbrev args : List Text
args = prog ∷ render choices files

abbrev atoi : Text → ℤ
atoi text = pos 0

abbrev takes_all : Option Text → Text → Text → Option ℕ
takes_all outfile out bytes = some (length bytes)

abbrev takes_one : Text → Text → Option ℕ
takes_one out bytes = some 1

abbrev open_file : ℤ → Text → Option Reads
open_file size name = some (some (b'h' ∷ b'i' ∷ []) ∷ [])

abbrev holds : Text → Text
holds name = b'h' ∷ b'i' ∷ []

abbrev input : Reads
input = some (b'!' ∷ []) ∷ []

abbrev written : Text
written = b'h' ∷ b'i' ∷ b'!' ∷ []

main_runs :
    main 8000000 atoi takes_all open_file args input
    ≡ some (record { out = written; input = []; status = finished })
unfolding main get_options get_inputs remove_args names copy_files copy_file
main_runs = refl

main-contents_example :
    (run : Run) × (main 8000000 atoi takes_all open_file args input ≡ some run)
    × (run.status ≡ finished)
    × (run.out ≡ written)
main-contents_example =
    main-contents 8000000 atoi takes_all open_file holds prog choices files input
      (refl, refl, (refl, refl, (refl, refl, tt))) refl (λ out bytes. refl) tt
      (inr (some (b'h' ∷ b'i' ∷ []) ∷ [], refl, tt, refl), (inl refl, tt))

-- A write that takes one byte of two ends the program.
copy_files-Beginning_example :
    let run =
      copy_files takes_one true (open_file (pos 4096)) (some file_a ∷ some dash ∷ []) input [] in
    Beginning written run.out run.status
copy_files-Beginning_example =
    copy_files-Beginning takes_one true (open_file (pos 4096)) (some file_a ∷ some dash ∷ []) input
      []
