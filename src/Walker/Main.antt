-- ===== src/Walker/Main.antt =====
-- The whole of ps2/main.c, from the command line to the output.
use ece.Base.{List, [], ◌∷◌, Option, none, some}
use ece.Base.Int.{ℤ}
use ece.Walker.Listing.{Text, Directory, list_dir}
use ece.Walker.Print.{System, Printing, ◌>>◌, say, stop, print_data}

-- What getopt gives, and optarg.
pub data Opt : Type 0 where
  u m : (optarg : Text) → Opt
  other : Opt

pub record Filters : Type 0 where
  pub user_filter : Option Text
  pub time_filter : Option ℤ

-- The loop over the options; `none` is exit(1).
unfoldable pub read_options : (Text → ℤ) → Filters → List Opt → Option Filters
read_options atoi f [] = some f
read_options atoi f (u text ∷ opts) = read_options atoi (record f { user_filter = some text }) opts
read_options atoi f (m text ∷ opts) =
    read_options atoi (record f { time_filter = some (atoi text) }) opts
read_options atoi f (other ∷ opts) = none

-- The calls of printData for these paths, in their order; each may end the program.
unfoldable pub print_all : System → Filters → List Text → Printing
print_all sys f [] = say []
print_all sys f (path ∷ paths) =
    print_data sys f.user_filter f.time_filter path >> print_all sys f paths

-- The last element of argv, which is never empty.
abbrev pub starting_path : Text → List Text → Text
starting_path prog [] = prog
starting_path prog (arg ∷ args) = starting_path arg args

-- From the end of the loop over the options on.
abbrev pub list_from : System → (Text → Directory) → Text → Option Filters → Printing
list_from sys inside path none = stop []
list_from sys inside path (some f) = print_all sys f (list_dir path (inside path))

-- `main`: `left` is what the pointer userFilter happens to hold, and `inside` what is in a directory.
unfoldable pub main :
    System
    → (Text → Directory)
    → (left : Option Text) → List Opt
    → (prog : Text) → (args : List Text) → Printing
main sys inside left opts prog args =
    list_from sys inside (starting_path prog args)
      (read_options sys.atoi (record { user_filter = left; time_filter = none }) opts)
