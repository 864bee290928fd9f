-- ===== src/Shell/RunExamples.antt =====
-- A line of ps3/main.c with its child, on a table of descriptors, and the theorems at it.
use ece.Base.{
  inl, ℕ, suc, ◌/◌, ◌*◌, ◌++◌, Bool, true, ◌≡◌, refl, some, none, Option, List, [], ◌∷◌, arith, ltb,
  ◌==◌, if◌then◌else◌,
}
use ece.Posix.{Descriptors}
use ece.Posix.Table.{table, table-IsPosix, table_opens}
use ece.Shell.Command.{
  Text, Redirect, Malloc, stdin, read_only, resolve, tokens, get_arguments, split_args,
  get_command_arg_count, get_redirect_arg_count,
}
use ece.Shell.Announce.{text, announce}
use ece.Shell.Child.{ready, apply_redirects}
use ece.Shell.Streams.{streams, redirect_lost}
use ece.Base.Int.{ℤ, pos}
use ece.Shell.Parent.{Timeval, Rusage, Turn}
use ece.Shell.Script.{on, crash, run_script, blank_line_ends}
use ece.Shell.Run.{ran, corrupts, crashed, process_line, process_line-join, process_line-overruns}

abbrev words : List Text
words = text "ls" ∷ text "-l" ∷ []

abbrev redirects : List Text
redirects = text ">out" ∷ text "2>>err" ∷ []

-- The open files of a process: terminals, and files by their names.
abbrev can_open : Text → Bool
can_open name = true

abbrev file_of : Redirect → Text
file_of r = r.file

abbrev terminals : ℕ → Option Text
terminals j = if ltb j 3 then some (text "tty") else none

abbrev system : Descriptors Text
system = table can_open

-- A `malloc` that gives room for an entry more, and one that gives whole pairs of entries and one
-- entry, as glibc does.
abbrev spacious : Malloc
spacious n = suc n

abbrev pairs : Malloc
pairs n = suc (2 * (n / 2))

abbrev junk : Text
junk = []

process_line-join_example :
    (t : ℕ → Option Text) × (process_line spacious junk system file_of
        (text "ls -l >out 2>>err\n")
        terminals
      ≡ ran
          (text "Executing command ls with arguments \"-l, >out, 2>>err\"\n")
          (ready (record { program = text "ls"; argv = words; state = t })))
    × ((j : ℕ) → t j ≡ streams file_of redirects j (terminals j))
process_line-join_example =
    process_line-join spacious junk system file_of (table-IsPosix can_open) (text "ls")
      (text "-l" ∷ []) redirects terminals
      (
        ((λ e. cc), (refl, (refl, tt))),
        (
          ((λ e. cc), (refl, (refl, tt))),
          (
            ((λ e. cc), (refl, (refl, (refl, (refl, tt))))),
            (((λ e. cc), (refl, (refl, (refl, (refl, (refl, (refl, tt))))))), tt),
          ),
        ),
      )
      (refl, (refl, tt)) (refl, (refl, tt)) refl (omega arith) (omega arith)
      (
        (λ t r free e. table_opens can_open t r.file 3 (omega arith) (free 3 refl) refl),
        ((λ t r free e. table_opens can_open t r.file 3 (omega arith) (free 3 refl) refl), tt),
      )
      (λ j below. ground arith)

-- `ls -l /home`: three words in an array for three.
process_line-overruns_example :
    process_line pairs junk system file_of (text "ls -l /home\n") terminals ≡ corrupts
process_line-overruns_example =
    process_line-overruns pairs junk system file_of (text "ls") (text "-l" ∷ text "/home" ∷ []) []
      terminals
      (
        ((λ e. cc), (refl, (refl, tt))),
        (
          ((λ e. cc), (refl, (refl, tt))),
          (((λ e. cc), (refl, (refl, (refl, (refl, (refl, tt)))))), tt),
        ),
      )
      (refl, (refl, (refl, tt))) tt refl (inl (omega arith))

error_opened : streams file_of redirects 2 (terminals 2) ≡ some (text ">err")
unfolding resolve
error_opened = refl

-- A blank line ends the shell.
blank_line : process_line spacious junk system file_of (text " \n") terminals ≡ crashed
unfolding process_line get_arguments tokens announce split_args get_command_arg_count
    get_redirect_arg_count
blank_line = refl

-- With its standard input closed, `<in` leaves it closed.
abbrev no_input : ℕ → Option Text
no_input j = if j == 0 then none else terminals j

from_in :
    resolve (text "<in") ≡ some (record { stream = stdin; mode = read_only; file = text "in" })
unfolding resolve
from_in = refl

redirect_lost_example :
    (t : ℕ → Option Text) × (apply_redirects system file_of (text "<in" ∷ []) none no_input
      ≡ ready t)
    × (t 0 ≡ none)
redirect_lost_example =
    redirect_lost system (table-IsPosix can_open) file_of (text "<in")
      (record { stream = stdin; mode = read_only; file = text "in" }) none no_input from_in refl
      (λ j below. absurd (omega arith))
      (table_opens can_open no_input (text "in") 0 (omega arith) refl refl)

-- A line takes from 1.9 to 3.1 seconds.
abbrev instant : ℕ → ℕ → Timeval
instant sec usec = record { tv_sec = sec; tv_usec = usec }

abbrev used : Rusage
used = record { ru_utime = instant 0 10; ru_stime = instant 0 20 }

abbrev turn : Turn
turn = record {
  start_time = some (instant 1 900000);
  forks = true;
  waited = some (256, used);
  end_time = some (instant 3 100000);
}

abbrev wexitstatus : ℕ → ℤ
wexitstatus status = pos (status / 256)

-- A script whose second line is empty.
abbrev comment : List (Text × Turn)
comment = (text "# a\n", turn) ∷ []

comment_goes : (run_script spacious junk system file_of wexitstatus terminals comment).going ≡ on
unfolding run_script process_line
comment_goes = refl

blank : get_arguments (text "\n") ≡ []
unfolding get_arguments tokens
blank = refl

blank_line_ends_example :
    run_script spacious junk system file_of wexitstatus terminals
      (comment ++ ((text "\n", turn) ∷ (text "ls\n", turn) ∷ []))
    ≡ record {
      said = (run_script spacious junk system file_of wexitstatus terminals comment).said;
      going = crash;
    }
blank_line_ends_example =
    blank_line_ends spacious junk system file_of wexitstatus terminals comment
      ((text "ls\n", turn) ∷ []) (text "\n") turn comment_goes blank refl
