-- ===== src/Pager/Examples.antt =====
-- Runs of ps4/main.c on a table of descriptors, and its theorems at them.
use ece.Base.{
  ℕ, ◌≡◌, ◌≢◌, ◌<◌, refl, arith, Bool, true, [], ◌∷◌, length, Option, none, some, ltb,
  if◌then◌else◌, update, find_from,
}
use ece.Base.Int.{pos}
use ece.Posix.{Descriptors}
use ece.Posix.Table.{table, table-IsPosix}
use ece.Posix.Input.{Text, Reads}
use ece.Cat.Options.{remove_args, names}
use ece.Pager.Pipes.{
  File, read_end, write_end, input, given, Fds, grep_child, less_child, after_grep, after_less,
  Pipeline, start_children, pipe_file,
}
use ece.Pager.Tables.{PipeTables, pipe_file-tables, pipe_file_leak}
use ece.Pager.Feed.{fed, feed}
use ece.Pager.Fed.{feed_all}
use ece.Pager.Files.{input_files, pipe_files, main, AllLeft, pager-AllLeft}

abbrev can_open : File → Bool
can_open f = true

abbrev system : Descriptors File
system = table can_open

-- The three standard streams are open, and nothing else.
abbrev std : ℕ → Option File
std j = if ltb j 3 then some (given j) else none

abbrev file : Text
file = b'a' ∷ []

abbrev fds : Fds
fds = record { read1 = 3; write1 = 4; read2 = 5; write2 = 6 }

abbrev piped : ℕ → Option File
piped =
    update
      (update (update (update std 3 (some (read_end 0))) 4 (some (write_end 0))) 5
        (some (read_end 1)))
      6 (some (write_end 1))

abbrev feeding : ℕ → Option File
feeding = update (after_less system fds (after_grep system fds piped)) 3 (some (input file))

abbrev q : Pipeline system
q = record {
  fds = fds;
  infd = 3;
  grep = grep_child system fds piped;
  less = less_child system fds (after_grep system fds piped);
  copying = feeding;
  finished = update feeding 4 none;
}

runs : pipe_file system 0 1 file std ≡ some q
unfolding pipe_file start_children find_from
runs = refl

std_open : (j : ℕ) → j < 3 → std j ≢ none
std_open j below = ground arith

pipe_file-tables_example : PipeTables system (table-IsPosix can_open) 0 1 file std q
pipe_file-tables_example = pipe_file-tables system (table-IsPosix can_open) 0 1 file q std_open runs

pipe_file_leak_example :
    ((j : ℕ) → q.finished j ≢ some (write_end 0))
    × ((t : ℕ → Option File) → q.grep ≡ some t → (j : ℕ) → t j ≢ some (write_end 0))
    × (t : ℕ → Option File) × (q.less ≡ some t)
    × (t 4 ≡ some (write_end 0))
pipe_file_leak_example =
    pipe_file_leak system (table-IsPosix can_open) 0 1 file q std_open (λ j. ground arith)
      (omega arith) runs

main_runs : main system (file ∷ file ∷ file ∷ []) std ≡ some q.finished
unfolding main input_files pipe_files pipe_file start_children remove_args names find_from
main_runs = refl

pager-AllLeft_example : AllLeft system std (file ∷ []) q.finished
pager-AllLeft_example =
    pager-AllLeft system (table-IsPosix can_open) file file file [] std q.finished std_open
      main_runs

-- A pipe that takes all, and one that takes a byte and then the rest.
abbrev takes_all : Text → Text → Option ℕ
takes_all out bytes = some (length bytes)

abbrev takes_one : Text → Text → Option ℕ
takes_one [] bytes = some 1
takes_one (c ∷ out) bytes = some (length bytes)

abbrev reads : Reads
reads = some (b'h' ∷ b'i' ∷ []) ∷ some (b'!' ∷ []) ∷ some [] ∷ []

feed_all_example :
    feed takes_all reads [] (pos 0)
    ≡ record { out = b'h' ∷ b'i' ∷ b'!' ∷ []; total_bytes = pos 3; status = fed }
feed_all_example = feed_all takes_all reads [] 0 (λ out bytes. refl) tt (omega arith)
