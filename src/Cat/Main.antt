-- ===== src/Cat/Main.antt =====
-- The whole of ps1/main.c, from the command line to the output.
use ece.Base.{ℕ, List, [], ◌∷◌, map, Option, some, ◌≡◌, true}
use ece.Base.Int.{ℤ}
use mathlib.Core.Option
use ece.Posix.Input.{Reads, NoFailure, TakesAll}
use ece.Cat.Options.{Text, Options, no_options, get_options, get_inputs, names}
use ece.Cat.CommandLine.{Choice, render, apply, ArePlain, or_dash, get_options-get_inputs}
use ece.Cat.Copy.{Run, finished, has_buffer, copy_files}
use ece.Cat.Success.{AllReadable, texts, copy_files-contents}

-- From the loop over the files on. `room` is what the stack has for the buffer. `accept` knows the output file, and `open_file` the size of the
-- buffer, on which what the calls of `read` give depends.
abbrev pub copy_inputs :
    (room : ℕ)
    → (Option Text → Text → Text → Option ℕ)
    → (ℤ → Text → Option Reads)
    → List Text
    → Reads
    → Options
    → Run
copy_inputs room accept open_file args input o =
    let inputs = get_inputs o args in
    copy_files (accept o.outfile) (has_buffer room o.buffer_size) (open_file o.buffer_size)
      (names inputs.num_input_files 0 inputs.input_files) input []

-- `main`, without what it prints and the closing of the output file. `none` is a read through a null
-- pointer.
unfoldable pub main :
    (room : ℕ)
    → (Text → ℤ)
    → (Option Text → Text → Text → Option ℕ)
    → (ℤ → Text → Option Reads)
    → List Text
    → Reads
    → Option Run
main room atoi accept open_file args input =
    Option.map (copy_inputs room accept open_file args input) (get_options atoi args no_options)

-- For a command line with the options before the files, a buffer size that is positive and for which
-- the stack has room, and where every write takes all it is given, every file but "-" can be opened,
-- and the reads give what it holds without a failure, the program ends with 0 and its output is what
-- the files hold, one behind another, or what the standard input gives if there are no files.
pub main-contents :
    (room : ℕ) (atoi : Text → ℤ) (accept : Option Text → Text → Text → Option ℕ)
    (open_file : ℤ → Text → Option Reads) (holds : Text → Text) (prog : Text)
    (choices : List Choice) (files : List Text) (input : Reads)
    → ArePlain (prog ∷ files)
    → has_buffer room (apply atoi choices no_options).buffer_size ≡ true
    → TakesAll (accept (apply atoi choices no_options).outfile)
    → NoFailure input
    → AllReadable
        (open_file (apply atoi choices no_options).buffer_size)
        holds
        (map some (or_dash files))
    → (run : Run) × (main room atoi accept open_file (prog ∷ render choices files) input ≡ some run)
      × (run.status ≡ finished)
      × (run.out ≡ texts holds (map some (or_dash files)) input)
unfolding main
main-contents room atoi accept open_file holds prog choices files input plain fits takes sound
      readable =
    let o = apply atoi choices no_options in
    let args = prog ∷ render choices files in
    let (options, inputs) = get_options-get_inputs atoi prog choices files plain in
    let (done, all) =
      copy_files-contents (accept o.outfile) takes (open_file o.buffer_size) holds
        (map some (or_dash files)) input [] sound readable in
    (
      copy_files (accept o.outfile) true (open_file o.buffer_size) (map some (or_dash files)) input
          [],
      rw (options, inputs, fits),
      done,
      all,
    )
