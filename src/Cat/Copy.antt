-- ===== src/Cat/Copy.antt =====
-- The reading and writing of ps1/main.c.
use ece.Base.{
  ℕ, Bool, true, false, ◌&&◌, ltb, leb, List, [], ◌∷◌, ◌++◌, length, Option, none, some, ◌==◌,
  if◌then◌else◌,
}
use ece.Base.Int.{ℤ, pos, negsuc}
use ece.Posix.Input.{Reads, first}
use ece.Cat.Options.{Text, equal, dash}

-- What the program ends with: the 0 of `main`, or -1 after one of its messages; a null name, which
-- `strcmp` reads through; an array `buf` of a size that gives none, or for which the stack has no room.
pub data Status : Type 0 where
  finished open_error read_error write_error null_name no_buffer : Status

-- What stands in the output, what is left to read on the standard input, and how it ended.
pub record Run : Type 0 where
  pub out : Text
  pub input : Reads
  pub status : Status

-- What `write` takes of some bytes, and whether that is as many as were asked for.
pub record Written : Type 0 where
  pub out : Text
  pub whole : Bool

abbrev pub write_bytes : Option ℕ → Text → Text → Written
write_bytes none out bytes = record { out = out; whole = false }
write_bytes (some n) out bytes = record { out = out ++ first n bytes; whole = n == length bytes }

-- `accept out bytes` is what `write` returns for `bytes` when `out` has been written; `none` is -1.
-- The loop over one descriptor. Its end is that of the `read`s known, too.
unfoldable pub copy_file : (Text → Text → Option ℕ) → Reads → Text → Run
copy_file accept [] out = record { out = out; input = []; status = finished }
copy_file accept (none ∷ reads) out = record { out = out; input = reads; status = read_error }
copy_file accept (some [] ∷ reads) out = record { out = out; input = reads; status = finished }
copy_file accept (some (c ∷ bytes) ∷ reads) out =
    let w = write_bytes (accept out (c ∷ bytes)) out (c ∷ bytes) in
    let rest = copy_file accept reads w.out in
    if w.whole then rest else record { out = w.out; input = reads; status = write_error }

-- The descriptor of a name, for `open`'s answer: the standard input where the name is "-".
abbrev pub descriptor : (Text → Option Reads) → Reads → Text → Option Reads
descriptor open_file input name = if equal name dash then some input else open_file name

-- What is left on the standard input when a file of that name has been read.
abbrev pub left : Text → Reads → Run → Reads
left name input run = if equal name dash then run.input else input

-- Whether `char buf[bufferSize]` is an array that the stack has room for.
abbrev pub has_buffer : (room : ℕ) → ℤ → Bool
has_buffer room (pos n) = ltb 0 n && leb n room
has_buffer room (negsuc n) = false

-- A round of the loop over the files, after its `open`; `fits` says that there is the array.
abbrev pub copy_one :
    (Text → Text → Option ℕ) → Option Reads → (fits : Bool) → Text → Reads → Text → Run
copy_one accept none fits name input out = record { out = out; input = input; status = open_error }
copy_one accept (some reads) false name input out = record {
  out = out;
  input = input;
  status = no_buffer;
}
copy_one accept (some reads) true name input out =
    let run = copy_file accept reads out in record run { input = left name input run }

-- On a status but `finished` the program ends.
abbrev pub unless_ended : Status → Run → Run → Run
unless_ended finished run next = next
unless_ended _ run next = run

-- The loop over the files.
unfoldable pub copy_files :
    (Text → Text → Option ℕ)
    → (fits : Bool) → (Text → Option Reads)
    → List (Option Text)
    → Reads
    → Text
    → Run
copy_files accept fits open_file [] input out = record {
  out = out;
  input = input;
  status = finished;
}
copy_files accept fits open_file (none ∷ names) input out = record {
  out = out;
  input = input;
  status = null_name;
}
copy_files accept fits open_file (some name ∷ names) input out =
    let run = copy_one accept (descriptor open_file input name) fits name input out in
    let next = copy_files accept fits open_file names run.input run.out in
    unless_ended run.status run next
