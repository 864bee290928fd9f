-- ===== src/Shell/Command.antt =====
-- How ps3/main.c takes a line apart. A text is the list of its bytes, without the final 0; a read
-- at or behind its end gives the 0.
use ece.Base.{
  ℕ, zero, suc, Bool, not, ◌&&◌, ◌||◌, List, [], ◌∷◌, ◌++◌, Option, none, some, ◌==◌, if◌then◌else◌,
}
use mathlib.Core.Option

abbrev pub Text : Type 0
Text = List ℕ

-- `a[i]`.
abbrev pub char_at : Text → ℕ → ℕ
char_at [] i = 0
char_at (c ∷ a) zero = c
char_at (c ∷ a) (suc i) = char_at a i

-- `a + n`.
abbrev pub skip : ℕ → Text → Text
skip zero a = a
skip (suc n) [] = []
skip (suc n) (c ∷ a) = skip n a

-- The test of `delimiters`, "\t ".
abbrev pub is_delimiter : ℕ → Bool
is_delimiter c = c == 9 || c == 32

-- `token` with the tokens behind it, where it is not empty.
abbrev pub emit : Text → List Text → List Text
emit [] rest = rest
emit (c ∷ token) rest = (c ∷ token) ∷ rest

-- The loop over `strtok`: `token` is what has been read of the token at hand.
unfoldable pub tokens : Text → Text → List Text
tokens token [] = emit token []
tokens token (c ∷ line) =
    let ended = emit token (tokens [] line) in
    let longer = tokens (token ++ (c ∷ [])) line in if is_delimiter c then ended else longer

-- `line[strlen(line) - 1] = '\0';`, on a line that is not empty.
abbrev pub chop : Text → Text
chop [] = []
chop (c ∷ []) = []
chop (c ∷ d ∷ line) = c ∷ chop (d ∷ line)

unfoldable pub get_arguments : Text → List Text
unfolding tokens
get_arguments line = tokens [] (chop line)

-- The test of both counting loops.
abbrev pub is_redirect : Text → Bool
is_redirect a =
    char_at a 0 == b'<' || (char_at a 0 == b'>' || (char_at a 0 == b'2' && char_at a 1 == b'>'))

unfoldable pub get_command_arg_count : List Text → ℕ
get_command_arg_count [] = 0
get_command_arg_count (a ∷ args) =
    let rest = get_command_arg_count args in if not (is_redirect a) then suc rest else rest

unfoldable pub get_redirect_arg_count : List Text → ℕ
get_redirect_arg_count [] = 0
get_redirect_arg_count (a ∷ args) =
    let rest = get_redirect_arg_count args in if is_redirect a then suc rest else rest

-- What the first `n` entries of an array hold.
abbrev pub entries : ℕ → List Text → List Text
entries zero args = []
entries (suc n) [] = []
entries (suc n) (a ∷ args) = a ∷ entries n args

-- `args + n`.
abbrev pub behind : ℕ → List Text → List Text
behind zero args = args
behind (suc n) [] = []
behind (suc n) (a ∷ args) = behind n args

-- A loop that copies `args` to an array, with `rounds` to go and room for `space` entries more;
-- `junk` is what a read behind the end of `args` gives. `none` is a write behind the array's room.
unfoldable pub copy : (junk : Text) (space rounds : ℕ) → List Text → Option (List Text)
copy junk space zero args = some []
copy junk zero (suc n) args = none
copy junk (suc space) (suc n) [] =
    let rest = copy junk space n [] in Option.map (λ l. junk ∷ l) rest
copy junk (suc space) (suc n) (a ∷ args) =
    let rest = copy junk space n args in Option.map (λ l. a ∷ l) rest

-- What `malloc` gives for a number of entries: how many there is room for.
abbrev pub Malloc : Type 0
Malloc = ℕ → ℕ

-- `malloc` for `count` entries, and the loop, which runs to `argi <= count`.
abbrev pub fill_array : Malloc → Text → ℕ → List Text → Option (List Text)
fill_array room junk zero args = some []
fill_array room junk (suc n) args = copy junk (room (suc n)) (suc (suc n)) args

-- `commandArgs` without the 0 at its end, and the entries of `redirectArgs` that are read.
pub record Command : Type 0 where
  pub command_args : List Text
  pub redirect_args : List Text

abbrev pub both_arrays : ℕ → ℕ → Option (List Text) → Option (List Text) → Option Command
both_arrays c r none redirects = none
both_arrays c r (some words) none = none
both_arrays c r (some words) (some redirects) =
    some (record { command_args = entries c words; redirect_args = entries r redirects })

-- The two arrays; the last entry copied to the first is overwritten by 0, and that of the second is
-- not read.
unfoldable pub split_args : Malloc → Text → List Text → Option Command
unfolding copy
split_args room junk args =
    let c = get_command_arg_count args in
    let r = get_redirect_arg_count args in
    both_arrays c r (fill_array room junk c args) (fill_array room junk r (behind c args))

pub data Stream : Type 0 where
  stdin stdout stderr : Stream

pub data Mode : Type 0 where
  read_only truncate append : Mode

-- What the child opens for one redirection, and onto which stream it puts it.
pub record Redirect : Type 0 where
  pub stream : Stream
  pub mode : Mode
  pub file : Text

-- The chain of tests of the child; `none` where none of them passes.
unfoldable pub resolve : Text → Option Redirect
resolve a =
    if char_at a 0 == b'<'
    then some (record { stream = stdin; mode = read_only; file = skip 1 a })
    else if char_at a 0 == b'>' && not (char_at a 1 == b'>')
    then some (record { stream = stdout; mode = truncate; file = skip 1 a })
    else if char_at a 0 == b'2' && char_at a 1 == b'>'
    then some (record { stream = stderr; mode = truncate; file = skip 2 a })
    else if char_at a 0 == b'>' && char_at a 1 == b'>'
    then some (record { stream = stdout; mode = append; file = skip 2 a })
    else if char_at a 0 == b'2' && (char_at a 1 == b'>' && char_at a 2 == b'>')
    then some (record { stream = stderr; mode = append; file = skip 3 a })
    else none
