-- ===== src/Shell/Run.antt =====
-- A line of a script of ps3/main.c, from the reading of it to the command that its child becomes.
use ece.Base.{
  ◌⊎◌, ℕ, ◌≡◌, refl, false, List, [], ◌∷◌, ◌++◌, Option, none, some, ◌==◌, if◌then◌else◌,
}
use ece.Posix.{Descriptors, IsPosix}
use ece.Shell.Command.{Text, Command, Redirect, Malloc, char_at, split_args, get_arguments}
use ece.Shell.Tokens.{AllAreWords, join, get_arguments-join}
use ece.Shell.Split.{AllWords, AllRedirects, HasRoom, IsTight, split_args_lem, split_args-overruns}
use ece.Shell.Announce.{text, listing, announce, announce_lem}
use ece.Shell.Child.{Outcome, ready, exits, undefined, apply_redirects}
use ece.Shell.Streams.{Standard, AllOpen, streams, streams_redirected}

-- The call of `execvp`: the program, its arguments, and the descriptors that it gets.
pub record Exec (S : Type 0) : Type 0 where
  pub program : Text
  pub argv : List Text
  pub state : S

abbrev pub exec_with : {S : Type 0} → Text → List Text → Outcome S → Outcome (Exec S)
exec_with program argv (ready s) = ready (record { program = program; argv = argv; state = s })
exec_with program argv exits = exits
exec_with program argv undefined = undefined

-- What comes of a line: nothing, a write behind an array of the heap, the end of the shell by a
-- read through a null pointer, or a printed line and a child.
pub data Report (S : Type 0) : Type 0 where
  ignored corrupts crashed : Report S
  ran : Text → Outcome (Exec S) → Report S

module _ {F : Type 0} (room : Malloc) (junk : Text) (D : Descriptors F)
    (file_of : Redirect → F) where
  -- The child of `executeCommand`.
  unfoldable pub child : List Text → Command → D.State → Outcome (Exec D.State)
  child [] c s = undefined
  child (name ∷ args) c s =
      exec_with name c.command_args (apply_redirects D file_of c.redirect_args none s)

  child_lem :
      (name : Text) (args : List Text) (c : Command) (s t : D.State)
      → apply_redirects D file_of c.redirect_args none s ≡ ready t
      → child (name ∷ args) c s
        ≡ ready (record { program = name; argv = c.command_args; state = t })
  unfolding child
  child_lem name args c s t done = rw done refl

  abbrev pub report : List Text → Command → D.State → Option Text → Report D.State
  report args c s none = crashed
  report args c s (some line) = ran line (child args c s)

  -- `executeCommand`, up to the `fork` and with its child.
  abbrev pub execute_command : List Text → Option Command → D.State → Report D.State
  execute_command args none s = corrupts
  execute_command args (some c) s = report args c s (announce args c)

  -- The body of the loop of `main`.
  unfoldable pub process_line : Text → D.State → Report D.State
  unfolding get_arguments
  process_line line s =
      let args = get_arguments line in
      if char_at line 0 == b'#' then ignored else execute_command args (split_args room junk args) s

  -- A line that holds a command's name and words and then redirections, with blanks between them and
  -- a newline at its end, and does not begin with `#`: where `malloc` gives each array that is filled
  -- room for one entry more than was asked for, the shell prints the line's arguments, and, if the
  -- files can be opened and the standard streams are open, its child becomes that command, with each
  -- stream that of the last redirection of it or the shell's, and the shell's other descriptors.
  pub process_line-join :
      (law : IsPosix D) (name : Text) (ws rs : List Text) (s : D.State)
      → AllAreWords (name ∷ ws ++ rs)
      → AllWords (name ∷ ws)
      → AllRedirects rs
      → (char_at (join (name ∷ ws ++ rs) ++ (10 ∷ [])) 0 == b'#') ≡ false
      → HasRoom room (name ∷ ws)
      → HasRoom room rs
      → AllOpen D file_of s rs
      → Standard D s
      → (t : D.State) × (process_line (join (name ∷ ws ++ rs) ++ (10 ∷ [])) s
          ≡ ran
              (text "Executing command "
                ++ (name ++ (text " with arguments \"" ++ (listing (ws ++ rs) ++ text "\"\n"))))
              (ready (record { program = name; argv = name ∷ ws; state = t })))
        × ((j : ℕ) → D.file_at t j ≡ streams file_of rs j (D.file_at s j))
  unfolding process_line
  process_line-join law name ws rs s whole words redirects no_comment roomy roomy' opens std =
      let args = get_arguments-join (name ∷ ws ++ rs) whole in
      let split = split_args_lem room junk (name ∷ ws) rs words redirects roomy roomy' in
      let announced = announce_lem name (ws ++ rs) ws rs in
      let (t, done, each) = streams_redirected D law file_of rs none s redirects opens std in
      let becomes =
        child_lem name (ws ++ rs) (record { command_args = name ∷ ws; redirect_args = rs }) s t
          done in
      (t, rw (no_comment, args, split, announced, becomes), each)

  -- A line that holds a command's name and words and then redirections, with blanks between them and
  -- a newline at its end, and does not begin with `#`: where `malloc` gives the array of the words, or
  -- that of the redirections, if there is one, no more room than was asked for, the shell writes
  -- behind the array's end.
  pub process_line-overruns :
      (name : Text) (ws rs : List Text) (s : D.State)
      → AllAreWords (name ∷ ws ++ rs)
      → AllWords (name ∷ ws)
      → AllRedirects rs
      → (char_at (join (name ∷ ws ++ rs) ++ (10 ∷ [])) 0 == b'#') ≡ false
      → IsTight room (name ∷ ws) ⊎ IsTight room rs
      → process_line (join (name ∷ ws ++ rs) ++ (10 ∷ [])) s ≡ corrupts
  unfolding process_line
  process_line-overruns name ws rs s whole words redirects no_comment tight =
      let args = get_arguments-join (name ∷ ws ++ rs) whole in
      let split = split_args-overruns room junk (name ∷ ws) rs words redirects tight in
      rw (no_comment, args, split) refl
