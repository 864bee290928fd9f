-- ===== src/Shell/Child.antt =====
-- What the child of ps3/main.c does before it executes its command: it puts the files of the
-- redirections onto its standard streams.
use ece.Base.{ℕ, List, [], ◌∷◌, Option, none, some}
use ece.Posix.{Descriptors}
use ece.Shell.Command.{Text, Stream, stdin, stdout, stderr, Redirect, resolve}

-- `STDIN_FILENO`, `STDOUT_FILENO`, `STDERR_FILENO`.
abbrev pub number : Stream → ℕ
number stdin = 0
number stdout = 1
number stderr = 2

-- `fd` and `fileNum`, which stand outside the loop; `none` before they are set.
abbrev pub Locals : Type 0
Locals = Option (ℕ × ℕ)

-- At the call of `execvp`; the end by `exit(1)`; a use of `fd` before it is set.
pub data Outcome (S : Type 0) : Type 0 where
  ready : S → Outcome S
  exits undefined : Outcome S

module _ {F : Type 0} (D : Descriptors F) where
  -- The end of a round: `dup2(fd, fileNum)` and `close(fd)`. `fd` is not below 0 here.
  abbrev pub put_onto : ℕ → ℕ → D.State → Option D.State
  put_onto fd file_num s = elim (D.dup2 s fd file_num) [
    | none ↦ none
    | some t ↦ some (D.close t fd)
  ]

module _ {F : Type 0} (D : Descriptors F) (file_of : Redirect → F) where
  -- The tests of a round, and its `open`: the locals and the descriptors then.
  abbrev pub open_for : Option Redirect → Locals → D.State → Outcome (ℕ × ℕ × D.State)
  open_for none none s = undefined
  open_for none (some (fd, file_num)) s = ready (fd, file_num, s)
  open_for (some r) locals s = elim (D.open_file s (file_of r)) [
    | none ↦ exits
    | some (fd, t) ↦ ready (fd, number r.stream, t)
  ]

  -- The loop over `redirectArgs`.
  unfoldable pub apply_redirects : List Text → Locals → D.State → Outcome D.State
  apply_redirects [] locals s = ready s
  apply_redirects (a ∷ args) locals s = elim (open_for (resolve a) locals s) [
    | exits ↦ exits
    | undefined ↦ undefined
    | ready (fd, file_num, t) ↦ elim (put_onto D fd file_num t) [
      | none ↦ exits
      | some u ↦ apply_redirects args (some (fd, file_num)) u
    ]
  ]
