-- ===== src/Pager/Pipes.antt =====
-- The pipes of `pipeFile` in ps4/main.c, and the descriptors of its three processes.
use ece.Base.{ℕ, Option, none, some}
use ece.Posix.{Descriptors}
use ece.Posix.Input.{Text}

-- What a descriptor stands for: an end of a pipe, a file that was opened by its name, or something
-- that the program was started with.
pub data File : Type 0 where
  read_end write_end : (pipe : ℕ) → File
  input : (name : Text) → File
  given : (n : ℕ) → File

-- `pipe1fds` and `pipe2fds`.
pub record Fds : Type 0 where
  pub read1 : ℕ
  pub write1 : ℕ
  pub read2 : ℕ
  pub write2 : ℕ

module _ (D : Descriptors File) where
  -- The first child, up to its `execvp` of `grep`; `none` is its `exit(1)`.
  unfoldable pub grep_child : Fds → D.State → Option D.State
  grep_child p s = elim (D.dup2 (D.close (D.close s p.write1) p.read2) p.read1 0) [
    | none ↦ none
    | some t ↦ elim (D.dup2 t p.write2 1) [
      | none ↦ none
      | some u ↦ some (D.close (D.close u p.read1) p.write2)
    ]
  ]

  -- The second child, up to its `execvp` of `less`.
  unfoldable pub less_child : Fds → D.State → Option D.State
  less_child p s = elim (D.dup2 (D.close s p.write2) p.read2 0) [
    | none ↦ none
    | some t ↦ some (D.close t p.read1)
  ]

  -- The parent after the first `fork`, and after the second.
  abbrev pub after_grep : Fds → D.State → D.State
  after_grep p s = D.close s p.read1

  abbrev pub after_less : Fds → D.State → D.State
  after_less p s = D.close (D.close s p.read2) p.write2

  -- The descriptors of a call of `pipeFile`: those of the children, of the parent while it copies the
  -- file, and of the parent at the end.
  pub record Pipeline : Type 0 where
    pub fds : Fds
    pub infd : ℕ
    pub grep : Option D.State
    pub less : Option D.State
    pub copying : D.State
    pub finished : D.State

  -- The part behind the second `pipe`.
  unfoldable pub start_children : Text → Fds → D.State → Option Pipeline
  unfolding grep_child less_child
  start_children name p s =
      let t = after_grep p s in
      elim (D.open_file (after_less p t) (input name)) [
        | none ↦ none
        | some (infd, u) ↦ some (record {
          fds = p;
          infd = infd;
          grep = grep_child p s;
          less = less_child p t;
          copying = u;
          finished = D.close u p.write1;
        })
      ]

  -- `pipeFile`, where both `fork`s succeed; `none` is `exit(1)`. The two pipes are new ones.
  unfoldable pub pipe_file : (pipe1 pipe2 : ℕ) → Text → D.State → Option Pipeline
  pipe_file pipe1 pipe2 name s = elim (D.pipe s (read_end pipe1) (write_end pipe1)) [
    | none ↦ none
    | some (r1, w1, t) ↦ elim (D.pipe t (read_end pipe2) (write_end pipe2)) [
      | none ↦ none
      | some (r2, w2, u) ↦
          start_children name (record { read1 = r1; write1 = w1; read2 = r2; write2 = w2 }) u
    ]
  ]
