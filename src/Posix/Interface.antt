-- ===== src/Posix/Interface.antt =====
-- What the programs assume of a process's descriptors: the calls of the system behind their
-- documented behaviour.
use ece.Base.{ℕ, ◌≡◌, ◌≢◌, ◌==◌, ◌<◌, Option, none, some, if◌then◌else◌}

-- A state of the descriptors, the open file `F` behind each, and four calls; `none` is -1.
-- `pipe` is given the two ends of the new pipe.
pub record Descriptors (F : Type 0) : Type 1 where
  pub State : Type 0
  pub file_at : State → ℕ → Option F
  pub open_file : State → F → Option (ℕ × State)
  pub dup2 : State → ℕ → ℕ → Option State
  pub close : State → ℕ → State
  pub pipe : State → F → F → Option (ℕ × ℕ × State)

-- `open_file` takes a descriptor that was free, the lowest; `dup2` of an open one onto a standard stream
-- succeeds, and of one that is not open fails; `pipe` takes two that were free; no call touches
-- other descriptors.
pub record IsPosix {F : Type 0} (D : Descriptors F) : Type 0 where
  pub open_free :
      (s t : D.State) (f : F) (fd : ℕ) → D.open_file s f ≡ some (fd, t) → D.file_at s fd ≡ none
  pub open_lowest :
      (s t : D.State) (f : F) (fd j : ℕ)
      → D.open_file s f ≡ some (fd, t)
      → j < fd
      → D.file_at s j ≢ none
  pub file_at-open :
      (s t : D.State) (f : F) (fd : ℕ)
      → D.open_file s f ≡ some (fd, t)
      → (j : ℕ) → D.file_at t j ≡ (if fd == j then some f else D.file_at s j)
  pub dup2_opened :
      (s : D.State) (a b : ℕ)
      → D.file_at s a ≢ none
      → b < 3
      → (t : D.State) × (D.dup2 s a b ≡ some t)
  pub dup2_closed : (s : D.State) (a b : ℕ) → D.file_at s a ≡ none → D.dup2 s a b ≡ none
  pub file_at-dup2 :
      (s t : D.State) (a b : ℕ)
      → D.dup2 s a b ≡ some t
      → (j : ℕ) → D.file_at t j ≡ (if b == j then D.file_at s a else D.file_at s j)
  pub file_at-close :
      (s : D.State) (a j : ℕ) → D.file_at (D.close s a) j ≡ (if a == j then none else D.file_at s j)
  pub pipe_free :
      (s t : D.State) (f g : F) (r w : ℕ)
      → D.pipe s f g ≡ some (r, w, t)
      → (D.file_at s r ≡ none) × (D.file_at s w ≡ none) × (r ≢ w)
  pub file_at-pipe :
      (s t : D.State) (f g : F) (r w : ℕ)
      → D.pipe s f g ≡ some (r, w, t)
      → (j : ℕ)
      → D.file_at t j ≡ (if r == j then some f else if w == j then some g else D.file_at s j)
