-- ===== src/Pager/Files.antt =====
-- The files of a run of ps4/main.c, one behind another.
use ece.Base.{
  ℕ, zero, suc, ◌+◌, ◌-◌, ◌<◌, ◌≡◌, ◌≢◌, refl, ◌∙◌, List, [], ◌∷◌, length, get_elem?, Option, none,
  some, ltb, if◌then◌else◌, Option-cases, inl, inr, arith, update, false, map, ap,
}
use ece.Posix.{Descriptors, IsPosix}
use ece.Posix.Input.{Text}
use ece.Cat.CommandLine.{names-elements}
use ece.Cat.Shift.{remove_args_lem}
use ece.Cat.Options.{remove_args, names}
use ece.Pager.Pipes.{File, input, pipe_file}
use ece.Pager.Tables.{pipe_file-tables}

-- The names that `main` comes by: its arguments without the first two, moved in place as in
-- ps1/main.c. `none` is the end with a usage message.
unfoldable pub input_files : List Text → Option (List (Option Text))
input_files args =
    let left = length args - 2 in
    if ltb (length args) 3
    then none
    else some (names left 0 (remove_args left 0 2 (get_elem? args)))

-- The element two behind.
get_elem?-later :
    (prog pattern : Text) (files : List Text) (j k : ℕ)
    → k ≡ j + 2
    → get_elem? (prog ∷ pattern ∷ files) k ≡ get_elem? files j
get_elem?-later prog pattern files j zero e = absurd (omega arith)
get_elem?-later prog pattern files j (suc zero) e = absurd (omega arith)
get_elem?-later prog pattern files j (suc (suc k)) e =
    let same : k ≡ j = omega arith in ap (get_elem? files) same

-- The names are the arguments behind the pattern.
input_files_lem :
    (prog pattern file : Text) (files : List Text)
    → input_files (prog ∷ pattern ∷ file ∷ files) ≡ some (map some (file ∷ files))
unfolding input_files
input_files_lem prog pattern file files =
    let args = prog ∷ pattern ∷ file ∷ files in
    let rest = file ∷ files in
    let long : ltb (length args) 3 ≡ false = ground arith in
    let left : length args - 2 ≡ length rest = omega arith in
    let removed = remove_args (length rest) 0 2 (get_elem? args) in
    let moved : (j : ℕ) → j < length rest → removed (0 + j) ≡ get_elem? rest j = λ j below.
      remove_args_lem (length rest) 0 2 (get_elem? args) (0 + j) (omega arith) (omega arith)
        (omega arith)
      ∙ get_elem?-later prog pattern rest j (0 + j + 2) (omega arith) in
    rw (long, left, names-elements rest 0 removed moved)

module _ (D : Descriptors File) where
  -- The loop over the files, `k` being the number of pipes so far: `none` is `exit(1)`, which is also
  -- where a null pointer as the name leads, since it cannot be opened.
  unfoldable pub pipe_files : ℕ → List (Option Text) → D.State → Option D.State
  pipe_files k [] s = some s
  pipe_files k (none ∷ names) s = none
  pipe_files k (some name ∷ names) s = elim (pipe_file D k (k + 1) name s) [
    | none ↦ none
    | some q ↦ pipe_files (k + 2) names q.finished
  ]

  -- `main`: `none` is `exit(1)`.
  unfoldable pub main : List Text → D.State → Option D.State
  main args s = elim (input_files args) [ none ↦ none | some files ↦ pipe_files 0 files s ]

  -- The table at the end is the one at the start, with one more descriptor for each of the files.
  abbrev pub AllLeft : (ℕ → Option File) → List Text → D.State → Type 0
  AllLeft f [] t = (j : ℕ) → D.file_at t j ≡ f j
  AllLeft f (name ∷ names) t =
      (j : ℕ) × (f j ≡ none) × AllLeft (update f j (some (input name))) names t

module _ (D : Descriptors File) (law : IsPosix D) where
  abbrev Standard : (ℕ → Option File) → Type 0
  Standard f = (j : ℕ) → j < 3 → f j ≢ none

  update-Standard :
      (f : ℕ → Option File) (j : ℕ) (h : File) → Standard f → Standard (update f j (some h))
  update-Standard f j h std i below = ground (arith, std i below)

  left_from :
      (k : ℕ) (files : List Text) (f : ℕ → Option File) (s t : D.State)
      → Standard f
      → ((j : ℕ) → D.file_at s j ≡ f j)
      → pipe_files D k (map some files) s ≡ some t
      → AllLeft D f files t
  unfolding pipe_files
  left_from k [] f s t std at e = λ j. ground (arith, at j)
  left_from k (name ∷ files) f s t std at e = elim (Option-cases (pipe_file D k (k + 1) name s)) [
    | inl exited ↦ absurd (ground arith)
    | inr (q, made) ↦
        let tables =
          pipe_file-tables D law k (k + 1) name q (λ j below. ground (arith, at j, std j below))
            made in
        (
          q.infd,
          ground (arith, at q.infd, tables.infd_free),
          left_from (k + 2) files (update f q.infd (some (input name))) q.finished t
              (update-Standard f q.infd (input name) std)
              (λ j. ground (arith, tables.finished j, at j)) (ground arith),
        )
  ]

  -- Where the standard streams are open and `main`, with a pattern and files, does not exit early: it
  -- goes through exactly the files, and when it is through with them, every one of them is still
  -- open, each with a descriptor of its own that was free before, and no other descriptor has
  -- changed.
  pub pager-AllLeft :
      (prog pattern file : Text) (files : List Text) (s t : D.State)
      → ((j : ℕ) → j < 3 → D.file_at s j ≢ none)
      → main D (prog ∷ pattern ∷ file ∷ files) s ≡ some t
      → AllLeft D (D.file_at s) (file ∷ files) t
  unfolding main
  pager-AllLeft prog pattern file files s t std e =
      left_from 0 (file ∷ files) (D.file_at s) s t std (λ j. refl)
        (cc (rw (input_files_lem prog pattern file files, main) at e))
