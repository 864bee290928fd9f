-- ===== src/Cat/Success.antt =====
-- When ps1/main.c copies all of its files.
use ece.Base.{
  ℕ, List, [], ◌∷◌, ◌++◌, length, Option, none, some, ◌==◌, true, ap, ◌∙◌, if◌then◌else◌,
  Bool-cases, inl, inr, ◌⊎◌, ◌≡◌, refl, arith,
}
use ece.Posix.Input.{Reads, content, behind, NoFailure, TakesAll}
use ece.Cat.Options.{Text, equal, dash}
use ece.Cat.Copy.{finished, copy_file, descriptor, copy_one, copy_files}
use ece.Cat.Content.{left-standard, remaining, contents, Beginning-finished, copy_files-Beginning}

-- A file that can be opened, and whose reads give what it holds, without a failure.
abbrev pub IsReadable : (Text → Option Reads) → (Text → Text) → Text → Type 0
IsReadable open_file holds name =
    (reads : Reads) × (open_file name ≡ some reads) × NoFailure reads × (content reads ≡ holds name)

-- Every name but "-" can be opened and read.
abbrev pub AllReadable : (Text → Option Reads) → (Text → Text) → List (Option Text) → Type 0
AllReadable open_file holds [] = Unit
AllReadable open_file holds (none ∷ names) = ⊥
AllReadable open_file holds (some name ∷ names) =
    ((equal name dash ≡ true) ⊎ IsReadable open_file holds name) × AllReadable open_file holds names

-- What the files hold, one behind another; "-" is the standard input, or what is left of it.
abbrev pub texts : (Text → Text) → List (Option Text) → Reads → Text
texts holds [] input = []
texts holds (none ∷ names) input = texts holds names input
texts holds (some name ∷ names) input =
    (if equal name dash then content input else holds name)
    ++ texts holds names (remaining name input)

contents-texts :
    (open_file : Text → Option Reads) (holds : Text → Text) (names : List (Option Text))
    (input : Reads)
    → AllReadable open_file holds names
    → contents open_file names input ≡ texts holds names input
contents-texts open_file holds [] input k = refl
contents-texts open_file holds (none ∷ names) input k = absurd k
contents-texts open_file holds (some name ∷ names) input k = elim (Bool-cases (equal name dash)) [
  | inl standard ↦
      let others = contents-texts open_file holds names (behind input) k.1 in
      rw standard (ap (λ (l : Text). content input ++ l) others)
  | inr other ↦ elim k.0 [
    | inl standard ↦ absurd (ground arith)
    | inr (reads, found, kept, same) ↦
        let others = contents-texts open_file holds names input k.1 in
        rw (other, found, same) (ap (λ (l : Text). holds name ++ l) others)
  ]
]

length-same : (bytes : Text) → (length bytes == length bytes) ≡ true
length-same bytes = ground arith

module _ (accept : Text → Text → Option ℕ) (takes : TakesAll accept) where
  copy_file-finished :
      (reads : Reads) (out : Text)
      → NoFailure reads
      → let run = copy_file accept reads out in (run.status ≡ finished) × NoFailure run.input
  unfolding copy_file
  copy_file-finished [] out h = (refl, tt)
  copy_file-finished (none ∷ reads) out h = absurd h
  copy_file-finished (some [] ∷ reads) out h = (refl, h)
  copy_file-finished (some (c ∷ bytes) ∷ reads) out h =
      rw (takes out (c ∷ bytes), length-same (c ∷ bytes)) (copy_file-finished reads _ h)

  module _ (open_file : Text → Option Reads) (holds : Text → Text) where
    copy_one-finished :
        (name : Text) (input : Reads) (out : Text)
        → NoFailure input
        → (equal name dash ≡ true) ⊎ IsReadable open_file holds name
        → let run = copy_one accept (descriptor open_file input name) true name input out in
          (run.status ≡ finished) × NoFailure run.input
    copy_one-finished name input out h k = elim (Bool-cases (equal name dash)) [
      | inl standard ↦
          let (done, kept) = copy_file-finished input out h in
          (
            rw standard done,
            rw standard (rw (left-standard name input (copy_file accept input out) standard) kept),
          )
      | inr other ↦ elim k [
        | inl standard ↦ absurd (ground arith)
        | inr (reads, found, kept, same) ↦
            rw (other, found) ((copy_file-finished reads out kept).0, rw other h)
      ]
    ]

    copy_files-finished :
        (names : List (Option Text)) (input : Reads) (out : Text)
        → NoFailure input
        → AllReadable open_file holds names
        → (copy_files accept true open_file names input out).status ≡ finished
    unfolding copy_files
    copy_files-finished [] input out h k = refl
    copy_files-finished (none ∷ names) input out h k = absurd k
    copy_files-finished (some name ∷ names) input out h k =
        let run = copy_one accept (descriptor open_file input name) true name input out in
        let (done, kept) = copy_one-finished name input out h k.0 in
        rw done (copy_files-finished names run.input run.out kept k.1)

    -- Where there is the array, every write takes all it is given, every name but "-" can be opened,
    -- and no read fails, the program ends with 0 and has written what its files hold.
    pub copy_files-contents :
        (names : List (Option Text)) (input : Reads) (out : Text)
        → NoFailure input
        → AllReadable open_file holds names
        → let run = copy_files accept true open_file names input out in
          (run.status ≡ finished) × (run.out ≡ out ++ texts holds names input)
    copy_files-contents names input out h k =
        let done = copy_files-finished names input out h k in
        (
          done,
          Beginning-finished _ _ _ (copy_files-Beginning accept true open_file names input out) done
              ∙ ap (λ (l : Text). out ++ l) (contents-texts open_file holds names input k),
        )
