-- ===== src/Cat/Content.antt =====
-- What ps1/main.c leaves in its output, against the contents of the files.
use ece.Base.{
  ◌⊎◌, ◌≢◌, ℕ, Bool, true, false, List, [], ◌∷◌, ◌++◌, length, Option, none, some, ◌==◌, ==→≡,
  Bool-cases, Option-cases, inl, inr, ◌≡◌, refl, ap, sym, ◌∙◌, if◌then◌else◌,
}
use mathlib.Core.List.{append-nil, append_assoc}
use ece.Posix.Input.{Reads, first, content, behind, first-Beginning, first-length}
use ece.Cat.Options.{Text, equal, dash}
use ece.Cat.Copy.{
  Status, finished, open_error, read_error, write_error, null_name, no_buffer, Run, write_bytes,
  copy_file, descriptor, left, copy_one, copy_files, unless_ended,
}

-- The content of a name, that of the standard input for "-" and none where it cannot be opened, and
-- what it leaves of the standard input.
abbrev pub opened : Option Reads → Text
opened none = []
opened (some reads) = content reads

abbrev pub remaining : Text → Reads → Reads
remaining name input = if equal name dash then behind input else input

abbrev pub contents : (Text → Option Reads) → List (Option Text) → Reads → Text
contents open_file [] input = []
contents open_file (none ∷ names) input = contents open_file names input
contents open_file (some name ∷ names) input =
    opened (if equal name dash then some input else open_file name)
    ++ contents open_file names (remaining name input)

-- `out` is a beginning of `all`, and all of it if the status is `finished`.
pub record Beginning (all out : Text) (status : Status) : Type 0 where
  pub rest : Text
  pub whole : out ++ rest ≡ all
  pub complete : status ≡ finished → rest ≡ []

-- A `write` takes all, or a beginning of what it was given.
write_bytes-cases :
    (o : Option ℕ) (out bytes : Text)
    → let w = write_bytes o out bytes in
      ((w.whole ≡ true) × (w.out ≡ out ++ bytes))
      ⊎ ((w.whole ≡ false) × (rest : Text) × (w.out ++ rest ≡ out ++ bytes))
write_bytes-cases none out bytes = inr (refl, bytes, refl)
write_bytes-cases (some n) out bytes = elim (Bool-cases (n == length bytes)) [
  | inl all ↦ let same = ==→≡ n (length bytes) all in inl (all, rw (same, first-length))
  | inr less ↦
      let (rest, e) = first-Beginning n bytes in
      inr (less, rest, append_assoc out (first n bytes) rest ∙ ap (λ (l : Text). out ++ l) e)
]

-- One descriptor: what comes out, and what is left of it where all went well.
copy_file-Beginning :
    (accept : Text → Text → Option ℕ) (reads : Reads) (out : Text)
    → let run = copy_file accept reads out in
      Beginning (out ++ content reads) run.out run.status
      × (run.status ≡ finished → run.input ≡ behind reads)
unfolding copy_file
copy_file-Beginning accept [] out =
    (record { rest = []; whole = refl; complete = λ e. refl }, λ e. refl)
copy_file-Beginning accept (none ∷ reads) out =
    (record { rest = []; whole = refl; complete = λ e. refl }, λ e. refl)
copy_file-Beginning accept (some [] ∷ reads) out =
    (record { rest = []; whole = refl; complete = λ e. refl }, λ e. refl)
copy_file-Beginning accept (some (c ∷ bytes) ∷ reads) out =
    let w = write_bytes (accept out (c ∷ bytes)) out (c ∷ bytes) in
    elim (write_bytes-cases (accept out (c ∷ bytes)) out (c ∷ bytes)) [
      | inl (all, e) ↦
          let (b, left_over) = copy_file-Beginning accept reads w.out in
          rw all (
            record {
              rest = b.rest;
              whole =
                  b.whole
                  ∙ ap (λ (l : Text). l ++ content reads) e
                  ∙ append_assoc out (c ∷ bytes) (content reads);
              complete = b.complete;
            },
            left_over,
          )
      | inr (less, rest, e) ↦ rw less (
        record {
          rest = rest ++ content reads;
          whole =
              sym (append_assoc w.out rest (content reads))
              ∙ ap (λ (l : Text). l ++ content reads) e
              ∙ append_assoc out (c ∷ bytes) (content reads);
          complete = λ f. cc;
        },
        λ f. cc,
      )
    ]

Beginning-append :
    (all out more : Text) (status : Status)
    → Beginning all out status
    → status ≢ finished
    → Beginning (all ++ more) out status
Beginning-append all out more status b stopped = record {
  rest = b.rest ++ more;
  whole = sym (append_assoc out b.rest more) ∙ ap (λ (l : Text). l ++ more) b.whole;
  complete = λ e. absurd (stopped e);
}

-- A file that is copied whole leaves all its content.
pub Beginning-finished :
    (all out : Text) (status : Status) → Beginning all out status → status ≡ finished → out ≡ all
Beginning-finished all out status b e =
    sym (append-nil out) ∙ ap (λ (l : Text). out ++ l) (sym (b.complete e)) ∙ b.whole

unless_ended-cases :
    (status : Status)
    → (status ≡ finished)
      ⊎ ((status ≢ finished) × ((run next : Run) → unless_ended status run next ≡ run))
unless_ended-cases finished = inl refl
unless_ended-cases open_error = inr ((λ e. cc), λ run next. refl)
unless_ended-cases read_error = inr ((λ e. cc), λ run next. refl)
unless_ended-cases write_error = inr ((λ e. cc), λ run next. refl)
unless_ended-cases null_name = inr ((λ e. cc), λ run next. refl)
unless_ended-cases no_buffer = inr ((λ e. cc), λ run next. refl)

pub left-standard :
    (name : Text) (input : Reads) (run : Run)
    → equal name dash ≡ true
    → left name input run ≡ run.input
left-standard name input run h = rw h

left-other :
    (name : Text) (input : Reads) (run : Run)
    → equal name dash ≡ false
    → left name input run ≡ input
left-other name input run h = rw h

module _ (accept : Text → Text → Option ℕ) (fits : Bool) (open_file : Text → Option Reads) where
  -- A name that is opened.
  opened-Beginning :
      (has : Bool) (reads : Reads) (name : Text) (input : Reads) (out : Text)
      → let run = copy_one accept (some reads) has name input out in
        Beginning (out ++ content reads) run.out run.status
        × (run.status ≡ finished → run.input ≡ left name input (copy_file accept reads out))
        × (run.status ≡ finished → (copy_file accept reads out).status ≡ finished)
  opened-Beginning false reads name input out = (
    record { rest = content reads; whole = refl; complete = λ e. cc },
    (λ e. absurd cc),
    λ e. absurd cc,
  )
  opened-Beginning true reads name input out =
      ((copy_file-Beginning accept reads out).0, (λ e. refl), λ e. e)

  -- One name.
  copy_one-Beginning :
      (name : Text) (input : Reads) (out : Text)
      → let run = copy_one accept (descriptor open_file input name) fits name input out in
        Beginning (out ++ opened (descriptor open_file input name)) run.out run.status
        × (run.status ≡ finished → run.input ≡ remaining name input)
  copy_one-Beginning name input out = elim (Bool-cases (equal name dash)) [
    | inl standard ↦
        let (begins, over, went) = opened-Beginning fits input name input out in
        let left_over = (copy_file-Beginning accept input out).1 in
        (
          rw standard begins,
          λ e.
              let all = rw standard at e in
              rw standard (
                over all
                ∙ left-standard name input (copy_file accept input out) standard
                ∙ left_over (went all)),
        )
    | inr other ↦ elim (Option-cases (open_file name)) [
      | inl missing ↦
          rw (other, missing)
            (record { rest = []; whole = refl; complete = λ e. refl }, λ e. absurd cc)
      | inr (reads, found) ↦
          let (begins, over, went) = opened-Beginning fits reads name input out in
          rw (other, found)
            (begins, λ e. over e ∙ left-other name input (copy_file accept reads out) other)
    ]
  ]

  -- However the program ends, its output is a beginning of the contents of its files, one behind
  -- another; where it ends with 0, the output is all of them.
  pub copy_files-Beginning :
      (names : List (Option Text)) (input : Reads) (out : Text)
      → let run = copy_files accept fits open_file names input out in
        Beginning (out ++ contents open_file names input) run.out run.status
  unfolding copy_files
  copy_files-Beginning [] input out = record { rest = []; whole = refl; complete = λ e. refl }
  copy_files-Beginning (none ∷ names) input out = record {
    rest = contents open_file names input;
    whole = refl;
    complete = λ e. cc;
  }
  copy_files-Beginning (some name ∷ names) input out =
      let run = copy_one accept (descriptor open_file input name) fits name input out in
      let (b, left_over) = copy_one-Beginning name input out in
      let here = opened (descriptor open_file input name) in
      let others = contents open_file names (remaining name input) in
      elim (unless_ended-cases run.status) [
        | inl done ↦
            let written = Beginning-finished _ _ _ b done in
            let rest = copy_files-Beginning names run.input run.out in
            let total =
              ap (λ (l : Text). l ++ contents open_file names run.input) written
              ∙ ap (λ (r : Reads). out ++ here ++ contents open_file names r) (left_over done)
              ∙ append_assoc out here others in
            rw done
              (record { rest = rest.rest; whole = rest.whole ∙ total; complete = rest.complete })
        | inr (stopped, ended) ↦
            let more = Beginning-append _ _ others _ b stopped in
            rw ended (record {
              rest = more.rest;
              whole = more.whole ∙ append_assoc out here others;
              complete = more.complete;
            })
      ]
