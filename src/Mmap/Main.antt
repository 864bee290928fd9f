-- ===== src/Mmap/Main.antt =====
-- main of ps5/main.c: its questions, and their answers.
use ece.Base.{
  ℕ, ◌<◌, ◌≡◌, refl, sym, ◌∙◌, Bool, true, false, List, [], ◌∷◌, some, ◌==◌, if◌then◌else◌, arith,
}
use ece.Mmap.Calls.{Calls, shared, private, in_pages, IsPosix, NoFailure, Mapped}
use ece.Mmap.Questions.{
  Result, ok, exits, signal, M, pure, ◌>>=◌, ◌>>◌, touch, attempt, assign, update_visible, sizes,
  still_there, read_only, first_page,
}
use ece.Mmap.Answers.{gives, succeeds, update_visible_lem}
use ece.Mmap.Behind.{filled}

-- What a question prints.
pub data Answer : Type 0 where
  nothing : Answer
  visible : Bool → Answer
  lengths : (before after : ℕ) → Answer
  there : Bool → Answer
  byte : ℕ → Answer

module _ (O : Calls) where
  -- The `switch`, on the first byte of argv[1].
  abbrev pub question : (ℕ → ℕ) → ℕ → ℕ → M O.State Answer
  question random junk c =
      if c == b'A'
      then read_only O >> pure nothing
      else if c == b'B'
      then update_visible O shared junk >>= (λ b. pure (visible b))
      else if c == b'C'
      then update_visible O private junk >>= (λ b. pure (visible b))
      else if c == b'D'
      then sizes O random >>= (λ (n, m). pure (lengths n m))
      else if c == b'E'
      then still_there O random >>= (λ b. pure (there b))
      else if c == b'F'
      then first_page O random >>= (λ n. pure (byte n))
      else pure nothing

  abbrev pub first_byte : List ℕ → ℕ
  first_byte [] = 0
  first_byte (c ∷ text) = c

  -- `main`, on what follows the program's name in argv.
  unfoldable pub main : (ℕ → ℕ) → (junk : ℕ) → List (List ℕ) → M O.State Answer
  main random junk [] s = exits
  main random junk (arg ∷ args) s = question random junk (first_byte arg) s

module _ (O : Calls) (law : IsPosix O) (nf : NoFailure O) where
  -- The file is empty, so that its mapping fails.
  read_only_lem : (s : O.State) → read_only O s ≡ signal
  unfolding read_only
  read_only_lem s = elim (succeeds (O.create s) (nf.creates s)) [
    | gives s1 e1 ↦ elim (succeeds (O.fstat s1) (nf.stats s1)) [
      | gives n e2 ↦
          let empty : n ≡ 0 = law.stat_size s1 n e2 ∙ (law.created s s1 e1).0 in
          let fails = law.maps_none s1 in
          elim (succeeds (O.close s1) (nf.closes s1)) [
            | gives s2 e3 ↦ rw (e1, e2, empty, fails, e3, ◌>>=◌, ◌>>◌, attempt, assign)
          ]
    ]
  ]

  zero_page : (s t : O.State) → O.size s ≡ 10 → Mapped O s t shared → O.page t 1000 ≡ some 0
  zero_page s t size maps =
      let inside : 1000 < in_pages (O.size s) = omega arith in
      ground (arith, maps.pages 1000 inside)

  first_page_lem :
      (random : ℕ → ℕ) (s : O.State) → (t : O.State) × (first_page O random s ≡ ok (0, t))
  unfolding first_page
  first_page_lem random s = elim (succeeds (O.create s) (nf.creates s)) [
    | gives s1 e1 ↦
        let (empty, at_start) = law.created s s1 e1 in
        let f = filled O law nf random 10 0 s1 (at_start ∙ sym empty) in
        let size : O.size f.state ≡ 10 = omega (arith, f.size, empty) in
        elim (succeeds (O.mmap shared 8192 f.state) (nf.maps f.state shared 8192 (omega arith))) [
          | gives s3 e3 ↦
              let page =
                zero_page f.state s3 size (law.mapped f.state s3 shared 8192 e3 (omega arith)) in
              elim (succeeds (O.close s3) (nf.closes s3)) [
                | gives s4 e4 ↦ (s4, rw (e1, f.fills, e3, page, e4, ◌>>=◌, ◌>>◌, touch))
              ]
        ]
  ]

  -- Where no call fails, the program ends with a signal in question A, for the mapping of its empty
  -- file fails and it stores through the address -1; and it prints that the update is visible in B and
  -- that it is not in C, and the byte 0 in F, whatever the random bytes are.
  pub main_answers :
      (random : ℕ → ℕ) (junk : ℕ) (text : List ℕ) (args : List (List ℕ)) (s : O.State)
      → let run : ℕ → Result (Answer × O.State) = λ c. main O random junk ((c ∷ text) ∷ args) s in
        (run b'A' ≡ signal)
        × ((t : O.State) × (run b'B' ≡ ok (visible true, t)))
        × ((t : O.State) × (run b'C' ≡ ok (visible false, t)))
        × ((t : O.State) × (run b'F' ≡ ok (byte 0, t)))
  unfolding main
  main_answers random junk text args s =
      let (tb, eb) = update_visible_lem O law nf shared junk s in
      let (tc, ec) = update_visible_lem O law nf private junk s in
      let (tf, ef) = first_page_lem random s in
      (
        rw (◌>>=◌, ◌>>◌, read_only_lem s) refl,
        (tb, rw (◌>>=◌, eb) refl),
        (tc, rw (◌>>=◌, ec) refl),
        (tf, rw (◌>>=◌, ef) refl),
      )
