-- ===== src/Mmap/Behind.antt =====
-- Bytes that ps5/main.c writes behind the end of a mapped file.
use ece.Base.{
  ℕ, zero, suc, ◌+◌, ◌<◌, ◌≡◌, ◌≢◌, refl, ap, sym, ◌∙◌, true, [], ◌∷◌, none, some, arith,
}
use ece.Mmap.Calls.{Calls, shared, in_pages, IsPosix, NoFailure, Mapped, Stored}
use ece.Mmap.Questions.{
  ok, num_bytes, random_char, ◌>>=◌, ◌>>◌, touch, fill, add_bytes, sizes, still_there,
}
use ece.Mmap.Answers.{gives, succeeds}

module _ (O : Calls) (law : IsPosix O) (nf : NoFailure O) where
  -- The file with as many bytes as there are rounds.
  pub record Filled (random : ℕ → ℕ) (rounds i : ℕ) (s : O.State) : Type 0 where
    pub state : O.State
    pub fills : fill O random rounds i s ≡ ok (tt, state)
    pub size : O.size state ≡ O.size s + rounds

  pub filled :
      (random : ℕ → ℕ) (rounds i : ℕ) (s : O.State)
      → O.position s ≡ O.size s
      → Filled random rounds i s
  unfolding fill
  filled random zero i s end = record { state = s; fills = refl; size = omega arith }
  filled random (suc rounds) i s end =
      let c = random_char (random i) ∷ [] in
      elim (succeeds (O.write c s) (nf.writes s c)) [
        | gives t e ↦
            let longer = law.appended s t c end e in
            let rest = filled random rounds (i + 1) t longer.behind in
            record {
              state = rest.state;
              fills = rw (e, ◌>>=◌, ◌>>◌) rest.fills;
              size = omega (arith, rest.size, longer.longer);
            }
      ]

  -- What does not change the mapping but by the four bytes.
  record Added (n : ℕ) (s : O.State) : Type 0 where
    state : O.State
    adds : add_bytes O n s ≡ ok (tt, state)
    size : O.size state ≡ O.size s
    last : O.page state (n + 4) ≡ some b'T'

  other_page :
      (s t : O.State) (j v i : ℕ) → Stored O s t j v → O.page s i ≢ none → O.page t i ≢ none
  other_page s t j v i put is e = ground (arith, put.pages i)

  added : (n : ℕ) (s : O.State) → ((j : ℕ) → j < n + 5 → O.page s j ≢ none) → Added n s
  added n s mapped =
      elim (succeeds (O.store (n + 1) b'T' s)
        (law.stores s (n + 1) b'T' (mapped (n + 1) (omega arith)))) [
          | gives s1 e1 ↦
              let p1 = law.stored s s1 (n + 1) b'T' e1 in
              let o1 = λ (j : ℕ) (h : j < n + 5). other_page s s1 (n + 1) b'T' j p1 (mapped j h) in
              elim (succeeds (O.store (n + 2) b'E' s1)
                (law.stores s1 (n + 2) b'E' (o1 (n + 2) (omega arith)))) [
                  | gives s2 e2 ↦
                      let p2 = law.stored s1 s2 (n + 2) b'E' e2 in
                      let o2 =
                        λ (j : ℕ) (h : j < n + 5). other_page s1 s2 (n + 2) b'E' j p2 (o1 j h) in
                      elim (succeeds (O.store (n + 3) b'S' s2)
                        (law.stores s2 (n + 3) b'S' (o2 (n + 3) (omega arith)))) [
                          | gives s3 e3 ↦
                              let p3 = law.stored s2 s3 (n + 3) b'S' e3 in
                              let o3 = λ (j : ℕ) (h : j < n + 5).
                                other_page s2 s3 (n + 3) b'S' j p3 (o2 j h) in
                              elim (succeeds (O.store (n + 4) b'T' s3)
                                (law.stores s3 (n + 4) b'T' (o3 (n + 4) (omega arith)))) [
                                  | gives s4 e4 ↦
                                      let p4 = law.stored s3 s4 (n + 4) b'T' e4 in
                                      record {
                                        state = s4;
                                        adds = rw (e1, e2, e3, e4, ◌>>=◌, ◌>>◌, touch);
                                        size =
                                            p4.size_kept ∙ p3.size_kept ∙ p2.size_kept
                                            ∙ p1.size_kept;
                                        last = ground (arith, p4.pages (n + 4));
                                      }
                                ]
                        ]
                ]
        ]

  -- Both questions up to the four bytes.
  record Grown (random : ℕ → ℕ) (s : O.State) : Type 0 where
    s1 : O.State
    s2 : O.State
    s3 : O.State
    s4 : O.State
    create : O.create s ≡ some s1
    fills : fill O random num_bytes 0 s1 ≡ ok (tt, s2)
    stats : O.fstat s2 ≡ some num_bytes
    maps : O.mmap shared num_bytes s2 ≡ some s3
    adds : add_bytes O num_bytes s3 ≡ ok (tt, s4)
    size : O.size s4 ≡ num_bytes
    last : O.page s4 (num_bytes + 4) ≡ some b'T'

  open_page :
      (s t : O.State)
      → O.size s ≡ num_bytes
      → Mapped O s t shared
      → (j : ℕ) → j < num_bytes + 5
      → O.page t j ≢ none
  open_page s t size maps j low e =
      let inside : j < in_pages (O.size s) = omega arith in
      ground (arith, maps.pages j inside, law.has_bytes s j)

  grows : (random : ℕ → ℕ) (s : O.State) → Grown random s
  grows random s = elim (succeeds (O.create s) (nf.creates s)) [
    | gives s1 e1 ↦
        let (empty, at_start) = law.created s s1 e1 in
        let f = filled random num_bytes 0 s1 (at_start ∙ sym empty) in
        let size2 : O.size f.state ≡ num_bytes = omega (arith, f.size, empty) in
        elim (succeeds (O.fstat f.state) (nf.stats f.state)) [
          | gives n e2 ↦
              let same : n ≡ num_bytes = law.stat_size f.state n e2 ∙ size2 in
              elim (succeeds (O.mmap shared num_bytes f.state)
                (nf.maps f.state shared num_bytes (omega arith))) [
                  | gives s3 e3 ↦
                      let maps = law.mapped f.state s3 shared num_bytes e3 (omega (arith, size2)) in
                      let a = added num_bytes s3 (open_page f.state s3 size2 maps) in
                      record {
                        s1 = s1;
                        s2 = f.state;
                        s3 = s3;
                        s4 = a.state;
                        create = e1;
                        fills = f.fills;
                        stats = e2 ∙ ap (λ (k : ℕ). some k) same;
                        maps = e3;
                        adds = a.adds;
                        size = a.size ∙ maps.size_kept ∙ size2;
                        last = a.last;
                      }
                ]
        ]
  ]

  sizes_lem :
      (random : ℕ → ℕ) (s : O.State)
      → (t : O.State) × (sizes O random s ≡ ok ((num_bytes, num_bytes), t))
  unfolding sizes
  sizes_lem random s =
      let g = grows random s in
      elim (succeeds (O.fstat g.s4) (nf.stats g.s4)) [
        | gives m e ↦
            let same : m ≡ num_bytes = law.stat_size g.s4 m e ∙ g.size in
            elim (succeeds (O.close g.s4) (nf.closes g.s4)) [
              | gives s5 e' ↦ (
                s5,
                rw (g.create, g.fills, g.stats, g.maps, g.adds, e, e', ◌>>=◌, ◌>>◌) (rw same refl),
              )
            ]
      ]

  still_there_lem :
      (random : ℕ → ℕ) (s : O.State)
      → (t : O.State) × (still_there O random s ≡ ok (true, t)) × (O.size t ≡ num_bytes)
  unfolding still_there
  still_there_lem random s =
      let g = grows random s in
      elim (succeeds (O.seek_end 100 g.s4) (nf.seeks_end g.s4 100)) [
        | gives s5 e ↦
            let seeks = law.sought_end g.s4 s5 100 e in
            let page = seeks.page_kept (num_bytes + 4) ∙ g.last in
            elim (succeeds (O.close s5) (nf.closes s5)) [
              | gives s6 e' ↦ (
                s6,
                rw (g.create, g.fills, g.stats, g.maps, g.adds, e, page, e', ◌>>=◌, ◌>>◌),
                (law.closed s5 s6 e').size_kept ∙ seeks.size_kept ∙ g.size,
              )
            ]
      ]

  -- Where no call fails, questions D and E come to an answer, whatever the random bytes are: both sizes
  -- that D prints are 4100, so that the four bytes assigned behind the end have not made the file
  -- longer; and E finds them still there, with the file as long as before, without a hole.
  pub behind_end :
      (random : ℕ → ℕ) (s : O.State)
      → ((t : O.State) × (sizes O random s ≡ ok ((4100, 4100), t)))
        × (t : O.State) × (still_there O random s ≡ ok (true, t))
        × (O.size t ≡ 4100)
  behind_end random s =
      let (t, e, size) = still_there_lem random s in (sizes_lem random s, t, e, size)
