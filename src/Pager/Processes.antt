-- ===== src/Pager/Processes.antt =====
-- The descriptors of each process of `pipeFile` in ps4/main.c, from two pipes that are set up.
use ece.Base.{ℕ, ◌<◌, ◌≡◌, ◌≢◌, Option, none, some, ◌==◌, if◌then◌else◌, arith}
use ece.Posix.{Descriptors, IsPosix}
use ece.Pager.Pipes.{File, read_end, write_end, Fds, grep_child, less_child, after_grep, after_less}

module _ (D : Descriptors File) (law : IsPosix D) where
  -- The two pipes in a table `s` of a process: four descriptors, which are not those of the standard
  -- streams, besides those of `base`.
  pub record Piped (pipe1 pipe2 : ℕ) (base s : D.State) (p : Fds) : Type 0 where
    pub above1 : 2 < p.read1
    pub above2 : 2 < p.write1
    pub above3 : 2 < p.read2
    pub above4 : 2 < p.write2
    pub apart1 : p.read1 ≢ p.write1
    pub apart2 : p.read1 ≢ p.read2
    pub apart3 : p.read1 ≢ p.write2
    pub apart4 : p.write1 ≢ p.read2
    pub apart5 : p.write1 ≢ p.write2
    pub apart6 : p.read2 ≢ p.write2
    pub free1 : D.file_at base p.read1 ≡ none
    pub free2 : D.file_at base p.write1 ≡ none
    pub free3 : D.file_at base p.read2 ≡ none
    pub free4 : D.file_at base p.write2 ≡ none
    pub held :
        (j : ℕ)
        → D.file_at s j ≡ (
            if p.read1 == j
            then some (read_end pipe1)
            else if p.write1 == j
            then some (write_end pipe1)
            else if p.read2 == j
            then some (read_end pipe2)
            else if p.write2 == j
            then some (write_end pipe2)
            else D.file_at base j)

  -- What the three processes hold in the end, beside `base`: each child its streams, and `less` both
  -- the descriptor that it read through and the write end of the first pipe.
  abbrev pub in_grep : (pipe1 pipe2 : ℕ) → D.State → ℕ → Option File
  in_grep pipe1 pipe2 base j =
      if 0 == j
      then some (read_end pipe1)
      else if 1 == j
      then some (write_end pipe2)
      else D.file_at base j

  abbrev pub in_less : (pipe1 pipe2 : ℕ) → Fds → D.State → ℕ → Option File
  in_less pipe1 pipe2 p base j =
      if 0 == j
      then some (read_end pipe2)
      else if p.write1 == j
      then some (write_end pipe1)
      else if p.read2 == j
      then some (read_end pipe2)
      else D.file_at base j

  module _ {pipe1 pipe2 : ℕ} {base s : D.State} {p : Fds} (v : Piped pipe1 pipe2 base s p) where
    pub less_child_lem :
        (t : D.State) × (less_child D p (after_grep D p s) ≡ some t)
        × ((j : ℕ) → D.file_at t j ≡ in_less pipe1 pipe2 p base j)
    unfolding less_child
    less_child_lem =
        let s1 = after_grep D p s in
        let s2 = D.close s1 p.write2 in
        let at1 = λ (j : ℕ). law.file_at-close s p.read1 j in
        let at2 = λ (j : ℕ). law.file_at-close s1 p.write2 j in
        let open_now : D.file_at s2 p.read2 ≢ none =
          ground (arith, at1 p.read2, at2 p.read2, v.held p.read2) in
        let (t, dup) = law.dup2_opened s2 p.read2 0 open_now (omega arith) in
        (
          D.close t p.read1,
          rw (dup, less_child),
          λ j. ground (
            arith,
            law.file_at-close t p.read1 j,
            law.file_at-dup2 s2 t p.read2 0 dup j,
            at1 j,
            at2 j,
            at1 p.read2,
            at2 p.read2,
            v.held j,
            v.held p.read2,
            v.free1,
            v.free4,
          ),
        )

    pub grep_child_lem :
        (t : D.State) × (grep_child D p s ≡ some t)
        × ((j : ℕ) → D.file_at t j ≡ in_grep pipe1 pipe2 base j)
    unfolding grep_child
    grep_child_lem =
        let s1 = D.close s p.write1 in
        let s2 = D.close s1 p.read2 in
        let at1 = λ (j : ℕ). law.file_at-close s p.write1 j in
        let at2 = λ (j : ℕ). law.file_at-close s1 p.read2 j in
        let open1 : D.file_at s2 p.read1 ≢ none =
          ground (arith, at1 p.read1, at2 p.read1, v.held p.read1) in
        let (t, dup1) = law.dup2_opened s2 p.read1 0 open1 (omega arith) in
        let at3 = λ (j : ℕ). law.file_at-dup2 s2 t p.read1 0 dup1 j in
        let open2 : D.file_at t p.write2 ≢ none =
          ground (arith, at1 p.write2, at2 p.write2, at3 p.write2, v.held p.write2) in
        let (u, dup2) = law.dup2_opened t p.write2 1 open2 (omega arith) in
        let s5 = D.close u p.read1 in
        (
          D.close s5 p.write2,
          rw (dup1, dup2, grep_child),
          λ j. ground (
            arith,
            law.file_at-close s5 p.write2 j,
            law.file_at-close u p.read1 j,
            law.file_at-dup2 t u p.write2 1 dup2 j,
            at3 j,
            at3 p.write2,
            at1 j,
            at2 j,
            at1 p.read1,
            at2 p.read1,
            at1 p.write2,
            at2 p.write2,
            v.held j,
            v.held p.read1,
            v.held p.write2,
            v.free1,
            v.free2,
            v.free3,
            v.free4,
          ),
        )

    -- The parent, behind its second `fork`.
    pub parent_lem :
        (j : ℕ)
        → D.file_at (after_less D p (after_grep D p s)) j
          ≡ (if p.write1 == j then some (write_end pipe1) else D.file_at base j)
    parent_lem j =
        let s1 = after_grep D p s in
        let s2 = D.close s1 p.read2 in
        ground (
          arith,
          law.file_at-close s p.read1 j,
          law.file_at-close s1 p.read2 j,
          law.file_at-close s2 p.write2 j,
          v.held j,
          v.free1,
          v.free2,
          v.free3,
          v.free4,
        )
