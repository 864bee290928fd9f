-- ===== src/Pager/Tables.antt =====
-- What the processes of `pipeFile` in ps4/main.c hold when it has set them up.
use ece.Base.{ℕ, ◌<◌, ◌≡◌, ◌≢◌, none, some, ◌==◌, if◌then◌else◌, Option-cases, inl, inr, arith}
use ece.Posix.{Descriptors, IsPosix}
use ece.Posix.Input.{Text}
use ece.Pager.Pipes.{
  File, read_end, write_end, input, Fds, grep_child, less_child, after_grep, after_less, Pipeline,
  start_children, pipe_file,
}
use ece.Pager.Processes.{Piped, in_grep, in_less, grep_child_lem, less_child_lem, parent_lem}

module _ (D : Descriptors File) (law : IsPosix D) where
  -- The tables of the two children, and that of the parent in the end, beside `base`: the parent keeps
  -- the descriptor of the file.
  pub record PipeTables (pipe1 pipe2 : ℕ) (name : Text) (base : D.State) (q : Pipeline D)
      : Type 0 where
    pub above : 2 < q.fds.write1
    pub infd_free : D.file_at base q.infd ≡ none
    pub grep :
        (t : D.State) × (q.grep ≡ some t)
        × ((j : ℕ) → D.file_at t j ≡ in_grep D law pipe1 pipe2 base j)
    pub less :
        (t : D.State) × (q.less ≡ some t)
        × ((j : ℕ) → D.file_at t j ≡ in_less D law pipe1 pipe2 q.fds base j)
    pub finished :
        (j : ℕ)
        → D.file_at q.finished j ≡ (if q.infd == j then some (input name) else D.file_at base j)

  module _ (pipe1 pipe2 : ℕ) (name : Text) {base : D.State} where
    -- The two pipes of a call.
    piped :
        (t u : D.State) (r1 w1 r2 w2 : ℕ)
        → ((j : ℕ) → j < 3 → D.file_at base j ≢ none)
        → D.pipe base (read_end pipe1) (write_end pipe1) ≡ some (r1, w1, t)
        → D.pipe t (read_end pipe2) (write_end pipe2) ≡ some (r2, w2, u)
        → Piped D law pipe1 pipe2 base u
            (record { read1 = r1; write1 = w1; read2 = r2; write2 = w2 })
    piped t u r1 w1 r2 w2 std first second =
        let (fr1, fw1, d1) = law.pipe_free base t (read_end pipe1) (write_end pipe1) r1 w1 first in
        let (fr2, fw2, d2) = law.pipe_free t u (read_end pipe2) (write_end pipe2) r2 w2 second in
        let at = law.file_at-pipe base t (read_end pipe1) (write_end pipe1) r1 w1 first in
        let at' = law.file_at-pipe t u (read_end pipe2) (write_end pipe2) r2 w2 second in
        let far : (j : ℕ) → D.file_at base j ≡ none → 2 < j = λ j free. ground (arith, std j) in
        record {
          above1 = far r1 fr1;
          above2 = far w1 fw1;
          above3 = ground (arith, at r2, std r2);
          above4 = ground (arith, at w2, std w2);
          apart1 = d1;
          apart2 = ground (arith, at r2);
          apart3 = ground (arith, at w2);
          apart4 = ground (arith, at r2);
          apart5 = ground (arith, at w2);
          apart6 = d2;
          free1 = fr1;
          free2 = fw1;
          free3 = ground (arith, at r2);
          free4 = ground (arith, at w2);
          held = λ j. ground (arith, at j, at' j, at r2, at w2);
        }

    -- The file's descriptor is not one of those that were open before.
    infd_free_lem :
        (s u : D.State) (p : Fds) (infd : ℕ)
        → Piped D law pipe1 pipe2 base s p
        → D.open_file (after_less D p (after_grep D p s)) (input name) ≡ some (infd, u)
        → D.file_at base infd ≡ none
    infd_free_lem s u p infd v opened =
        let t = after_less D p (after_grep D p s) in
        ground (arith, law.open_free t u (input name) infd opened, parent_lem D law v infd, v.free2)

    -- What the parent ends with, when its file was opened.
    finished_lem :
        (s u : D.State) (p : Fds) (infd : ℕ)
        → Piped D law pipe1 pipe2 base s p
        → D.open_file (after_less D p (after_grep D p s)) (input name) ≡ some (infd, u)
        → (j : ℕ)
        → D.file_at (D.close u p.write1) j
          ≡ (if infd == j then some (input name) else D.file_at base j)
    finished_lem s u p infd v opened j =
        let t = after_less D p (after_grep D p s) in
        let at = parent_lem D law v in
        ground (
          arith,
          law.file_at-close u p.write1 j,
          law.file_at-open t u (input name) infd opened j,
          law.open_free t u (input name) infd opened,
          at j,
          at infd,
          v.free2,
        )

    children_tables :
        (s : D.State) (p : Fds) (q : Pipeline D)
        → Piped D law pipe1 pipe2 base s p
        → start_children D name p s ≡ some q
        → PipeTables pipe1 pipe2 name base q
    unfolding start_children
    children_tables s p q v e =
        elim (Option-cases (D.open_file (after_less D p (after_grep D p s)) (input name))) [
          | inl missing ↦ absurd (ground arith)
          | inr ((infd, u), opened) ↦
              let made : Pipeline D = record {
                fds = p;
                infd = infd;
                grep = grep_child D p s;
                less = less_child D p (after_grep D p s);
                copying = u;
                finished = D.close u p.write1;
              } in
              let same : q ≡ made = ground arith in
              rw same (record {
                above = v.above2;
                infd_free = infd_free_lem s u p infd v opened;
                grep = grep_child_lem D law v;
                less = less_child_lem D law v;
                finished = finished_lem s u p infd v opened;
              })
        ]

    -- Where the standard streams are open and `pipeFile` has not exited: `grep` reads the first pipe
    -- and writes the second, and holds nothing else but what the program held; `less` reads the
    -- second, and still holds the end for writing of the first; the parent ends with the file open.
    pub pipe_file-tables :
        (q : Pipeline D)
        → ((j : ℕ) → j < 3 → D.file_at base j ≢ none)
        → pipe_file D pipe1 pipe2 name base ≡ some q
        → PipeTables pipe1 pipe2 name base q
    unfolding pipe_file
    pipe_file-tables q std e =
        elim (Option-cases (D.pipe base (read_end pipe1) (write_end pipe1))) [
          | inl missing ↦ absurd (ground arith)
          | inr ((r1, w1, t), first) ↦
              elim (Option-cases (D.pipe t (read_end pipe2) (write_end pipe2))) [
                | inl missing ↦ absurd (ground arith)
                | inr ((r2, w2, u), second) ↦
                    let p : Fds = record { read1 = r1; write1 = w1; read2 = r2; write2 = w2 } in
                    children_tables u p q (piped t u r1 w1 r2 w2 std first second) (ground arith)
              ]
        ]

    -- Where the standard streams are open, no end for writing of the first pipe was held before, the
    -- two pipes differ, and `pipeFile` has not exited: in the end neither the parent nor `grep` holds
    -- that end, and `less` does.
    pub pipe_file_leak :
        (q : Pipeline D)
        → ((j : ℕ) → j < 3 → D.file_at base j ≢ none)
        → ((j : ℕ) → D.file_at base j ≢ some (write_end pipe1))
        → pipe1 ≢ pipe2
        → pipe_file D pipe1 pipe2 name base ≡ some q
        → ((j : ℕ) → D.file_at q.finished j ≢ some (write_end pipe1))
          × ((t : D.State) → q.grep ≡ some t → (j : ℕ) → D.file_at t j ≢ some (write_end pipe1))
          × (t : D.State) × (q.less ≡ some t)
          × (D.file_at t q.fds.write1 ≡ some (write_end pipe1))
    pipe_file_leak q std fresh apart e =
        let v = pipe_file-tables q std e in
        let (g, is_g, at_g) = v.grep in
        let (l, is_l, at_l) = v.less in
        (
          λ j h. ground (arith, v.finished j, fresh j),
          λ t is_t j h. let same : t ≡ g = ground arith in ground (arith, at_g j, fresh j),
          l,
          is_l,
          ground (arith, at_l q.fds.write1, v.above),
        )
