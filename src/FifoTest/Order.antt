-- ===== src/FifoTest/Order.antt =====
-- The reader of `test2` in ps7/fifoTest.c finds the numbers of each writer in their order.
use ece.Base.{
  ℕ, suc, ◌+◌, ◌*◌, ◌%◌, ◌^◌, ◌<◌, ◌≤◌, ◌≡◌, ◌≢◌, ◌⊎◌, inl, inr, refl, sym, ap, ◌∙◌, List, [], ◌∷◌,
  ◌++◌, ◌==◌, ltb, some, true, update, total, total_at, total_const, arith,
}
use ece.Base.Int.{pos}
use ece.FifoTest.Fifo.{Fifo, IsFifo}
use ece.FifoTest.Numbers.{
  longs_per_writer, num_writers, number, writer, decode, writer-number, decode-number,
}
use ece.FifoTest.System.{
  reading, success, failed, undefined, Reader, track_writer, check, System, begin_loop, write, read,
  finish, start, Reach, begin, later,
}

-- What lies between two states of the writers' counters: numbers that each bring one of them on.
abbrev pub Merged : (ℕ → ℕ) → List ℕ → (ℕ → ℕ) → Type 0
Merged f [] g = (i : ℕ) → f i ≡ g i
Merged f (num ∷ nums) g =
    (i : ℕ) × (i < num_writers)
    × (num ≡ number (i + 1) (f i))
    × Merged (update f i (f i + 1)) nums g

pub Merged-le : (f : ℕ → ℕ) (nums : List ℕ) (g : ℕ → ℕ) → Merged f nums g → (i : ℕ) → f i ≤ g i
Merged-le f [] g m i = omega (arith, m i)
Merged-le f (num ∷ nums) g (k, below, same, m) i =
    ground (arith, Merged-le (update f k (f k + 1)) nums g m i)

-- A number at the end, of a writer that goes on.
Merged-append :
    (f : ℕ → ℕ) (nums : List ℕ) (g : ℕ → ℕ) (i : ℕ)
    → i < num_writers
    → Merged f nums g
    → Merged f (nums ++ (number (i + 1) (g i) ∷ [])) (update g i (g i + 1))
Merged-append f [] g i below m =
    (i, below, ap (number (i + 1)) (sym (m i)), λ j. ground (arith, m i, m j))
Merged-append f (num ∷ nums) g i below (k, low, same, m) =
    (k, low, same, Merged-append (update f k (f k + 1)) nums g i below m)

track_next :
    (i : ℕ) (r : Reader)
    → i < num_writers
    → r.trackers i < 2 ^ 24
    → track_writer (pos (suc i)) (r.trackers i) r
      ≡ record r { j = r.j + 1; trackers = update r.trackers i (r.trackers i + 1) }
track_next i r below small =
    let wrap : (r.trackers i + 1) % 2 ^ 64 ≡ r.trackers i + 1 = omega arith in
    let inside : ltb i num_writers ≡ true = ground arith in
    let same : (r.trackers i == r.trackers i) ≡ true = ground arith in rw (inside, same, wrap)

check-track_writer : (num : ℕ) (r : Reader) → check num r ≡ track_writer (writer num) (decode num) r
unfolding check
check-track_writer num r = refl

-- A number that is the next of its writer passes the test.
check_next :
    (i : ℕ) (r : Reader)
    → i < num_writers
    → r.trackers i < 2 ^ 24
    → check (number (i + 1) (r.trackers i)) r
      ≡ record r { j = r.j + 1; trackers = update r.trackers i (r.trackers i + 1) }
check_next i r below small =
    let num = number (i + 1) (r.trackers i) in
    let w : writer num ≡ pos (suc i) =
      writer-number (i + 1) (r.trackers i) (omega arith) small ∙ ap pos (omega arith) in
    let d = decode-number (i + 1) (r.trackers i) (omega arith) small in
    check-track_writer num r ∙ rw (w, d) (track_next i r below small)

module _ (F : Fifo) where
  -- The reader has found no fault, the fifo holds what was written and not yet read, and the reader's
  -- rounds are what it has counted.
  pub record Ordered (s : System F) : Type 0 where
    pub sound : (s.reader.status ≡ reading) ⊎ (s.reader.status ≡ success)
    pub merged : Merged s.reader.trackers (F.contents s.fifo) s.next
    pub fits : (i : ℕ) → s.next i ≤ longs_per_writer
    pub within : s.born ≤ num_writers
    pub counted : s.reader.j ≡ total (λ (n : ℕ). n) num_writers s.reader.trackers
    pub at_end : s.reader.status ≡ success → s.reader.j ≡ num_writers * longs_per_writer

module _ (F : Fifo) (law : IsFifo F) where
  start-Ordered : Ordered F (start F)
  start-Ordered = record {
    sound = inl refl;
    merged = rw law.contents-init (λ i. refl);
    fits = λ i. omega arith;
    within = omega arith;
    counted = omega (arith, total_const (λ (n : ℕ). n) num_writers 0 (λ i. 0) (λ i below. refl));
    at_end = λ e. cc;
  }

  write-Ordered :
      (s : System F) (i : ℕ) (t : F.State)
      → Ordered F s
      → i < s.born
      → s.next i < longs_per_writer
      → F.wr s.fifo (number (i + 1) (s.next i)) ≡ some t
      → Ordered F (record s { fifo = t; next = update s.next i (s.next i + 1) })
  write-Ordered s i t v born below wrote = record {
    sound = v.sound;
    merged = rw (law.contents-wr s.fifo t (number (i + 1) (s.next i)) wrote) (
        Merged-append s.reader.trackers (F.contents s.fifo) s.next i (omega (arith, v.within))
          v.merged);
    fits = λ j. ground (arith, v.fits j);
    within = v.within;
    counted = v.counted;
    at_end = v.at_end;
  }

  -- What the reader takes out is the next of its writer.
  read_next :
      (s : System F) (num : ℕ) (t : F.State)
      → Ordered F s
      → F.rd s.fifo ≡ some (num, t)
      → (i : ℕ) × (i < num_writers)
        × (num ≡ number (i + 1) (s.reader.trackers i))
        × Merged (update s.reader.trackers i (s.reader.trackers i + 1)) (F.contents t) s.next
  read_next s num t v got = rw (law.contents-rd s.fifo t num got) at v.merged

  -- So it passes the test.
  pub read_check :
      (s : System F) (num : ℕ) (t : F.State)
      → Ordered F s
      → F.rd s.fifo ≡ some (num, t)
      → (i : ℕ) × (i < num_writers)
        × (check num s.reader ≡ record s.reader {
          j = s.reader.j + 1;
          trackers = update s.reader.trackers i (s.reader.trackers i + 1);
        })
        × Merged (update s.reader.trackers i (s.reader.trackers i + 1)) (F.contents t) s.next
  read_check s num t v got =
      let (i, below, same, m) = read_next s num t v got in
      let le =
        Merged-le (update s.reader.trackers i (s.reader.trackers i + 1)) (F.contents t) s.next m
          i in
      let small : s.reader.trackers i < 2 ^ 24 = ground (arith, v.fits i) in
      (i, below, ap (λ (n : ℕ). check n s.reader) same ∙ check_next i s.reader below small, m)

  read-Ordered :
      (s : System F) (num : ℕ) (t : F.State)
      → Ordered F s
      → s.reader.status ≡ reading
      → F.rd s.fifo ≡ some (num, t)
      → Ordered F (record s { fifo = t; reader = check num s.reader })
  read-Ordered s num t v on got =
      let (i, below, checked, m) = read_check s num t v got in
      let counted = update s.reader.trackers i (s.reader.trackers i + 1) in
      let sum =
        total_at (λ (n : ℕ). n) num_writers s.reader.trackers counted i below
          (λ j low other. ground arith) in
      rw checked (record {
        sound = inl on;
        merged = m;
        fits = v.fits;
        within = v.within;
        counted = ground (arith, sum, v.counted);
        at_end = λ e. cc;
      })

  -- Every state that can be reached is ordered.
  pub Reach-Ordered : {s : System F} → Reach F s → Ordered F s
  Reach-Ordered begin = start-Ordered
  Reach-Ordered (later r (begin_loop below)) =
      let v = Reach-Ordered r in
      record {
        sound = v.sound;
        merged = v.merged;
        fits = v.fits;
        within = omega arith;
        counted = v.counted;
        at_end = v.at_end;
      }
  Reach-Ordered (later {s} r (write i t born below wrote)) =
      write-Ordered s i t (Reach-Ordered r) born below wrote
  Reach-Ordered (later {s} r (read num t on below got)) =
      read-Ordered s num t (Reach-Ordered r) on got
  Reach-Ordered (later r (finish on all)) =
      let v = Reach-Ordered r in
      record {
        sound = inr refl;
        merged = v.merged;
        fits = v.fits;
        within = v.within;
        counted = v.counted;
        at_end = λ e. all;
      }

  -- In no order of the processes' moves does the reader come to a number out of its writer's order, or
  -- to one whose writer is out of bounds.
  pub never_fails :
      {s : System F} → Reach F s → (s.reader.status ≢ failed) × (s.reader.status ≢ undefined)
  never_fails r = elim ((Reach-Ordered r).sound) [
    | inl on ↦ (λ e. cc, λ e. cc)
    | inr done ↦ (λ e. cc, λ e. cc)
  ]
