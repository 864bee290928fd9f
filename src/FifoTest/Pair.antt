-- ===== src/FifoTest/Pair.antt =====
-- test1 of ps7/fifoTest.c, a call of the fifo at a time, and its main.
use ece.Base.{
  ℕ, ◌+◌, ◌<◌, ◌≡◌, Bool, true, false, ◌&&◌, ◌==◌, if◌then◌else◌, List, [], ◌∷◌, Option, some, none,
  ◌⊎◌, inl, inr,
}
use ece.FifoTest.Fifo.{Fifo}
use ece.FifoTest.System.{System, start as start_many}
use ece.FifoTest.Numbers.{longs_per_writer}

module _ (F : Fifo) where
  -- The fifo; whether fork has been called, which succeeds; the `i` of the writer, who is the parent,
  -- and that of the reader; success; and the result that is printed.
  pub record Pair : Type 0 where
    pub fifo : F.State
    pub forked : Bool
    pub written : ℕ
    pub read : ℕ
    pub success : Bool
    pub result : Option Bool

  pub data Move (s : Pair) : Pair → Type 0 where
    forks : s.forked ≡ false → Move s (record s { forked = true })
    writes :
        (t : F.State)
        → s.forked ≡ true
        → s.written < longs_per_writer
        → F.wr s.fifo s.written ≡ some t
        → Move s (record s { fifo = t; written = s.written + 1 })
    reads :
        (num : ℕ) (t : F.State)
        → s.forked ≡ true
        → s.read < longs_per_writer
        → F.rd s.fifo ≡ some (num, t)
        → Move s (record s { fifo = t; read = s.read + 1; success = s.success && (s.read == num) })
    prints :
        s.forked ≡ true
        → s.read ≡ longs_per_writer
        → s.result ≡ none
        → Move s (record s { result = some s.success })

  -- fifo_init, and the start of test1.
  abbrev pub pair_start : Pair
  pair_start = record {
    fifo = F.init;
    forked = false;
    written = 0;
    read = 0;
    success = true;
    result = none;
  }

  pub data Moves : Pair → Type 0 where
    start : Moves pair_start
    then_move : {s t : Pair} → Moves s → Move s t → Moves t

  -- main, on what follows the program's name in argv: how the test that it runs starts, or `none` for
  -- exit(1). The address that mmap gives is never less than 0, so this test never fails.
  abbrev pub select_test : List ℕ → Option (Pair ⊎ System F)
  select_test [] = none
  select_test (c ∷ text) =
      if c == b'1'
      then some (inl pair_start)
      else if c == b'2'
      then some (inr (start_many F))
      else none

  unfoldable pub main : List (List ℕ) → Option (Pair ⊎ System F)
  main [] = none
  main (arg ∷ args) = select_test arg
