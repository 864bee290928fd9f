-- ===== src/FifoTest/Examples.antt =====
-- Runs of the tests in ps7/fifoTest.c on a list, and its theorems at them.
use ece.Base.{ℕ, ◌≡◌, ◌≢◌, ◌⊎◌, ◌≤◌, ◌<◌, arith, refl, [], ◌∷◌, update, some, none, true, inl}
use ece.FifoTest.Fifo.{queue, queue-IsFifo}
use ece.FifoTest.Numbers.{longs_per_writer, num_writers, number, writer, decode}
use ece.FifoTest.System.{
  reading, success, failed, undefined, check, System, Step, begin_loop, write, read, Reach, begin,
  later,
}
use ece.FifoTest.Order.{never_fails}
use ece.FifoTest.Pair.{Pair, Move, forks, writes, reads, pair_start, Moves, start, then_move, main}
use ece.FifoTest.Sequence.{moves, test_1_ends}
use ece.FifoTest.Progress.{success_all, steps, run_ends, Whole, completes}

-- The first writer has written its first number.
abbrev one_word : System queue
one_word = record {
  fifo = number 1 0 ∷ [];
  born = 1;
  next = update (λ i. 0) 0 1;
  reader = record { j = 0; trackers = λ i. 0; status = reading };
}

one_word-Reach : Reach queue one_word
one_word-Reach =
    later (later begin (begin_loop (omega arith)))
      (write 0 (number 1 0 ∷ []) (omega arith) (omega arith) refl)

-- And it has been read.
abbrev word_read : System queue
word_read = record one_word { fifo = []; reader = check (number 1 0) one_word.reader }

word_read-Reach : Reach queue word_read
word_read-Reach = later one_word-Reach (read (number 1 0) [] refl (omega arith) refl)

passed : word_read.reader.j ≡ 1
unfolding check number writer decode
passed = refl

never_fails_example : (word_read.reader.status ≢ failed) × (word_read.reader.status ≢ undefined)
never_fails_example = never_fails queue queue-IsFifo word_read-Reach

run_ends_example :
    (steps queue queue-IsFifo word_read-Reach ≤ 11_257)
    × ((word_read.reader.status ≡ success) ⊎ ((t : System queue) × Step queue word_read t))
run_ends_example = run_ends queue queue-IsFifo word_read-Reach

whole : Whole queue queue-IsFifo
whole = completes queue queue-IsFifo 11_257 begin refl

success_all_example :
    ((i : ℕ)
      → i < num_writers
      → (whole.state.next i ≡ longs_per_writer)
        × (whole.state.reader.trackers i ≡ longs_per_writer))
    × (whole.state.fifo ≡ [])
success_all_example = success_all queue queue-IsFifo whole.reached whole.succeeded

-- In `test1`, the first number has been written and read.
one_read : Pair queue
one_read = record { fifo = []; forked = true; written = 1; read = 1; success = true; result = none }

one_read-Moves : Moves queue one_read
unfolding one_read
one_read-Moves =
    then_move (then_move (then_move start (forks refl)) (writes (0 ∷ []) refl (omega arith) refl))
      (reads 0 [] refl (omega arith) refl)

test_1_ends_example :
    (moves queue queue-IsFifo one_read-Moves ≤ 202)
    × ((one_read.result ≡ some true)
        ⊎ ((one_read.result ≡ none) × ((t : Pair queue) × Move queue one_read t)))
test_1_ends_example = test_1_ends queue queue-IsFifo one_read-Moves

starts_test_1 : main queue ((b'1' ∷ []) ∷ []) ≡ some (inl (pair_start queue))
unfolding main
starts_test_1 = refl
