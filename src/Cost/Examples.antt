-- ===== src/Cost/Examples.antt =====
-- A machine whose state is its clock, for ps8/costTest.c.
use ece.Base.{ℕ, ◌+◌, ◌/◌, ◌%◌, [], ◌∷◌, refl, arith}
use ece.Base.Int.{ℤ, pos}
use ece.Cost.Parts.{Machine, main}
use ece.Cost.Elapsed.{Monotonic, Measured, called, main-Measured}

-- In nanoseconds: a call takes 50, a round 3.
abbrev machine : Machine
machine = record {
  State = ℕ;
  clock_gettime = λ n. (record { tv_sec = n / 1000000000; tv_nsec = n % 1000000000 }, n + 50);
  getuid = λ n. n + 50;
  round = λ n. n + 3;
}

clock : Monotonic machine
clock = record {
  now = λ n. n;
  reads = λ n. (omega arith, omega arith);
  call = λ n. omega arith;
  user = λ n. omega arith;
  work = λ n. omega arith;
}

abbrev atoi : ℕ → ℤ
atoi n = pos n

main-Measured_example :
    Measured machine clock
      (called machine clock 3)
      999999999
      (main machine atoi (3 ∷ []) 999999999).0
main-Measured_example =
    main-Measured machine clock atoi 3 [] 3 999999999 refl (omega arith) (omega arith)
