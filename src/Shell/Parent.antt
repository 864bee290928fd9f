-- ===== src/Shell/Parent.antt =====
-- The shell of ps3/main.c beside its child: the fork, the wait, and the times that are printed.
use ece.Base.{ℕ, Bool, true, false, Option, none, some}
use ece.Base.Int.{ℤ, pos, ◌-ℤ◌, to_int}

-- The fields are not negative, and tv_usec is below 10 ^ 6.
pub record Timeval : Type 0 where
  pub tv_sec : ℕ
  pub tv_usec : ℕ

pub record Rusage : Type 0 where
  pub ru_utime : Timeval
  pub ru_stime : Timeval

-- What the calls of a line give: gettimeofday, fork, wait3 with its status, and gettimeofday; `none` is -1.
pub record Turn : Type 0 where
  pub start_time : Option Timeval
  pub forks : Bool
  pub waited : Option (ℕ × Rusage)
  pub end_time : Option Timeval

-- The values of "Command returned with return code" and "consuming".
pub record Summary : Type 0 where
  pub return_code : ℤ
  pub real_sec : ℤ
  pub real_usec : ℤ
  pub user : ℤ × ℤ
  pub system : ℤ × ℤ

-- `%d` with a `time_t` or `suseconds_t`, of which the low 32 bits are printed.
abbrev pub both_parts : Timeval → ℤ × ℤ
both_parts t = (to_int (pos t.tv_sec), to_int (pos t.tv_usec))

-- The two prints of the parent; `wexitstatus` is the macro.
unfoldable pub summary : (ℕ → ℤ) → Timeval → Timeval → ℕ → Rusage → Summary
summary wexitstatus start end status ru = record {
  return_code = wexitstatus status;
  real_sec = to_int (pos end.tv_sec -ℤ pos start.tv_sec);
  real_usec = to_int (pos end.tv_usec -ℤ pos start.tv_usec);
  user = both_parts ru.ru_utime;
  system = both_parts ru.ru_stime;
}

abbrev pub end_clocked : (ℕ → ℤ) → Timeval → ℕ → Rusage → Option Timeval → Option Summary
end_clocked wexitstatus start status ru none = none
end_clocked wexitstatus start status ru (some end) = some (summary wexitstatus start end status ru)

abbrev pub child_waited : (ℕ → ℤ) → Timeval → Option (ℕ × Rusage) → Option Timeval → Option Summary
child_waited wexitstatus start none end = none
child_waited wexitstatus start (some (status, ru)) end = end_clocked wexitstatus start status ru end

abbrev pub after_fork :
    (ℕ → ℤ) → Timeval → Bool → Option (ℕ × Rusage) → Option Timeval → Option Summary
after_fork wexitstatus start false waited end = none
after_fork wexitstatus start true waited end = child_waited wexitstatus start waited end

-- The part of `executeCommand` from the first call of gettimeofday on, in the parent; `none` is exit(1).
unfoldable pub parent_side : (ℕ → ℤ) → Turn → Option Summary
parent_side wexitstatus turn = elim turn.start_time [
  | none ↦ none
  | some start ↦ after_fork wexitstatus start turn.forks turn.waited turn.end_time
]
