-- ===== src/FifoTest/Numbers.antt =====
-- The numbers of `test2` in ps7/fifoTest.c: each has its writer's id in the bits from 24 on.
use ece.Base.{ℕ, ◌+◌, ◌-◌, ◌*◌, ◌/◌, ◌%◌, ◌^◌, ◌<◌, ◌≡◌, arith}
use ece.Base.Int.{ℤ, pos, negsuc, to_int}

abbrev pub longs_per_writer : ℕ
longs_per_writer = 100

abbrev pub num_writers : ℕ
num_writers = 56

-- What a writer writes in round `j`; `my_procnum << 24` is an `int`, which ids up to 127 fit.
unfoldable pub number : (my_procnum j : ℕ) → ℕ
number my_procnum j = (j + my_procnum * 2 ^ 24) % 2 ^ 64

-- "Decode writer id".
unfoldable pub writer : ℕ → ℤ
unfolding to_int
writer num = to_int (pos (num / 2 ^ 24))

-- Conversion of an `int` to `unsigned long`.
abbrev to_unsigned_long : ℤ → ℕ
to_unsigned_long (pos n) = n
to_unsigned_long (negsuc n) = 2 ^ 64 - 1 - n

-- "Decode number".
unfoldable pub decode : ℕ → ℕ
unfolding writer
decode num = (num + (2 ^ 64 - to_unsigned_long (writer num) * 2 ^ 24 % 2 ^ 64)) % 2 ^ 64

pub writer-number :
    (procnum j : ℕ) → procnum < 128 → j < 2 ^ 24 → writer (number procnum j) ≡ pos procnum
unfolding writer number to_int
writer-number procnum j small below = ground arith

-- The reader decodes a number to what its writer made it of.
pub decode-number : (procnum j : ℕ) → procnum < 128 → j < 2 ^ 24 → decode (number procnum j) ≡ j
unfolding decode number
decode-number procnum j small below =
    let w = writer-number procnum j small below in rw (w, decode) (omega arith)
