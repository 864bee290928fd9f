-- ===== src/Base/Int.antt =====
-- Signed integers over the native numbers, with C's conversions and division.
use Prim.Native.Nat.{ℕ, suc, ◌+◌, ◌-◌, ◌/◌, ◌%◌, ◌^◌, ◌≤◌, ◌<◌}
use mathlib.Core.Path.{◌≡◌}
use mathlib.Core.Bool.{Bool}
use native.Mathlib.Omega.{arith}
use ece.Base.Tests.{ltb, leb, if◌then◌else◌}

-- `negsuc n` is -(n + 1).
pub data ℤ : Type 0 where
  pos : ℕ → ℤ
  negsuc : ℕ → ℤ

abbrev pub pos_part : ℤ → ℕ
pos_part (pos n) = n
pos_part (negsuc n) = 0

abbrev pub neg_part : ℤ → ℕ
neg_part (pos n) = 0
neg_part (negsuc n) = suc n

-- a - b, as an integer.
abbrev pub sub_ℕ : ℕ → ℕ → ℤ
sub_ℕ a b = if leb b a then pos (a - b) else negsuc (b - a - 1)

infixl 65 ◌+ℤ◌ ◌-ℤ◌
infixl 70 ◌/ℤ◌
infix 50 ◌≤ℤ◌ ◌<ℤ◌
unfoldable pub ◌+ℤ◌ : ℤ → ℤ → ℤ
a +ℤ b = sub_ℕ (pos_part a + pos_part b) (neg_part a + neg_part b)

unfoldable pub ◌-ℤ◌ : ℤ → ℤ → ℤ
a -ℤ b = sub_ℕ (pos_part a + neg_part b) (neg_part a + pos_part b)

abbrev pub ◌≤ℤ◌ : ℤ → ℤ → Type 0
a ≤ℤ b = pos_part a + neg_part b ≤ pos_part b + neg_part a

abbrev pub ◌<ℤ◌ : ℤ → ℤ → Type 0
a <ℤ b = pos_part a + neg_part b < pos_part b + neg_part a

abbrev pub ltb_ℤ : ℤ → ℤ → Bool
ltb_ℤ a b = ltb (pos_part a + neg_part b) (pos_part b + neg_part a)

abbrev pub leb_ℤ : ℤ → ℤ → Bool
leb_ℤ a b = leb (pos_part a + neg_part b) (pos_part b + neg_part a)

-- C's `/`, which truncates towards 0. At a divisor 0, where C has no meaning, it is 0.
unfoldable pub ◌/ℤ◌ : ℤ → ℤ → ℤ
pos a /ℤ pos b = pos (a / b)
pos a /ℤ negsuc b = sub_ℕ 0 (a / suc b)
negsuc a /ℤ pos b = sub_ℕ 0 (suc a / b)
negsuc a /ℤ negsuc b = pos (suc a / suc b)

-- The representative of `z` modulo `m` that is not negative.
abbrev residue : ℤ → ℕ → ℕ
residue (pos n) m = n % m
residue (negsuc n) m = m - 1 - n % m

-- Conversion to a signed type of `w + 1` bits, two's complement.
abbrev wrap : ℕ → ℤ → ℤ
wrap w z =
    let r = residue z (2 ^ suc w) in if ltb r (2 ^ w) then pos r else negsuc (2 ^ suc w - 1 - r)

-- `int` and `long`.
unfoldable pub to_int : ℤ → ℤ
to_int z = wrap 31 z

unfoldable pub to_long : ℤ → ℤ
to_long z = wrap 63 z

-- What fits an `int` is not changed by the conversion.
pub to_int_fits : (z : ℤ) → z <ℤ pos (2 ^ 31) → pos 0 ≤ℤ z +ℤ pos (2 ^ 31) → to_int z ≡ z
unfolding to_int ◌+ℤ◌
to_int_fits (pos n) h k = ground arith
to_int_fits (negsuc n) h k = ground arith

-- A positive conversion is below 2 ^ 31.
pub to_int_lt : (z : ℤ) → to_int z <ℤ pos (2 ^ 31)
unfolding to_int
to_int_lt (pos n) = ground arith
to_int_lt (negsuc n) = ground arith
