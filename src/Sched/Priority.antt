-- ===== src/Sched/Priority.antt =====
-- The dynamic priority of ps9/sched.c as a number: the weight 20 - nice less the ticks over the
-- weight, and 1 at least.
use Prim.Native.Nat.{max}
use ece.Base.{ℕ, ◌-◌, ◌/◌, ◌^◌, ◌≤◌, ◌<◌, ◌≡◌, if◌then◌else◌, arith}
use ece.Base.Int.{ℤ, pos, negsuc, pos_part, ◌≤ℤ◌, ◌-ℤ◌, ◌/ℤ◌, ◌+ℤ◌, leb_ℤ, to_int, to_int_fits}
use ece.Sched.Switch.{dynamic_priority}

-- No dynamic priority is below 1.
pub dynamic_priority_pos : (n t : ℤ) → pos 1 ≤ℤ dynamic_priority n t
unfolding dynamic_priority
dynamic_priority_pos n t = ground arith

-- `20 - niceval`, as a natural number.
pub weight : ℤ → ℕ
weight n = pos_part (pos 20 -ℤ n)

pub weight_lem :
    (n : ℤ)
    → negsuc 19 ≤ℤ n
    → n ≤ℤ pos 19
    → (pos 20 -ℤ n ≡ pos (weight n)) × (1 ≤ weight n) × (weight n ≤ 40)
unfolding weight ◌-ℤ◌
weight_lem n lo hi = ground arith

weight_anti : (m n : ℤ) → negsuc 19 ≤ℤ m → m ≤ℤ n → n ≤ℤ pos 19 → weight n ≤ weight m
unfolding weight ◌-ℤ◌
weight_anti m n lo le hi = ground arith

div-le : (t w : ℕ) → t / w ≤ t
div-le t w = grind arith

-- The subtraction of the first loop stays an `int`.
rest_fits : (t w : ℕ) → t < 2 ^ 31 → w ≤ 40 → to_int (pos w -ℤ pos (t / w)) ≡ pos w -ℤ pos (t / w)
unfolding ◌-ℤ◌ ◌+ℤ◌
rest_fits t w small low = to_int_fits _ (ground (arith, div-le t w)) (ground (arith, div-le t w))

clip_lem :
    (w q : ℕ)
    → (let temp = pos w -ℤ pos q in if leb_ℤ temp (pos 0) then pos 1 else temp)
      ≡ pos (max 1 (w - q))
unfolding ◌-ℤ◌
clip_lem w q = ground arith

-- What the first loop of `sched_switch` stores, for a nice value in range and fewer than 2 ^ 31
-- ticks: the weight 20 - nice less the ticks over the weight, and 1 at least.
pub dynamic_priority_lem :
    (n : ℤ) (t : ℕ)
    → negsuc 19 ≤ℤ n
    → n ≤ℤ pos 19
    → t < 2 ^ 31
    → dynamic_priority n (pos t) ≡ pos (max 1 (weight n - t / weight n))
unfolding dynamic_priority ◌/ℤ◌
dynamic_priority_lem n t lo hi small =
    let (e, some_weight, low) = weight_lem n lo hi in
    rw (e, rest_fits t (weight n) small low) (clip_lem (weight n) (t / weight n))

div_anti : (t u v w : ℕ) → t ≤ u → 1 ≤ v → v ≤ w → t / w ≤ u / v
div_anti t u v w h k l = grind arith

-- For nice values in -20 .. 19 and fewer than 2 ^ 31 ticks: a task that has used no less time, at a
-- nice value no lower, gets no higher a dynamic priority; its priority is at least 1, and that of the
-- other at most 40.
pub dynamic_priority_fair :
    (m n : ℤ) (t u : ℕ)
    → negsuc 19 ≤ℤ m
    → m ≤ℤ n
    → n ≤ℤ pos 19
    → t ≤ u
    → u < 2 ^ 31
    → (dynamic_priority n (pos u) ≤ℤ dynamic_priority m (pos t))
      × (pos 1 ≤ℤ dynamic_priority n (pos u))
      × (dynamic_priority m (pos t) ≤ℤ pos 40)
dynamic_priority_fair m n t u lo le hi used small =
    let (e, heavy, low) = weight_lem m lo (omega arith) in
    let (e', heavy', low') = weight_lem n (omega arith) hi in
    rw
      (
        dynamic_priority_lem m t lo (omega arith) (omega arith),
        dynamic_priority_lem n u (omega arith) hi small,
      )
      (omega (
        arith,
        weight_anti m n lo le hi,
        div_anti t u (weight n) (weight m) used heavy' (weight_anti m n lo le hi),
      ))
