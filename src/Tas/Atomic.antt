-- ===== src/Tas/Atomic.antt =====
-- The counter that ps7/tasTest.c means: each addition is one step. The program refines it.
use mathlib.Core.Path.{fun_ext}
use ece.Base.{ℕ, suc, ◌+◌, ◌-◌, ◌≡◌, ◌⊎◌, inl, inr, update, ap, arith, refl}
use ece.Tas.System.{
  rounds, stored, loaded, System, add_one, Step, fork, no_fork, parent_ends, enter, leave, take,
  read, write, free, Reach, begin, later,
}
use ece.Tas.Invariant.{done_of, Consistent, Reach-Consistent, count-le}

-- A counter, and the additions that each child still has to make.
pub record Counter : Type 0 where
  pub value : ℕ
  pub left : ℕ → ℕ

pub data Addition (c : Counter) : Counter → Type 0 where
  by_child :
      (i n : ℕ)
      → c.left i ≡ suc n
      → Addition c (record { value = c.value + 1; left = update c.left i n })

abbrev pub full : Counter
full = record { value = 0; left = λ i. rounds }

pub data Additions : Counter → Type 0 where
  none_yet : Additions full
  one_more : {c d : Counter} → Additions c → Addition c d → Additions d

-- What the children have left to add, and the value in the memory.
abbrev pub counter_of : System → Counter
counter_of s = record { value = s.count; left = λ i. rounds - done_of (s.pc i) }

-- A move that adds nothing is not seen.
unseen :
    (s t : System)
    → t.count ≡ s.count
    → ((i : ℕ) → done_of (t.pc i) ≡ done_of (s.pc i))
    → counter_of t ≡ counter_of s
unseen s t same each =
    let lefts : (λ (i : ℕ). rounds - done_of (t.pc i)) ≡ (λ (i : ℕ). rounds - done_of (s.pc i)) =
      fun_ext λ i. ap (λ (n : ℕ). rounds - n) (each i) in
    rw (same, lefts)

-- The store of the sum is the addition.
write-Addition :
    {s : System} (i j w : ℕ)
    → Consistent s
    → s.pc i ≡ loaded j w
    → Addition
        (counter_of s)
        (counter_of (record s { count = add_one w; pc = update s.pc i (stored j) }))
write-Addition {s} i j w v at =
    let value : add_one w ≡ s.count + 1 = ground (arith, v.fits i, count-le v) in
    let lefts : (λ (k : ℕ). rounds - done_of (update s.pc i (stored j) k))
        ≡ update (λ (k : ℕ). rounds - done_of (s.pc k)) i (rounds - (j + 1)) =
      fun_ext λ k. ground arith in
    rw (value, lefts) (by_child i (rounds - (j + 1)) (ground (arith, v.fits i)))

-- A step is an addition, or is not seen.
Step-Addition :
    {s t : System}
    → Consistent s
    → Step s t
    → (counter_of t ≡ counter_of s) ⊎ Addition (counter_of s) (counter_of t)
Step-Addition {s} {t} v (fork on below) =
    inl (unseen s t refl (λ k. ground (arith, v.new s.forked)))
Step-Addition {s} {t} v (no_fork on below) = inl refl
Step-Addition {s} {t} v (parent_ends on all) = inl refl
Step-Addition {s} {t} v (enter i j at below) = inl (unseen s t refl (λ k. ground arith))
Step-Addition {s} {t} v (leave i j at all) = inl (unseen s t refl (λ k. ground arith))
Step-Addition {s} {t} v (take i j at open_now) = inl (unseen s t refl (λ k. ground arith))
Step-Addition {s} {t} v (read i j at) = inl (unseen s t refl (λ k. ground arith))
Step-Addition {s} {t} v (free i j at) = inl (unseen s t refl (λ k. ground arith))
Step-Addition {s} {t} v (write i j w at) = inr (write-Addition i j w v at)

-- Every state that the program can reach shows a counter that atomic additions can reach.
pub Reach-Additions : {s : System} → Reach s → Additions (counter_of s)
Reach-Additions begin = none_yet
Reach-Additions (later r st) = elim (Step-Addition (Reach-Consistent r) st) [
  | inl same ↦ rw same (Reach-Additions r)
  | inr add ↦ one_more (Reach-Additions r) add
]
