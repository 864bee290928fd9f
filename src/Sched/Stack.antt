-- ===== src/Sched/Stack.antt =====
-- The stack of a new task: the copy that `sched_fork` of ps9/sched.c makes, and ps9/adjstack.c, which
-- moves the frame pointers in it.
use ece.Base.{
  ℕ, zero, suc, ◌+◌, ◌-◌, ◌/◌, ◌^◌, ◌&&◌, ◌||◌, Option, none, some, ltb, leb, if◌then◌else◌, update,
}
use ece.Sched.Types.{stack_size}
use ece.Sched.Calls.{word}

-- The words of the memory, by their addresses divided by 8; `none` is not mapped. Stacks and frame
-- pointers are aligned.
abbrev pub Memory : Type 0
Memory = ℕ → Option ℕ

abbrev pub stack_words : ℕ
stack_words = stack_size / 8

-- How a walk ends: with what is in the memory then, or by an access to memory that is not mapped.
pub data Walk : Type 0 where
  adjusted : Memory → Walk
  fault out_of_fuel : Walk

-- The loop of `adjstack`.
unfoldable pub adjust : (fuel lim0 lim1 adj p : ℕ) → Memory → Walk
adjust zero lim0 lim1 adj p m = out_of_fuel
adjust (suc fuel) lim0 lim1 adj p m = elim (m (p / 8)) [
  | none ↦ fault
  | some prev ↦
      let new = word (prev + adj) in
      let next = adjust fuel lim0 lim1 adj new (update m (p / 8) (some new)) in
      if ltb new lim0 || ltb lim1 new then adjusted m else next
]

-- `adjstack`; `bp` is the frame pointer of its caller, which it finds at its own.
unfoldable pub adjstack : (fuel lim0 lim1 adj bp : ℕ) → Memory → Walk
unfolding adjust
adjstack fuel lim0 lim1 adj bp m = adjust fuel lim0 lim1 adj (word (bp + adj)) m

-- `memcpy(newsp, current->stack, STACK_SIZE)`, of areas that do not overlap.
abbrev pub copy_stack : (newsp stack : ℕ) → Memory → Memory
copy_stack newsp stack m j =
    let here = newsp / 8 in
    if leb here j && ltb j (here + stack_words) then m (stack / 8 + (j - here)) else m j

-- The part of `sched_fork` that makes the stack.
unfoldable pub fork_stack : (fuel newsp stack bp : ℕ) → Memory → Walk
unfolding adjstack
fork_stack fuel newsp stack bp m =
    let stack_diff = word (newsp + 2 ^ 64 - stack) in
    adjstack fuel newsp (newsp + stack_size) stack_diff bp (copy_stack newsp stack m)
