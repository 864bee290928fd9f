-- ===== src/Tas/Outcome.antt =====
-- What the children of ps7/tasTest.c come to.
use ece.Base.{
  ℕ, ◌<◌, ◌≡◌, ◌⊎◌, inl, inr, Bool, true, false, ◌==◌, Bool-cases, Option-cases, find_from,
  find_from-some, find_from-none, total_const, arith, ap, refl, ==→≡, update,
}
use ece.Tas.System.{
  n_proc, rounds, Pc, unborn, finished, head, spin, locked, stored, loaded, System, Step, fork,
  parent_ends, enter, leave, take, read, write, free, Reach,
}
use ece.Tas.Invariant.{holds, done_of, Consistent, Reach-Consistent}

-- When all children have finished, `map[0]` is the number of all their rounds.
pub finished_count :
    {s : System} → Reach s → ((i : ℕ) → i < n_proc → s.pc i ≡ finished) → s.count ≡ 6_400_000
finished_count {s} r all =
    let v = Reach-Consistent r in
    omega (
      arith,
      v.counted,
      total_const done_of n_proc rounds s.pc (λ i below. ap done_of (all i below)),
    )

-- A child that is in its loop.
abbrev busy : Pc → Bool
busy unborn = false
busy finished = false
busy _ = true

-- Nobody is at work any more.
pub record Ended (s : System) : Type 0 where
  pub parent : s.forking ≡ false
  pub children : (i : ℕ) → i < n_proc → (s.pc i ≡ unborn) ⊎ (s.pc i ≡ finished)

idle-cases : (p : Pc) → busy p ≡ false → (p ≡ unborn) ⊎ (p ≡ finished)
idle-cases unborn h = inl refl
idle-cases finished h = inr refl
idle-cases (head j) h = cc
idle-cases (spin j) h = cc
idle-cases (locked j) h = cc
idle-cases (loaded j v) h = cc
idle-cases (stored j) h = cc

module _ {s : System} (v : Consistent s) where
  holder_moves : (i : ℕ) (p : Pc) → s.pc i ≡ p → holds p ≡ true → (t : System) × Step s t
  holder_moves i unborn e h = cc
  holder_moves i finished e h = cc
  holder_moves i (head j) e h = cc
  holder_moves i (spin j) e h = cc
  holder_moves i (locked j) e h = (record s { pc = update s.pc i (loaded j s.count) }, read i j e)
  holder_moves i (loaded j w) e h = (_, write i j w e)
  holder_moves i (stored j) e h = (_, free i j e)

  -- A child at `tas` goes on, or the one that has the lock does.
  waiter_moves : (i j : ℕ) → s.pc i ≡ spin j → (t : System) × Step s t
  waiter_moves i j e = elim (Bool-cases (s.lock == 0)) [
    | inl open_now ↦ (_, take i j e (==→≡ s.lock 0 open_now))
    | inr taken ↦ let (k, it) = v.holder (ground arith) in holder_moves k (s.pc k) refl it
  ]

  loop_moves : (i j : ℕ) → s.pc i ≡ head j → (t : System) × Step s t
  loop_moves i j e = elim (Bool-cases (j == rounds)) [
    | inl all ↦ (_, leave i j e (==→≡ j rounds all))
    | inr more ↦ (_, enter i j e (ground (arith, v.fits i)))
  ]

  busy_moves : (i : ℕ) (p : Pc) → s.pc i ≡ p → busy p ≡ true → (t : System) × Step s t
  busy_moves i unborn e h = cc
  busy_moves i finished e h = cc
  busy_moves i (head j) e h = loop_moves i j e
  busy_moves i (spin j) e h = waiter_moves i j e
  busy_moves i (locked j) e h = holder_moves i (locked j) e refl
  busy_moves i (loaded j w) e h = holder_moves i (loaded j w) e refl
  busy_moves i (stored j) e h = holder_moves i (stored j) e refl

  parent_moves : s.forking ≡ true → (t : System) × Step s t
  parent_moves on = elim (Bool-cases (s.forked == n_proc)) [
    | inl all ↦ (_, parent_ends on (==→≡ s.forked n_proc all))
    | inr more ↦ (_, fork on (ground (arith, v.within)))
  ]

  progress : Ended s ⊎ ((t : System) × Step s t)
  progress = elim (Bool-cases s.forking) [
    | inl on ↦ inr (parent_moves on)
    | inr off ↦ elim (Option-cases (find_from (λ i. busy (s.pc i)) n_proc 0)) [
      | inl e ↦ inl (record {
        parent = off;
        children = λ i below.
            idle-cases (s.pc i)
              (find_from-none (λ i. busy (s.pc i)) n_proc 0 i e (omega arith) (omega arith));
      })
      | inr (k, e) ↦
          inr (busy_moves k (s.pc k) refl (find_from-some (λ i. busy (s.pc i)) n_proc 0 k e).passes)
    ]
  ]

-- No state that can be reached is stuck: parent and children have all ended, or one can move.
pub never_stuck : {s : System} → Reach s → Ended s ⊎ ((t : System) × Step s t)
never_stuck r = progress (Reach-Consistent r)
