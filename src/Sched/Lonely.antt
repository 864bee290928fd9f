-- ===== src/Sched/Lonely.antt =====
-- The initial task of ps9/sched.c in `sched_wait` with no other task left.
use ece.Base.{
  ℕ, zero, suc, ◌≡◌, ◌≢◌, refl, sym, ◌∙◌, inl, inr, false, none, some, find_from, find_from-some,
  Option-cases, arith,
}
use ece.Base.Int.{ℤ}
use ece.Sched.Types.{nproc, sleeping, looping, dozing, from_wait, Proc, Sched, modify, is_zombie}
use ece.Sched.Switch.{current, prepare, stay, sched_switch}
use ece.Sched.Calls.{is_dead_child, reap, wait_loop, doze}
use ece.Sched.Invariant.{Sound}
use ece.Sched.Choice.{idle, keep, change, sched_switch-Choice}
use ece.Sched.Keep.{prepare-Sound}
use ece.Sched.Reap.{is_dead_child-some, Valid-sleep}

-- The current task is in its loop, and there is no other.
pub record Lonely (s : Sched) : Type 0 where
  pub alone : (i : ℕ) → i ≢ s.cur → s.procs i ≡ none
  pub alive : is_zombie (current s).state ≡ false
  pub waits : s.point ≡ looping
  pub sound : Sound s

no_dead_child :
    (s : Sched)
    → Lonely s
    → find_from (λ i. is_dead_child (current s).pid (s.procs i)) nproc 0 ≡ none
no_dead_child s h =
    elim (Option-cases (find_from (λ i. is_dead_child (current s).pid (s.procs i)) nproc 0)) [
      | inl e ↦ e
      | inr (i, e) ↦
          let f = find_from-some (λ i. is_dead_child (current s).pid (s.procs i)) nproc 0 i e in
          let (z, here, of, dead) = is_dead_child-some (current s).pid (s.procs i) f.passes in
          absurd (ground (arith, h.alone i, h.alive))
    ]

-- The state between the two halves of a round.
abbrev asleep : Sched → Sched
asleep s = record s {
  procs = modify s.procs s.cur (λ p. record p { state = sleeping });
  masked = false;
  point = dozing;
}

wait_loop-asleep : (freed : ℤ → ℤ) (s : Sched) → Lonely s → wait_loop freed s ≡ asleep s
unfolding wait_loop reap
wait_loop-asleep freed s h = rw (no_dead_child s h)

prepare-alone :
    (s : Sched) (j : ℕ) (q : Proc)
    → Lonely s
    → (prepare (asleep s)).procs j ≡ some q
    → (j ≡ s.cur) × (q.state ≡ sleeping)
unfolding prepare
prepare-alone s j q h e = ground (arith, h.alone j)

-- Nothing is READY, so `sched_switch` comes straight back.
round_idles :
    (s : Sched) → Lonely s → sched_switch from_wait (asleep s) ≡ stay from_wait (prepare (asleep s))
round_idles s h =
    elim (sched_switch-Choice from_wait (asleep s) (Valid-sleep h.sound (no_dead_child s h))) [
      | idle unready e ↦ e
      | keep p f at same loaded ↦ absurd (ground (arith, prepare-alone s s.cur p h f.here, f.is))
      | change k p other f w ↦ absurd (ground (arith, prepare-alone s k p h f.here, f.is))
    ]

round_alone : (s : Sched) (i : ℕ) → Lonely s → i ≢ s.cur → (prepare (asleep s)).procs i ≡ none
unfolding prepare
round_alone s i h other = ground (arith, h.alone i)

round_alive : (s : Sched) → Lonely s → is_zombie (current (prepare (asleep s))).state ≡ false
unfolding prepare
round_alive s h = let (p, here) = h.sound.live in ground arith

prepare-cur : (s : Sched) → (prepare (asleep s)).cur ≡ s.cur
unfolding prepare
prepare-cur s = refl

round-Lonely : (s : Sched) → Lonely s → Lonely (stay from_wait (prepare (asleep s)))
round-Lonely s h = record {
  alone = λ i other. round_alone s i h (λ e. other (e ∙ sym (prepare-cur s)));
  alive = round_alive s h;
  waits = refl;
  sound = prepare-Sound (asleep s) (Valid-sleep h.sound (no_dead_child s h));
}

-- A round of the loop of `sched_wait`.
pub round : (ℤ → ℤ) → Sched → Sched
round freed s = doze (wait_loop freed s)

pub rounds : (ℤ → ℤ) → ℕ → Sched → Sched
rounds freed zero s = s
rounds freed (suc n) s = rounds freed n (round freed s)

round_keeps : (freed : ℤ → ℤ) (s : Sched) → Lonely s → Lonely (round freed s)
unfolding round doze
round_keeps freed s h = rw (wait_loop-asleep freed s h, round_idles s h) (round-Lonely s h)

-- A task in the loop of `sched_wait`, with no other task in the table, is there after any number of
-- rounds: the call does not return.
pub Lonely-wait_spins :
    (freed : ℤ → ℤ) (n : ℕ) (s : Sched) → Lonely s → (rounds freed n s).point ≡ looping
unfolding rounds
Lonely-wait_spins freed zero s h = h.waits
Lonely-wait_spins freed (suc n) s h =
    Lonely-wait_spins freed n (round freed s) (round_keeps freed s h)
