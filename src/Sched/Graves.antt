-- ===== src/Sched/Graves.antt =====
-- The dead tasks of ps9/sched.c.
use ece.Base.{ℕ, ◌≡◌, ◌≢◌, ◌∙◌, inl, inr, true, none, some, ◌==◌, Bool-cases, ==→≡, arith}
use ece.Base.Int.{ℤ}
use ece.Sched.Types.{reaped, Proc, Sched, is_zombie}
use ece.Sched.Switch.{current}
use ece.Sched.Machine.{Step, Reach}
use ece.Sched.Safety.{Reach-Inv}
use ece.Sched.Shuffle.{Alike, Same}
use ece.Sched.Effects.{Step-Change}
use ece.Sched.Change.{Others, Change, shuffle, birth, death, release, Same-some, Shuffled-some}

-- A dead task in its slot.
pub record Grave (s : Sched) (i : ℕ) (z : Proc) : Type 0 where
  pub here : s.procs i ≡ some z
  pub dead : is_zombie z.state ≡ true

-- What becomes of it in a step: it stays as it is, or is freed, while its parent is the current task and
-- gets its exit code.
pub data Fate (freed : ℤ → ℤ) (s t : Sched) (i : ℕ) (z : Proc) : Type 0 where
  stays : (z' : Proc) → Grave t i z' → Alike z z' → Fate freed s t i z
  collected :
      t.procs i ≡ none
      → (current s).pid ≡ z.ppid
      → t.cur ≡ s.cur
      → t.point ≡ reaped (freed z.exit_code)
      → Fate freed s t i z

stays_Others :
    {freed : ℤ → ℤ} (s t : Sched) (k i : ℕ) (z : Proc)
    → Others k s.procs t.procs
    → i ≢ k
    → Grave s i z
    → Fate freed s t i z
stays_Others s t k i z others apart g =
    let same : Same (some z) (t.procs i) = rw g.here at (others i apart) in
    let (z', there, like) = Same-some z (t.procs i) same in
    stays z' (record { here = there; dead = like.life ∙ g.dead }) like

Change-Fate :
    {freed : ℤ → ℤ} {dies : ℤ → Type 0} {s t : Sched} (i : ℕ) (z : Proc)
    → Change freed dies s t
    → Grave s i z
    → Fate freed s t i z
Change-Fate {s = s} {t} i z (shuffle h) g =
    let (z', there, like) = Shuffled-some s.procs t.procs i z h.slots g.here in
    stays z' (record { here = there; dead = like.life ∙ g.dead }) like
Change-Fate {s = s} {t} i z (birth b) g =
    stays_Others s t b.slot i z b.others (λ same. ground (arith, b.vacant, g.here)) g
Change-Fate {s = s} {t} i z (death code by d) g =
    stays_Others s t s.cur i z d.others (λ same. ground (arith, d.was, d.lived, g.here, g.dead)) g
Change-Fate {s = s} {t} i z (release r) g = elim (Bool-cases (i == r.slot)) [
  | inl hit ↦
      let same : i ≡ r.slot = ==→≡ i r.slot hit in
      let one : z ≡ r.task = ground (arith, r.was, g.here) in
      collected (rw same r.gone) (ground (arith, r.mother, r.of)) r.same_task (rw one r.code)
  | inr other ↦ stays_Others s t r.slot i z r.others (ground arith) g
]

-- A step from a reachable state leaves a zombie in its slot, as a zombie with the same pid, parent
-- and exit code; or it empties the slot, the current task is the zombie's parent and stays current,
-- and it then stands where `sched_wait` has returned with what a read of the freed exit code gives.
pub Step-Fate :
    {freed : ℤ → ℤ} {s t : Sched}
    → Reach freed s
    → Step freed s t
    → (i : ℕ) (z : Proc) → Grave s i z
    → Fate freed s t i z
Step-Fate r st i z g = Change-Fate i z (Step-Change (Reach-Inv r) st) g
