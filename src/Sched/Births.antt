-- ===== src/Sched/Births.antt =====
-- What sched_fork and sched_exit of ps9/sched.c make of the lives of the tasks.
use ece.Base.{
  ℕ, ◌-◌, ◌≡◌, refl, ◌∙◌, true, false, Option, none, some, find_from, find_from-some, arith,
}
use ece.Base.Int.{ℤ}
use ece.Sched.Types.{nproc, running, zombie, Proc, Sched, modify, is_zombie}
use ece.Sched.Switch.{current}
use ece.Sched.Calls.{nextpid, child, enlist, sched_fork, sleeps_as, bury, wake, sched_exit}
use ece.Sched.Invariant.{Sound}
use ece.Sched.Moves.{nextpid-Found}
use ece.Sched.Shuffle.{
  Same-refl, Same-trans, Shuffled-refl, modify-Shuffled, Shuffles, Shuffles-trans,
  restore_ctx-Shuffles,
}
use ece.Sched.Change.{
  Others-update, Died, Change, shuffle, birth, death, kept-Shuffles, Shuffled-some,
}

child-lives :
    (parent raw : Proc) (pid area : ℕ) (s : Sched)
    → is_zombie (child parent pid area s.cpu raw).state ≡ false
unfolding child
child-lives parent raw pid area s = refl

child-ppid :
    (parent raw : Proc) (pid area : ℕ) (s : Sched)
    → (child parent pid area s.cpu raw).ppid ≡ parent.pid
unfolding child
child-ppid parent raw pid area s = refl

enlist-Change :
    {dies : ℤ → Type 0} (freed : ℤ → ℤ) (raw : Proc) (area : ℕ) (s : Sched) (o : Option ℕ)
    → nextpid s.procs ≡ o
    → is_zombie (current s).state ≡ false
    → Sound s
    → Change freed dies s (enlist raw area s o)
unfolding enlist
enlist-Change freed raw area s none e lives v = shuffle (kept-Shuffles s _ refl refl)
enlist-Change freed raw area s (some pid) e lives v =
    let f = nextpid-Found s.procs pid e in
    let (p, here) = v.live in
    let c = child (current s) pid area s.cpu raw in
    birth (record {
      slot = pid - 1;
      parent = p;
      task = c;
      inside = omega (arith, f.above, f.below);
      mother = (here, ground arith);
      vacant = ground (arith, f.passes);
      there = ground arith;
      lives = child-lives (current s) raw pid area s;
      of = child-ppid (current s) raw pid area s ∙ ground arith;
      others = Others-update s.procs (pid - 1) (some c);
      count = refl;
    })

pub fork-Change :
    {dies : ℤ → Type 0} (freed : ℤ → ℤ) (block : Option Proc) (area : ℕ) (s : Sched)
    → is_zombie (current s).state ≡ false
    → Sound s
    → Change freed dies s (sched_fork block area s)
unfolding sched_fork
fork-Change freed none area s lives v = shuffle (kept-Shuffles s _ refl refl)
fork-Change freed (some raw) area s lives v =
    enlist-Change freed raw area s (nextpid s.procs) refl lives v

-- The wake of a parent.
wake-Shuffles :
    (s : Sched) (parent : ℕ) (o : Option ℕ)
    → ((i : ℕ) → o ≡ some i → sleeps_as parent (s.procs i) ≡ true)
    → Shuffles s (wake s o)
unfolding wake
wake-Shuffles s parent none h = record { slots = Shuffled-refl s.procs; count = refl }
wake-Shuffles s parent (some i) h =
    let procs' = modify s.procs i (λ p. record p { state = running }) in
    let t : Sched = record s { cur = i; procs = procs' } in
    Shuffles-trans s t (wake s (some i))
      (record {
        slots =
            modify-Shuffled s.procs i (λ p. record p { state = running })
              (λ p e. ground (arith, h i refl));
        count = refl;
      })
      (restore_ctx-Shuffles t)

-- A death, and then a shuffle.
Died-Shuffles : (code : ℤ) (s t u : Sched) → Died code s t → Shuffles t u → Died code s u
Died-Shuffles code s t u d h =
    let (q, there, like) = Shuffled-some t.procs u.procs s.cur d.after h.slots d.is in
    record {
      before = d.before;
      after = q;
      inside = d.inside;
      was = d.was;
      lived = d.lived;
      is = there;
      dead = like.life ∙ d.dead;
      code_kept = like.code ∙ d.code_kept;
      pid_kept = like.pid ∙ d.pid_kept;
      ppid_kept = like.ppid ∙ d.ppid_kept;
      others =
          λ j other. Same-trans (s.procs j) (t.procs j) (u.procs j) (d.others j other) (h.slots j);
      count = h.count ∙ d.count;
    }

bury-Died :
    (code : ℤ) (s : Sched)
    → Sound s
    → is_zombie (current s).state ≡ false
    → Died code s (bury code s)
unfolding bury
bury-Died code s v lives =
    let (p, here) = v.live in
    record {
      before = p;
      after = record p { state = zombie; exit_code = code };
      inside = (v.fits s.cur p here).inside;
      was = here;
      lived = ground arith;
      is = ground arith;
      dead = refl;
      code_kept = refl;
      pid_kept = refl;
      ppid_kept = refl;
      others = λ j other.
          let procs' = modify s.procs s.cur (λ q. record q { state = zombie; exit_code = code }) in
          let kept : procs' j ≡ s.procs j = ground arith in rw kept (Same-refl (s.procs j));
      count = refl;
    }

pub exit-Change :
    (freed : ℤ → ℤ) (code : ℤ) (s : Sched)
    → Sound s
    → is_zombie (current s).state ≡ false
    → Change freed (λ c. c ≡ code) s (sched_exit code s)
unfolding sched_exit
exit-Change freed code s v lives =
    let t = bury code s in
    let parent = (current t).ppid in
    let seek = λ (i : ℕ). sleeps_as parent (t.procs i) in
    death code refl (
      Died-Shuffles code s t (sched_exit code s) (bury-Died code s v lives) (
        wake-Shuffles t parent (find_from seek nproc 0)
          (λ i e. (find_from-some seek nproc 0 i e).passes)))
