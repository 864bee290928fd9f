-- ===== src/Sched/Switch.antt =====
-- `sched_switch` of ps9/sched.c: the dynamic priorities, the choice of the next task and the change
-- of context. What it prints is left out.
use ece.Base.{ℕ, zero, suc, ◌+◌, true, false, ◌&&◌, Option, none, some, ◌==◌, if◌then◌else◌}
use ece.Base.Int.{ℤ, pos, ◌-ℤ◌, ◌/ℤ◌, ltb_ℤ, leb_ℤ, to_int}
use mathlib.Core.Option
use ece.Sched.Types.{
  nproc, TaskState, ready, running, sleeping, zombie, user, returned, looping, waking, Caller,
  from_tick, from_wait, from_exit, Resume, at_start, at_fork, at_switch, Proc, Slots, Sched, modify,
  is_ready,
}

-- Stands for a read through a pointer that is null.
abbrev pub nobody : Proc
nobody = record {
  pid = 0;
  ppid = 0;
  state = zombie;
  priority = pos 0;
  niceval = pos 0;
  exit_code = pos 0;
  total_ticks = pos 0;
  stack = 0;
  ctx = record { resume = at_start; regs = record { sp = 0; bp = 0 } };
}

abbrev pub deref : Option Proc → Proc
deref none = nobody
deref (some p) = p

-- `*current`.
abbrev pub current : Sched → Proc
current s = deref (s.procs s.cur)

-- `temp` of the first loop, from `niceval` and `total_ticks`.
unfoldable pub dynamic_priority : ℤ → ℤ → ℤ
dynamic_priority niceval total_ticks =
    let weight = pos 20 -ℤ niceval in
    let temp = to_int (weight -ℤ total_ticks /ℤ weight) in
    if leb_ℤ temp (pos 0) then pos 1 else temp

abbrev pub set_priority : Proc → Proc
set_priority p = record p { priority = dynamic_priority p.niceval p.total_ticks }

-- The first loop: "Update all priorities".
abbrev pub reprioritise : Slots → Slots
reprioritise procs i = Option.map set_priority (procs i)

-- "Update the current state".
abbrev pub yield_state : TaskState → TaskState
yield_state sleeping = sleeping
yield_state zombie = zombie
yield_state _ = ready

-- `highest_priority` and `highest_priority_index` (-1 is `none`).
pub record Best : Type 0 where
  pub priority : ℤ
  pub index : Option ℕ

-- One round of the second loop.
abbrev pub consider : Option Proc → ℕ → Best → Best
consider none i b = b
consider (some p) i b =
    if is_ready p.state && ltb_ℤ b.priority p.priority
    then record { priority = p.priority; index = some i }
    else b

-- The second loop, with `n` rounds to go from slot `i`.
unfoldable pub select_from : Slots → ℕ → ℕ → Best → Best
select_from procs zero i b = b
select_from procs (suc n) i b = select_from procs n (i + 1) (consider (procs i) i b)

abbrev pub no_best : Best
no_best = record { priority = pos 0; index = none }

unfoldable pub select : Slots → Option ℕ
select procs = (select_from procs nproc 0 no_best).index

-- `restorectx(&(current->ctx), 1)`, up to the next point of `Point`: a child returns 0 from
-- `sched_fork`; a task that was switched away from unblocks the signals and returns to the caller
-- of `sched_switch`.
abbrev pub continue : Resume → Sched → Sched
continue at_start s = record s { masked = false; point = user }
continue at_fork s = record s { masked = false; point = returned (pos 0) }
continue (at_switch (from_tick p)) s = record s { masked = false; point = p }
continue (at_switch from_wait) s = record s { masked = false; point = waking }
continue (at_switch from_exit) s = record s { masked = false; point = user }

abbrev pub restore_ctx : Sched → Sched
restore_ctx s = let ctx = (current s).ctx in continue ctx.resume (record s { cpu = ctx.regs })

-- The early returns of `sched_switch`, which leave the signals blocked. The return of the timer's
-- handler restores the mask that the tick came in under; the loop of `sched_wait` blocks again.
abbrev pub stay : Caller → Sched → Sched
stay (from_tick p) s = record s { masked = false; point = p }
stay from_wait s = record s { masked = true; point = looping }
stay from_exit s = record s { point = user }

-- The end of `sched_switch`: save the current context, and go over to slot `i`.
unfoldable pub switch_to : Caller → ℕ → Sched → Sched
switch_to caller i s =
    let saved =
      modify s.procs s.cur
        (λ p. record p { ctx = record { resume = at_switch caller; regs = s.cpu } }) in
    restore_ctx (record s { procs = modify saved i (λ p. record p { state = running }); cur = i })

abbrev pub switch_best : Caller → Sched → Option ℕ → Sched
switch_best caller s none = stay caller s
switch_best caller s (some i) =
    if (deref (s.procs i)).pid == (current s).pid
    then stay caller (record s { procs = modify s.procs s.cur (λ p. record p { state = ready }) })
    else switch_to caller i s

-- The state in which `sched_switch` makes its choice.
unfoldable pub prepare : Sched → Sched
prepare s = record s {
  masked = true;
  procs = modify (reprioritise s.procs) s.cur (λ p. record p { state = yield_state p.state });
}

unfoldable pub sched_switch : Caller → Sched → Sched
sched_switch caller s = let s' = prepare s in switch_best caller s' (select s'.procs)
