-- ===== src/Proc/Mlfq/Slices.antt =====
-- The invariant of the MLFQ fields of one process (kernel/proc.c: init_mlfq_proc, boost_all_priorities, mlfq_tick, yield, scheduler).
use os_cea.Base.{ℕ, ◌≤◌, ◌<◌, ◌≡◌, arith}
use os_cea.Proc.{Proc}
use os_cea.Proc.Mlfq.{
  mlfq_low, get_timeslice, init_mlfq_proc, boost, demote, charge, dispatch, give_up,
}

-- A level that exists, the slice of that level, and a slice not used up.
pub record HasSlice (p : Proc) : Type 0 where
  pub level : p.priority ≤ mlfq_low
  pub slice : p.timeslice ≡ get_timeslice p.priority
  pub room : p.timeslice_used < p.timeslice

pub init_mlfq_proc-HasSlice : (ticks : ℕ) (p : Proc) → HasSlice (init_mlfq_proc ticks p)
unfolding init_mlfq_proc get_timeslice
init_mlfq_proc-HasSlice ticks p = ground arith

pub boost-HasSlice : {p : Proc} → HasSlice p → HasSlice (boost p)
unfolding boost get_timeslice
boost-HasSlice h = ground arith

pub charge-HasSlice : {p : Proc} → HasSlice p → HasSlice (charge p)
unfolding charge demote get_timeslice
charge-HasSlice h = ground arith

pub dispatch-HasSlice : {p : Proc} (ticks : ℕ) → HasSlice p → HasSlice (dispatch ticks p)
unfolding dispatch
dispatch-HasSlice ticks h = record { level = h.level; slice = h.slice; room = h.room }

pub give_up-HasSlice : {p : Proc} → HasSlice p → HasSlice (give_up p)
unfolding give_up
give_up-HasSlice h = record { level = h.level; slice = h.slice; room = h.room }
