-- ===== src/Proc/Mlfq.antt =====
-- The multi-level feedback queue of kernel/proc.c (get_timeslice, init_mlfq_proc,
-- boost_all_priorities, scheduler, yield, mlfq_tick) and the timer path of kernel/trap.c that
-- drives it.
pub mod Slices
pub mod Starvation
pub mod Pick
pub mod Timer
pub mod Rotation
pub mod Turns
pub mod Race
mod Tests
use mathlib.Core.Option
use os_cea.Base.{
  ℕ, ◌+◌, ◌-◌, ◌%◌, ◌^◌, Bool, true, false, ◌&&◌, ◌||◌, Option, none, some, List, map, leb, ltb,
  ◌==◌, if◌then◌else◌, modify, set, find_index?,
}
use os_cea.Proc.{
  Proc, Kernel, ProcState, runnable, running, is_runnable, is_running, is_sleeping, myproc, inc32,
  ticks_chan,
}

abbrev pub mlfq_high : ℕ
mlfq_high = 0

abbrev pub mlfq_medium : ℕ
mlfq_medium = 1

abbrev pub mlfq_low : ℕ
mlfq_low = 2

abbrev pub starvation_threshold : ℕ
starvation_threshold = 200

pub get_timeslice : ℕ → ℕ
get_timeslice priority =
    if priority == mlfq_high
    then 4
    else if priority == mlfq_medium
    then 8
    else if priority == mlfq_low
    then 16
    else 16

unfoldable pub init_mlfq_proc : ℕ → Proc → Proc
unfolding get_timeslice
init_mlfq_proc ticks p = record p {
  priority = mlfq_high;
  timeslice = get_timeslice mlfq_high;
  timeslice_used = 0;
  cpu_ticks = 0;
  sched_count = 0;
  yielded_io = 0;
  start_time = ticks;
  end_time = 0;
  first_run = 0;
  total_wait = 0;
  last_scheduled = ticks;
}

-- The body of the loop of `boost_all_priorities`.
pub boost : Proc → Proc
boost p =
    if is_runnable p.state || is_running p.state
    then record p { priority = mlfq_high; timeslice = get_timeslice mlfq_high; timeslice_used = 0 }
    else p

pub boost_all_priorities : Kernel → Kernel
boost_all_priorities k = record k { procs = map boost k.procs }

-- `if(p->priority < MLFQ_LOW) { p->priority++; … }`
pub demote : Proc → Proc
demote p =
    if ltb p.priority mlfq_low
    then record p { priority = p.priority + 1; timeslice = get_timeslice (p.priority + 1) }
    else p

-- What `mlfq_tick` does to the current process.
pub charge : Proc → Proc
charge p =
    if is_running p.state
    then (if leb p.timeslice (p.timeslice_used + 1)
        then record (demote (record p { cpu_ticks = inc32 p.cpu_ticks })) {
          yielded_io = 0;
          timeslice_used = 0;
          state = runnable;
        }
        else record p { cpu_ticks = inc32 p.cpu_ticks; timeslice_used = p.timeslice_used + 1 })
    else p

-- The starvation counter's part of `mlfq_tick`.
pub count_starvation : Kernel → Kernel
count_starvation k =
    if leb starvation_threshold (k.starvation_counter + 1)
    then record (boost_all_priorities k) { starvation_counter = 0 }
    else record k { starvation_counter = k.starvation_counter + 1 }

pub mlfq_tick : ℕ → Kernel → Kernel
mlfq_tick cpu k = elim (myproc k cpu) [
  | none ↦ count_starvation k
  | some i ↦ record (count_starvation k) { procs = modify (count_starvation k).procs i charge }
]

-- `p->state == RUNNABLE && p->priority == priority`
abbrev pub candidate : ℕ → Proc → Bool
candidate priority p = is_runnable p.state && p.priority == priority

-- The nested loops of `scheduler`: the slot that they stop at, if any.
pub pick : List Proc → Option ℕ
pick procs = elim (find_index? (candidate mlfq_high) procs) [
  | some i ↦ some i
  | none ↦ elim (find_index? (candidate mlfq_medium) procs) [
    | some i ↦ some i
    | none ↦ find_index? (candidate mlfq_low) procs
  ]
]

-- What `scheduler` writes to the chosen process before `swtch`. `ticks - last_scheduled` is in
-- uint64.
pub dispatch : ℕ → Proc → Proc
dispatch ticks p = record p {
  state = running;
  sched_count = inc32 p.sched_count;
  first_run = if p.first_run == 0 then ticks else p.first_run;
  total_wait = (p.total_wait + (ticks + 2 ^ 64 - p.last_scheduled)) % 2 ^ 64;
}

-- One round of `scheduler` on a CPU, up to the `swtch` or the `wfi`.
pub scheduler : ℕ → Kernel → Kernel
scheduler cpu k = elim (pick k.procs) [
  | none ↦ k
  | some i ↦ record k {
    procs = modify k.procs i (dispatch k.ticks);
    cpus = set k.cpus cpu (some i);
  }
]

-- What `scheduler` does when the process has switched back to it.
pub switch_back : ℕ → Kernel → Kernel
switch_back cpu k = elim (myproc k cpu) [
  | none ↦ k
  | some i ↦ record k {
    procs = modify k.procs i (λ p. record p { last_scheduled = k.ticks });
    cpus = set k.cpus cpu none;
  }
]

-- `yield` up to `sched`; no test of `sched` can fail on the state RUNNABLE.
pub give_up : Proc → Proc
give_up p = record p {
  yielded_io = if is_running p.state then 1 else p.yielded_io;
  state = runnable;
}

pub yield : ℕ → Kernel → Kernel
yield cpu k = elim (myproc k cpu) [
  | none ↦ k
  | some i ↦ switch_back cpu (record k { procs = modify k.procs i give_up })
]
