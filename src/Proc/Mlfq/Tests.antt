-- ===== src/Proc/Mlfq/Tests.antt =====
-- The scheduler's theorems on a table of three processes.
use os_cea.Base.{
  zero, suc, ℕ, ◌+◌, ◌≤◌, ◌<◌, ◌⊎◌, ◌≡◌, ◌≢◌, ◌↔◌, refl, true, ◌||◌, Option, some, none, List, [],
  ◌∷◌, get_elem?, arith,
}
use os_cea.Proc.{
  Proc, Kernel, ProcState, running, runnable, sleeping, is_runnable, is_running, myproc,
}
use os_cea.Proc.Mlfq.{
  demote, dispatch, charge, count_starvation, yield, switch_back, give_up, mlfq_high, mlfq_low,
  get_timeslice, pick, mlfq_tick, scheduler,
}
use Prim.Native.Nat.{min}
use os_cea.Proc.Sleep.{wakeup}
use os_cea.Proc.Mlfq.Slices.{HasSlice}
use os_cea.Proc.Mlfq.Turns.{Served, again, not_yet, timer_demotes}
use os_cea.Proc.Mlfq.Starvation.{mlfq_tick_boosts}
use os_cea.Proc.Mlfq.Pick.{IsIdle, IsChosen, pick_iff}
use os_cea.Proc.Mlfq.Timer.{clockintr, kerneltrap_timer, kerneltrap_timer_marks_io}
use os_cea.Proc.Mlfq.Rotation.{no_rotation}
use os_cea.Proc.Mlfq.Race.{IsExclusive, scheduler-IsExclusive, mlfq_tick_runs_twice}

-- A process in a state, with a pid, at a level with its slice, and so many ticks of it used.
abbrev task : ProcState → ℕ → ℕ → ℕ → ℕ → Proc
task state pid priority timeslice used = record {
  state = state;
  chan = 0;
  killed = 0;
  xstate = 0;
  pid = pid;
  parent = none;
  sz = 0;
  pagetable = 0;
  trapframe = 0;
  name = [];
  priority = priority;
  timeslice = timeslice;
  timeslice_used = used;
  cpu_ticks = 0;
  sched_count = 0;
  yielded_io = 0;
  start_time = 0;
  end_time = 0;
  first_run = 0;
  total_wait = 0;
  last_scheduled = 0;
}

abbrev machine : List Proc → ℕ → List (Option ℕ) → Kernel
machine procs counter cpus = record {
  procs = procs;
  nextpid = 9;
  ticks = 100;
  starvation_counter = counter;
  cpus = cpus;
  initproc = some 0;
}

-- The first process sleeps, the second is at the lowest level, the third at the middle one.
abbrev waiting : List Proc
waiting = task sleeping 1 0 4 0 ∷ task runnable 2 2 16 3 ∷ task runnable 3 1 8 2 ∷ []

-- A process in its last tick at the highest level, on CPU 0.
abbrev alone : List Proc
alone = task sleeping 1 0 4 0 ∷ task running 2 0 4 3 ∷ []

pick-waiting : pick waiting ≡ some 2
unfolding pick
pick-waiting = refl

pick_iff_example : (pick waiting ≡ some 2) ↔ IsChosen waiting 2
pick_iff_example = pick_iff waiting 2

task-HasSlice : HasSlice (task running 2 0 4 0)
unfolding get_timeslice
task-HasSlice = ground arith

four_ticks : 4 ≤ get_timeslice 0
unfolding get_timeslice
four_ticks = omega arith

-- Interrupted on CPU 0, and chosen again there at once.
abbrev once : Kernel → Kernel
once k = scheduler 0 (kerneltrap_timer 0 k)

abbrev started : Kernel
started = machine (task sleeping 1 0 4 0 ∷ task running 2 0 4 0 ∷ []) 5 (some 1 ∷ [])

started-Served : Served 1 4 started (once (once (once (once started))))
unfolding kerneltrap_timer clockintr mlfq_tick charge demote count_starvation yield switch_back
    give_up scheduler dispatch pick wakeup
started-Served =
    again 0 0 (kerneltrap_timer 0 (once (once (once started))))
      (again 0 0 (kerneltrap_timer 0 (once (once started)))
        (again 0 0 (kerneltrap_timer 0 (once started))
          (again 0 0 (kerneltrap_timer 0 started) not_yet refl (omega arith) refl refl
            (omega arith))
          refl (omega arith) refl refl (omega arith))
        refl (omega arith) refl refl (omega arith))
      refl (omega arith) refl refl (omega arith)

timer_demotes_example :
    (q : Proc) × (get_elem? (once (once (once (once started)))).procs 1 ≡ some q)
    × (q.state ≡ running)
    × (((4 < get_timeslice 0) × (q.priority ≡ 0) × (q.timeslice ≡ 4) × (q.timeslice_used ≡ 4))
        ⊎ ((4 ≡ get_timeslice 0)
            × (q.priority ≡ min (0 + 1) mlfq_low)
            × (q.timeslice ≡ get_timeslice (min (0 + 1) mlfq_low))
            × (q.timeslice_used ≡ 0)))
timer_demotes_example =
    timer_demotes 1 4 (task running 2 0 4 0) started (once (once (once (once started)))) refl
      task-HasSlice refl refl four_ticks started-Served

mlfq_tick_boosts_example :
    ((j : ℕ) (p : Proc)
      → get_elem? (mlfq_tick 0 (machine alone 199 (some 1 ∷ []))).procs j ≡ some p
      → (is_runnable p.state || is_running p.state) ≡ true
      → p.priority ≡ mlfq_high)
    × ((mlfq_tick 0 (machine alone 199 (some 1 ∷ []))).starvation_counter ≡ 0)
mlfq_tick_boosts_example = mlfq_tick_boosts 0 (machine alone 199 (some 1 ∷ [])) refl

abbrev idle : Kernel
idle = machine waiting 5 (none ∷ none ∷ [])

idle_cpus : (c i : ℕ) → myproc idle c ≢ some i
idle_cpus zero i e = cc
idle_cpus (suc zero) i e = cc
idle_cpus (suc (suc c)) i e = cc

idle-IsExclusive : IsExclusive idle
idle-IsExclusive = record {
  runs = λ c i e. absurd (idle_cpus c i e);
  alone = λ c d i e f. absurd (idle_cpus c i e);
}

scheduler-IsExclusive_example : IsExclusive (scheduler 1 idle)
scheduler-IsExclusive_example = scheduler-IsExclusive 1 idle idle-IsExclusive

last_tick-HasSlice : HasSlice (task running 2 0 4 3)
unfolding get_timeslice
last_tick-HasSlice = ground arith

alone-IsIdle : (l : ℕ) → l ≤ mlfq_low → IsIdle alone l
alone-IsIdle l le zero p e = ground arith
alone-IsIdle l le (suc zero) p e = ground arith
alone-IsIdle l le (suc (suc j)) p e = ground arith

abbrev pair : Kernel
pair = machine alone 5 (some 1 ∷ none ∷ [])

mlfq_tick_runs_twice_example :
    (myproc (scheduler 1 (mlfq_tick 0 pair)) 0 ≡ some 1)
    × (myproc (scheduler 1 (mlfq_tick 0 pair)) 1 ≡ some 1)
    × ¬ IsExclusive (scheduler 1 (mlfq_tick 0 pair))
mlfq_tick_runs_twice_example =
    mlfq_tick_runs_twice 0 1 pair 1 (task running 2 0 4 3) (omega arith) (omega arith) refl refl
      last_tick-HasSlice refl refl alone-IsIdle (omega arith)

abbrev busy : Kernel
busy = machine (task running 2 1 8 2 ∷ []) 5 (some 0 ∷ [])

kerneltrap_timer_marks_io_example :
    (q : Proc) × (get_elem? (kerneltrap_timer 0 busy).procs 0 ≡ some q)
    × (q.state ≡ runnable)
    × (q.yielded_io ≡ 1)
    × (q.priority ≡ 1)
    × (q.timeslice_used ≡ 3)
    × (myproc (kerneltrap_timer 0 busy) 0 ≡ none)
kerneltrap_timer_marks_io_example =
    kerneltrap_timer_marks_io 0 busy 0 (task running 2 1 8 2) refl refl (omega arith) refl
      (omega arith)

no_rotation_example : pick (kerneltrap_timer 1 (scheduler 1 idle)).procs ≡ some 2
no_rotation_example =
    no_rotation 1 idle 2 (task runnable 3 1 8 2) (omega arith) (omega arith) (omega arith)
      pick-waiting refl (omega arith)
