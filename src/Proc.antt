-- ===== src/Proc.antt =====
-- The process table of kernel/proc.h and kernel/proc.c: the data that the modules below share.
-- An `int` that the code keeps small is a ℕ; a counter that is only ever incremented keeps the
-- wrap-around of its width. A pointer to a slot of `proc[]` is the slot's index, and a null pointer
-- is `none`. A page address is a ℕ with 0 for null. The lock of a slot is held around each operation.
pub mod Sleep
pub mod Mlfq
pub mod Life
use os_cea.Base.{ℕ, ◌+◌, ◌%◌, ◌^◌, Bool, true, false, Option, none, some, List, get_or}

-- `enum procstate`
pub data ProcState : Type 0 where
  unused used sleeping runnable running zombie : ProcState

abbrev pub is_unused : ProcState → Bool
is_unused unused = true
is_unused used = false
is_unused sleeping = false
is_unused runnable = false
is_unused running = false
is_unused zombie = false

abbrev pub is_sleeping : ProcState → Bool
is_sleeping unused = false
is_sleeping used = false
is_sleeping sleeping = true
is_sleeping runnable = false
is_sleeping running = false
is_sleeping zombie = false

abbrev pub is_runnable : ProcState → Bool
is_runnable unused = false
is_runnable used = false
is_runnable sleeping = false
is_runnable runnable = true
is_runnable running = false
is_runnable zombie = false

abbrev pub is_running : ProcState → Bool
is_running unused = false
is_running used = false
is_running sleeping = false
is_running runnable = false
is_running running = true
is_running zombie = false

abbrev pub is_zombie : ProcState → Bool
is_zombie unused = false
is_zombie used = false
is_zombie sleeping = false
is_zombie runnable = false
is_zombie running = false
is_zombie zombie = true

-- `struct proc`, less the saved registers and the open files. A channel is a ℕ with 0 for null.
pub record Proc : Type 0 where
  pub state : ProcState
  pub chan : ℕ
  pub killed : ℕ
  pub xstate : ℕ
  pub pid : ℕ
  pub parent : Option ℕ
  pub sz : ℕ
  pub pagetable : ℕ
  pub trapframe : ℕ
  pub name : List ℕ
  pub priority : ℕ
  pub timeslice : ℕ
  pub timeslice_used : ℕ
  pub cpu_ticks : ℕ
  pub sched_count : ℕ
  pub yielded_io : ℕ
  pub start_time : ℕ
  pub end_time : ℕ
  pub first_run : ℕ
  pub total_wait : ℕ
  pub last_scheduled : ℕ

-- The kernel's scheduling state: `proc[]`, `nextpid`, `ticks`, `starvation_counter`, the `proc`
-- field of each `cpus[]` entry, and `initproc`.
pub record Kernel : Type 0 where
  pub procs : List Proc
  pub nextpid : ℕ
  pub ticks : ℕ
  pub starvation_counter : ℕ
  pub cpus : List (Option ℕ)
  pub initproc : Option ℕ

-- `myproc()` on a given CPU
abbrev pub myproc : Kernel → ℕ → Option ℕ
myproc k cpu = get_or k.cpus cpu none

-- The increment of a 32-bit counter.
abbrev pub inc32 : ℕ → ℕ
inc32 n = (n + 1) % 2 ^ 32

-- `&ticks` and `&proc[i]` as channels.
abbrev pub ticks_chan : ℕ
ticks_chan = 1

abbrev pub proc_chan : ℕ → ℕ
proc_chan i = i + 2
