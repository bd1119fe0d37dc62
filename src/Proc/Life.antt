-- ===== src/Proc/Life.antt =====
-- The life of a process in kernel/proc.c: allocproc, freeproc, kfork, reparent, kexit, kwait, kkill,
-- setkilled, killed and getprocinfo, as they change the process table. The pages come from other parts of the
-- kernel: what kalloc, proc_pagetable, uvmcopy and copyout answer is an argument.
pub mod Pids
pub mod Kill
pub mod Family
pub mod Exit
mod Tests
use os_cea.Base.{
  ℕ, zero, suc, ◌+◌, Bool, true, false, not, ◌&&◌, ◌||◌, Option, none, some, List, ◌==◌,
  if◌then◌else◌, get_elem?, modify, set, find_index?, length,
}
use os_cea.Proc.{
  Proc, Kernel, unused, used, sleeping, runnable, zombie, is_unused, is_sleeping, is_zombie, myproc,
  inc32, proc_chan,
}
use os_cea.Proc.Sleep.{wakeup, fall_asleep}
use os_cea.Proc.Mlfq.{init_mlfq_proc, switch_back}

-- The table's side of `freeproc`; the pages go back to the allocator.
pub freeproc : Proc → Proc
freeproc p = record p {
  trapframe = 0;
  pagetable = 0;
  sz = 0;
  pid = 0;
  parent = none;
  name = set p.name 0 0;
  chan = 0;
  killed = 0;
  xstate = 0;
  state = unused;
}

-- `p->pid = allocpid(); p->state = USED; init_mlfq_proc(p);`
pub claim : ℕ → ℕ → Proc → Proc
claim pid ticks p = init_mlfq_proc ticks (record p { pid = pid; state = used })

-- `frame` and `table` are what kalloc and proc_pagetable return, 0 where they fail. The slot, if
-- any, and the kernel's state.
pub allocproc : ℕ → ℕ → Kernel → Option ℕ × Kernel
allocproc frame table k = elim (find_index? (λ p. is_unused p.state) k.procs) [
  | none ↦ (none, k)
  | some i ↦
      (let k' : Kernel = record k {
        nextpid = inc32 k.nextpid;
        procs = modify k.procs i (claim k.nextpid k.ticks);
      } in
        if frame == 0 || table == 0
        then (none, record k' { procs = modify k'.procs i freeproc })
        else (
          some i,
          record k' {
            procs = modify k'.procs i (λ p. record p { trapframe = frame; pagetable = table });
          },
        ))
]

-- What `kfork` copies to the child, up to `np->state = RUNNABLE`.
pub inherit : ℕ → Proc → Proc → Proc
inherit i p np = record np { sz = p.sz; name = p.name; parent = some i; state = runnable }

-- `copied` is whether uvmcopy succeeds. The child's pid, `none` for -1.
pub kfork : ℕ → ℕ → ℕ → Bool → Kernel → Option ℕ × Kernel
kfork i frame table copied k =
    let (slot, k') = allocproc frame table k in
    elim slot [
      | none ↦ (none, k')
      | some j ↦ elim (get_elem? k.procs i) [
        | none ↦ (none, k')
        | some p ↦
            if copied
            then (some k.nextpid, record k' { procs = modify k'.procs j (inherit i p) })
            else (none, record k' { procs = modify k'.procs j freeproc })
      ]
    ]

-- `pp->parent == p`
abbrev pub is_child : ℕ → Proc → Bool
is_child i p = elim p.parent [ none ↦ false | some j ↦ j == i ]

-- A pointer as a channel.
abbrev pub chan_of : Option ℕ → ℕ
chan_of none = 0
chan_of (some i) = proc_chan i

-- One round of the loop of `reparent`, at slot `j`.
pub reparent_one : ℕ → ℕ → ℕ → Kernel → Kernel
reparent_one cpu i j k = elim (get_elem? k.procs j) [
  | none ↦ k
  | some pp ↦
      if is_child i pp
      then wakeup cpu (chan_of k.initproc)
          (record k { procs = modify k.procs j (λ p. record p { parent = k.initproc }) })
      else k
]

pub reparent_from : ℕ → ℕ → ℕ → ℕ → Kernel → Kernel
reparent_from zero cpu i j k = k
reparent_from (suc n) cpu i j k = reparent_from n cpu i (j + 1) (reparent_one cpu i j k)

pub reparent : ℕ → ℕ → Kernel → Kernel
reparent cpu i k = reparent_from (length k.procs) cpu i 0 k

-- The parent of slot `i`.
abbrev pub parent_of : Kernel → ℕ → Option ℕ
parent_of k i = elim (get_elem? k.procs i) [ none ↦ none | some p ↦ p.parent ]

pub bury : ℕ → ℕ → Proc → Proc
bury status ticks p = record p { xstate = status; state = zombie; end_time = ticks }

-- From `acquire(&wait_lock)` on, `sched` included; `none` is the panic of the init process.
pub kexit : ℕ → ℕ → ℕ → Kernel → Option Kernel
kexit cpu i status k =
    if chan_of k.initproc == proc_chan i
    then none
    else (let k₁ : Kernel = reparent cpu i k in
        let k₂ : Kernel = wakeup cpu (chan_of (parent_of k₁ i)) k₁ in
        some (switch_back cpu (record k₂ { procs = modify k₂.procs i (bury status k₂.ticks) })))

pub data Wait : Type 0 where
  reaped : ℕ → Wait
  failed : Wait
  blocked : Wait

abbrev pub exited_child : ℕ → Proc → Bool
exited_child i p = is_child i p && is_zombie p.state

-- One pass of `kwait` over the table by the process in slot `i`. `copied` is whether the status could
-- be written to the user's address (true if that address is 0). A pass that finds live children only
-- puts the caller to sleep on itself.
pub kwait : ℕ → Bool → Kernel → Wait × Kernel
kwait i copied k = elim (find_index? (exited_child i) k.procs) [
  | some j ↦ elim (get_elem? k.procs j) [
    | none ↦ (failed, k)
    | some p ↦
        if copied
        then (reaped p.pid, record k { procs = modify k.procs j freeproc })
        else (failed, k)
  ]
  | none ↦ elim (find_index? (is_child i) k.procs) [
    | none ↦ (failed, k)
    | some _ ↦ elim (get_elem? k.procs i) [
      | none ↦ (failed, k)
      | some p ↦
          if p.killed == 0
          then (blocked, record k { procs = modify k.procs i (fall_asleep (proc_chan i)) })
          else (failed, k)
    ]
  ]
]

-- The body of `kkill` for the process that it finds.
pub strike : Proc → Proc
strike p = record p { killed = 1; state = if is_sleeping p.state then runnable else p.state }

-- `true` for the return value 0.
pub kkill : ℕ → Kernel → Bool × Kernel
kkill pid k = elim (find_index? (λ p. p.pid == pid) k.procs) [
  | none ↦ (false, k)
  | some i ↦ (true, record k { procs = modify k.procs i strike })
]

pub setkilled : ℕ → Kernel → Kernel
setkilled i k = record k { procs = modify k.procs i (λ p. record p { killed = 1 }) }

pub killed : ℕ → Kernel → Bool
killed i k = elim (get_elem? k.procs i) [ none ↦ false | some p ↦ not (p.killed == 0) ]

-- `struct procinfo`
pub record ProcInfo : Type 0 where
  pub pid : ℕ
  pub priority : ℕ
  pub cpu_ticks : ℕ
  pub sched_count : ℕ
  pub timeslice_used : ℕ
  pub start_time : ℕ
  pub end_time : ℕ
  pub first_run : ℕ
  pub total_wait : ℕ

abbrev pub info_of : Proc → ProcInfo
info_of p = record {
  pid = p.pid;
  priority = p.priority;
  cpu_ticks = p.cpu_ticks;
  sched_count = p.sched_count;
  timeslice_used = p.timeslice_used;
  start_time = p.start_time;
  end_time = p.end_time;
  first_run = p.first_run;
  total_wait = p.total_wait;
}

-- What `copyout` is given; `none` for -1. `copied` is whether that copy succeeds.
pub getprocinfo : ℕ → Bool → Kernel → Option ProcInfo
getprocinfo pid copied k =
    elim (find_index? (λ p. p.pid == pid && not (is_unused p.state)) k.procs) [
      | none ↦ none
      | some i ↦ elim (get_elem? k.procs i) [
        | none ↦ none
        | some p ↦ if copied then some (info_of p) else none
      ]
    ]
