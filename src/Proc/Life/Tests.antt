-- ===== src/Proc/Life/Tests.antt =====
-- The theorems on a process's life, on a table with a child, its parent and a free slot.
use os_cea.Base.{
  ℕ, zero, suc, ◌<◌, ◌≡◌, refl, true, false, Option, some, none, List, [], ◌∷◌, get_elem?, arith,
}
use os_cea.Proc.{Proc, Kernel, ProcState, used, unused, running, sleeping, zombie, is_unused}
use os_cea.Proc.Life.{allocproc, kkill, kexit, kwait, reaped, freeproc, failed}
use os_cea.Proc.Life.Pids.{HasPids, allocproc-HasPids}
use os_cea.Proc.Life.Kill.{kkill_zero_poisons}
use os_cea.Proc.Life.Exit.{kwait-kexit}

abbrev task : ProcState → ℕ → Option ℕ → Proc
task state pid parent = record {
  state = state;
  chan = 0;
  killed = 0;
  xstate = 0;
  pid = pid;
  parent = parent;
  sz = 0;
  pagetable = 0;
  trapframe = 0;
  name = [];
  priority = 0;
  timeslice = 4;
  timeslice_used = 0;
  cpu_ticks = 0;
  sched_count = 0;
  yielded_io = 0;
  start_time = 0;
  end_time = 0;
  first_run = 0;
  total_wait = 0;
  last_scheduled = 0;
}

-- Slot 0 is init, asleep, slot 1 is its child, on CPU 0, and slot 2 is free.
abbrev table : List Proc
table = task sleeping 1 none ∷ task running 2 (some 0) ∷ task unused 0 none ∷ []

abbrev machine : Kernel
machine = record {
  procs = table;
  nextpid = 3;
  ticks = 100;
  starvation_counter = 0;
  cpus = some 1 ∷ [];
  initproc = some 0;
}

table-HasPids : HasPids table 3
table-HasPids = record { idle = free; fresh = taken; distinct = apart }
  where
    free : (j : ℕ) (p : Proc) → get_elem? table j ≡ some p → is_unused p.state ≡ true → p.pid ≡ 0
    free zero p e u = ground arith
    free (suc zero) p e u = ground arith
    free (suc (suc zero)) p e u = ground arith
    free (suc (suc (suc j))) p e u = ground arith

    taken :
        (j : ℕ) (p : Proc)
        → get_elem? table j ≡ some p
        → is_unused p.state ≡ false
        → (0 < p.pid) × (p.pid < 3)
    taken zero p e u = ground arith
    taken (suc zero) p e u = ground arith
    taken (suc (suc zero)) p e u = ground arith
    taken (suc (suc (suc j))) p e u = ground arith

    slot :
        (j : ℕ) (p : Proc) → get_elem? table j ≡ some p → is_unused p.state ≡ false → p.pid ≡ suc j
    slot zero p e u = ground arith
    slot (suc zero) p e u = ground arith
    slot (suc (suc zero)) p e u = ground arith
    slot (suc (suc (suc j))) p e u = ground arith

    apart :
        (i j : ℕ) (p q : Proc)
        → get_elem? table i ≡ some p
        → get_elem? table j ≡ some q
        → is_unused p.state ≡ false
        → is_unused q.state ≡ false
        → p.pid ≡ q.pid
        → i ≡ j
    apart i j p q e f u v same = omega (arith, slot i p e u, slot j q f v)

allocproc-HasPids_example :
    HasPids (allocproc 4096 8192 machine).1.procs (allocproc 4096 8192 machine).1.nextpid
allocproc-HasPids_example =
    allocproc-HasPids 4096 8192 machine (omega arith) (omega arith) table-HasPids

kkill_zero_poisons_example :
    ((kkill 0 machine).0 ≡ true)
    × ((allocproc 4096 8192 (kkill 0 machine).1).0 ≡ some 2)
    × (p : Proc) × (get_elem? (allocproc 4096 8192 (kkill 0 machine).1).1.procs 2 ≡ some p)
    × (p.state ≡ used)
    × (p.killed ≡ 1)
kkill_zero_poisons_example =
    kkill_zero_poisons 4096 8192 2 machine table-HasPids refl (omega arith) (omega arith)

exited : (k : Kernel) × (kexit 0 1 7 machine ≡ some k)
unfolding kexit
exited = (_, refl)

kwait-kexit_example :
    (j : ℕ) × (p : Proc) × (get_elem? exited.0.procs j ≡ some p)
    × (p.state ≡ zombie)
    × (p.parent ≡ some 0)
    × ((kwait 0 true exited.0).0 ≡ reaped p.pid)
    × (get_elem? (kwait 0 true exited.0).1.procs j ≡ some (freeproc p))
    × (kwait 0 false exited.0 ≡ (failed, exited.0))
kwait-kexit_example = kwait-kexit 0 1 0 7 machine exited.0 exited.1 refl refl (omega arith)
