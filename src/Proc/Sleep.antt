-- ===== src/Proc/Sleep.antt =====
-- sleep and wakeup of kernel/proc.c: what they change in the process table. The condition lock is
-- held around each, so no wakeup falls between the two halves of `sleep`.
use os_cea.Base.{ℕ, zero, suc, ◌&&◌, Option, none, some, List, [], ◌∷◌, map, ◌==◌, if◌then◌else◌}
use os_cea.Proc.{Proc, Kernel, sleeping, runnable, is_sleeping, myproc}

-- `for(p = proc; p < &proc[NPROC]; p++) if(p != myproc()) …`
abbrev pub map_others : Option ℕ → (Proc → Proc) → List Proc → List Proc
map_others none f procs = map f procs
map_others (some i) f [] = []
map_others (some zero) f (p ∷ procs) = p ∷ map f procs
map_others (some (suc i)) f (p ∷ procs) = f p ∷ map_others (some i) f procs

-- The body of the loop of `wakeup`.
unfoldable pub rouse : ℕ → Proc → Proc
rouse chan p = if is_sleeping p.state && p.chan == chan then record p { state = runnable } else p

unfoldable pub wakeup : ℕ → ℕ → Kernel → Kernel
unfolding rouse
wakeup cpu chan k = record k { procs = map_others (myproc k cpu) (rouse chan) k.procs }

-- `sleep` up to `sched`, and the part after it.
unfoldable pub fall_asleep : ℕ → Proc → Proc
fall_asleep chan p = record p { chan = chan; state = sleeping }

unfoldable pub tidy_up : Proc → Proc
tidy_up p = record p { chan = 0 }
