-- ===== src/Log/Tests.antt =====
-- The log's theorems on a small disk: the log begins at block 2, and the blocks are 40 and 41.
use os_cea.Base.{ℕ, ◌+◌, ◌≡◌, ◌⊎◌, inr, refl, true, false, some, List, [], ◌∷◌, arith}
use os_cea.Log.{Disk, Store, bread, commit}
use os_cea.Log.Ops.{Counts, log_write, elem, begin_op}
use os_cea.Log.Writes.{apply}
use os_cea.Log.Crash.{take, recovered}
use os_cea.Log.Atomic.{IsOld, IsNew, commit_atomic, commit_durable}
use os_cea.Log.Reserve.{World, Reach, here, next, starts, writes, idle, log_write_never_panics}

abbrev blank : Disk
blank b i = 0

-- Two blocks are written in the cache, and nothing on the disk.
abbrev dirty : Store
dirty = record { disk = blank; cache = λ b. some (λ i. b + i); writes = [] }

abbrev both : List ℕ
both = 40 ∷ 41 ∷ []

-- The crash comes after the first block of the log has been written.
commit_atomic_example :
    IsOld 2 blank (recovered 2 (apply (take 1 (commit 2 both dirty).writes) blank))
    ⊎ IsNew 2 both
        (bread dirty)
        blank
        (recovered 2 (apply (take 1 (commit 2 both dirty).writes) blank))
commit_atomic_example =
    commit_atomic 2 1 both dirty refl refl (inr (omega arith), (inr (omega arith), tt))
      (omega arith)

commit_durable_example :
    IsNew 2 both (bread dirty) blank (commit 2 both dirty).disk
    × ((commit 2 both dirty).disk 2 0 ≡ 0)
commit_durable_example =
    commit_durable 2 40 (41 ∷ []) dirty (inr (omega arith), (inr (omega arith), tt)) (omega arith)

abbrev one_call : World
one_call = record {
  log = record { lh = 40 ∷ []; outstanding = 1; committing = false };
  calls = (40 ∷ []) ∷ [];
}

one_call_reached : Reach idle one_call
unfolding begin_op log_write
one_call_reached = next (next here (starts refl)) (writes 0 40 refl refl (omega arith) refl)

log_write_never_panics_example :
    (l : Counts) × (log_write 40 one_call.log ≡ some l) × (elem 40 l.lh ≡ true)
log_write_never_panics_example =
    log_write_never_panics one_call_reached 0 (40 ∷ []) 40 refl (omega arith)
