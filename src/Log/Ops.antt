-- ===== src/Log/Ops.antt =====
-- begin_op, end_op and log_write of kernel/log.c: the counters of the log.
use os_cea.Base.{
  ℕ, ◌+◌, ◌-◌, ◌*◌, Bool, true, false, ◌||◌, Option, none, some, List, [], ◌∷◌, ◌++◌, ltb, leb,
  ◌==◌, if◌then◌else◌, length,
}
use os_cea.Log.{log_blocks, max_op_blocks}

-- `struct log`, less its place on disk.
pub record Counts : Type 0 where
  pub outstanding : ℕ
  pub committing : Bool
  pub lh : List ℕ

-- What a pass of `begin_op` does: start the operation, or sleep.
unfoldable pub begin_op : Counts → Option Counts
begin_op l =
    if l.committing
    then none
    else if ltb log_blocks (length l.lh + (l.outstanding + 1) * max_op_blocks)
    then none
    else some (record l { outstanding = l.outstanding + 1 })

-- `end_op` up to `release`: the new state, and `do_commit`; `none` is the panic. It runs only after
-- `begin_op`, so `outstanding` is not 0 (where the C counter would become -1).
unfoldable pub end_op : Counts → Option (Counts × Bool)
end_op l =
    if l.committing
    then none
    else if l.outstanding == 1
    then some (record l { outstanding = 0; committing = true }, true)
    else some (record l { outstanding = l.outstanding - 1 }, false)

-- After `commit`, which has emptied the header.
unfoldable pub end_commit : Counts → Counts
end_commit l = record l { committing = false; lh = [] }

abbrev pub elem : ℕ → List ℕ → Bool
elem b [] = false
elem b (x ∷ xs) = x == b || elem b xs

-- `none` is one of the two panics. A block that the header has already is absorbed.
unfoldable pub log_write : ℕ → Counts → Option Counts
log_write b l =
    if leb log_blocks (length l.lh)
    then none
    else if ltb l.outstanding 1
    then none
    else some (if elem b l.lh then l else record l { lh = l.lh ++ (b ∷ []) })
