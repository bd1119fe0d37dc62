-- ===== src/Log.antt =====
-- The redo log of kernel/log.c. A block is its 32-bit words; the disk and the buffer cache are
-- functions of the block number. `lh` is the in-memory header, `lh.n` its length; entries of
-- `lh.block` from `n` on are never read.
pub mod Ops
pub mod Reserve
pub mod Writes
pub mod Crash
pub mod Commit
pub mod Atomic
mod Tests
use os_cea.Base.{
  ℕ, zero, suc, ◌+◌, ◌-◌, ◌*◌, Bool, true, false, Option, none, some, List, [], ◌∷◌, ◌++◌, ltb, leb,
  ◌==◌, if◌then◌else◌, length, get_or,
}

abbrev pub log_blocks : ℕ
log_blocks = 30

abbrev pub max_op_blocks : ℕ
max_op_blocks = 10

abbrev pub Block : Type 0
Block = ℕ → ℕ

abbrev pub Disk : Type 0
Disk = ℕ → Block

-- The disk, what the buffer cache holds of it, and every `bwrite` so far, oldest first.
pub record Store : Type 0 where
  pub disk : Disk
  pub cache : ℕ → Option Block
  pub writes : List (ℕ × Block)

abbrev pub update : Disk → ℕ → Block → Disk
update d b v x = if x == b then v else d x

-- The contents of the buffer that `bread` returns.
pub bread : Store → ℕ → Block
bread s b = elim (s.cache b) [ none ↦ s.disk b | some v ↦ v ]

-- Fill the buffer of block `b` and `bwrite` it.
pub bwrite : ℕ → Block → Store → Store
bwrite b v s = record {
  disk = update s.disk b v;
  cache = λ x. if x == b then some v else s.cache x;
  writes = s.writes ++ ((b, v) ∷ []);
}

-- The header block: `hb->n` and `hb->block[i]` over what the buffer held.
pub header : List ℕ → Block → Block
header lh old w =
    if w == 0 then length lh else if leb w (length lh) then get_or lh (w - 1) 0 else old w

-- `lh->block[i]`, …, `lh->block[i + n - 1]`
pub words : ℕ → ℕ → Block → List ℕ
words zero i blk = []
words (suc n) i blk = blk (i + 1) ∷ words n (i + 1) blk

pub read_head : ℕ → Store → List ℕ
read_head start s = words (bread s start 0) 0 (bread s start)

pub write_head : ℕ → List ℕ → Store → Store
write_head start lh s = bwrite start (header lh (bread s start)) s

-- The loops of `write_log` and `install_trans`, from `tail` on.
pub write_log : ℕ → ℕ → List ℕ → Store → Store
write_log start tail [] s = s
write_log start tail (b ∷ lh) s =
    write_log start (tail + 1) lh (bwrite (start + tail + 1) (bread s b) s)

pub install_trans : ℕ → ℕ → List ℕ → Store → Store
install_trans start tail [] s = s
install_trans start tail (b ∷ lh) s =
    install_trans start (tail + 1) lh (bwrite b (bread s (start + tail + 1)) s)

pub recover_from_log : ℕ → Store → Store
recover_from_log start s = write_head start [] (install_trans start 0 (read_head start s) s)

-- `start` is the superblock's `logstart`.
pub initlog : ℕ → Store → Store
initlog start s = recover_from_log start s

pub commit : ℕ → List ℕ → Store → Store
commit start lh s =
    if ltb 0 (length lh)
    then write_head start []
        (install_trans start 0 lh (write_head start lh (write_log start 0 lh s)))
    else s
