-- ===== src/Bio.antt =====
-- The buffer cache (kernel/bio.c). The cache is the list of its buffers from `head.next`, the most
-- recently used, to `head.prev`; a pointer to a buffer is its place in the list. The data and the
-- sleep-lock of a buffer are not part of the model: what virtio_disk_rw transfers is not in src/.
pub mod Copies
mod Tests
use os_cea.Base.{
  ℕ, zero, suc, ◌+◌, ◌-◌, ◌%◌, ◌^◌, Bool, true, false, ◌&&◌, Option, none, some, List, [], ◌∷◌,
  ◌==◌, if◌then◌else◌, get_elem?, modify, find_index?,
}
use mathlib.Core.Option

-- `struct buf`
pub record Buf : Type 0 where
  pub valid : Bool
  pub dev : ℕ
  pub blockno : ℕ
  pub refcnt : ℕ

abbrev pub nbuf : ℕ
nbuf = 30

-- The test of the first loop of `bget`.
abbrev pub is_block : ℕ → ℕ → Buf → Bool
is_block dev blockno b = b.dev == dev && b.blockno == blockno

abbrev pub is_free : Buf → Bool
is_free b = b.refcnt == 0

-- The second loop of `bget`, from `head.prev` backwards.
pub find_last? : List Buf → Option ℕ
find_last? [] = none
find_last? (b ∷ bs) = elim (find_last? bs) [
  | some i ↦ some (suc i)
  | none ↦ if is_free b then some 0 else none
]

abbrev pub hold : Buf → Buf
hold b = record b { refcnt = (b.refcnt + 1) % 2 ^ 32 }

abbrev pub recycle : ℕ → ℕ → Buf → Buf
recycle dev blockno b = record { valid = false; dev = dev; blockno = blockno; refcnt = 1 }

-- `bget` up to `acquiresleep`; `none` is the panic.
pub bget : ℕ → ℕ → List Buf → Option (ℕ × List Buf)
bget dev blockno bs = elim (find_index? (is_block dev blockno) bs) [
  | some i ↦ some (i, modify bs i hold)
  | none ↦ elim (find_last? bs) [
    | some i ↦ some (i, modify bs i (recycle dev blockno))
    | none ↦ none
  ]
]

-- `bread`, with the buffer marked as read. The Boolean is whether virtio_disk_rw is called.
pub bread : ℕ → ℕ → List Buf → Option (ℕ × Bool × List Buf)
bread dev blockno bs = elim (bget dev blockno bs) [
  | none ↦ none
  | some (i, bs') ↦ elim (get_elem? bs' i) [
    | none ↦ none
    | some b ↦
        if b.valid
        then some (i, false, bs')
        else some (i, true, modify bs' i (λ b. record b { valid = true }))
  ]
]

abbrev pub drop : Buf → Buf
drop b = record b { refcnt = (b.refcnt + 2 ^ 32 - 1) % 2 ^ 32 }

-- Unlink the buffer.
abbrev pub unlink : List Buf → ℕ → List Buf
unlink [] i = []
unlink (b ∷ bs) zero = bs
unlink (b ∷ bs) (suc i) = b ∷ unlink bs i

-- `brelse` from `acquire(&bcache.lock)` on, for a buffer whose sleep-lock the caller holds.
pub brelse : ℕ → List Buf → List Buf
brelse i bs = elim (get_elem? bs i) [
  | none ↦ bs
  | some b ↦ if is_free (drop b) then drop b ∷ unlink bs i else modify bs i drop
]

pub bpin : ℕ → List Buf → List Buf
bpin i bs = modify bs i hold

pub bunpin : ℕ → List Buf → List Buf
bunpin i bs = modify bs i drop

-- The loop of `binit`: every buffer goes behind the head.
pub binit : ℕ → List Buf → List Buf
binit zero bs = bs
binit (suc n) bs = binit n (record { valid = false; dev = 0; blockno = 0; refcnt = 0 } ∷ bs)
