-- ===== src/Disk.antt =====
-- The blocks of the disk as the file system sees them, and the free bit map (kernel/fs.c: bzero, balloc,
-- bfree; kernel/fs.h). The buffer cache and the log are looked through: `byte` is what the buffer of a
-- block holds, and `logged` the blocks that log_write was called for, the last one first.
pub mod Bits
pub mod Words
pub mod Bitmap
pub mod Blocks
mod Tests
use os_cea.Base.{
  ℕ, zero, suc, ◌+◌, ◌-◌, ◌*◌, ◌/◌, ◌%◌, Bool, true, false, not, ◌&&◌, Option, none, some, List, [],
  ◌∷◌, ◌==◌, leb, ltb, if◌then◌else◌,
}

-- `struct superblock`, less what only the log and mkfs use.
pub record Superblock : Type 0 where
  pub size : ℕ
  pub ninodes : ℕ
  pub inodestart : ℕ
  pub bmapstart : ℕ

pub record Disk : Type 0 where
  pub byte : ℕ → ℕ → ℕ
  pub logged : List ℕ

abbrev pub bsize : ℕ
bsize = 1024

-- Bitmap bits per block, and the block of the bit for block `b`.
abbrev pub bpb : ℕ
bpb = 8192

abbrev pub bblock : ℕ → Superblock → ℕ
bblock b sb = b / bpb + sb.bmapstart

pub log_write : ℕ → Disk → Disk
log_write b d = record d { logged = b ∷ d.logged }

-- bp->data[i] = v
pub put_byte : ℕ → ℕ → ℕ → Disk → Disk
put_byte b i v d = record d { byte = λ b' i'. if b' == b && i' == i then v else d.byte b' i' }

-- `v & (1 << i)` as 0 or 1, `v | (1 << i)`, and `v & ~(1 << i)`
unfoldable pub bit : ℕ → ℕ → ℕ
bit v zero = v % 2
bit v (suc i) = bit (v / 2) i

pub set_bit : ℕ → ℕ → ℕ
set_bit v zero = v / 2 * 2 + 1
set_bit v (suc i) = v % 2 + 2 * set_bit (v / 2) i

pub clear_bit : ℕ → ℕ → ℕ
clear_bit v zero = v / 2 * 2
clear_bit v (suc i) = v % 2 + 2 * clear_bit (v / 2) i

pub bzero : ℕ → Disk → Disk
bzero bno d =
    log_write bno (record d { byte = λ b i. if b == bno && ltb i bsize then 0 else d.byte b i })

-- The inner loop of `balloc` from `bi` on, in the block of bits for the blocks from `b` on.
pub find_bit : ℕ → ℕ → ℕ → ℕ → (ℕ → ℕ) → Option ℕ
find_bit zero size b bi bytes = none
find_bit (suc n) size b bi bytes = elim (leb size (b + bi)) [
  | true ↦ none
  | false ↦ elim (bit (bytes (bi / 8)) (bi % 8) == 0) [
    | true ↦ some bi
    | false ↦ find_bit n size b (bi + 1) bytes
  ]
]

-- The outer loop of `balloc` over `n` blocks of bits; 0 is out of blocks.
pub balloc_from : ℕ → Superblock → ℕ → Disk → ℕ × Disk
balloc_from zero sb b d = (0, d)
balloc_from (suc n) sb b d =
    (let bp = bblock b sb in
      elim (find_bit bpb sb.size b 0 (d.byte bp)) [
        | none ↦ balloc_from n sb (b + bpb) d
        | some bi ↦ (
          b + bi,
          bzero (b + bi)
              (log_write bp (put_byte bp (bi / 8) (set_bit (d.byte bp (bi / 8)) (bi % 8)) d)),
        )
      ])

pub balloc : Superblock → Disk → ℕ × Disk
balloc sb d = balloc_from ((sb.size + (bpb - 1)) / bpb) sb 0 d

-- `none` is the panic.
pub bfree : Superblock → ℕ → Disk → Option Disk
bfree sb b d =
    (let bp = bblock b sb in
      let bi = b % bpb in
      if bit (d.byte bp (bi / 8)) (bi % 8) == 0
      then none
      else some (log_write bp (put_byte bp (bi / 8) (clear_bit (d.byte bp (bi / 8)) (bi % 8)) d)))

-- Fields of two and of four bytes, the low byte first.
abbrev pub get_short : ℕ → ℕ → Disk → ℕ
get_short b i d = d.byte b i + 256 * d.byte b (i + 1)

abbrev pub get_word : ℕ → ℕ → Disk → ℕ
get_word b i d = get_short b i d + 65536 * get_short b (i + 2) d

abbrev pub put_short : ℕ → ℕ → ℕ → Disk → Disk
put_short b i v d = put_byte b (i + 1) (v / 256 % 256) (put_byte b i (v % 256) d)

abbrev pub put_word : ℕ → ℕ → ℕ → Disk → Disk
put_word b i v d = put_short b (i + 2) (v / 65536) (put_short b i v d)
