-- ===== src/Rw.antt =====
-- Reading and writing open files (kernel/file.c: fileread, filewrite). What piperead, pipewrite and the
-- device drivers answer is an argument, `none` for a major number without a driver; `off` is the offset of
-- the open file, and `d` the disk between begin_op and end_op. The count `n` is not negative.
pub mod Chunks
pub mod User
mod Tests
use os_cea.Base.{
  ℕ, zero, suc, ◌+◌, ◌-◌, ◌*◌, Bool, true, false, not, Option, none, some, ◌==◌, leb, ltb,
  if◌then◌else◌,
}
use os_cea.Base.Int.{ℤ, pos, negsuc}
use os_cea.Disk.{Superblock, Disk}
use os_cea.File.{FileType, fd_none, fd_pipe, fd_inode, fd_device, File}
use os_cea.Inode.{Inode, Copy, Fetch, readi, writei}

-- ((MAXOPBLOCKS-1-1-2) / 2) * BSIZE
abbrev pub max : ℕ
max = 3072

-- `f->off += r` where `r` is positive.
abbrev pub advance_off : ℤ → ℕ → ℕ
advance_off r off = elim r [ pos k ↦ off + k | negsuc _ ↦ off ]

-- `r == n1`
abbrev pub is_all : ℕ → ℤ → Bool
is_all n1 r = elim r [ pos k ↦ k == n1 | negsuc _ ↦ false ]

module _ (fetch : Fetch) (sb : Superblock) where
  -- The loop of `filewrite` from `i` on: the last value of `i`, and the new offset, inode and disk. Each
  -- round but the last writes at least a byte; `none` is a panic or the fuel used up.
  pub write_chunks : ℕ → ℕ → ℕ → ℕ → ℕ → Inode → Disk → Option (ℕ × ℕ × Inode × Disk)
  write_chunks zero i n addr off ip d = if leb n i then some (i, off, ip, d) else none
  write_chunks (suc fuel) i n addr off ip d = elim (leb n i) [
    | true ↦ some (i, off, ip, d)
    | false ↦
        (let n1 = if ltb max (n - i) then max else n - i in
          elim (writei fetch sb (addr + i) off n1 ip d) [
            | none ↦ none
            | some (r, ip', d') ↦ elim (is_all n1 r) [
              | false ↦ some (i, advance_off r off, ip', d')
              | true ↦ write_chunks fuel (i + n1) n addr (advance_off r off) ip' d'
            ]
          ])
  ]

  pub filewrite :
      File → Option ℤ → Option ℤ → ℕ → ℕ → ℕ → Inode → Disk → Option (ℤ × ℕ × Inode × Disk)
  filewrite f pipe device addr n off ip d =
      if not f.writable then some (negsuc 0, off, ip, d) else elim f.type [
        | fd_none ↦ none
        | fd_pipe ↦ elim pipe [ none ↦ none | some r ↦ some (r, off, ip, d) ]
        | fd_device ↦ elim device [
          | none ↦ some (negsuc 0, off, ip, d)
          | some r ↦ some (r, off, ip, d)
        ]
        | fd_inode ↦ elim (write_chunks n 0 n addr off ip d) [
          | none ↦ none
          | some (i, off', ip', d') ↦ some (if i == n then pos n else negsuc 0, off', ip', d')
        ]
      ]

module _ {S : Type 0} (copy : Copy S) (sb : Superblock) where
  pub fileread :
      File → Option ℤ → Option ℤ → ℕ → ℕ → ℕ → Inode → Disk → S → Option (ℤ × ℕ × Inode × Disk × S)
  fileread f pipe device addr n off ip d s =
      if not f.readable then some (negsuc 0, off, ip, d, s) else elim f.type [
        | fd_none ↦ none
        | fd_pipe ↦ elim pipe [ none ↦ none | some r ↦ some (r, off, ip, d, s) ]
        | fd_device ↦ elim device [
          | none ↦ some (negsuc 0, off, ip, d, s)
          | some r ↦ some (r, off, ip, d, s)
        ]
        | fd_inode ↦ elim (readi copy sb addr off n ip d s) [
          | none ↦ none
          | some (r, ip', d', s') ↦ some (r, advance_off r off, ip', d', s')
        ]
      ]
