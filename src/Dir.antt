-- ===== src/Dir.antt =====
-- Directories (kernel/fs.c: namecmp, dirlookup, dirlink). The local `struct dirent` is the 16 bytes of kernel
-- memory at `de`: the inode number in two of them, then the name.
pub mod Search
pub mod Names
mod Tests
use os_cea.Base.{
  ℕ, zero, suc, ◌+◌, ◌-◌, ◌*◌, ◌/◌, ◌%◌, Bool, true, false, not, Option, none, some, ◌==◌, ltb,
  if◌then◌else◌,
}
use os_cea.Base.Int.{ℤ, pos, negsuc}
use os_cea.Fs.{dirsiz}
use os_cea.Str.{Memory, write, strncmp, strncpy}
use os_cea.Disk.{Superblock, Disk}
use os_cea.Inode.{Inode, to_memory, from_memory, readi, writei}

-- T_DIR
abbrev pub t_dir : ℕ
t_dir = 1

-- A result that is a given count.
pub is_count : ℕ → ℤ → Bool
is_count n (pos k) = k == n
is_count n (negsuc k) = false

pub namecmp : ℕ → ℕ → Memory → ℤ
namecmp p q s = strncmp p q dirsiz s

abbrev pub de_inum : ℕ → Memory → ℕ
de_inum de s = s de + 256 * s (de + 1)

module _ (sb : Superblock) (de : ℕ) where
  -- The loop of `dirlookup` from `off` on, with fuel `n`: the offset and the inode number of the entry, for
  -- which `iget` is called; the outer `none` is a panic or the fuel used up.
  pub lookup_from :
      ℕ → ℕ → ℕ → Inode → Disk → Memory → Option (Option (ℕ × ℕ) × Inode × Disk × Memory)
  lookup_from zero name off dp d s = if ltb off dp.size then none else some (none, dp, d, s)
  lookup_from (suc n) name off dp d s = elim (ltb off dp.size) [
    | false ↦ some (none, dp, d, s)
    | true ↦ elim (readi to_memory sb de off 16 dp d s) [
      | none ↦ none
      | some (r, dp', d', s') ↦ elim (is_count 16 r) [
        | false ↦ none
        | true ↦ elim (de_inum de s' == 0) [
          | true ↦ lookup_from n name (off + 16) dp' d' s'
          | false ↦ elim (is_count 0 (namecmp name (de + 2) s')) [
            | true ↦ some (some (off, de_inum de s'), dp', d', s')
            | false ↦ lookup_from n name (off + 16) dp' d' s'
          ]
        ]
      ]
    ]
  ]

  -- Fuel for each 16 bytes of the directory.
  pub dirlookup : ℕ → Inode → Disk → Memory → Option (Option (ℕ × ℕ) × Inode × Disk × Memory)
  dirlookup name dp d s =
      if not (dp.type == t_dir) then none else lookup_from ((dp.size + 15) / 16) name 0 dp d s

  -- The loop of `dirlink` that looks for an entry not in use; the result is `off`.
  pub empty_from : ℕ → ℕ → Inode → Disk → Memory → Option (ℕ × Inode × Disk × Memory)
  empty_from zero off dp d s = if ltb off dp.size then none else some (off, dp, d, s)
  empty_from (suc n) off dp d s = elim (ltb off dp.size) [
    | false ↦ some (off, dp, d, s)
    | true ↦ elim (readi to_memory sb de off 16 dp d s) [
      | none ↦ none
      | some (r, dp', d', s') ↦ elim (is_count 16 r) [
        | false ↦ none
        | true ↦ elim (de_inum de s' == 0) [
          | true ↦ some (off, dp', d', s')
          | false ↦ empty_from n (off + 16) dp' d' s'
        ]
      ]
    ]
  ]

  -- `strncpy(de.name, name, DIRSIZ); de.inum = inum;`
  abbrev pub fill_dirent : ℕ → ℕ → Memory → Memory
  fill_dirent name inum s =
      write (write (strncpy (de + 2) name dirsiz s) de (inum % 256)) (de + 1) (inum / 256 % 256)

  -- The Boolean is `true` for the return value 0; `found` is the inode that `iput` is called for.
  pub dirlink : ℕ → ℕ → Inode → Disk → Memory → Option (Bool × Option ℕ × Inode × Disk × Memory)
  dirlink name inum dp d s = elim (dirlookup name dp d s) [
    | none ↦ none
    | some (some (_, found), dp₁, d₁, s₁) ↦ some (false, some found, dp₁, d₁, s₁)
    | some (none, dp₁, d₁, s₁) ↦ elim (empty_from ((dp₁.size + 15) / 16) 0 dp₁ d₁ s₁) [
      | none ↦ none
      | some (off, dp₂, d₂, s₂) ↦
          (let s₃ = fill_dirent name inum s₂ in
            elim (writei (from_memory s₃) sb de off 16 dp₂ d₂) [
              | none ↦ none
              | some (r, dp₃, d₃) ↦ some (is_count 16 r, none, dp₃, d₃, s₃)
            ])
    ]
  ]
