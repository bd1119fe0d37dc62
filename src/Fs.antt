-- ===== src/Fs.antt =====
-- The in-memory inode table and path elements (kernel/fs.c: iget, idup, iput, skipelem). A pointer to
-- an inode is its place in the table. The lock of the table is held around each step; what itrunc and
-- iupdate write to the disk is not part of the model.
pub mod Table
pub mod Elem
mod Tests
use os_cea.Base.{
  ℕ, zero, suc, ◌+◌, ◌-◌, Bool, true, false, not, ◌&&◌, Option, none, some, List, [], ◌∷◌, ◌++◌,
  ◌==◌, ltb, if◌then◌else◌, get_elem?, modify, find_index?, length,
}

-- `struct inode`, less its sleep-lock and the block addresses.
pub record Inode : Type 0 where
  pub dev : ℕ
  pub inum : ℕ
  pub ref : ℕ
  pub valid : Bool
  pub type : ℕ
  pub nlink : ℕ

-- The test of the loop of `iget`.
abbrev pub is_entry : ℕ → ℕ → Inode → Bool
is_entry dev inum ip = ltb 0 ip.ref && (ip.dev == dev && ip.inum == inum)

abbrev pub is_unreferenced : Inode → Bool
is_unreferenced ip = ip.ref == 0

abbrev pub one_more : Inode → Inode
one_more ip = record ip { ref = ip.ref + 1 }

abbrev pub reuse : ℕ → ℕ → Inode → Inode
reuse dev inum ip = record ip { dev = dev; inum = inum; ref = 1; valid = false }

-- `none` is the panic.
pub iget : ℕ → ℕ → List Inode → Option (ℕ × List Inode)
iget dev inum ips = elim (find_index? (is_entry dev inum) ips) [
  | some i ↦ some (i, modify ips i one_more)
  | none ↦ elim (find_index? is_unreferenced ips) [
    | some i ↦ some (i, modify ips i (reuse dev inum))
    | none ↦ none
  ]
]

pub idup : ℕ → List Inode → List Inode
idup i ips = modify ips i one_more

-- `ip->ref == 1 && ip->valid && ip->nlink == 0`
abbrev pub is_orphan : Inode → Bool
is_orphan ip = ip.ref == 1 && (ip.valid && ip.nlink == 0)

abbrev pub put : Inode → Inode
put ip =
    if is_orphan ip
    then record ip { type = 0; valid = false; ref = ip.ref - 1 }
    else record ip { ref = ip.ref - 1 }

-- The caller has a reference, so `ref` is not 0. The Boolean is whether the inode is freed on disk.
pub iput : ℕ → List Inode → Bool × List Inode
iput i ips = elim (get_elem? ips i) [
  | none ↦ (false, ips)
  | some ip ↦ (is_orphan ip, modify ips i put)
]

-- Paths are lists of bytes up to the NUL.
abbrev pub dirsiz : ℕ
dirsiz = 14

abbrev pub slash : ℕ
slash = 47

-- `while(*path == '/') path++;`
pub skip_slashes : List ℕ → List ℕ
skip_slashes [] = []
skip_slashes (c ∷ path) = let rest = skip_slashes path in if c == slash then rest else c ∷ path

-- `while(*path != '/' && *path != 0) path++;`: what is passed, and what is left.
pub take_elem : List ℕ → List ℕ × List ℕ
take_elem [] = ([], [])
take_elem (c ∷ path) =
    let rest = take_elem path in if c == slash then ([], c ∷ path) else (c ∷ rest.0, rest.1)

-- The bytes that `memmove(name, s, DIRSIZ)` copies.
pub first_bytes : ℕ → List ℕ → List ℕ
first_bytes zero s = []
first_bytes (suc n) [] = []
first_bytes (suc n) (c ∷ s) = c ∷ first_bytes n s

-- The name up to its NUL or to DIRSIZ bytes, and the rest of the path; `none` is the null pointer.
pub skipelem : List ℕ → Option (List ℕ × List ℕ)
skipelem path = elim (skip_slashes path) [
  | [] ↦ none
  | c ∷ s ↦ some (first_bytes dirsiz (take_elem (c ∷ s)).0, skip_slashes (take_elem (c ∷ s)).1)
]
