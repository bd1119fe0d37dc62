-- ===== src/Dir/Tests.antt =====
-- dirlookup in a directory of two entries.
use os_cea.Base.{
  ℕ, zero, suc, ◌*◌, ◌<◌, ◌≢◌, refl, ◌+◌, ◌≡◌, true, false, [], ◌==◌, ◌&&◌, if◌then◌else◌, arith,
}
use os_cea.Str.{Memory}
use os_cea.Disk.{Superblock, Disk}
use os_cea.Inode.{Inode}
use os_cea.Inode.Mapping.{lookup}
use os_cea.Dir.{dirlookup}
use os_cea.Dir.Search.{IsWhole}
use os_cea.Dir.Names.{Looked, dirlookup-Looked}
use os_cea.Str.Move.{within}

abbrev small : Superblock
small = record { size = 20; ninodes = 16; inodestart = 2; bmapstart = 5 }

-- The second entry is inode 3, of the name `a`.
abbrev disk : Disk
disk = record {
  byte = λ b i. if b == 7 && i == 16 then 3 else if b == 7 && i == 18 then 97 else 0;
  logged = [];
}

abbrev root : Inode
root = record {
  inum = 1;
  valid = true;
  type = 1;
  major = 0;
  minor = 0;
  nlink = 1;
  size = 32;
  addrs = λ i. if i == 0 then 7 else 0;
}

abbrev name_a : Memory
name_a a = if a == 100 then 97 else 0

there : (bn : ℕ) → bn * 1024 < 32 → lookup root disk bn ≢ 0
there zero lt = omega arith
there (suc bn) lt = absurd (omega arith)

root-IsWhole : IsWhole root disk
root-IsWhole = record { entries = refl; low = omega arith; there = there }

name_far : (i : ℕ) → i < 14 → within 500 16 (100 + i) ≡ false
name_far i lt = ground arith

dirlookup-Looked_example :
    Looked small 500 100 root disk name_a (dirlookup small 500 100 root disk name_a)
dirlookup-Looked_example =
    dirlookup-Looked small 500 100 root disk name_a name_far refl root-IsWhole
