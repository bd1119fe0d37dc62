-- ===== src/Rw/Tests.antt =====
-- filewrite to a file of five bytes on a disk of 20 blocks.
use mathlib.Core.Path.{subst}
use os_cea.Base.{
  ℕ, zero, suc, ◌+◌, ap, ◌*◌, ◌<◌, ◌≤◌, ◌≡◌, ◌≢◌, ◌⊎◌, inl, inr, refl, sym, true, false, none, some,
  [], ◌==◌, ◌&&◌, ltb, if◌then◌else◌, arith, Bool-cases, ◌∙◌, ◌%◌,
}
use os_cea.Base.Int.{pos}
use os_cea.Disk.{Superblock, Disk}
use os_cea.File.{File, fd_inode}
use os_cea.Inode.{Inode}
use os_cea.Inode.Mapping.{lookup}
use os_cea.Inode.Writing.{IsPlaced, IsWritten}
use os_cea.Inode.RoundTrip.{grown}
use os_cea.Rw.{filewrite}
use os_cea.Rw.User.{from_user, user_byte, filewrite-user}
use os_cea.Str.Move.{within}
use os_cea.Vm.{Mem, pgrounddown, walkaddr}
use os_cea.Vm.Map.{walkaddr-entry}
use os_cea.Vm.Copy.Chunks.{phys_of}

abbrev small : Superblock
small = record { size = 20; ninodes = 16; inodestart = 2; bmapstart = 5 }

abbrev disk : Disk
disk = record { byte = λ b i. if b == 5 && i == 0 then 255 else 65; logged = [] }

abbrev file : Inode
file = record {
  inum = 1;
  valid = true;
  type = 2;
  major = 0;
  minor = 0;
  nlink = 1;
  size = 5;
  addrs = λ i. if i == 0 then 7 else 0;
}

-- The file has its first block only.
only_first : (n : ℕ) → (n ≡ 0) ⊎ (lookup file disk n ≡ 0)
only_first zero = inl refl
only_first (suc n) =
    let later : (suc n == 0) ≡ false = ground arith in
    inr (elim (Bool-cases (ltb (suc n) 12)) [ inl t ↦ rw (t, later) refl | inr f ↦ rw f refl ])

first_block : (n : ℕ) → lookup file disk n ≢ 0 → n ≡ 0
first_block n ne = elim (only_first n) [ inl e ↦ e | inr z ↦ absurd (ne z) ]

file-IsPlaced : IsPlaced small file disk
file-IsPlaced = record {
  distinct = λ n n' _ _ ne e. first_block n ne ∙ sym (first_block n' (λ z. ne (e ∙ z)));
  apart = λ n _ ne.
      (let is_first : 0 ≡ n = sym (first_block n ne) in
        subst (λ x. (lookup file disk x ≢ 0) × (lookup file disk x ≢ 2)) is_first
          (omega arith, omega arith));
  indirect = omega arith;
}

one_block : (end : ℕ) → end ≤ 1024 → (bn : ℕ) → bn * 1024 < end → lookup file disk bn ≢ 0
one_block end le zero lt = omega arith
one_block end le (suc bn) lt = absurd (omega arith)

abbrev open_file : File
open_file = record { type = fd_inode; ref = 1; readable = false; writable = true; pipe = 0; ip = 0 }

-- Two user pages, in the frames at 16384 and 20480.
abbrev user : Mem
user = record {
  phys = record { freelist = []; byte = λ a. a % 26 };
  pte = λ p i.
      if p == 4096 && i == 0
      then 2049
      else if p == 8192 && i == 0
      then 3073
      else if p == 12288 && i == 0
      then 4115
      else if p == 12288 && i == 1
      then 5139
      else 0;
}

first_page : walkaddr 4096 0 user ≡ 16384
first_page = walkaddr-entry 4096 0 user (omega arith)

second_page : walkaddr 4096 4096 user ≡ 20480
second_page = walkaddr-entry 4096 4096 user (omega arith)

user-mapped : (i : ℕ) → i < 2 → walkaddr 4096 (pgrounddown (4095 + i)) user ≢ 0
user-mapped zero lt z = absurd (let e = sym first_page ∙ z in omega arith)
user-mapped (suc zero) lt z = absurd (let e = sym second_page ∙ z in omega arith)
user-mapped (suc (suc i)) lt z = absurd (omega arith)

user-apart : (src i : ℕ) → i < 2 → within 100 1024 (phys_of 4096 user (4095 + i)) ≡ false
user-apart src zero lt = ap (λ x. within 100 1024 (x + 4095)) first_page
user-apart src (suc zero) lt = ap (λ x. within 100 1024 (x + 0)) second_page
user-apart src (suc (suc i)) lt = absurd (omega arith)

filewrite-user_example :
    (d' : Disk) × (filewrite
        (from_user 0x80000000 8192 4096 4096 (λ src. 100) user)
        small
        open_file
        none
        none
        4095
        2
        3
        file
        disk
      ≡ some (pos 2, 3 + 2, grown (3 + 2) file, d'))
    × IsWritten 3 2 4095 (user_byte 4096 user) file disk d'
filewrite-user_example =
    filewrite-user 0x80000000 8192 4096 4096 (λ src. 100) user 4095 2 user-mapped user-apart small
      open_file none none 3 file disk refl refl (omega arith) (omega arith)
      (file-IsPlaced, one_block 5 (omega arith))
