-- ===== src/Inode/Tests.antt =====
-- The theorems on inodes, with a file of five bytes on a disk of 20 blocks.
use mathlib.Core.Path.{subst}
use os_cea.Base.{
  ℕ, zero, suc, ◌+◌, ◌-◌, ◌*◌, ◌%◌, ◌<◌, ◌≤◌, ◌≡◌, ◌≢◌, ◌⊎◌, inl, inr, refl, sym, true, false, some,
  [], ◌==◌, ◌&&◌, ltb, if◌then◌else◌, arith, Bool-cases, ◌∙◌,
}
use os_cea.Base.Int.{pos}
use os_cea.Str.{Memory}
use os_cea.Str.Move.{within}
use os_cea.Disk.{Superblock, Disk, bblock, bit}
use os_cea.Disk.Bitmap.{used}
use os_cea.Disk.Blocks.{OwnsMap}
use os_cea.Inode.{Inode, iblock, dip, bmap, iupdate, ilock, to_memory, from_memory, readi, writei}
use os_cea.Inode.Dinode.{Fits, SameDinode, ilock-iupdate, iupdate-other}
use os_cea.Inode.Mapping.{lookup}
use os_cea.Inode.Growing.{IsSound, Bmapped}
use os_cea.Inode.Allocating.{bmap-Bmapped}
use os_cea.Inode.Writing.{IsPlaced, IsWritten}
use os_cea.Inode.RoundTrip.{grown, writei-IsWritten, readi-writei}

abbrev small : Superblock
small = record { size = 20; ninodes = 16; inodestart = 2; bmapstart = 5 }

-- Blocks 0 to 7 are in use.
abbrev disk : Disk
disk = record { byte = λ b i. if b == 5 && i == 0 then 255 else 65; logged = [] }

abbrev file : Inode
file = record {
  inum = 1;
  valid = true;
  type = 2;
  major = 0;
  minor = 0;
  nlink = 1;
  size = 5;
  addrs = λ i. if i == 0 then 7 else 0;
}

disk-OwnsMap : OwnsMap small disk
unfolding bit
disk-OwnsMap j lt =
    let first : 5 ≡ bblock j small = omega arith in
    subst (λ b. (b < 20) × (used small disk b ≢ 0)) first (omega arith, omega arith)

file-IsSound : IsSound small file disk
unfolding bit
file-IsSound = record {
  map_owned = disk-OwnsMap;
  boot = (omega arith, omega arith);
  indirect = λ ne. absurd (ne refl);
}

bmap-Bmapped_example : Bmapped small file 13 disk (bmap small file 13 disk)
bmap-Bmapped_example = bmap-Bmapped small file 13 disk (omega arith) (omega arith) file-IsSound

file-Fits : Fits file
file-Fits = record {
  type_fits = omega arith;
  major_fits = omega arith;
  minor_fits = omega arith;
  nlink_fits = omega arith;
  size_fits = omega arith;
  addrs_fit = λ i lt. elim (Bool-cases (i == 0)) [
    | inl t ↦ rw t (omega arith)
    | inr f ↦ rw f (omega arith)
  ];
}

abbrev unread : Inode
unread = record file { valid = false; type = 0; size = 0 }

ilock-iupdate_example :
    (ip' : Inode) × (ilock small unread (iupdate small file disk) ≡ some ip') × SameDinode file ip'
ilock-iupdate_example = ilock-iupdate small file unread disk file-Fits (omega arith) refl refl

iupdate-other_example :
    (iupdate small file disk).byte (iblock 2 small) (dip 2 + 3)
    ≡ disk.byte (iblock 2 small) (dip 2 + 3)
iupdate-other_example = iupdate-other small file disk 2 3 (omega arith) (omega arith)

-- The file has its first block only.
only_first : (n : ℕ) → (n ≡ 0) ⊎ (lookup file disk n ≡ 0)
only_first zero = inl refl
only_first (suc n) =
    let later : (suc n == 0) ≡ false = ground arith in
    inr (elim (Bool-cases (ltb (suc n) 12)) [ inl t ↦ rw (t, later) refl | inr f ↦ rw f refl ])

first_block : (n : ℕ) → lookup file disk n ≢ 0 → n ≡ 0
first_block n ne = elim (only_first n) [ inl e ↦ e | inr z ↦ absurd (ne z) ]

file-IsPlaced : IsPlaced small file disk
file-IsPlaced = record {
  distinct = λ n n' _ _ ne e. first_block n ne ∙ sym (first_block n' (λ z. ne (e ∙ z)));
  apart = λ n _ ne.
      (let is_first : 0 ≡ n = sym (first_block n ne) in
        subst (λ x. (lookup file disk x ≢ 0) × (lookup file disk x ≢ 2)) is_first
          (omega arith, omega arith));
  indirect = omega arith;
}

one_block : (end : ℕ) → end ≤ 1024 → (bn : ℕ) → bn * 1024 < end → lookup file disk bn ≢ 0
one_block end le zero lt = omega arith
one_block end le (suc bn) lt = absurd (omega arith)

abbrev letters : Memory
letters a = 97 + a % 26

writei-IsWritten_example :
    (d' : Disk) × (writei (from_memory letters) small 100 3 10 file disk
      ≡ some (pos 10, grown (3 + 10) file, d'))
    × IsWritten 3 10 100 letters file disk d'
writei-IsWritten_example =
    writei-IsWritten small 100 3 10 letters file disk (omega arith) (omega arith)
      (file-IsPlaced, one_block 13 (omega arith))

readi-writei_example :
    (ip' : Inode) × (d' : Disk) × (t' : Memory) × (writei
        (from_memory letters)
        small
        100
        3
        10
        file
        disk
      ≡ some (pos 10, ip', d'))
    × (readi to_memory small 500 3 10 ip' d' letters ≡ some (pos 10, ip', d', t'))
    × ((a : ℕ) → t' a ≡ (if within 500 10 a then letters (100 + (a - 500)) else letters a))
readi-writei_example =
    readi-writei small 100 3 10 500 letters letters file disk (omega arith) (omega arith)
      (omega arith) (file-IsPlaced, one_block 13 (omega arith)) (one_block 5 (omega arith))
