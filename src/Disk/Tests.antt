-- ===== src/Disk/Tests.antt =====
-- The theorems on the bit map, on a disk of 20 blocks of which the first six are in use.
use mathlib.Core.Path.{subst}
use os_cea.Base.{ℕ, ◌<◌, ◌≡◌, ◌≢◌, ◌⊎◌, refl, some, [], ◌==◌, ◌&&◌, if◌then◌else◌, arith}
use os_cea.Disk.{Superblock, Disk, bblock, bit, find_bit, balloc_from, balloc, bfree}
use os_cea.Disk.Bitmap.{used, allocated}
use os_cea.Disk.Blocks.{OwnsMap, Given, balloc-Given, bfree-balloc}

abbrev small : Superblock
small = record { size = 20; ninodes = 16; inodestart = 2; bmapstart = 5 }

abbrev six_used : Disk
six_used = record { byte = λ b i. if b == 5 && i == 0 then 63 else 0; logged = [] }

six_used-OwnsMap : OwnsMap small six_used
unfolding bit
six_used-OwnsMap j lt =
    let first : 5 ≡ bblock j small = omega arith in
    subst (λ b. (b < 20) × (used small six_used b ≢ 0)) first (omega arith, omega arith)

balloc-Given_example :
    ((balloc small six_used ≡ (0, six_used)) × ((k : ℕ) → k < 20 → used small six_used k ≢ 0))
    ⊎ ((k : ℕ) × (d' : Disk) × (balloc small six_used ≡ (k, d')) × Given small k six_used d')
balloc-Given_example = balloc-Given small six_used six_used-OwnsMap

block_six : balloc small six_used ≡ (6, allocated small 6 six_used)
unfolding balloc balloc_from find_bit bit
block_six = refl

bfree-balloc_example :
    (d : Disk) × (bfree small 6 (allocated small 6 six_used) ≡ some d)
    × ((b i : ℕ) → b ≢ 6 → d.byte b i ≡ six_used.byte b i)
bfree-balloc_example =
    bfree-balloc small six_used (allocated small 6 six_used) 6 six_used-OwnsMap block_six
      (omega arith)
