-- ===== src/Inode/Mapping.antt =====
-- Which block of the disk holds which block of a file, and bmap on one that is there (kernel/fs.c).
use os_cea.Base.{
  ℕ, ◌-◌, ◌*◌, ◌≤◌, ◌<◌, ◌≡◌, ◌≢◌, refl, sym, ap, ◌∙◌, true, false, Option, some, ◌==◌, ltb,
  if◌then◌else◌, arith, Bool-cases, inl, inr,
}
use os_cea.Disk.{Superblock, Disk, get_word, put_word, log_write, balloc}
use os_cea.Inode.{Inode, bmap_indirect, bmap}

-- The block for block `bn` of a file, 0 if there is none.
abbrev pub lookup : Inode → Disk → ℕ → ℕ
lookup ip d bn =
    if ltb bn 12
    then ip.addrs bn
    else if ip.addrs 12 == 0
    then 0
    else get_word (ip.addrs 12) (4 * (bn - 12)) d

pub lookup-direct : (ip : Inode) (d : Disk) (bn : ℕ) → bn < 12 → lookup ip d bn ≡ ip.addrs bn
lookup-direct ip d bn lt = let t : ltb bn 12 ≡ true = ground arith in rw t refl

pub bmap_indirect-there :
    (sb : Superblock) (ip : Inode) (d : Disk)
    → ip.addrs 12 ≢ 0
    → bmap_indirect sb ip d ≡ (ip.addrs 12, ip, d)
unfolding bmap_indirect
bmap_indirect-there sb ip d ne =
    let f : (ip.addrs 12 == 0) ≡ false = ground arith in rw (f, bmap_indirect) refl

bmap-direct :
    (sb : Superblock) (ip : Inode) (bn : ℕ) (d : Disk)
    → bn < 12
    → ip.addrs bn ≢ 0
    → bmap sb ip bn d ≡ some (ip.addrs bn, ip, d)
unfolding bmap
bmap-direct sb ip bn d lt ne =
    let t : ltb bn 12 ≡ true = ground arith in
    let f : (ip.addrs bn == 0) ≡ false = ground arith in rw (t, f, bmap) refl

-- The rest of `bmap`, once there is an indirect block.
abbrev pub after_indirect : Superblock → ℕ → ℕ × Inode × Disk → Option (ℕ × Inode × Disk)
after_indirect sb bn (addr, ip', d') = elim (addr == 0) [
  | true ↦ some (0, ip', d')
  | false ↦ elim (get_word addr (4 * (bn - 12)) d' == 0) [
    | false ↦ some (get_word addr (4 * (bn - 12)) d', ip', d')
    | true ↦
        (let (new, d'') = balloc sb d' in
          if new == 0
          then some (0, ip', d'')
          else some (new, ip', log_write addr (put_word addr (4 * (bn - 12)) new d'')))
  ]
]

pub bmap-indirect :
    (sb : Superblock) (ip : Inode) (bn : ℕ) (d : Disk)
    → 12 ≤ bn
    → bn < 268
    → bmap sb ip bn d ≡ after_indirect sb bn (bmap_indirect sb ip d)
unfolding bmap
bmap-indirect sb ip bn d ge lt =
    let t : ltb bn 12 ≡ false = ground arith in
    let t' : ltb (bn - 12) 256 ≡ true = ground arith in rw (t, t', bmap) refl

bmap-word :
    (sb : Superblock) (ip : Inode) (bn : ℕ) (d : Disk)
    → 12 ≤ bn
    → bn < 268
    → ip.addrs 12 ≢ 0
    → get_word (ip.addrs 12) (4 * (bn - 12)) d ≢ 0
    → bmap sb ip bn d ≡ some (get_word (ip.addrs 12) (4 * (bn - 12)) d, ip, d)
bmap-word sb ip bn d ge lt ne ne' =
    let f : (ip.addrs 12 == 0) ≡ false = ground arith in
    let f' : (get_word (ip.addrs 12) (4 * (bn - 12)) d == 0) ≡ false = ground arith in
    bmap-indirect sb ip bn d ge lt
    ∙ (ap (after_indirect sb bn) (bmap_indirect-there sb ip d ne) ∙ rw (f, f', after_indirect) refl)

-- `bmap` of a block that the file has returns it, and changes nothing.
pub bmap-lookup :
    (sb : Superblock) (ip : Inode) (bn : ℕ) (d : Disk)
    → bn < 268
    → lookup ip d bn ≢ 0
    → bmap sb ip bn d ≡ some (lookup ip d bn, ip, d)
bmap-lookup sb ip bn d lt ne = elim (Bool-cases (ltb bn 12)) [
  | inl t ↦
      (let small : bn < 12 = ground arith in
        let same = lookup-direct ip d bn small in
        bmap-direct sb ip bn d small (λ z. ne (same ∙ z)) ∙ ap (λ x. some (x, ip, d)) (sym same))
  | inr f ↦ elim (Bool-cases (ip.addrs 12 == 0)) [
    | inl z ↦ absurd (ne (rw (f, z) refl))
    | inr nz ↦
        (let same : lookup ip d bn ≡ get_word (ip.addrs 12) (4 * (bn - 12)) d = rw (f, nz) refl in
          bmap-word sb ip bn d (ground arith) lt (ground arith) (λ z. ne (same ∙ z))
          ∙ ap (λ x. some (x, ip, d)) (sym same))
  ]
]
