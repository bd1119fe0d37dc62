-- ===== src/Inode/Allocating.antt =====
-- bmap (kernel/fs.c) on every block number: what it returns, and the mapping it leaves.
use mathlib.Core.Path.{subst}
use native.Mathlib.Decide.{ℕ_discrete}
use os_cea.Base.{
  ℕ, ◌-◌, ◌*◌, ◌^◌, ◌≤◌, ◌<◌, ◌≡◌, ◌≢◌, refl, sym, ap, ◌∙◌, true, false, Option, some, ◌==◌, ltb,
  if◌then◌else◌, arith, Bool-cases, inl, inr,
}
use os_cea.Disk.{Superblock, Disk, get_word, put_word, log_write, balloc}
use os_cea.Disk.Blocks.{balloc-Given}
use os_cea.Disk.Bitmap.{used}
use os_cea.Inode.{Inode, set_addr, bmap_indirect, bmap}
use os_cea.Inode.Mapping.{
  lookup, lookup-direct, bmap-lookup, bmap_indirect-there, after_indirect, bmap-indirect,
}
use os_cea.Inode.Growing.{
  IsSound, Bmapped, no_space, has_block, IsSound-Given, lookup-Given, direct_self, direct-other,
  direct-IsSound, indirect-same, indirect-IsSound, written, written-IsSound, written_self,
  written-other, not_boot, Given-more, used-written, lookup-word, lookup-none,
}

-- Two steps, the first of which moves no block and frees none.
Bmapped-after :
    (sb : Superblock) (ip ip₁ : Inode) (bn : ℕ) (d d₁ : Disk) {out : Option (ℕ × Inode × Disk)}
    → lookup ip d bn ≡ 0
    → bn < 268
    → ((n : ℕ) → n < 268 → lookup ip₁ d₁ n ≡ lookup ip d n)
    → ((j : ℕ) → j < sb.size → used sb d j ≢ 0 → used sb d₁ j ≢ 0)
    → Bmapped sb ip₁ bn d₁ out
    → Bmapped sb ip bn d out
Bmapped-after sb ip ip₁ bn d d₁ z lt same more (no_space ip' d' e _ full s all) =
    no_space ip' d' e z full s (λ n lt. all n lt ∙ same n lt)
Bmapped-after sb ip ip₁ bn d d₁ z lt same more (has_block addr ip' d' e ne (inl was) s at others) =
    absurd (was.0 (same bn lt ∙ z))
Bmapped-after sb ip ip₁ bn d d₁ z lt same more
      (has_block addr ip' d' e ne (inr (_, inside, free, taken)) s at others) =
    has_block addr ip' d' e ne
      (inr (
        z,
        inside,
        elim (ℕ_discrete (used sb d addr) 0) [
          | yes was_free ↦ was_free
          | no set ↦ absurd (more addr inside set free)
        ],
        taken,
      ))
      s at (λ n lt ne'. others n lt ne' ∙ same n lt)

-- A block that the file has.
Bmapped-lookup :
    (sb : Superblock) (ip : Inode) (bn : ℕ) (d : Disk)
    → bn < 268
    → IsSound sb ip d
    → lookup ip d bn ≢ 0
    → Bmapped sb ip bn d (bmap sb ip bn d)
Bmapped-lookup sb ip bn d lt s ne =
    has_block (lookup ip d bn) ip d (bmap-lookup sb ip bn d lt ne) ne (inl (ne, refl, refl, refl)) s
      refl (λ n _ _. refl)

abbrev direct : ℕ → Inode → ℕ × Disk → Option (ℕ × Inode × Disk)
direct bn ip (addr, d') =
    if addr == 0 then some (0, ip, d') else some (addr, set_addr bn addr ip, d')

bmap-direct_new :
    (sb : Superblock) (ip : Inode) (bn : ℕ) (d : Disk)
    → bn < 12
    → ip.addrs bn ≡ 0
    → bmap sb ip bn d ≡ direct bn ip (balloc sb d)
unfolding bmap
bmap-direct_new sb ip bn d lt z =
    let t : ltb bn 12 ≡ true = ground arith in
    let f : (ip.addrs bn == 0) ≡ true = ground arith in rw (t, f, bmap) refl

one≢0 : {n : ℕ} → n ≡ 1 → n ≢ 0
one≢0 e z = absurd (omega arith)

Bmapped-direct :
    (sb : Superblock) (ip : Inode) (bn : ℕ) (d : Disk)
    → bn < 12
    → IsSound sb ip d
    → ip.addrs bn ≡ 0
    → Bmapped sb ip bn d (direct bn ip (balloc sb d))
Bmapped-direct sb ip bn d lt s z = elim (balloc-Given sb d s.map_owned) [
  | inl (e, full) ↦
      no_space ip d (ap (direct bn ip) e) (lookup-direct ip d bn lt ∙ z) full s (λ n _. refl)
  | inr (k, d', e, g) ↦
      (let ne = not_boot sb k ip d d' g s in
        let f : (k == 0) ≡ false = ground arith in
        has_block k (set_addr bn k ip) d' (ap (direct bn ip) e ∙ rw (f, direct) refl) ne
          (inr (lookup-direct ip d bn lt ∙ z, g.inside, g.was_free, one≢0 g.taken))
          (direct-IsSound sb k ip d d' g s bn lt) (direct_self sb k ip d d' g s bn lt)
          (direct-other sb k ip d d' g s bn lt))
]

-- With an indirect block, the word for block `bn`.
abbrev word : ℕ → Inode → ℕ × Disk → Option (ℕ × Inode × Disk)
word bn ip (new, d') =
    if new == 0
    then some (0, ip, d')
    else some (new, ip, log_write (ip.addrs 12) (put_word (ip.addrs 12) (4 * (bn - 12)) new d'))

after_indirect-there :
    (sb : Superblock) (ip : Inode) (bn : ℕ) (d : Disk)
    → ip.addrs 12 ≢ 0
    → get_word (ip.addrs 12) (4 * (bn - 12)) d ≢ 0
    → after_indirect sb bn (ip.addrs 12, ip, d)
      ≡ some (get_word (ip.addrs 12) (4 * (bn - 12)) d, ip, d)
after_indirect-there sb ip bn d ne ne' =
    let f : (ip.addrs 12 == 0) ≡ false = ground arith in
    let f' : (get_word (ip.addrs 12) (4 * (bn - 12)) d == 0) ≡ false = ground arith in
    rw (f, f', after_indirect) refl

after_indirect-new :
    (sb : Superblock) (ip : Inode) (bn : ℕ) (d : Disk)
    → ip.addrs 12 ≢ 0
    → get_word (ip.addrs 12) (4 * (bn - 12)) d ≡ 0
    → after_indirect sb bn (ip.addrs 12, ip, d) ≡ word bn ip (balloc sb d)
after_indirect-new sb ip bn d ne z =
    let f : (ip.addrs 12 == 0) ≡ false = ground arith in
    let t : (get_word (ip.addrs 12) (4 * (bn - 12)) d == 0) ≡ true = ground arith in
    rw (f, t, after_indirect) refl

module _ (sb : Superblock) (small : sb.size ≤ 2 ^ 32) (bn : ℕ) (ge : 12 ≤ bn) (lt : bn < 268) where
  Bmapped-word :
      (ip : Inode) (d : Disk)
      → IsSound sb ip d
      → ip.addrs 12 ≢ 0
      → lookup ip d bn ≡ 0
      → Bmapped sb ip bn d (word bn ip (balloc sb d))
  Bmapped-word ip d s ne was = elim (balloc-Given sb d s.map_owned) [
    | inl (e, full) ↦ no_space ip d (ap (word bn ip) e) was full s (λ n _. refl)
    | inr (k, d', e, g) ↦
        (let ne' = not_boot sb k ip d d' g s in
          let f : (k == 0) ≡ false = ground arith in
          let s' = IsSound-Given sb k ip d d' g s in
          let inside = g.inside in
          let kept = used-written sb bn k ip d' s' ne ge k inside in
          has_block k ip (written sb bn k ip d' s' ne ge) (ap (word bn ip) e ∙ rw (f, word) refl)
            ne' (inr (was, inside, g.was_free, one≢0 (kept ∙ g.taken)))
            (written-IsSound sb bn k ip d' s' ne ge)
            (written_self sb bn k ip d' s' ne ge (omega arith))
            (λ n lt' apart.
              written-other sb bn k ip d' s' ne ge n lt' apart ∙ lookup-Given sb k ip d d' g s n))
  ]

  Bmapped-there :
      (ip : Inode) (d : Disk)
      → IsSound sb ip d
      → ip.addrs 12 ≢ 0
      → Bmapped sb ip bn d (after_indirect sb bn (ip.addrs 12, ip, d))
  Bmapped-there ip d s ne =
      let same = lookup-word ip d bn ge ne in
      elim (ℕ_discrete (get_word (ip.addrs 12) (4 * (bn - 12)) d) 0) [
        | yes z ↦
            subst (Bmapped sb ip bn d) (sym (after_indirect-new sb ip bn d ne z))
              (Bmapped-word ip d s ne (same ∙ z))
        | no ne' ↦
            has_block (get_word (ip.addrs 12) (4 * (bn - 12)) d) ip d
              (after_indirect-there sb ip bn d ne ne') ne'
              (inl (λ z. ne' (sym same ∙ z), sym same, refl, refl)) s same (λ n _ _. refl)
      ]

  abbrev indirect : Inode → ℕ × Disk → ℕ × Inode × Disk
  indirect ip (addr, d') = if addr == 0 then (0, ip, d') else (addr, set_addr 12 addr ip, d')

  bmap_indirect-new :
      (ip : Inode) (d : Disk) → ip.addrs 12 ≡ 0 → bmap_indirect sb ip d ≡ indirect ip (balloc sb d)
  unfolding bmap_indirect
  bmap_indirect-new ip d z =
      let t : (ip.addrs 12 == 0) ≡ true = ground arith in rw (t, bmap_indirect) refl

  Bmapped-indirect :
      (ip : Inode) (d : Disk)
      → IsSound sb ip d
      → ip.addrs 12 ≡ 0
      → Bmapped sb ip bn d (after_indirect sb bn (indirect ip (balloc sb d)))
  Bmapped-indirect ip d s z =
      let was = lookup-none ip d bn ge z in
      elim (balloc-Given sb d s.map_owned) [
        | inl (e, full) ↦
            no_space ip d (ap (λ o. after_indirect sb bn (indirect ip o)) e) was full s
              (λ n _. refl)
        | inr (k, d', e, g) ↦
            (let ne = not_boot sb k ip d d' g s in
              let f : (k == 0) ≡ false = ground arith in
              let ip₁ = set_addr 12 k ip in
              let new : indirect ip (k, d') ≡ (k, ip₁, d') = rw (f, indirect) refl in
              let step : after_indirect sb bn (indirect ip (balloc sb d))
                  ≡ after_indirect sb bn (k, ip₁, d') =
                ap (λ o. after_indirect sb bn (indirect ip o)) e ∙ ap (after_indirect sb bn) new in
              subst (Bmapped sb ip bn d) (sym step) (
                Bmapped-after sb ip ip₁ bn d d' was lt (indirect-same sb k ip d d' g s z)
                  (Given-more sb k ip d d' g s)
                  (Bmapped-there ip₁ d' (indirect-IsSound sb k ip d d' g s) ne)))
      ]

-- For every block number that a file can have, `bmap` does not panic. If the file has a block there it
-- returns that block and changes nothing. If not, it returns a block that was free and is now in use and
-- the file's, or 0 once every block of the disk is in use. Every other block of the file stays where it
-- was, also when an indirect block is allocated first; block 0 stays in use, and the indirect block
-- stays a block in use and none of the bit map.
pub bmap-Bmapped :
    (sb : Superblock) (ip : Inode) (bn : ℕ) (d : Disk)
    → sb.size ≤ 2 ^ 32
    → bn < 268
    → IsSound sb ip d
    → Bmapped sb ip bn d (bmap sb ip bn d)
bmap-Bmapped sb ip bn d small lt s = elim (Bool-cases (ltb bn 12)) [
  | inl t ↦
      (let low : bn < 12 = ground arith in
        elim (ℕ_discrete (ip.addrs bn) 0) [
          | yes z ↦
              subst (Bmapped sb ip bn d) (sym (bmap-direct_new sb ip bn d low z))
                (Bmapped-direct sb ip bn d low s z)
          | no ne ↦ Bmapped-lookup sb ip bn d lt s (λ z. ne (sym (lookup-direct ip d bn low) ∙ z))
        ])
  | inr f ↦
      (let ge : 12 ≤ bn = ground arith in
        let step = bmap-indirect sb ip bn d ge lt in
        elim (ℕ_discrete (ip.addrs 12) 0) [
          | yes z ↦
              subst (Bmapped sb ip bn d)
                (sym
                  (step ∙ ap (after_indirect sb bn) (bmap_indirect-new sb small bn ge lt ip d z)))
                (Bmapped-indirect sb small bn ge lt ip d s z)
          | no ne ↦
              subst (Bmapped sb ip bn d)
                (sym (step ∙ ap (after_indirect sb bn) (bmap_indirect-there sb ip d ne)))
                (Bmapped-there sb small bn ge lt ip d s ne)
        ])
]
