-- ===== src/Disk/Blocks.antt =====
-- What giving out and freeing a block (kernel/fs.c: balloc, bfree) does to the blocks of the disk.
use mathlib.Core.Path.{subst}
use native.Mathlib.Decide.{ℕ_discrete}
use os_cea.Base.{
  ℕ, ◌/◌, ◌%◌, ◌<◌, ◌≡◌, ◌≢◌, ◌⊎◌, inl, inr, refl, sym, ap, ◌∙◌, false, some, ◌∷◌, ◌==◌, arith,
}
use os_cea.Disk.{
  Superblock, Disk, bblock, bit, set_bit, clear_bit, log_write, put_byte, bzero, balloc, bfree,
}
use os_cea.Disk.Bits.{bit-set_bit, bit-set_bit_other, clear_bit-set_bit}
use os_cea.Disk.Words.{byte-put_byte, byte-put_byte_other}
use os_cea.Disk.Bitmap.{used, allocated, disk_full, gave, balloc-Allocation}

-- The blocks of the bit map are blocks of the disk, and in use.
abbrev pub OwnsMap : Superblock → Disk → Type 0
OwnsMap sb d = (j : ℕ) → j < sb.size → (bblock j sb < sb.size) × (used sb d (bblock j sb) ≢ 0)

bzero-zero : (k i : ℕ) (d : Disk) → i < 1024 → (bzero k d).byte k i ≡ 0
unfolding bzero log_write
bzero-zero k i d lt = ground arith

bzero-other : (k b i : ℕ) (d : Disk) → b ≢ k → (bzero k d).byte b i ≡ d.byte b i
unfolding bzero log_write
bzero-other k b i d ne = ground arith

pub log_write-byte : (k b i : ℕ) (d : Disk) → (log_write k d).byte b i ≡ d.byte b i
unfolding log_write
log_write-byte k b i d = refl

-- Equal places in the map.
places :
    (j k : ℕ)
    → j / 8192 ≡ k / 8192
    → j % 8192 / 8 ≡ k % 8192 / 8
    → j % 8192 % 8 ≡ k % 8192 % 8
    → j ≡ k
places j k a b c = omega arith

module _ (sb : Superblock) (k : ℕ) (d : Disk) where
  abbrev bp : ℕ
  bp = bblock k sb

  abbrev at : ℕ
  at = k % 8192 / 8

  abbrev marked : Disk
  marked = put_byte bp at (set_bit (d.byte bp at) (k % 8192 % 8)) d

  -- A block other than `k` holds what it held after its bit was set.
  allocated-marked : (b i : ℕ) → b ≢ k → (allocated sb k d).byte b i ≡ marked.byte b i
  allocated-marked b i ne =
      bzero-other k b i (log_write bp marked) ne ∙ log_write-byte bp b i marked

  pub allocated-other :
      (b i : ℕ) → b ≢ k → (b ≢ bp) ⊎ (i ≢ at) → (allocated sb k d).byte b i ≡ d.byte b i
  allocated-other b i ne far =
      allocated-marked b i ne
      ∙ byte-put_byte_other bp at (set_bit (d.byte bp at) (k % 8192 % 8)) b i d far

  pub allocated-map : bp ≢ k → (allocated sb k d).byte bp at ≡ set_bit (d.byte bp at) (k % 8192 % 8)
  allocated-map ne =
      allocated-marked bp at ne ∙ byte-put_byte bp at (set_bit (d.byte bp at) (k % 8192 % 8)) d

  pub used-allocated : bp ≢ k → used sb (allocated sb k d) k ≡ 1
  used-allocated ne =
      ap (λ v. bit v (k % 8192 % 8)) (allocated-map ne) ∙ bit-set_bit (d.byte bp at) (k % 8192 % 8)

  pub used-allocated_other :
      (j : ℕ) → bblock j sb ≢ k → j ≢ k → used sb (allocated sb k d) j ≡ used sb d j
  used-allocated_other j apart ne = elim (ℕ_discrete (bblock j sb) bp) [
    | no far ↦
        ap (λ v. bit v (j % 8192 % 8))
          (allocated-other (bblock j sb) (j % 8192 / 8) apart (inl far))
    | yes same ↦ elim (ℕ_discrete (j % 8192 / 8) at) [
      | no far ↦
          ap (λ v. bit v (j % 8192 % 8))
            (allocated-other (bblock j sb) (j % 8192 / 8) apart (inr far))
      | yes same' ↦
          (let ne_bit : k % 8192 % 8 ≢ j % 8192 % 8 =
              (λ z. ne (places j k (omega arith) same' (sym z))) in
            let place : (allocated sb k d).byte (bblock j sb) (j % 8192 / 8)
                ≡ set_bit (d.byte bp at) (k % 8192 % 8) =
              ap (λ b. (allocated sb k d).byte b (j % 8192 / 8)) same
              ∙ (ap (λ i. (allocated sb k d).byte bp i) same'
                  ∙ allocated-map (λ z. apart (same ∙ z))) in
            ap (λ v. bit v (j % 8192 % 8)) place
            ∙ (bit-set_bit_other (d.byte bp at) (k % 8192 % 8) (j % 8192 % 8) ne_bit
                ∙ (ap (λ b. bit (d.byte b at) (j % 8192 % 8)) (sym same)
                    ∙ ap (λ i. bit (d.byte (bblock j sb) i) (j % 8192 % 8)) (sym same'))))
    ]
  ]

  pub allocated-zero : (i : ℕ) → i < 1024 → (allocated sb k d).byte k i ≡ 0
  allocated-zero i lt = bzero-zero k i (log_write bp marked) lt

  pub logged-allocated : (allocated sb k d).logged ≡ k ∷ (bp ∷ d.logged)
  unfolding bzero log_write put_byte
  logged-allocated = refl

-- What giving out block `k` does.
pub record Given (sb : Superblock) (k : ℕ) (d d' : Disk) : Type 0 where
  pub inside : k < sb.size
  pub was_free : used sb d k ≡ 0
  pub taken : used sb d' k ≡ 1
  pub others : (j : ℕ) → j < sb.size → j ≢ k → used sb d' j ≡ used sb d j
  pub zeroed : (i : ℕ) → i < 1024 → d'.byte k i ≡ 0
  pub kept : (b i : ℕ) → b ≢ k → b ≢ bblock k sb → d'.byte b i ≡ d.byte b i
  pub map_owned : OwnsMap sb d'
  pub logged : d'.logged ≡ k ∷ (bblock k sb ∷ d.logged)

-- A free block is no block of the map.
pub free-apart :
    (sb : Superblock) (k j : ℕ) (d : Disk)
    → OwnsMap sb d
    → used sb d k ≡ 0
    → j < sb.size
    → bblock j sb ≢ k
free-apart sb k j d own z lt e = (own j lt).1 (ap (used sb d) e ∙ z)

allocated-Given :
    (sb : Superblock) (k : ℕ) (d : Disk)
    → OwnsMap sb d
    → k < sb.size
    → used sb d k ≡ 0
    → Given sb k d (allocated sb k d)
allocated-Given sb k d own lt z = record {
  inside = lt;
  was_free = z;
  taken = used-allocated sb k d (free-apart sb k k d own z lt);
  others = λ j lt' ne. used-allocated_other sb k d j (free-apart sb k j d own z lt') ne;
  zeroed = allocated-zero sb k d;
  kept = λ b i ne far. allocated-other sb k d b i ne (inl far);
  map_owned = λ j lt'. ((own j lt').0, λ x. (own j lt').1 (sym (still j lt') ∙ x));
  logged = logged-allocated sb k d;
}
  where
    still :
        (j : ℕ) → j < sb.size → used sb (allocated sb k d) (bblock j sb) ≡ used sb d (bblock j sb)
    still j lt' =
        used-allocated_other sb k d (bblock j sb)
          (free-apart sb k (bblock j sb) d own z (own j lt').0) (free-apart sb k j d own z lt')

-- With the blocks of the bit map in use, `balloc` either returns 0 on a full disk, with nothing changed,
-- or it gives out a block that was free: its bit is set and no other, its bytes are zero, no block but it
-- and its block of the map is touched, and both of these are logged. The map stays in use.
pub balloc-Given :
    (sb : Superblock) (d : Disk)
    → OwnsMap sb d
    → ((balloc sb d ≡ (0, d)) × ((k : ℕ) → k < sb.size → used sb d k ≢ 0))
      ⊎ ((k : ℕ) × (d' : Disk) × (balloc sb d ≡ (k, d')) × Given sb k d d')
balloc-Given sb d own = elim (balloc-Allocation sb d) [
  | disk_full e all ↦ inl (e, all)
  | gave k e lt z before ↦ inr (k, allocated sb k d, e, allocated-Given sb k d own lt z)
]

-- The disk after block `k` is freed.
abbrev freed : Superblock → ℕ → Disk → Disk
freed sb k d =
    let bp = bblock k sb in
    let i = k % 8192 / 8 in log_write bp (put_byte bp i (clear_bit (d.byte bp i) (k % 8192 % 8)) d)

freed-allocated :
    (sb : Superblock) (k : ℕ) (d : Disk)
    → bblock k sb ≢ k
    → used sb d k ≡ 0
    → (b i : ℕ) → b ≢ k
    → (freed sb k (allocated sb k d)).byte b i ≡ d.byte b i
freed-allocated sb k d apart z b i ne =
    let bp = bblock k sb in
    let place = k % 8192 / 8 in
    let d' = allocated sb k d in
    let v = clear_bit (d'.byte bp place) (k % 8192 % 8) in
    log_write-byte bp b i (put_byte bp place v d') ∙ elim (ℕ_discrete b bp) [
      | no far ↦
          byte-put_byte_other bp place v b i d' (inl far) ∙ allocated-other sb k d b i ne (inl far)
      | yes same ↦ elim (ℕ_discrete i place) [
        | no far ↦
            byte-put_byte_other bp place v b i d' (inr far)
            ∙ allocated-other sb k d b i ne (inr far)
        | yes same' ↦
            (let back : v ≡ d.byte bp place =
                ap (λ w. clear_bit w (k % 8192 % 8)) (allocated-map sb k d apart)
                ∙ clear_bit-set_bit (d.byte bp place) (k % 8192 % 8) z in
              ap (λ x. (put_byte bp place v d').byte x i) same
              ∙ (ap (λ x. (put_byte bp place v d').byte bp x) same'
                  ∙ (byte-put_byte bp place v d'
                      ∙ (back
                          ∙ (ap (λ x. d.byte x place) (sym same)
                              ∙ ap (λ x. d.byte b x) (sym same'))))))
      ]
    ]

bfree-used :
    (sb : Superblock) (k : ℕ) (d : Disk) → used sb d k ≡ 1 → bfree sb k d ≡ some (freed sb k d)
unfolding bfree
bfree-used sb k d one =
    let set : (bit (d.byte (bblock k sb) (k % 8192 / 8)) (k % 8192 % 8) == 0) ≡ false =
      ground arith in
    rw set refl

-- With the blocks of the bit map in use, freeing the block that `balloc` has given out, if it is not block
-- 0, does not panic, and then every block but that one holds
-- what it held before `balloc`, those of the bit map included.
pub bfree-balloc :
    (sb : Superblock) (d d' : Disk) (k : ℕ)
    → OwnsMap sb d
    → balloc sb d ≡ (k, d')
    → k ≢ 0
    → (d'' : Disk) × (bfree sb k d' ≡ some d'') × ((b i : ℕ) → b ≢ k → d''.byte b i ≡ d.byte b i)
bfree-balloc sb d d' k own e nz = elim (balloc-Allocation sb d) [
  | disk_full e' all ↦ absurd (nz (ap (λ o. o.0) (sym e ∙ e')))
  | gave k₁ e' lt z before ↦
      (let same : (k₁, allocated sb k₁ d) ≡ (k, d') = sym e' ∙ e in
        let Restored : ℕ × Disk → Type 0 = λ o.
          (d'' : Disk) × (bfree sb o.0 o.1 ≡ some d'')
          × ((b i : ℕ) → b ≢ o.0 → d''.byte b i ≡ d.byte b i) in
        subst Restored same (restored k₁ lt z))
]
  where
    restored :
        (k₁ : ℕ)
        → k₁ < sb.size
        → used sb d k₁ ≡ 0
        → (d'' : Disk) × (bfree sb k₁ (allocated sb k₁ d) ≡ some d'')
          × ((b i : ℕ) → b ≢ k₁ → d''.byte b i ≡ d.byte b i)
    restored k₁ lt z =
        let apart = free-apart sb k₁ k₁ d own z lt in
        (
          freed sb k₁ (allocated sb k₁ d),
          bfree-used sb k₁ (allocated sb k₁ d) (used-allocated sb k₁ d apart),
          λ b i ne. freed-allocated sb k₁ d apart z b i ne,
        )
