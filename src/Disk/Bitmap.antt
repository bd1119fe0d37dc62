-- ===== src/Disk/Bitmap.antt =====
-- balloc finds the first free block, and what balloc and bfree do to the bit map (kernel/fs.c).
use mathlib.Core.Path.{subst}
use os_cea.Base.{
  ℕ, zero, suc, ◌+◌, ◌-◌, ◌*◌, ◌/◌, ◌%◌, ◌≤◌, ◌<◌, ◌≡◌, ◌≢◌, inl, inr, refl, sym, ap, ◌∙◌, Option,
  none, some, ◌==◌, leb, arith, Bool-cases, lt_or_eq_or_lt, ==_iff,
}
use os_cea.Disk.{
  Superblock, Disk, bblock, bit, set_bit, log_write, put_byte, bzero, find_bit, balloc_from, balloc,
}

-- The bit for block `k`: 1 if it is in use.
abbrev pub used : Superblock → Disk → ℕ → ℕ
used sb d k = bit (d.byte (bblock k sb) (k % 8192 / 8)) (k % 8192 % 8)

-- The first clear bit among the `n` from `bi` on that stand for blocks of the disk.
data FirstClear (n size b bi : ℕ) (bytes : ℕ → ℕ) (out : Option ℕ) : Type 0 where
  all_set :
      out ≡ none
      → ((j : ℕ) → j < n → b + bi + j < size → bit (bytes ((bi + j) / 8)) ((bi + j) % 8) ≢ 0)
      → FirstClear n size b bi bytes out
  clear :
      (j : ℕ)
      → out ≡ some (bi + j)
      → j < n
      → b + bi + j < size
      → bit (bytes ((bi + j) / 8)) ((bi + j) % 8) ≡ 0
      → ((i : ℕ) → i < j → bit (bytes ((bi + i) / 8)) ((bi + i) % 8) ≢ 0)
      → FirstClear n size b bi bytes out

FirstClear-suc :
    {n size b bi : ℕ} (bytes : ℕ → ℕ) {out : Option ℕ}
    → bit (bytes (bi / 8)) (bi % 8) ≢ 0
    → FirstClear n size b (bi + 1) bytes out
    → FirstClear (suc n) size b bi bytes out
FirstClear-suc {n = n} {size = size} {b = b} {bi = bi} bytes here (all_set e all) = all_set e all'
  where
    all' : (j : ℕ) → j < suc n → b + bi + j < size → bit (bytes ((bi + j) / 8)) ((bi + j) % 8) ≢ 0
    all' zero lt lt' =
        let at : bi ≡ bi + 0 = omega arith in subst (λ x. bit (bytes (x / 8)) (x % 8) ≢ 0) at here
    all' (suc j) lt lt' =
        let at : bi + 1 + j ≡ bi + suc j = omega arith in
        subst (λ x. bit (bytes (x / 8)) (x % 8) ≢ 0) at (all j (omega arith) (omega arith))
FirstClear-suc {n = n} {size = size} {b = b} {bi = bi} bytes here (clear j e lt inside z all) =
    let at : bi + 1 + j ≡ bi + suc j = omega arith in
    clear (suc j) (e ∙ ap some at) (omega arith) (omega arith)
      (subst (λ x. bit (bytes (x / 8)) (x % 8) ≡ 0) at z) all'
  where
    all' : (i : ℕ) → i < suc j → bit (bytes ((bi + i) / 8)) ((bi + i) % 8) ≢ 0
    all' zero lt' =
        let at : bi ≡ bi + 0 = omega arith in subst (λ x. bit (bytes (x / 8)) (x % 8) ≢ 0) at here
    all' (suc i) lt' =
        let at : bi + 1 + i ≡ bi + suc i = omega arith in
        subst (λ x. bit (bytes (x / 8)) (x % 8) ≢ 0) at (all i (omega arith))

find_bit-FirstClear :
    (n size b bi : ℕ) (bytes : ℕ → ℕ) → FirstClear n size b bi bytes (find_bit n size b bi bytes)
unfolding find_bit
find_bit-FirstClear zero size b bi bytes = all_set refl (λ j lt. absurd (omega arith))
find_bit-FirstClear (suc n) size b bi bytes = elim (Bool-cases (leb size (b + bi))) [
  | inl t ↦
      all_set (rw (t, find_bit) refl)
        (λ j lt lt'. absurd (let le : size ≤ b + bi = ground arith in omega arith))
  | inr f ↦ elim (Bool-cases (bit (bytes (bi / 8)) (bi % 8) == 0)) [
    | inl z ↦
        (let at : bi ≡ bi + 0 = omega arith in
          clear 0 (rw (f, z, find_bit) (ap some at)) (omega arith) (ground arith)
            (subst (λ x. bit (bytes (x / 8)) (x % 8) ≡ 0) at ((==_iff _ 0).0 z))
            (λ i lt. absurd (omega arith)))
    | inr s ↦
        (let here : bit (bytes (bi / 8)) (bi % 8) ≢ 0 = ground arith in
          let step : find_bit (suc n) size b bi bytes ≡ find_bit n size b (bi + 1) bytes =
            rw (f, s, find_bit) refl in
          subst (FirstClear (suc n) size b bi bytes) (sym step)
            (FirstClear-suc bytes here (find_bit-FirstClear n size b (bi + 1) bytes)))
  ]
]

-- The disk after block `k` is given out.
abbrev pub allocated : Superblock → ℕ → Disk → Disk
allocated sb k d =
    let bp = bblock k sb in
    let i = k % 8192 / 8 in
    bzero k (log_write bp (put_byte bp i (set_bit (d.byte bp i) (k % 8192 % 8)) d))

-- What `balloc` finds from block `b` on.
data Found (sb : Superblock) (b n : ℕ) (d : Disk) (out : ℕ × Disk) : Type 0 where
  out_of_blocks :
      out ≡ (0, d)
      → ((k : ℕ) → b ≤ k → k < b + n * 8192 → k < sb.size → used sb d k ≢ 0)
      → Found sb b n d out
  free_block :
      (k : ℕ)
      → out ≡ (k, allocated sb k d)
      → b ≤ k
      → k < sb.size
      → used sb d k ≡ 0
      → ((j : ℕ) → b ≤ j → j < k → used sb d j ≢ 0)
      → Found sb b n d out

-- The bits of one block of the map are those of its blocks.
used-at :
    (sb : Superblock) (d : Disk) (b j : ℕ)
    → b % 8192 ≡ 0
    → j < 8192
    → used sb d (b + j) ≡ bit (d.byte (bblock b sb) (j / 8)) (j % 8)
used-at sb d b j al lt =
    let q : (b + j) / 8192 ≡ b / 8192 = omega arith in
    let r : (b + j) % 8192 ≡ j = omega arith in
    ap (λ x. bit (d.byte (x + sb.bmapstart) ((b + j) % 8192 / 8)) ((b + j) % 8192 % 8)) q
    ∙ ap (λ x. bit (d.byte (bblock b sb) (x / 8)) (x % 8)) r

module _ (sb : Superblock) (b n : ℕ) (d : Disk) (al : b % 8192 ≡ 0) where
  abbrev bits : ℕ → ℕ
  bits = d.byte (bblock b sb)

  -- A block of the map with no clear bit.
  full_block :
      ((j : ℕ) → j < 8192 → b + 0 + j < sb.size → bit (bits ((0 + j) / 8)) ((0 + j) % 8) ≢ 0)
      → (k : ℕ) → b ≤ k
      → k < b + 8192
      → k < sb.size
      → used sb d k ≢ 0
  full_block all k le lt lt' =
      let at : b + (k - b) ≡ k = omega arith in
      let plain : 0 + (k - b) ≡ k - b = omega arith in
      subst (λ x. used sb d x ≢ 0) at
        (λ z. all (k - b) (omega arith) (omega arith) (
          ap (λ x. bit (bits (x / 8)) (x % 8)) plain
          ∙ (sym (used-at sb d b (k - b) al (omega arith)) ∙ z)))

  Found-later :
      {out : ℕ × Disk}
      → ((k : ℕ) → b ≤ k → k < b + 8192 → k < sb.size → used sb d k ≢ 0)
      → Found sb (b + 8192) n d out
      → Found sb b (suc n) d out
  Found-later all (out_of_blocks e rest) = out_of_blocks e (λ k le lt lt'.
      elim (lt_or_eq_or_lt k (b + 8192)) [
        | inl below ↦ all k le below lt'
        | inr (inl q) ↦ rest k (omega arith) (omega arith) lt'
        | inr (inr above) ↦ rest k (omega arith) (omega arith) lt'
      ])
  Found-later all (free_block k e le lt z before) = free_block k e (omega arith) lt z (λ j le' lt'.
      elim (lt_or_eq_or_lt j (b + 8192)) [
        | inl below ↦ all j le' below (omega arith)
        | inr (inl q) ↦ before j (omega arith) lt'
        | inr (inr above) ↦ before j (omega arith) lt'
      ])

  abbrev at_bit : ℕ → ℕ × Disk
  at_bit bi = (
    b + bi,
    bzero (b + bi) (
        log_write (bblock b sb)
          (put_byte (bblock b sb) (bi / 8) (set_bit (bits (bi / 8)) (bi % 8)) d)),
  )

  abbrev after_search : Option ℕ → ℕ × Disk
  after_search o = elim o [ none ↦ balloc_from n sb (b + 8192) d | some bi ↦ at_bit bi ]

  at_bit-allocated : (j : ℕ) → j < 8192 → at_bit j ≡ (b + j, allocated sb (b + j) d)
  at_bit-allocated j lt =
      let q : b / 8192 ≡ (b + j) / 8192 = omega arith in
      let r : j ≡ (b + j) % 8192 = omega arith in
      ap
        (λ x. (
          b + j,
          bzero (b + j) (
              log_write (x + sb.bmapstart) (
                put_byte (x + sb.bmapstart) (j / 8)
                  (set_bit (d.byte (x + sb.bmapstart) (j / 8)) (j % 8)) d)),
        ))
        q
      ∙ ap
          (λ x. (
            b + j,
            bzero (b + j) (
                log_write (bblock (b + j) sb) (
                  put_byte (bblock (b + j) sb) (x / 8)
                    (set_bit (d.byte (bblock (b + j) sb) (x / 8)) (x % 8)) d)),
          ))
          r

  balloc_from-step : balloc_from (suc n) sb b d ≡ after_search (find_bit 8192 sb.size b 0 bits)
  unfolding balloc_from
  balloc_from-step = refl

  Found-here :
      (j : ℕ)
      → j < 8192
      → b + 0 + j < sb.size
      → bit (bits ((0 + j) / 8)) ((0 + j) % 8) ≡ 0
      → ((i : ℕ) → i < j → bit (bits ((0 + i) / 8)) ((0 + i) % 8) ≢ 0)
      → Found sb b (suc n) d (after_search (some (0 + j)))
  Found-here j lt inside z before =
      let plain : 0 + j ≡ j = omega arith in
      free_block (b + j) (ap at_bit plain ∙ at_bit-allocated j lt) (omega arith) (omega arith)
        (used-at sb d b j al lt ∙ (ap (λ x. bit (bits (x / 8)) (x % 8)) (sym plain) ∙ z))
        (λ k le lt'.
          let at : b + (k - b) ≡ k = omega arith in
          let plain' : 0 + (k - b) ≡ k - b = omega arith in
          subst (λ x. used sb d x ≢ 0) at
            (λ z'. before (k - b) (omega arith) (
              ap (λ x. bit (bits (x / 8)) (x % 8)) plain'
              ∙ (sym (used-at sb d b (k - b) al (omega arith)) ∙ z'))))

balloc_from-Found :
    (n : ℕ) (sb : Superblock) (b : ℕ) (d : Disk)
    → b % 8192 ≡ 0
    → Found sb b n d (balloc_from n sb b d)
unfolding balloc_from
balloc_from-Found zero sb b d al = out_of_blocks refl (λ k le lt. absurd (omega arith))
balloc_from-Found (suc n) sb b d al =
    subst (Found sb b (suc n) d) (sym (balloc_from-step sb b n d al))
      (elim (find_bit-FirstClear 8192 sb.size b 0 (d.byte (bblock b sb))) [
        | all_set e all ↦
            subst (λ o. Found sb b (suc n) d (after_search sb b n d al o)) (sym e)
              (Found-later sb b n d al (full_block sb b n d al all)
                (balloc_from-Found n sb (b + 8192) d (omega arith)))
        | clear j e lt inside z before ↦
            subst (λ o. Found sb b (suc n) d (after_search sb b n d al o)) (sym e)
              (Found-here sb b n d al j lt inside z before)
      ])

-- The result of `balloc`.
pub data Allocation (sb : Superblock) (d : Disk) (out : ℕ × Disk) : Type 0 where
  disk_full : out ≡ (0, d) → ((k : ℕ) → k < sb.size → used sb d k ≢ 0) → Allocation sb d out
  gave :
      (k : ℕ)
      → out ≡ (k, allocated sb k d)
      → k < sb.size
      → used sb d k ≡ 0
      → ((j : ℕ) → j < k → used sb d j ≢ 0)
      → Allocation sb d out

-- `balloc` gives out the first block of the disk whose bit is clear, and returns 0 with the disk
-- unchanged when all bits are set, whatever the number of blocks of the bit map.
pub balloc-Allocation : (sb : Superblock) (d : Disk) → Allocation sb d (balloc sb d)
unfolding balloc
balloc-Allocation sb d = elim (balloc_from-Found ((sb.size + 8191) / 8192) sb 0 d refl) [
  | out_of_blocks e all ↦ disk_full e (λ k lt. all k (omega arith) (omega arith) lt)
  | free_block k e le lt z before ↦ gave k e lt z (λ j lt'. before j (omega arith) lt')
]
