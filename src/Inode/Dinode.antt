-- ===== src/Inode/Dinode.antt =====
-- An inode written by iupdate reads back, and no other inode of its block changes (kernel/fs.c).
use os_cea.Base.{
  ℕ, zero, suc, ◌+◌, ◌*◌, ◌/◌, ◌%◌, ◌^◌, ◌≤◌, ◌<◌, ◌≡◌, ◌≢◌, inl, inr, refl, sym, ap, ◌∙◌, true,
  false, some, ◌==◌, ltb, arith, lt_or_eq_or_lt,
}
use mathlib.Core.Path.{subst}
use os_cea.Disk.{Superblock, Disk, log_write, get_short, get_word, put_short, put_word}
use os_cea.Disk.Words.{
  IsAway, byte-put_short_other, byte-put_word_other, get_short-put_short, get_word-put_word,
}
use os_cea.Disk.Blocks.{log_write-byte}
use os_cea.Inode.{Inode, iblock, dip, put_addrs, iupdate, load, ilock}

-- The same two or four bytes.
get_short-same :
    (b i : ℕ) (d d' : Disk)
    → ((k : ℕ) → k < 2 → d'.byte b (i + k) ≡ d.byte b (i + k))
    → get_short b i d' ≡ get_short b i d
get_short-same b i d d' same =
    let z : i + 0 ≡ i = omega arith in
    let low : d'.byte b i ≡ d.byte b i =
      subst (λ x. d'.byte b x ≡ d.byte b x) z (same 0 (omega arith)) in
    let high = same 1 (omega arith) in omega arith

pub get_word-same :
    (b i : ℕ) (d d' : Disk)
    → ((k : ℕ) → k < 4 → d'.byte b (i + k) ≡ d.byte b (i + k))
    → get_word b i d' ≡ get_word b i d
get_word-same b i d d' same =
    let low = get_short-same b i d d' (λ k lt. same k (omega arith)) in
    let high = get_short-same b (i + 2) d d' (λ k lt.
      let at : i + (2 + k) ≡ i + 2 + k = omega arith in
      subst (λ x. d'.byte b x ≡ d.byte b x) at (same (2 + k) (omega arith))) in
    omega arith

-- A part of a range.
IsAway-part :
    (b i n b' i' k len : ℕ) → k + len ≤ n → IsAway b i n b' i' → IsAway b (i + k) len b' i'
IsAway-part b i n b' i' k len le (inl ne) = inl ne
IsAway-part b i n b' i' k len le (inr (inl l)) = inr (inl (omega arith))
IsAway-part b i n b' i' k len le (inr (inr l)) = inr (inr (omega arith))

pub put_addrs-other :
    (n b at : ℕ) (addrs : ℕ → ℕ) (d : Disk) (b' i' : ℕ)
    → IsAway b at (4 * n) b' i'
    → (put_addrs n b at addrs d).byte b' i' ≡ d.byte b' i'
unfolding put_addrs
put_addrs-other zero b at addrs d b' i' far = refl
put_addrs-other (suc n) b at addrs d b' i' far =
    byte-put_word_other b (at + 4 * n) (addrs n) b' i' (put_addrs n b at addrs d)
      (IsAway-part b at (4 * suc n) b' i' (4 * n) 4 (omega arith) far)
    ∙ put_addrs-other n b at addrs d b' i' (shorter far)
  where
    shorter : IsAway b at (4 * suc n) b' i' → IsAway b at (4 * n) b' i'
    shorter (inl ne) = inl ne
    shorter (inr (inl l)) = inr (inl l)
    shorter (inr (inr l)) = inr (inr (omega arith))

get_word-put_addrs :
    (n b at : ℕ) (addrs : ℕ → ℕ) (d : Disk) (i : ℕ)
    → i < n
    → get_word b (at + 4 * i) (put_addrs n b at addrs d) ≡ addrs i % 2 ^ 32
unfolding put_addrs
get_word-put_addrs zero b at addrs d i lt = absurd (omega arith)
get_word-put_addrs (suc n) b at addrs d i lt = elim (lt_or_eq_or_lt i n) [
  | inl below ↦
      get_word-same b (at + 4 * i) (put_addrs n b at addrs d) (put_addrs (suc n) b at addrs d)
        (λ k lt'.
          byte-put_word_other b (at + 4 * n) (addrs n) b (at + 4 * i + k) (put_addrs n b at addrs d)
            (inr (inl (omega arith))))
      ∙ get_word-put_addrs n b at addrs d i below
  | inr (inl e) ↦
      subst (λ j. get_word b (at + 4 * j) (put_addrs (suc n) b at addrs d) ≡ addrs j % 2 ^ 32)
        (sym e) (get_word-put_word b (at + 4 * n) (addrs n) (put_addrs n b at addrs d))
  | inr (inr above) ↦ absurd (omega arith)
]

module _ (sb : Superblock) (ip : Inode) (d : Disk) where
  abbrev b : ℕ
  b = iblock ip.inum sb

  abbrev at : ℕ
  at = dip ip.inum

  abbrev d₁ : Disk
  d₁ = put_short b at ip.type d

  abbrev d₂ : Disk
  d₂ = put_short b (at + 2) ip.major d₁

  abbrev d₃ : Disk
  d₃ = put_short b (at + 4) ip.minor d₂

  abbrev d₄ : Disk
  d₄ = put_short b (at + 6) ip.nlink d₃

  abbrev d₅ : Disk
  d₅ = put_word b (at + 8) ip.size d₄

  iupdate-bytes : iupdate sb ip d ≡ log_write b (put_addrs 13 b (at + 12) ip.addrs d₅)
  unfolding iupdate
  iupdate-bytes = refl

  byte-iupdate :
      (b' i' : ℕ) → (iupdate sb ip d).byte b' i' ≡ (put_addrs 13 b (at + 12) ip.addrs d₅).byte b' i'
  byte-iupdate b' i' =
      ap (λ x. x.byte b' i') iupdate-bytes
      ∙ log_write-byte b b' i' (put_addrs 13 b (at + 12) ip.addrs d₅)

  -- Only the 64 bytes of the dinode are written.
  pub iupdate-away :
      (b' i' : ℕ) → IsAway b at 64 b' i' → (iupdate sb ip d).byte b' i' ≡ d.byte b' i'
  iupdate-away b' i' far =
      let start : at + 0 ≡ at = omega arith in
      let part : (k len : ℕ) → k + len ≤ 64 → IsAway b (at + k) len b' i' =
        λ k len le. IsAway-part b at 64 b' i' k len le far in
      byte-iupdate b' i'
      ∙ put_addrs-other 13 b (at + 12) ip.addrs d₅ b' i' (part 12 52 (omega arith))
      ∙ byte-put_word_other b (at + 8) ip.size b' i' d₄ (part 8 4 (omega arith))
      ∙ byte-put_short_other b (at + 6) ip.nlink b' i' d₃ (part 6 2 (omega arith))
      ∙ byte-put_short_other b (at + 4) ip.minor b' i' d₂ (part 4 2 (omega arith))
      ∙ byte-put_short_other b (at + 2) ip.major b' i' d₁ (part 2 2 (omega arith))
      ∙ byte-put_short_other b at ip.type b' i' d
          (subst (λ x. IsAway b x 2 b' i') start (part 0 2 (omega arith)))

  -- What a later write leaves of the fields before it.
  low₅ : (i' : ℕ) → i' < at + 12 → (iupdate sb ip d).byte b i' ≡ d₅.byte b i'
  low₅ i' lt = byte-iupdate b i' ∙ put_addrs-other 13 b (at + 12) ip.addrs d₅ b i' (inr (inl lt))

  low₄ : (i' : ℕ) → i' < at + 8 → (iupdate sb ip d).byte b i' ≡ d₄.byte b i'
  low₄ i' lt = low₅ i' (omega arith) ∙ byte-put_word_other b (at + 8) ip.size b i' d₄ (inr (inl lt))

  low₃ : (i' : ℕ) → i' < at + 6 → (iupdate sb ip d).byte b i' ≡ d₃.byte b i'
  low₃ i' lt =
      low₄ i' (omega arith) ∙ byte-put_short_other b (at + 6) ip.nlink b i' d₃ (inr (inl lt))

  low₂ : (i' : ℕ) → i' < at + 4 → (iupdate sb ip d).byte b i' ≡ d₂.byte b i'
  low₂ i' lt =
      low₃ i' (omega arith) ∙ byte-put_short_other b (at + 4) ip.minor b i' d₂ (inr (inl lt))

  low₁ : (i' : ℕ) → i' < at + 2 → (iupdate sb ip d).byte b i' ≡ d₁.byte b i'
  low₁ i' lt =
      low₂ i' (omega arith) ∙ byte-put_short_other b (at + 2) ip.major b i' d₁ (inr (inl lt))

  type-iupdate : get_short b at (iupdate sb ip d) ≡ ip.type % 65536
  type-iupdate =
      get_short-same b at d₁ (iupdate sb ip d) (λ k lt. low₁ (at + k) (omega arith))
      ∙ get_short-put_short b at ip.type d

  major-iupdate : get_short b (at + 2) (iupdate sb ip d) ≡ ip.major % 65536
  major-iupdate =
      get_short-same b (at + 2) d₂ (iupdate sb ip d) (λ k lt. low₂ (at + 2 + k) (omega arith))
      ∙ get_short-put_short b (at + 2) ip.major d₁

  minor-iupdate : get_short b (at + 4) (iupdate sb ip d) ≡ ip.minor % 65536
  minor-iupdate =
      get_short-same b (at + 4) d₃ (iupdate sb ip d) (λ k lt. low₃ (at + 4 + k) (omega arith))
      ∙ get_short-put_short b (at + 4) ip.minor d₂

  nlink-iupdate : get_short b (at + 6) (iupdate sb ip d) ≡ ip.nlink % 65536
  nlink-iupdate =
      get_short-same b (at + 6) d₄ (iupdate sb ip d) (λ k lt. low₄ (at + 6 + k) (omega arith))
      ∙ get_short-put_short b (at + 6) ip.nlink d₃

  size-iupdate : get_word b (at + 8) (iupdate sb ip d) ≡ ip.size % 2 ^ 32
  size-iupdate =
      get_word-same b (at + 8) d₅ (iupdate sb ip d) (λ k lt. low₅ (at + 8 + k) (omega arith))
      ∙ get_word-put_word b (at + 8) ip.size d₄

  addrs-iupdate :
      (i : ℕ) → i < 13 → get_word b (at + 12 + 4 * i) (iupdate sb ip d) ≡ ip.addrs i % 2 ^ 32
  addrs-iupdate i lt =
      get_word-same b (at + 12 + 4 * i) (put_addrs 13 b (at + 12) ip.addrs d₅) (iupdate sb ip d)
        (λ k _. byte-iupdate b (at + 12 + 4 * i + k))
      ∙ get_word-put_addrs 13 b (at + 12) ip.addrs d₅ i lt

-- Every field is of its type: short or uint.
pub record Fits (ip : Inode) : Type 0 where
  pub type_fits : ip.type < 65536
  pub major_fits : ip.major < 65536
  pub minor_fits : ip.minor < 65536
  pub nlink_fits : ip.nlink < 65536
  pub size_fits : ip.size < 2 ^ 32
  pub addrs_fit : (i : ℕ) → i < 13 → ip.addrs i < 2 ^ 32

-- The fields that are on disk.
pub record SameDinode (ip ip' : Inode) : Type 0 where
  pub same_type : ip'.type ≡ ip.type
  pub same_major : ip'.major ≡ ip.major
  pub same_minor : ip'.minor ≡ ip.minor
  pub same_nlink : ip'.nlink ≡ ip.nlink
  pub same_size : ip'.size ≡ ip.size
  pub same_addrs : (i : ℕ) → i < 13 → ip'.addrs i ≡ ip.addrs i

ilock-load :
    (sb : Superblock) (ip ip' : Inode) (d : Disk)
    → ip.valid ≡ false
    → load sb ip d ≡ ip'
    → ip'.type ≢ 0
    → ilock sb ip d ≡ some ip'
unfolding ilock load
ilock-load sb ip ip' d f e ne =
    let kind : ((load sb ip d).type == 0) ≡ false =
      (let same : (load sb ip d).type ≡ ip'.type = ap (λ x. x.type) e in ground arith) in
    rw (f, kind) (ap some e)

-- What `iupdate` has written, `ilock` reads back into an inode that is not valid: type, device numbers,
-- link count, size and all 13 block addresses, when each fits its field and the type is not 0.
pub ilock-iupdate :
    (sb : Superblock) (ip ip₀ : Inode) (d : Disk)
    → Fits ip
    → ip.type ≢ 0
    → ip₀.valid ≡ false
    → ip₀.inum ≡ ip.inum
    → (ip' : Inode) × (ilock sb ip₀ (iupdate sb ip d) ≡ some ip') × SameDinode ip ip'
unfolding load
ilock-iupdate sb ip ip₀ d fits kind f e =
    let d' = iupdate sb ip d in
    let read = fields sb ip d fits in
    let same = subst (λ n. SameDinode ip (load sb (record ip₀ { inum = n }) d')) (sym e) read in
    (
      load sb ip₀ d',
      ilock-load sb ip₀ (load sb ip₀ d') d' f refl (λ z. kind (sym same.same_type ∙ z)),
      same,
    )
  where
    fields :
        (sb : Superblock) (ip : Inode) (d : Disk)
        → Fits ip
        → SameDinode ip (load sb (record ip₀ { inum = ip.inum }) (iupdate sb ip d))
    fields sb ip d fits = record {
      same_type = type-iupdate sb ip d ∙ (let lt = fits.type_fits in omega arith);
      same_major = major-iupdate sb ip d ∙ (let lt = fits.major_fits in omega arith);
      same_minor = minor-iupdate sb ip d ∙ (let lt = fits.minor_fits in omega arith);
      same_nlink = nlink-iupdate sb ip d ∙ (let lt = fits.nlink_fits in omega arith);
      same_size = size-iupdate sb ip d ∙ (let lt = fits.size_fits in omega arith);
      same_addrs = λ i lt.
          (let inside : ltb i 13 ≡ true = ground arith in
            rw inside
              (addrs-iupdate sb ip d i lt ∙ (let small = fits.addrs_fit i lt in omega arith)));
    }

dinodes-apart :
    (sb : Superblock) (n n' j : ℕ)
    → n' ≢ n
    → j < 64
    → IsAway (iblock n sb) (dip n) 64 (iblock n' sb) (dip n' + j)
dinodes-apart sb n n' j ne lt = elim (lt_or_eq_or_lt (n' / 16) (n / 16)) [
  | inl l ↦ inl (λ z. omega arith)
  | inr (inr l) ↦ inl (λ z. omega arith)
  | inr (inl e) ↦ elim (lt_or_eq_or_lt (n' % 16) (n % 16)) [
    | inl l ↦ inr (inl (omega arith))
    | inr (inr l) ↦ inr (inr (omega arith))
    | inr (inl e') ↦ absurd (ne (omega arith))
  ]
]

-- `iupdate` of one inode changes no byte of the dinode of another, in the same block or elsewhere.
pub iupdate-other :
    (sb : Superblock) (ip : Inode) (d : Disk) (n j : ℕ)
    → n ≢ ip.inum
    → j < 64
    → (iupdate sb ip d).byte (iblock n sb) (dip n + j) ≡ d.byte (iblock n sb) (dip n + j)
iupdate-other sb ip d n j ne lt =
    iupdate-away sb ip d (iblock n sb) (dip n + j) (dinodes-apart sb ip.inum n j ne lt)
