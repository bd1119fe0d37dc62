-- ===== src/Inode/Growing.antt =====
-- bmap (kernel/fs.c) when it has to allocate: one block more for the file, and no other moves.
use native.Mathlib.Decide.{ℕ_discrete}
use os_cea.Base.{
  ℕ, ◌+◌, ◌-◌, ◌*◌, ◌/◌, ◌%◌, ◌^◌, ◌≤◌, ◌<◌, ◌≡◌, ◌≢◌, ◌⊎◌, refl, sym, ap, ◌∙◌, true, false, Option,
  some, ◌==◌, ltb, if◌then◌else◌, arith, inl, inr, lt_or_eq_or_lt,
}
use os_cea.Disk.{Superblock, Disk, bblock, bit, get_word, put_word, log_write}
use os_cea.Disk.Bitmap.{used}
use os_cea.Disk.Words.{byte-put_word_other, get_word-put_word}
use os_cea.Disk.Blocks.{OwnsMap, Given, log_write-byte, free-apart}
use os_cea.Inode.{Inode, set_addr}
use os_cea.Inode.Dinode.{get_word-same}
use os_cea.Inode.Mapping.{lookup, lookup-direct}

-- Block 0 is in use, and an indirect block is a block of the disk in use, and none of the bit map.
pub record IsSound (sb : Superblock) (ip : Inode) (d : Disk) : Type 0 where
  pub map_owned : OwnsMap sb d
  pub boot : (0 < sb.size) × (used sb d 0 ≢ 0)
  pub indirect :
      ip.addrs 12 ≢ 0
      → (ip.addrs 12 < sb.size)
        × (used sb d (ip.addrs 12) ≢ 0)
        × ((j : ℕ) → j < sb.size → bblock j sb ≢ ip.addrs 12)

-- The same blocks for all of the file but block `bn`.
abbrev pub IsSameBut : ℕ → Inode → Disk → Inode → Disk → Type 0
IsSameBut bn ip d ip' d' = (n : ℕ) → n < 268 → n ≢ bn → lookup ip' d' n ≡ lookup ip d n

-- The block is the one that the file had, and nothing has changed; or the file had none, and it was free and
-- is in use now.
abbrev pub IsFound : Superblock → Inode → ℕ → Disk → ℕ → Inode → Disk → Type 0
IsFound sb ip bn d addr ip' d' =
    ((lookup ip d bn ≢ 0) × (addr ≡ lookup ip d bn) × (ip' ≡ ip) × (d' ≡ d))
    ⊎ ((lookup ip d bn ≡ 0) × (addr < sb.size) × (used sb d addr ≡ 0) × (used sb d' addr ≢ 0))

-- What `bmap` of block `bn` has done. It gives no block only if the file has none there and, by now, every
-- block of the disk is in use.
pub data Bmapped (sb : Superblock) (ip : Inode) (bn : ℕ) (d : Disk)
    (out : Option (ℕ × Inode × Disk)) : Type 0 where
  no_space :
      (ip' : Inode) (d' : Disk)
      → out ≡ some (0, ip', d')
      → lookup ip d bn ≡ 0
      → ((k : ℕ) → k < sb.size → used sb d' k ≢ 0)
      → IsSound sb ip' d'
      → ((n : ℕ) → n < 268 → lookup ip' d' n ≡ lookup ip d n)
      → Bmapped sb ip bn d out
  has_block :
      (addr : ℕ) (ip' : Inode) (d' : Disk)
      → out ≡ some (addr, ip', d')
      → addr ≢ 0
      → IsFound sb ip bn d addr ip' d'
      → IsSound sb ip' d'
      → lookup ip' d' bn ≡ addr
      → IsSameBut bn ip d ip' d'
      → Bmapped sb ip bn d out

pub lookup-word :
    (ip : Inode) (d : Disk) (n : ℕ)
    → 12 ≤ n
    → ip.addrs 12 ≢ 0
    → lookup ip d n ≡ get_word (ip.addrs 12) (4 * (n - 12)) d
lookup-word ip d n ge ne =
    let f : ltb n 12 ≡ false = ground arith in
    let z : (ip.addrs 12 == 0) ≡ false = ground arith in rw (f, z) refl

pub lookup-none : (ip : Inode) (d : Disk) (n : ℕ) → 12 ≤ n → ip.addrs 12 ≡ 0 → lookup ip d n ≡ 0
lookup-none ip d n ge e =
    let f : ltb n 12 ≡ false = ground arith in
    let z : (ip.addrs 12 == 0) ≡ true = ground arith in rw (f, z) refl

-- The mapping depends on the addresses, and on the bytes of the indirect block.
pub lookup-same :
    (ip : Inode) (d d' : Disk) (n : ℕ)
    → (ip.addrs 12 ≢ 0
        → 12 ≤ n
        → get_word (ip.addrs 12) (4 * (n - 12)) d' ≡ get_word (ip.addrs 12) (4 * (n - 12)) d)
    → lookup ip d' n ≡ lookup ip d n
lookup-same ip d d' n same = elim (lt_or_eq_or_lt n 12) [
  | inl lt ↦ lookup-direct ip d' n lt ∙ sym (lookup-direct ip d n lt)
  | inr ge ↦ high (above ge) (ℕ_discrete (ip.addrs 12) 0)
]
  where
    above : (n ≡ 12) ⊎ (12 < n) → 12 ≤ n
    above (inl e) = omega arith
    above (inr lt) = omega arith

    high : 12 ≤ n → Dec (ip.addrs 12 ≡ 0) → lookup ip d' n ≡ lookup ip d n
    high ge (yes z) = lookup-none ip d' n ge z ∙ sym (lookup-none ip d n ge z)
    high ge (no ne) = lookup-word ip d' n ge ne ∙ (same ne ge ∙ sym (lookup-word ip d n ge ne))

-- Bits that only get set keep the invariant.
IsSound-more :
    (sb : Superblock) (ip : Inode) (d d' : Disk)
    → ((j : ℕ) → j < sb.size → used sb d j ≢ 0 → used sb d' j ≢ 0)
    → IsSound sb ip d
    → IsSound sb ip d'
IsSound-more sb ip d d' more s = record {
  map_owned =
      λ j lt. (let (inside, set) = s.map_owned j lt in (inside, more (bblock j sb) inside set));
  boot = (s.boot.0, more 0 s.boot.0 s.boot.1);
  indirect = λ ne.
      (let (inside, set, apart) = s.indirect ne in (inside, more (ip.addrs 12) inside set, apart));
}

module _ (sb : Superblock) (k : ℕ) (ip : Inode) (d d' : Disk) (g : Given sb k d d')
    (s : IsSound sb ip d) where
  pub not_boot : k ≢ 0
  not_boot z = s.boot.1 (ap (used sb d) (sym z) ∙ g.was_free)

  pub Given-more : (j : ℕ) → j < sb.size → used sb d j ≢ 0 → used sb d' j ≢ 0
  Given-more j lt set z = set (sym (g.others j lt (λ e. set (ap (used sb d) e ∙ g.was_free))) ∙ z)

  pub IsSound-Given : IsSound sb ip d'
  IsSound-Given = IsSound-more sb ip d d' Given-more s

  pub lookup-Given : (n : ℕ) → lookup ip d' n ≡ lookup ip d n
  lookup-Given n = lookup-same ip d d' n (λ ne ge.
      let (inside, set, apart) = s.indirect ne in
      get_word-same (ip.addrs 12) (4 * (n - 12)) d d' (λ i _.
        g.kept (ip.addrs 12) (4 * (n - 12) + i) (λ e. set (ap (used sb d) e ∙ g.was_free))
          (λ e. apart k g.inside (sym e))))

  -- A new direct block.
  pub direct_self : (bn : ℕ) → bn < 12 → lookup (set_addr bn k ip) d' bn ≡ k
  direct_self bn lt = lookup-direct (set_addr bn k ip) d' bn lt ∙ ground arith

  pub direct-other : (bn : ℕ) → bn < 12 → IsSameBut bn ip d (set_addr bn k ip) d'
  direct-other bn lt n _ ne =
      let top : (if 12 == bn then k else ip.addrs 12) ≡ ip.addrs 12 = ground arith in
      let here : (if n == bn then k else ip.addrs n) ≡ ip.addrs n = ground arith in
      rw (top, here) (lookup-Given n)

  pub direct-IsSound : (bn : ℕ) → bn < 12 → IsSound sb (set_addr bn k ip) d'
  direct-IsSound bn lt =
      let top : (if 12 == bn then k else ip.addrs 12) ≡ ip.addrs 12 = ground arith in
      let s' = IsSound-Given in
      record { map_owned = s'.map_owned; boot = s'.boot; indirect = rw top s'.indirect }

  -- A new indirect block, which is empty.
  pub indirect-same :
      ip.addrs 12 ≡ 0 → (n : ℕ) → n < 268 → lookup (set_addr 12 k ip) d' n ≡ lookup ip d n
  indirect-same none_yet n lt = elim (lt_or_eq_or_lt n 12) [
    | inl below ↦
        lookup-direct (set_addr 12 k ip) d' n below
        ∙ (ground arith ∙ sym (lookup-direct ip d n below))
    | inr (inl e) ↦
        no_word (omega arith) (ℕ_discrete k 0) ∙ sym (lookup-none ip d n (omega arith) none_yet)
    | inr (inr above) ↦
        no_word (omega arith) (ℕ_discrete k 0) ∙ sym (lookup-none ip d n (omega arith) none_yet)
  ]
    where
      no_word : 12 ≤ n → Dec (k ≡ 0) → lookup (set_addr 12 k ip) d' n ≡ 0
      no_word ge (yes z) = lookup-none (set_addr 12 k ip) d' n ge z
      no_word ge (no ne) =
          let at = 4 * (n - 12) in
          let b₀ = g.zeroed at (omega arith) in
          let b₁ = g.zeroed (at + 1) (omega arith) in
          let b₂ = g.zeroed (at + 2) (omega arith) in
          let b₃ = g.zeroed (at + 2 + 1) (omega arith) in
          lookup-word (set_addr 12 k ip) d' n ge ne ∙ omega arith

  pub indirect-IsSound : IsSound sb (set_addr 12 k ip) d'
  indirect-IsSound = record {
    map_owned = g.map_owned;
    boot = IsSound-Given.boot;
    indirect = λ ne. (
      g.inside,
      λ z. absurd (let one = g.taken in omega arith),
      λ j lt. free-apart sb k j d s.map_owned g.was_free lt,
    );
  }

-- A new word in the indirect block.
module _ (sb : Superblock) (bn new : ℕ) (ip : Inode) (d : Disk) (s : IsSound sb ip d)
    (there : ip.addrs 12 ≢ 0) (ge : 12 ≤ bn) where
  abbrev pub written : Disk
  written = log_write (ip.addrs 12) (put_word (ip.addrs 12) (4 * (bn - 12)) new d)

  bytes-written :
      (b i : ℕ)
      → (b ≢ ip.addrs 12) ⊎ ((i < 4 * (bn - 12)) ⊎ (4 * (bn - 12) + 4 ≤ i))
      → written.byte b i ≡ d.byte b i
  bytes-written b i far =
      log_write-byte (ip.addrs 12) b i (put_word (ip.addrs 12) (4 * (bn - 12)) new d)
      ∙ byte-put_word_other (ip.addrs 12) (4 * (bn - 12)) new b i d far

  pub used-written : (j : ℕ) → j < sb.size → used sb written j ≡ used sb d j
  used-written j lt =
      let (_, _, apart) = s.indirect there in
      ap (λ v. bit v (j % 8192 % 8)) (bytes-written (bblock j sb) (j % 8192 / 8) (inl (apart j lt)))

  pub written-IsSound : IsSound sb ip written
  written-IsSound = IsSound-more sb ip d written (λ j lt set z. set (sym (used-written j lt) ∙ z)) s

  pub written_self : new < 2 ^ 32 → lookup ip written bn ≡ new
  written_self small =
      let at = 4 * (bn - 12) in
      let d₁ = put_word (ip.addrs 12) at new d in
      lookup-word ip written bn ge there
      ∙ (get_word-same (ip.addrs 12) at d₁ written
            (λ k _. log_write-byte (ip.addrs 12) (ip.addrs 12) (at + k) d₁)
          ∙ (get_word-put_word (ip.addrs 12) at new d ∙ omega arith))

  -- Words at different places.
  pub written-other : IsSameBut bn ip d ip written
  written-other n _ ne = lookup-same ip d written n (λ _ ge'.
      get_word-same (ip.addrs 12) (4 * (n - 12)) d written
        (λ k lt. bytes-written (ip.addrs 12) (4 * (n - 12) + k) (inr (away n k ge' lt ne))))
    where
      away :
          (n k : ℕ)
          → 12 ≤ n
          → k < 4
          → n ≢ bn
          → (4 * (n - 12) + k < 4 * (bn - 12)) ⊎ (4 * (bn - 12) + 4 ≤ 4 * (n - 12) + k)
      away n k ge' lt ne = elim (lt_or_eq_or_lt n bn) [
        | inl l ↦ inl (omega arith)
        | inr (inl e) ↦ absurd (ne e)
        | inr (inr l) ↦ inr (omega arith)
      ]
