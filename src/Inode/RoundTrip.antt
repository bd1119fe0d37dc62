-- ===== src/Inode/RoundTrip.antt =====
-- What writei has written, readi reads (kernel/fs.c).
use mathlib.Core.Path.{subst}
use os_cea.Base.{
  ℕ, ◌+◌, ◌-◌, ◌*◌, ◌/◌, ◌%◌, ◌^◌, ◌≤◌, ◌<◌, ◌≡◌, ◌≢◌, refl, sym, ap, ◌∙◌, true, false, ◌||◌,
  Option, none, some, ltb, if◌then◌else◌, arith, Bool-cases, inl, inr,
}
use os_cea.Base.Int.{ℤ, pos}
use os_cea.Str.{Memory}
use os_cea.Str.Move.{within}
use os_cea.Disk.{Superblock, Disk}
use os_cea.Inode.{Inode, iupdate, to_memory, from_memory, write_from, writei, readi}
use os_cea.Inode.Dinode.{iupdate-away}
use os_cea.Inode.Mapping.{lookup}
use os_cea.Inode.Reading.{content, with_content, available, readi-content}
use os_cea.Inode.Writing.{
  IsPlaced, IsPlaced-same, IsWritten, overwritten, lookup-bytes, write_from-Loop,
}

-- The inode after a write that ends at `end`.
abbrev pub grown : ℕ → Inode → Inode
grown end ip = record ip { size = if ltb ip.size end then end else ip.size }

grown_if :
    (end : ℕ) (ip : Inode)
    → (if ltb ip.size end then record ip { size = end } else ip) ≡ grown end ip
grown_if end ip = elim (Bool-cases (ltb ip.size end)) [ inl t ↦ rw t refl | inr f ↦ rw f refl ]

module _ (sb : Superblock) (src off n : ℕ) (s : Memory) (ip : Inode) (d : Disk) where
  abbrev finish : Option (ℕ × ℕ × Inode × Disk) → Option (ℤ × Inode × Disk)
  finish o = elim o [
    | none ↦ none
    | some (tot, end, ip', d') ↦
        (let ip'' = if ltb ip'.size end then record ip' { size = end } else ip' in
          some (pos tot, ip'', iupdate sb ip'' d'))
  ]

  writei-loop :
      off ≤ ip.size
      → off + n ≤ 268 * 1024
      → writei (from_memory s) sb src off n ip d
        ≡ finish (write_from (from_memory s) sb n 0 n off src ip d)
  unfolding writei
  writei-loop le low =
      let sum : (off + n) % 2 ^ 32 ≡ off + n = omega arith in
      let first : (ltb ip.size off || ltb (off + n) off) ≡ false = ground arith in
      let second : ltb 274432 (off + n) ≡ false = ground arith in rw (sum, first, second) refl

-- Writing the inode back changes no byte of the file.
iupdate-IsWritten :
    (sb : Superblock) (off n src : ℕ) (s : Memory) (ip : Inode) (d d' : Disk) (end : ℕ)
    → IsPlaced sb ip d
    → IsWritten off n src s ip d d'
    → IsWritten off n src s ip d (iupdate sb (grown end ip) d')
iupdate-IsWritten sb off n src s ip d d' end placed (same, at) = (
  λ k lt. still k ∙ same k lt,
  λ p lt ne.
      (let there : lookup ip d' (p / 1024) ≢ 0 =
          (λ z. ne (sym (same (p / 1024) (omega arith)) ∙ z)) in
        ap (λ b. (iupdate sb (grown end ip) d').byte b (p % 1024)) (still (p / 1024))
        ∙ (iupdate-away sb (grown end ip) d' (lookup ip d' (p / 1024)) (p % 1024) (
              inl (((IsPlaced-same sb ip d d' same placed).apart (p / 1024) (omega arith) there).1))
            ∙ at p lt ne)),
)
  where
    still : (k : ℕ) → lookup ip (iupdate sb (grown end ip) d') k ≡ lookup ip d' k
    still k =
        lookup-bytes ip d' (iupdate sb (grown end ip) d')
          (λ i. iupdate-away sb (grown end ip) d' (ip.addrs 12) i (inl placed.indirect)) k

-- A file whose blocks up to `end` are all there, and in their own places.
abbrev pub IsReady : Superblock → ℕ → Inode → Disk → Type 0
IsReady sb end ip d = IsPlaced sb ip d × ((bn : ℕ) → bn * 1024 < end → lookup ip d bn ≢ 0)

-- `writei` of `n` bytes from kernel memory, at an offset within the file and up to the largest file size,
-- into blocks that are there, returns `n`. The size becomes the end of the write if that is larger, no
-- block of the file moves, the bytes of the file from `off` on are those at `src`, and every other byte of
-- its blocks is what it was, although the inode has been written to disk as well.
pub writei-IsWritten :
    (sb : Superblock) (src off n : ℕ) (s : Memory) (ip : Inode) (d : Disk)
    → off ≤ ip.size
    → off + n ≤ 268 * 1024
    → IsReady sb (off + n) ip d
    → (d' : Disk) × (writei (from_memory s) sb src off n ip d
        ≡ some (pos n, grown (off + n) ip, d'))
      × IsWritten off n src s ip d d'
writei-IsWritten sb src off n s ip d le low (placed, there) =
    let whole : n - 0 ≡ n = omega arith in
    let (d₁, e, w) =
      write_from-Loop sb n 0 n off src s ip d placed (omega arith) (omega arith) (omega arith)
        (λ i lt. there ((off + i) / 1024) (omega arith)) in
    (
      iupdate sb (grown (off + n) ip) d₁,
      writei-loop sb src off n s ip d le low
          ∙ (ap (finish sb src off n s ip d) (e ∙ ap (λ x. some (n, off + x, ip, d₁)) whole)
              ∙ ap (λ x. some (pos n, x, iupdate sb x d₁)) (grown_if (off + n) ip)),
      iupdate-IsWritten sb off n src s ip d d₁ (off + n) placed
          (subst (λ x. IsWritten off x src s ip d d₁) whole w),
    )

-- After that `writei`, `readi` of the same range returns `n` and puts the bytes that were at `src` at
-- `dst`, and no others, whatever blocks and parts of blocks the range covers.
pub readi-writei :
    (sb : Superblock) (src off n dst : ℕ) (s t : Memory) (ip : Inode) (d : Disk)
    → off ≤ ip.size
    → off + n ≤ 268 * 1024
    → ip.size ≤ 268 * 1024
    → IsReady sb (off + n) ip d
    → ((bn : ℕ) → bn * 1024 < ip.size → lookup ip d bn ≢ 0)
    → (ip' : Inode) × (d' : Disk) × (t' : Memory) × (writei (from_memory s) sb src off n ip d
        ≡ some (pos n, ip', d'))
      × (readi to_memory sb dst off n ip' d' t ≡ some (pos n, ip', d', t'))
      × ((a : ℕ) → t' a ≡ (if within dst n a then s (src + (a - dst)) else t a))
readi-writei sb src off n dst s t ip d le low small (placed, there) old =
    let end = off + n in
    let ip' = grown end ip in
    let (d', e, (same, at)) = writei-IsWritten sb src off n s ip d le low (placed, there) in
    let present : (bn : ℕ) → bn < 268 → bn * 1024 < ip'.size → lookup ip d bn ≢ 0 = λ bn lt lt'.
      elim (Bool-cases (ltb ip.size end)) [
        | inl g ↦ there bn (sized ip.size end (bn * 1024) g lt')
        | inr f ↦ old bn (sized' ip.size end (bn * 1024) f lt')
      ] in
    let fits : ip'.size ≤ 268 * 1024 = ground arith in
    let inside : off ≤ ip'.size = ground arith in
    let all : available ip'.size off n ≡ n = ground arith in
    let (t', r, got) = readi-content sb dst off n ip' d' t inside (omega arith) fits (λ bn lt.
      let few : bn < 268 = omega arith in λ z. present bn few lt (sym (same bn few) ∙ z)) in
    (
      ip',
      d',
      t',
      e,
      r ∙ ap (λ k. some (pos k, ip', d', t')) all,
      λ a. got a ∙ (ap (λ k. with_content dst k off ip' d' t a) all ∙ taken d' a at),
    )
  where
    sized :
        (size end x : ℕ) → ltb size end ≡ true → x < (if ltb size end then end else size) → x < end
    sized size end x g lt = ground arith

    sized' :
        (size end x : ℕ)
        → ltb size end ≡ false
        → x < (if ltb size end then end else size)
        → x < size
    sized' size end x f lt = ground arith

    taken :
        (d' : Disk) (a : ℕ)
        → ((p : ℕ)
            → p < 268 * 1024
            → lookup ip d (p / 1024) ≢ 0
            → content ip d' p ≡ overwritten off n src s ip d p)
        → with_content dst n off ip d' t a ≡ (if within dst n a then s (src + (a - dst)) else t a)
    taken d' a at = elim (Bool-cases (within dst n a)) [
      | inr f ↦ rw f refl
      | inl t₁ ↦
          (let p = off + (a - dst) in
            let lt : a - dst < n = ground arith in
            let in_range : within off n p ≡ true = ground arith in
            let back : p - off ≡ a - dst = omega arith in
            let ne : lookup ip d (p / 1024) ≢ 0 = there (p / 1024) (omega arith) in
            rw t₁ (at p (omega arith) ne ∙ (rw in_range (ap (λ x. s (src + x)) back))))
    ]
