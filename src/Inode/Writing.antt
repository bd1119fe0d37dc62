-- ===== src/Inode/Writing.antt =====
-- writei (kernel/fs.c) puts the bytes into the file, block by block, and moves no block.
use mathlib.Core.Path.{subst}
use native.Mathlib.Decide.{ℕ_discrete}
use os_cea.Base.{
  ℕ, zero, suc, ◌+◌, ◌-◌, ◌*◌, ◌/◌, ◌%◌, ◌≤◌, ◌<◌, ◌≡◌, ◌≢◌, refl, sym, ap, ◌∙◌, true, false, ◌&&◌,
  Option, none, some, ◌==◌, leb, ltb, if◌then◌else◌, arith, Bool-cases, inl, inr, lt_or_eq_or_lt,
}
use os_cea.Str.{Memory}
use os_cea.Str.Move.{within}
use os_cea.Disk.{Superblock, Disk, log_write}
use os_cea.Disk.Blocks.{log_write-byte}
use os_cea.Inode.{Inode, iblock, from_memory, fill_in, bmap, chunk, write_from}
use os_cea.Inode.Dinode.{get_word-same}
use os_cea.Inode.Mapping.{lookup, bmap-lookup}
use os_cea.Inode.Growing.{lookup-same}
use os_cea.Inode.Reading.{content}

-- No two blocks of a file are the same, and none is its indirect block or the block of its inode.
pub record IsPlaced (sb : Superblock) (ip : Inode) (d : Disk) : Type 0 where
  pub distinct :
      (n n' : ℕ) → n < 268 → n' < 268 → lookup ip d n ≢ 0 → lookup ip d n ≡ lookup ip d n' → n ≡ n'
  pub apart :
      (n : ℕ)
      → n < 268
      → lookup ip d n ≢ 0
      → (lookup ip d n ≢ ip.addrs 12) × (lookup ip d n ≢ iblock ip.inum sb)
  pub indirect : ip.addrs 12 ≢ iblock ip.inum sb

-- The byte of the file at `p` after `n` bytes from `src` on are written at `off`.
abbrev pub overwritten : ℕ → ℕ → ℕ → Memory → Inode → Disk → ℕ → ℕ
overwritten off n src s ip d p = if within off n p then s (src + (p - off)) else content ip d p

-- Every block of the file stays where it is, and the bytes from `off` on are new.
abbrev pub IsWritten : ℕ → ℕ → ℕ → Memory → Inode → Disk → Disk → Type 0
IsWritten off n src s ip d d' =
    ((k : ℕ) → k < 268 → lookup ip d' k ≡ lookup ip d k)
    × ((p : ℕ)
        → p < 268 * 1024
        → lookup ip d (p / 1024) ≢ 0
        → content ip d' p ≡ overwritten off n src s ip d p)

pub IsPlaced-same :
    (sb : Superblock) (ip : Inode) (d d' : Disk)
    → ((k : ℕ) → k < 268 → lookup ip d' k ≡ lookup ip d k)
    → IsPlaced sb ip d
    → IsPlaced sb ip d'
IsPlaced-same sb ip d d' same p = record {
  distinct = λ n n' lt lt' ne e.
      p.distinct n n' lt lt' (λ z. ne (same n lt ∙ z)) (sym (same n lt) ∙ (e ∙ same n' lt'));
  apart = λ n lt ne.
      (let (a, b) = p.apart n lt (λ z. ne (same n lt ∙ z)) in
        (λ e. a (sym (same n lt) ∙ e), λ e. b (sym (same n lt) ∙ e)));
  indirect = p.indirect;
}

-- Blocks that keep their bytes keep the mapping.
pub lookup-bytes :
    (ip : Inode) (d d' : Disk)
    → ((i : ℕ) → d'.byte (ip.addrs 12) i ≡ d.byte (ip.addrs 12) i)
    → (n : ℕ) → lookup ip d' n ≡ lookup ip d n
lookup-bytes ip d d' same n =
    lookup-same ip d d' n
      (λ _ _. get_word-same (ip.addrs 12) (4 * (n - 12)) d d' (λ k _. same (4 * (n - 12) + k)))

module _ (sb : Superblock) (off m src : ℕ) (s : Memory) (ip : Inode) (d : Disk)
    (placed : IsPlaced sb ip d) (low : off < 268 * 1024) (there : lookup ip d (off / 1024) ≢ 0)
    (small : off % 1024 + m ≤ 1024) where
  abbrev addr : ℕ
  addr = lookup ip d (off / 1024)

  abbrev pub filled : Disk
  filled = log_write addr (fill_in addr (off % 1024) (λ i. s (src + i)) m d)

  byte-filled :
      (b i : ℕ)
      → filled.byte b i ≡ (
          if b == addr && (leb (off % 1024) i && ltb i (off % 1024 + m))
          then s (src + (i - off % 1024))
          else d.byte b i)
  byte-filled b i = log_write-byte addr b i (fill_in addr (off % 1024) (λ i. s (src + i)) m d)

  byte-filled_other : (b i : ℕ) → b ≢ addr → filled.byte b i ≡ d.byte b i
  byte-filled_other b i ne =
      let f : (b == addr) ≡ false = ground arith in byte-filled b i ∙ rw f refl

  pub lookup-filled : (k : ℕ) → k < 268 → lookup ip filled k ≡ lookup ip d k
  lookup-filled k _ =
      lookup-bytes ip d filled
        (λ i.
          byte-filled_other (ip.addrs 12) i
            (λ e. (placed.apart (off / 1024) (omega arith) there).0 (sym e)))
        k

  -- A place in the block that is written.
  content-here :
      (p : ℕ) → p / 1024 ≡ off / 1024 → filled.byte addr (p % 1024) ≡ overwritten off m src s ip d p
  content-here p e = elim (Bool-cases (within off m p)) [
    | inl t ↦
        (let inside : (leb (off % 1024) (p % 1024) && ltb (p % 1024) (off % 1024 + m)) ≡ true =
            (let le : off ≤ p = ground arith in
              let lt : p < off + m = ground arith in
              let a : off % 1024 ≤ p % 1024 = omega arith in
              let b : p % 1024 < off % 1024 + m = omega arith in ground arith) in
          let at : p % 1024 - off % 1024 ≡ p - off =
            (let le : off ≤ p = ground arith in omega arith) in
          let self : (addr == addr) ≡ true = ground arith in
          byte-filled addr (p % 1024) ∙ rw (self, inside, t) (ap (λ x. s (src + x)) at))
    | inr f ↦
        (let outside : (leb (off % 1024) (p % 1024) && ltb (p % 1024) (off % 1024 + m)) ≡ false =
            elim (lt_or_eq_or_lt p off) [
              | inl lt ↦ (let a : p % 1024 < off % 1024 = omega arith in ground arith)
              | inr (inl q) ↦
                  (let le : m ≤ 0 = ground arith in
                    let a : p % 1024 ≡ off % 1024 = ap (λ x. x % 1024) q in ground arith)
              | inr (inr gt) ↦
                  (let le : off + m ≤ p = ground arith in
                    let a : off % 1024 + m ≤ p % 1024 = omega arith in ground arith)
            ] in
          let self : (addr == addr) ≡ true = ground arith in
          byte-filled addr (p % 1024)
          ∙ rw (self, outside, f) (ap (λ x. d.byte (lookup ip d x) (p % 1024)) (sym e)))
  ]

  pub filled-IsWritten : IsWritten off m src s ip d filled
  filled-IsWritten = (
    lookup-filled,
    λ p lt ne.
        (let inside : p / 1024 < 268 = omega arith in
          ap (λ b. filled.byte b (p % 1024)) (lookup-filled (p / 1024) inside)
          ∙ elim (ℕ_discrete (p / 1024) (off / 1024)) [
            | yes e ↦ ap (λ x. filled.byte (lookup ip d x) (p % 1024)) e ∙ content-here p e
            | no far ↦
                (let f : within off m p ≡ false = out p far in
                  byte-filled_other (lookup ip d (p / 1024)) (p % 1024)
                    (λ z. far (placed.distinct (p / 1024) (off / 1024) inside (omega arith) ne z))
                  ∙ rw f refl)
          ]),
  )
    where
      out : (p : ℕ) → p / 1024 ≢ off / 1024 → within off m p ≡ false
      out p far = elim (Bool-cases (within off m p)) [
        | inr f ↦ f
        | inl t ↦
            (let le : off ≤ p = ground arith in
              let lt : p < off + m = ground arith in absurd (far (omega arith)))
      ]

-- Two parts after each other.
pub IsWritten-more :
    (off m n src : ℕ) (s : Memory) (ip : Inode) (d d₁ d₂ : Disk)
    → m ≤ n
    → IsWritten off m src s ip d d₁
    → IsWritten (off + m) (n - m) (src + m) s ip d₁ d₂
    → IsWritten off n src s ip d d₂
IsWritten-more off m n src s ip d d₁ d₂ le (same, at) (same', at') = (
  λ k lt. same' k lt ∙ same k lt,
  λ p lt ne.
      (let ne₁ : lookup ip d₁ (p / 1024) ≢ 0 =
          (λ z. ne (sym (same (p / 1024) (omega arith)) ∙ z)) in
        at' p lt ne₁ ∙ two_parts p (at p lt ne)),
)
  where
    two_parts :
        (p : ℕ)
        → content ip d₁ p ≡ overwritten off m src s ip d p
        → overwritten (off + m) (n - m) (src + m) s ip d₁ p ≡ overwritten off n src s ip d p
    two_parts p e = elim (Bool-cases (within (off + m) (n - m) p)) [
      | inl t ↦
          (let g : within off n p ≡ true = ground arith in
            let at : src + m + (p - (off + m)) ≡ src + (p - off) = ground arith in
            rw (t, g) (ap s at))
      | inr f ↦ elim (Bool-cases (within off m p)) [
        | inl t ↦ (let g : within off n p ≡ true = ground arith in rw (f, g) (e ∙ rw t refl))
        | inr f' ↦ (let g : within off n p ≡ false = ground arith in rw (f, g) (e ∙ rw f' refl))
      ]
    ]

module _ (sb : Superblock) (fuel tot n off src : ℕ) (s : Memory) (ip : Inode) (d : Disk) where
  abbrev after_bmap : Option (ℕ × Inode × Disk) → Option (ℕ × ℕ × Inode × Disk)
  after_bmap o = elim o [
    | none ↦ none
    | some (addr, ip', d') ↦ elim (addr == 0) [
      | true ↦ some (tot, off, ip', d')
      | false ↦
          (let m = chunk n tot off in
            write_from (from_memory s) sb fuel (tot + m) n (off + m) (src + m) ip'
              (log_write addr (fill_in addr (off % 1024) (λ i. s (src + i)) m d')))
    ]
  ]

  write_from-bmap :
      tot < n
      → write_from (from_memory s) sb (suc fuel) tot n off src ip d
        ≡ after_bmap (bmap sb ip (off / 1024) d)
  unfolding write_from
  write_from-bmap lt = let more : leb n tot ≡ false = ground arith in rw (more, write_from) refl

  write_from-round :
      tot < n
      → off < 268 * 1024
      → lookup ip d (off / 1024) ≢ 0
      → write_from (from_memory s) sb (suc fuel) tot n off src ip d ≡ (
          let m = chunk n tot off in
          write_from (from_memory s) sb fuel (tot + m) n (off + m) (src + m) ip (
            log_write
              (lookup ip d (off / 1024))
              (fill_in (lookup ip d (off / 1024)) (off % 1024) (λ i. s (src + i)) m d)))
  write_from-round lt low ne =
      let there : (lookup ip d (off / 1024) == 0) ≡ false = ground arith in
      write_from-bmap lt
      ∙ (ap after_bmap (bmap-lookup sb ip (off / 1024) d (omega arith) ne)
          ∙ rw (there, after_bmap) refl)

  round-bounds :
      tot < n
      → (0 < chunk n tot off) × (tot + chunk n tot off ≤ n) × (off % 1024 + chunk n tot off ≤ 1024)
  round-bounds lt = (ground arith, ground arith, ground arith)

write_from-done :
    (sb : Superblock) (fuel n off src : ℕ) (s : Memory) (ip : Inode) (d : Disk)
    → write_from (from_memory s) sb fuel n n off src ip d ≡ some (n, off, ip, d)
unfolding write_from
write_from-done sb zero n off src s ip d =
    let done : leb n n ≡ true = ground arith in rw (done, write_from) refl
write_from-done sb (suc fuel) n off src s ip d =
    let done : leb n n ≡ true = ground arith in rw (done, write_from) refl

pub IsWritten-none :
    (off src : ℕ) (s : Memory) (ip : Inode) (d : Disk) → IsWritten off 0 src s ip d d
IsWritten-none off src s ip d =
    (λ k _. refl, λ p _ _. (let f : within off 0 p ≡ false = ground arith in rw f refl))

abbrev pub Loop : ℕ → ℕ → ℕ → ℕ → ℕ → Memory → Inode → Superblock → Disk → Type 0
Loop fuel tot n off src s ip sb d =
    (d' : Disk) × (write_from (from_memory s) sb fuel tot n off src ip d
      ≡ some (n, off + (n - tot), ip, d'))
    × IsWritten off (n - tot) src s ip d d'

Loop-done :
    (sb : Superblock) (fuel tot n off src : ℕ) (s : Memory) (ip : Inode) (d : Disk)
    → tot ≡ n
    → Loop fuel tot n off src s ip sb d
Loop-done sb fuel tot n off src s ip d e =
    let none_left : n - tot ≡ 0 = omega arith in
    let same_end : off ≡ off + (n - tot) = omega arith in
    (
      d,
      ap (λ x. write_from (from_memory s) sb fuel x n off src ip d) e
          ∙ (write_from-done sb fuel n off src s ip d ∙ ap (λ x. some (n, x, ip, d)) same_end),
      subst (λ x. IsWritten off x src s ip d d) (sym none_left) (IsWritten-none off src s ip d),
    )

pub write_from-Loop :
    (sb : Superblock) (fuel tot n off src : ℕ) (s : Memory) (ip : Inode) (d : Disk)
    → IsPlaced sb ip d
    → tot ≤ n
    → n - tot ≤ fuel
    → off + (n - tot) ≤ 268 * 1024
    → ((i : ℕ) → i < n - tot → lookup ip d ((off + i) / 1024) ≢ 0)
    → Loop fuel tot n off src s ip sb d
write_from-Loop sb zero tot n off src s ip d placed le enough low there =
    Loop-done sb zero tot n off src s ip d (omega arith)
write_from-Loop sb (suc fuel) tot n off src s ip d placed le enough low there =
    elim (Bool-cases (leb n tot)) [
      | inl t ↦ Loop-done sb (suc fuel) tot n off src s ip d (ground arith)
      | inr f ↦
          (let lt : tot < n = ground arith in
            let k = chunk n tot off in
            let (more, small, room) = round-bounds sb fuel tot n off src s ip d lt in
            let start : off + 0 ≡ off = omega arith in
            let here : lookup ip d (off / 1024) ≢ 0 =
              subst (λ x. lookup ip d (x / 1024) ≢ 0) start (there 0 (omega arith)) in
            let inside : off < 268 * 1024 = omega arith in
            let d₁ = filled sb off k src s ip d placed inside here room in
            let w = filled-IsWritten sb off k src s ip d placed inside here room in
            let (d₂, e, w') =
              write_from-Loop sb fuel (tot + k) n (off + k) (src + k) s ip d₁
                (IsPlaced-same sb ip d d₁ w.0 placed) small (omega arith) (omega arith)
                (λ i lt'.
                  let shift : off + (k + i) ≡ off + k + i = omega arith in
                  let old =
                    subst (λ x. lookup ip d (x / 1024) ≢ 0) shift (there (k + i) (omega arith)) in
                  let block : (off + k + i) / 1024 < 268 = omega arith in
                  λ z. old (sym (w.0 ((off + k + i) / 1024) block) ∙ z)) in
            let last : off + k + (n - (tot + k)) ≡ off + (n - tot) = omega arith in
            let left : n - (tot + k) ≡ n - tot - k = omega arith in
            (
              d₂,
              write_from-round sb fuel tot n off src s ip d lt inside here
                  ∙ (e ∙ ap (λ x. some (n, x, ip, d₂)) last),
              IsWritten-more off k (n - tot) src s ip d d₁ d₂ (omega arith) w
                  (subst (λ x. IsWritten (off + k) x (src + k) s ip d₁ d₂) left w'),
            ))
    ]
