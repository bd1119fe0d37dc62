-- ===== src/Inode/Reading.antt =====
-- readi (kernel/fs.c), block by block, reads the bytes of the file.
use mathlib.Core.Path.{subst}
use os_cea.Base.{
  ℕ, zero, suc, ◌+◌, ◌-◌, ◌*◌, ◌/◌, ◌%◌, ◌^◌, ◌≤◌, ◌<◌, ◌≡◌, ◌≢◌, refl, sym, ap, ◌∙◌, true, false,
  ◌||◌, Option, none, some, ◌==◌, leb, ltb, if◌then◌else◌, arith, Bool-cases, inl, inr,
}
use os_cea.Base.Int.{ℤ, pos}
use os_cea.Str.{Memory}
use os_cea.Str.Move.{within}
use os_cea.Disk.{Superblock, Disk}
use os_cea.Inode.{Inode, to_memory, bmap, chunk, read_from, readi}
use os_cea.Inode.Mapping.{lookup, bmap-lookup}

-- The byte of a file at an offset.
abbrev pub content : Inode → Disk → ℕ → ℕ
content ip d off = d.byte (lookup ip d (off / 1024)) (off % 1024)

-- Memory with `n` bytes of the file from `off` on put at `dst`.
abbrev pub with_content : ℕ → ℕ → ℕ → Inode → Disk → Memory → Memory
with_content dst n off ip d s a = if within dst n a then content ip d (off + (a - dst)) else s a

module _ (sb : Superblock) (fuel tot n off dst : ℕ) (ip : Inode) (d : Disk) (s : Memory) where
  abbrev m : ℕ
  m = chunk n tot off

  abbrev moved : Memory
  moved a =
      if within dst m a then d.byte (lookup ip d (off / 1024)) (off % 1024 + (a - dst)) else s a

  abbrev after_bmap : Option (ℕ × Inode × Disk) → Option (ℤ × Inode × Disk × Memory)
  after_bmap o = elim o [
    | none ↦ none
    | some (addr, ip', d') ↦ elim (addr == 0) [
      | true ↦ some (pos tot, ip', d', s)
      | false ↦
          read_from to_memory sb fuel (tot + m) n (off + m) (dst + m) ip' d'
            (λ a. if within dst m a then d'.byte addr (off % 1024 + (a - dst)) else s a)
    ]
  ]

  read_from-bmap :
      tot < n
      → read_from to_memory sb (suc fuel) tot n off dst ip d s
        ≡ after_bmap (bmap sb ip (off / 1024) d)
  unfolding read_from
  read_from-bmap lt = let more : leb n tot ≡ false = ground arith in rw (more, read_from) refl

  read_from-round :
      tot < n
      → off < 268 * 1024
      → lookup ip d (off / 1024) ≢ 0
      → read_from to_memory sb (suc fuel) tot n off dst ip d s
        ≡ read_from to_memory sb fuel (tot + m) n (off + m) (dst + m) ip d moved
  read_from-round lt low ne =
      let there : (lookup ip d (off / 1024) == 0) ≡ false = ground arith in
      read_from-bmap lt
      ∙ (ap after_bmap (bmap-lookup sb ip (off / 1024) d (omega arith) ne)
          ∙ rw (there, after_bmap) refl)

  chunk-bounds : tot < n → (0 < m) × (tot + m ≤ n) × (off % 1024 + m ≤ 1024)
  chunk-bounds lt = (ground arith, ground arith, ground arith)

  -- All bytes of a round are in one block.
  same_block :
      tot < n
      → (i : ℕ) → i < m
      → content ip d (off + i) ≡ d.byte (lookup ip d (off / 1024)) (off % 1024 + i)
  same_block lt i lt' =
      let (_, _, le) = chunk-bounds lt in
      let q : (off + i) / 1024 ≡ off / 1024 = omega arith in
      let r : (off + i) % 1024 ≡ off % 1024 + i = omega arith in
      ap (λ x. d.byte (lookup ip d x) ((off + i) % 1024)) q
      ∙ ap (d.byte (lookup ip d (off / 1024))) r

  with_content-round :
      tot < n
      → (a : ℕ)
      → with_content (dst + m) (n - (tot + m)) (off + m) ip d moved a
        ≡ with_content dst (n - tot) off ip d s a
  with_content-round lt a =
      let (_, le, _) = chunk-bounds lt in
      elim (Bool-cases (within dst (n - tot) a)) [
        | inr f ↦
            (let g : within (dst + m) (n - (tot + m)) a ≡ false = ground arith in
              let h : within dst m a ≡ false = ground arith in rw (f, g, h) refl)
        | inl t ↦ elim (Bool-cases (ltb (a - dst) m)) [
          | inl here ↦
              (let g : within (dst + m) (n - (tot + m)) a ≡ false = ground arith in
                let h : within dst m a ≡ true = ground arith in
                rw (t, g, h) (sym (same_block lt (a - dst) (ground arith))))
          | inr later ↦
              (let g : within (dst + m) (n - (tot + m)) a ≡ true = ground arith in
                let at : off + m + (a - (dst + m)) ≡ off + (a - dst) = ground arith in
                rw (t, g) (ap (content ip d) at))
        ]
      ]

read_from-done :
    (sb : Superblock) (fuel n off dst : ℕ) (ip : Inode) (d : Disk) (s : Memory)
    → read_from to_memory sb fuel n n off dst ip d s ≡ some (pos n, ip, d, s)
unfolding read_from
read_from-done sb zero n off dst ip d s =
    let done : leb n n ≡ true = ground arith in rw (done, read_from) refl
read_from-done sb (suc fuel) n off dst ip d s =
    let done : leb n n ≡ true = ground arith in rw (done, read_from) refl

read_from-content :
    (sb : Superblock) (fuel tot n off dst : ℕ) (ip : Inode) (d : Disk) (s : Memory)
    → tot ≤ n
    → n - tot ≤ fuel
    → off + (n - tot) ≤ 268 * 1024
    → ((i : ℕ) → i < n - tot → lookup ip d ((off + i) / 1024) ≢ 0)
    → (s' : Memory) × (read_from to_memory sb fuel tot n off dst ip d s ≡ some (pos n, ip, d, s'))
      × ((a : ℕ) → s' a ≡ with_content dst (n - tot) off ip d s a)
read_from-content sb zero tot n off dst ip d s le enough low there =
    let e : tot ≡ n = omega arith in
    let none_left : n - tot ≡ 0 = omega arith in
    (
      s,
      subst (λ x. read_from to_memory sb zero x n off dst ip d s ≡ some (pos n, ip, d, s)) (sym e)
          (read_from-done sb zero n off dst ip d s),
      λ a. subst (λ x. s a ≡ with_content dst x off ip d s a) (sym none_left) (ground arith),
    )
read_from-content sb (suc fuel) tot n off dst ip d s le enough low there =
    elim (Bool-cases (leb n tot)) [
      | inl t ↦
          (let e : tot ≡ n = ground arith in
            let none_left : n - tot ≡ 0 = omega arith in
            (
              s,
              subst
                  (λ x.
                    read_from to_memory sb (suc fuel) x n off dst ip d s ≡ some (pos n, ip, d, s))
                  (sym e) (read_from-done sb (suc fuel) n off dst ip d s),
              λ a.
                  subst (λ x. s a ≡ with_content dst x off ip d s a) (sym none_left) (ground arith),
            ))
      | inr f ↦
          (let lt : tot < n = ground arith in
            let k = chunk n tot off in
            let (more, small, _) = chunk-bounds sb fuel tot n off dst ip d s lt in
            let start : off + 0 ≡ off = omega arith in
            let here : lookup ip d (off / 1024) ≢ 0 =
              subst (λ x. lookup ip d (x / 1024) ≢ 0) start (there 0 (omega arith)) in
            let (s', e, at) =
              read_from-content sb fuel (tot + k) n (off + k) (dst + k) ip d
                (moved sb fuel tot n off dst ip d s) small (omega arith) (omega arith)
                (λ i lt'.
                  let shift : off + (k + i) ≡ off + k + i = omega arith in
                  subst (λ x. lookup ip d (x / 1024) ≢ 0) shift (there (k + i) (omega arith))) in
            (
              s',
              read_from-round sb fuel tot n off dst ip d s lt (omega arith) here ∙ e,
              λ a. at a ∙ with_content-round sb fuel tot n off dst ip d s lt a,
            ))
    ]

-- How many bytes `readi` reads.
abbrev pub available : ℕ → ℕ → ℕ → ℕ
available size off n = if ltb size (off + n) then size - off else n

readi-loop :
    (sb : Superblock) (dst off n : ℕ) (ip : Inode) (d : Disk) (s : Memory)
    → off ≤ ip.size
    → off + n < 2 ^ 32
    → readi to_memory sb dst off n ip d s
      ≡ read_from to_memory sb (available ip.size off n) 0 (available ip.size off n) off dst ip d s
unfolding readi
readi-loop sb dst off n ip d s le small =
    let sum : (off + n) % 2 ^ 32 ≡ off + n = omega arith in
    let first : (ltb ip.size off || ltb (off + n) off) ≡ false = ground arith in
    rw (sum, first) refl

-- `readi` to kernel memory, of a file whose blocks are all there, returns the number of bytes between
-- `off` and the end of the file but at most `n`, and puts exactly these bytes of the file at `dst`: the
-- split into blocks does not show. Neither the inode nor the disk changes.
pub readi-content :
    (sb : Superblock) (dst off n : ℕ) (ip : Inode) (d : Disk) (s : Memory)
    → off ≤ ip.size
    → off + n < 2 ^ 32
    → ip.size ≤ 268 * 1024
    → ((bn : ℕ) → bn * 1024 < ip.size → lookup ip d bn ≢ 0)
    → (s' : Memory) × (readi to_memory sb dst off n ip d s
        ≡ some (pos (available ip.size off n), ip, d, s'))
      × ((a : ℕ) → s' a ≡ with_content dst (available ip.size off n) off ip d s a)
readi-content sb dst off n ip d s le small low there =
    let k = available ip.size off n in
    let fits : off + k ≤ ip.size = ground arith in
    let (s', e, at) =
      read_from-content sb k 0 k off dst ip d s (omega arith) (omega arith) (omega arith)
        (λ i lt. there ((off + i) / 1024) (omega arith)) in
    let whole : k - 0 ≡ k = omega arith in
    (
      s',
      readi-loop sb dst off n ip d s le small ∙ e,
      λ a. at a ∙ ap (λ x. with_content dst x off ip d s a) whole,
    )
