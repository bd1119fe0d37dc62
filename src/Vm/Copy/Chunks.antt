-- ===== src/Vm/Copy/Chunks.antt =====
-- copyin (kernel/vm.c), page by page, copies what the page table says, byte by byte.
use mathlib.Core.Path.{subst}
use os_cea.Base.{
  ℕ, zero, suc, ◌+◌, ◌-◌, ◌≤◌, ◌<◌, ◌≡◌, ◌≢◌, inl, inr, refl, sym, ap, ◌∙◌, Bool, true, false,
  Option, none, some, ◌==◌, leb, ltb, if◌then◌else◌, arith, Bool-cases,
}
use os_cea.Kalloc.{pgsize}
use os_cea.Str.{Memory, memmove}
use os_cea.Str.Move.{memmove_lem, within}
use os_cea.Vm.{Mem, maxva, pgrounddown, walkaddr}
use os_cea.Vm.Map.{walkaddr-entry}
use os_cea.Vm.Copy.{with_bytes, frame_of, in_page, copyin}

-- Where a user address is in physical memory.
abbrev pub phys_of : ℕ → Mem → ℕ → ℕ
phys_of pagetable m va = walkaddr pagetable (pgrounddown va) m + (va - pgrounddown va)

walkaddr-high : (root va : ℕ) (m : Mem) → maxva ≤ va → walkaddr root va m ≡ 0
unfolding walkaddr
walkaddr-high root va m le = let high : leb maxva va ≡ true = ground arith in rw high refl

-- The translation does not depend on the bytes.
walkaddr-with_bytes :
    (root va : ℕ) (m : Mem) (b : Memory) → walkaddr root va (with_bytes m b) ≡ walkaddr root va m
walkaddr-with_bytes root va m b = elim (Bool-cases (leb maxva va)) [
  | inr f ↦
      (let lt : va < maxva = ground arith in
        walkaddr-entry root va (with_bytes m b) lt ∙ sym (walkaddr-entry root va m lt))
  | inl t ↦
      (let le : maxva ≤ va = ground arith in
        walkaddr-high root va (with_bytes m b) le ∙ sym (walkaddr-high root va m le))
]

frame_of-mapped :
    (first sz own root va : ℕ) (m : Mem)
    → walkaddr root va m ≢ 0
    → frame_of first sz own root va m ≡ some (walkaddr root va m, m)
unfolding frame_of
frame_of-mapped first sz own root va m ne = ground arith

module _ (first sz own fuel root dst srcva len : ℕ) (m : Mem) where
  abbrev off : ℕ
  off = srcva - pgrounddown srcva

  abbrev count : ℕ
  count = in_page srcva len

  -- The bytes after the round.
  abbrev round : Memory → Memory
  round b = memmove dst (walkaddr root (pgrounddown srcva) m + off) count b

  abbrev after_frame : Option (ℕ × Mem) → Option (Bool × Mem)
  after_frame o = elim o [
    | none ↦ none
    | some (pa0, m') ↦ elim (pa0 == 0) [
      | true ↦ some (false, m')
      | false ↦
          copyin first sz own fuel root (dst + count) (pgrounddown srcva + pgsize) (len - count)
            (with_bytes m' (memmove dst (pa0 + off) count m'.phys.byte))
    ]
  ]

  copyin-step :
      (m₀ : Mem)
      → 0 < len
      → copyin first sz own (suc fuel) root dst srcva len m₀
        ≡ after_frame (frame_of first sz own root (pgrounddown srcva) m₀)
  unfolding copyin
  copyin-step m₀ pos =
      let some_left : (len == 0) ≡ false = ground arith in rw (some_left, copyin) refl

  copyin-round :
      (b : Memory)
      → 0 < len
      → walkaddr root (pgrounddown srcva) m ≢ 0
      → copyin first sz own (suc fuel) root dst srcva len (with_bytes m b)
        ≡ copyin first sz own fuel root
            (dst + count)
            (pgrounddown srcva + pgsize)
            (len - count)
            (with_bytes m (round b))
  copyin-round b pos ne =
      let same = walkaddr-with_bytes root (pgrounddown srcva) m b in
      let frame : frame_of first sz own root (pgrounddown srcva) (with_bytes m b)
          ≡ some (walkaddr root (pgrounddown srcva) m, with_bytes m b) =
        frame_of-mapped first sz own root (pgrounddown srcva) (with_bytes m b)
          (λ z. ne (sym same ∙ z))
        ∙ ap (λ a. some (a, with_bytes m b)) same in
      let mapped : (walkaddr root (pgrounddown srcva) m == 0) ≡ false = ground arith in
      copyin-step (with_bytes m b) pos ∙ (ap after_frame frame ∙ rw (mapped, after_frame) refl)

-- The bytes after a copy of `len` bytes from the user addresses from `srcva` on.
abbrev pub copied : ℕ → ℕ → ℕ → ℕ → Mem → Memory → Memory
copied root dst srcva len m b a =
    if within dst len a then b (phys_of root m (srcva + (a - dst))) else b a

-- A round, then the rest.
module _ (root dst srcva len : ℕ) (m : Mem) (b : Memory) (pos : 0 < len)
    (apart : (i : ℕ) → i < len → within dst len (phys_of root m (srcva + i)) ≡ false) where
  abbrev n : ℕ
  n = in_page srcva len

  abbrev moved : Memory → Memory
  moved c = memmove dst (walkaddr root (pgrounddown srcva) m + (srcva - pgrounddown srcva)) n c

  chunk-bounds : (0 < n) × (n ≤ len) × (srcva - pgrounddown srcva + n ≤ 4096)
  unfolding in_page
  chunk-bounds = (ground arith, ground arith, ground arith)

  next_page : n < len → pgrounddown srcva + 4096 ≡ srcva + n
  unfolding in_page
  next_page lt = ground arith

  same_page :
      (i : ℕ)
      → i < n
      → phys_of root m (srcva + i)
        ≡ walkaddr root (pgrounddown srcva) m + (srcva - pgrounddown srcva) + i
  same_page i lt =
      let (_, _, le) = chunk-bounds in
      let base : pgrounddown (srcva + i) ≡ pgrounddown srcva = omega arith in
      ap (λ p. walkaddr root p m + (srcva + i - p)) base ∙ omega arith

  abbrev start : ℕ
  start = walkaddr root (pgrounddown srcva) m + (srcva - pgrounddown srcva)

  inner : (a : ℕ) → within dst len a ≡ false → within dst n a ≡ false
  inner a f = let (_, le, _) = chunk-bounds in ground arith

  outer : (a : ℕ) → within dst len a ≡ false → within (dst + n) (len - n) a ≡ false
  outer a f = let (_, le, _) = chunk-bounds in ground arith

  first_part :
      (a : ℕ)
      → within dst len a ≡ true
      → ltb (a - dst) n ≡ true
      → (within (dst + n) (len - n) a ≡ false) × (within dst n a ≡ true)
  first_part a t here = (ground arith, ground arith)

  second_part :
      (a : ℕ)
      → within dst len a ≡ true
      → ltb (a - dst) n ≡ false
      → (within (dst + n) (len - n) a ≡ true)
        × (n < len)
        × (srcva + n + (a - (dst + n)) ≡ srcva + (a - dst))
  second_part a t later =
      let (_, le, _) = chunk-bounds in (ground arith, ground arith, ground arith)

  rest-apart :
      (i : ℕ)
      → i < len - n
      → within (dst + n) (len - n) (phys_of root m (pgrounddown srcva + 4096 + i)) ≡ false
  rest-apart i lt =
      let (_, le, _) = chunk-bounds in
      let addr : pgrounddown srcva + 4096 + i ≡ srcva + (n + i) =
        ap (λ p. p + i) (next_page (omega arith)) ∙ omega arith in
      outer (phys_of root m (pgrounddown srcva + 4096 + i))
        (ap (λ v. within dst len (phys_of root m v)) addr ∙ apart (n + i) (omega arith))

  rest-mapped :
      ((i : ℕ) → i < len → walkaddr root (pgrounddown (srcva + i)) m ≢ 0)
      → (i : ℕ) → i < len - n
      → walkaddr root (pgrounddown (pgrounddown srcva + 4096 + i)) m ≢ 0
  rest-mapped mapped i lt =
      let (_, le, _) = chunk-bounds in
      let addr : pgrounddown srcva + 4096 + i ≡ srcva + (n + i) =
        ap (λ p. p + i) (next_page (omega arith)) ∙ omega arith in
      subst (λ v. walkaddr root (pgrounddown v) m ≢ 0) (sym addr) (mapped (n + i) (omega arith))

  copied-round :
      (a : ℕ)
      → copied root (dst + n) (pgrounddown srcva + 4096) (len - n) m (moved b) a
        ≡ copied root dst srcva len m b a
  copied-round a = elim (Bool-cases (within dst len a)) [
    | inr f ↦
        (let g : within (dst + n) (len - n) a ≡ false = outer a f in
          let h : within dst n a ≡ false = inner a f in
          rw (f, g) (memmove_lem dst start n b a ∙ rw h refl))
    | inl t ↦ elim (Bool-cases (ltb (a - dst) n)) [
      | inl here ↦
          (let (g, h) = first_part a t here in
            rw (t, g)
              (memmove_lem dst start n b a
                ∙ rw h (ap b (sym (same_page (a - dst) (ground arith))))))
      | inr later ↦
          (let (g, more, le) = second_part a t later in
            let x = phys_of root m (srcva + (a - dst)) in
            let addr : pgrounddown srcva + 4096 + (a - (dst + n)) ≡ srcva + (a - dst) =
              ap (λ p. p + (a - (dst + n))) (next_page more) ∙ le in
            let h : within dst n x ≡ false = inner x (apart (a - dst) (ground arith)) in
            rw (t, g)
              (ap (λ v. moved b (phys_of root m v)) addr
                ∙ (memmove_lem dst start n b x ∙ rw h refl)))
    ]
  ]

copyin-done :
    (first sz own fuel root dst srcva : ℕ) (m : Mem)
    → copyin first sz own fuel root dst srcva 0 m ≡ some (true, m)
unfolding copyin
copyin-done first sz own zero root dst srcva m = refl
copyin-done first sz own (suc fuel) root dst srcva m = refl

-- `copyin` from user pages that are all mapped returns 0, and each of the `len` bytes at `dst` is then the
-- byte at the frame of its own user address: the split into pages and the loop do not show. No other
-- byte and no page table changes, fuel for `len` rounds is enough, and the destination is no part of the
-- pages copied from.
pub copyin-bytes :
    (first sz own fuel root dst srcva len : ℕ) (m : Mem) (b : Memory)
    → len ≤ fuel
    → ((i : ℕ) → i < len → walkaddr root (pgrounddown (srcva + i)) m ≢ 0)
    → ((i : ℕ) → i < len → within dst len (phys_of root m (srcva + i)) ≡ false)
    → (b' : Memory) × (copyin first sz own fuel root dst srcva len (with_bytes m b)
        ≡ some (true, with_bytes m b'))
      × ((a : ℕ) → b' a ≡ copied root dst srcva len m b a)
copyin-bytes first sz own fuel root dst srcva zero m b le mapped apart =
    (b, copyin-done first sz own fuel root dst srcva (with_bytes m b), λ a. ground arith)
copyin-bytes first sz own zero root dst srcva (suc len) m b le mapped apart = absurd (omega arith)
copyin-bytes first sz own (suc fuel) root dst srcva (suc len) m b le mapped apart =
    let pos : 0 < suc len = omega arith in
    let (more, small, _) = chunk-bounds root dst srcva (suc len) m b pos apart in
    let k = in_page srcva (suc len) in
    let base : srcva + 0 ≡ srcva = omega arith in
    let here : walkaddr root (pgrounddown srcva) m ≢ 0 =
      subst (λ v. walkaddr root (pgrounddown v) m ≢ 0) base (mapped 0 (omega arith)) in
    let (b', eq, at) =
      copyin-bytes first sz own fuel root (dst + k) (pgrounddown srcva + 4096) (suc len - k) m
        (moved root dst srcva (suc len) m b pos apart b) (omega arith)
        (rest-mapped root dst srcva (suc len) m b pos apart mapped)
        (rest-apart root dst srcva (suc len) m b pos apart) in
    (
      b',
      copyin-round first sz own fuel root dst srcva (suc len) m b pos here ∙ eq,
      λ a. at a ∙ copied-round root dst srcva (suc len) m b pos apart a,
    )
