-- ===== src/Bio/Copies.antt =====
-- The buffer cache never has two copies of a block (kernel/bio.c).
use mathlib.Core.Option
use mathlib.Core.Option.{some-injective}
use mathlib.Core.Path.{subst}
use os_cea.Base.{
  sym, ap, ◌∙◌, find_index?-IsFirst, get_elem?-modify_self, ℕ, zero, suc, ◌+◌, ◌≤◌, ◌<◌, ◌≡◌, ◌≢◌,
  refl, true, ◌&&◌, none, some, List, [], ◌∷◌, ◌==◌, if◌then◌else◌, get_elem?, modify, find_index?,
  arith, Bool-cases, Option-cases, inl, inr, ◌⊎◌,
}
use os_cea.Bio.{
  Buf, nbuf, is_block, is_free, find_last?, hold, recycle, bget, drop, unlink, brelse, bpin, bunpin,
  binit,
}

-- How many buffers hold a block.
abbrev pub copies : ℕ → ℕ → List Buf → ℕ
copies dev blockno [] = 0
copies dev blockno (b ∷ bs) = (if is_block dev blockno b then 1 else 0) + copies dev blockno bs

-- Device 0 is what buffers that have not been used yet carry; no disk has it.
abbrev pub HasOneCopy : List Buf → Type 0
HasOneCopy bs = (dev blockno : ℕ) → 0 < dev → copies dev blockno bs ≤ 1

copies-modify :
    (dev blockno : ℕ) (bs : List Buf) (i : ℕ) (f : Buf → Buf)
    → ((b : Buf) → is_block dev blockno (f b) ≡ is_block dev blockno b)
    → copies dev blockno (modify bs i f) ≡ copies dev blockno bs
copies-modify dev blockno [] i f h = refl
copies-modify dev blockno (b ∷ bs) zero f h = rw (h b) refl
copies-modify dev blockno (b ∷ bs) (suc i) f h = omega (arith, copies-modify dev blockno bs i f h)

copies-none :
    (dev blockno : ℕ) (bs : List Buf)
    → find_index? (is_block dev blockno) bs ≡ none
    → copies dev blockno bs ≡ 0
copies-none dev blockno [] h = refl
copies-none dev blockno (b ∷ bs) h = elim (Bool-cases (is_block dev blockno b)) [
  | inl t ↦ ground arith
  | inr f ↦ (let rest = copies-none dev blockno bs (ground arith) in ground arith)
]

copies-recycle :
    (dev blockno d n : ℕ) (bs : List Buf) (i : ℕ)
    → copies d n (modify bs i (recycle dev blockno))
      ≤ (if dev == d && blockno == n then 1 else 0) + copies d n bs
copies-recycle dev blockno d n [] i = omega arith
copies-recycle dev blockno d n (b ∷ bs) zero = ground arith
copies-recycle dev blockno d n (b ∷ bs) (suc i) = omega (arith, copies-recycle dev blockno d n bs i)

copies-unlink :
    (dev blockno : ℕ) (bs : List Buf) (i : ℕ) (b : Buf)
    → get_elem? bs i ≡ some b
    → (if is_block dev blockno b then 1 else 0) + copies dev blockno (unlink bs i)
      ≡ copies dev blockno bs
copies-unlink dev blockno [] i b h = absurd cc
copies-unlink dev blockno (c ∷ bs) zero b h = ground arith
copies-unlink dev blockno (c ∷ bs) (suc i) b h = omega (arith, copies-unlink dev blockno bs i b h)

is_block_lem :
    (dev blockno : ℕ) (b : Buf)
    → is_block dev blockno b ≡ true
    → (b.dev ≡ dev) × (b.blockno ≡ blockno)
is_block_lem dev blockno b h = ground arith

copies-brelse :
    (dev blockno i : ℕ) (bs : List Buf) → copies dev blockno (brelse i bs) ≡ copies dev blockno bs
unfolding brelse
copies-brelse dev blockno i bs = elim (Option-cases (get_elem? bs i)) [
  | inl e ↦ rw (e, brelse) refl
  | inr (b, e) ↦ elim (Bool-cases (is_free (drop b))) [
    | inl t ↦ rw (e, t, brelse) (copies-unlink dev blockno bs i b e)
    | inr f ↦ rw (e, f, brelse) (copies-modify dev blockno bs i drop (λ _. refl))
  ]
]

bget-hit :
    (dev blockno i : ℕ) (bs : List Buf)
    → find_index? (is_block dev blockno) bs ≡ some i
    → bget dev blockno bs ≡ some (i, modify bs i hold)
unfolding bget
bget-hit dev blockno i bs h = rw (h, bget) refl

bget-miss :
    (dev blockno i : ℕ) (bs : List Buf)
    → find_index? (is_block dev blockno) bs ≡ none
    → find_last? bs ≡ some i
    → bget dev blockno bs ≡ some (i, modify bs i (recycle dev blockno))
unfolding bget
bget-miss dev blockno i bs h l = rw (h, l, bget) refl

bget-panic :
    (dev blockno : ℕ) (bs : List Buf)
    → find_index? (is_block dev blockno) bs ≡ none
    → find_last? bs ≡ none
    → bget dev blockno bs ≡ none
unfolding bget
bget-panic dev blockno bs h l = rw (h, l, bget) refl

find_last?-free :
    (bs : List Buf) (i : ℕ)
    → find_last? bs ≡ some i
    → (b : Buf) × (get_elem? bs i ≡ some b) × (b.refcnt ≡ 0)
unfolding find_last?
find_last?-free [] i h = absurd cc
find_last?-free (b ∷ bs) zero h = elim (Option-cases (find_last? bs)) [
  | inl e ↦ (b, refl, ground arith)
  | inr (j, e) ↦ absurd (ground arith)
]
find_last?-free (b ∷ bs) (suc i) h = elim (Option-cases (find_last? bs)) [
  | inl e ↦ absurd (ground arith)
  | inr (j, e) ↦ find_last?-free bs i (ground arith)
]

find_last?-none :
    (bs : List Buf)
    → find_last? bs ≡ none
    → (i : ℕ) (b : Buf) → get_elem? bs i ≡ some b
    → b.refcnt ≢ 0
unfolding find_last?
find_last?-none [] h i b g = absurd cc
find_last?-none (c ∷ bs) h zero b g = elim (Option-cases (find_last? bs)) [
  | inl e ↦ ground arith
  | inr (j, e) ↦ absurd (ground arith)
]
find_last?-none (c ∷ bs) h (suc i) b g =
    find_last?-none bs
      (elim (Option-cases (find_last? bs)) [ inl e ↦ e | inr (j, e) ↦ absurd (ground arith) ]) i b g

HasOneCopy-recycle :
    (dev blockno i : ℕ) (bs : List Buf)
    → find_index? (is_block dev blockno) bs ≡ none
    → HasOneCopy bs
    → HasOneCopy (modify bs i (recycle dev blockno))
HasOneCopy-recycle dev blockno i bs e one d n lt = elim (Bool-cases (dev == d && blockno == n)) [
  | inr f ↦ (let few = copies-recycle dev blockno d n bs i in let few' = one d n lt in ground arith)
  | inl t ↦
      (let same : (d ≡ dev) × (n ≡ blockno) = ground arith in
        let few = copies-recycle dev blockno d n bs i in
        let zero_copies : copies d n bs ≡ 0 =
          rw same.0 (rw same.1 (copies-none dev blockno bs e)) in
        ground arith)
]

-- What `bget` answers.
pub data Got (dev blockno : ℕ) (bs : List Buf) : Type 0 where
  panicked :
      bget dev blockno bs ≡ none
      → ((i : ℕ) (b : Buf) → get_elem? bs i ≡ some b → b.refcnt ≢ 0)
      → Got dev blockno bs
  got :
      (i : ℕ) (old b : Buf) (bs' : List Buf)
      → bget dev blockno bs ≡ some (i, bs')
      → get_elem? bs i ≡ some old
      → get_elem? bs' i ≡ some b
      → (b.dev ≡ dev) × (b.blockno ≡ blockno)
      → ((old.dev ≡ dev) × (old.blockno ≡ blockno)) ⊎ (old.refcnt ≡ 0)
      → HasOneCopy bs'
      → Got dev blockno bs

at-modify :
    (bs : List Buf) (i : ℕ) (f : Buf → Buf) {b : Buf}
    → get_elem? bs i ≡ some b
    → get_elem? (modify bs i f) i ≡ some (f b)
at-modify bs i f e = get_elem?-modify_self bs i f ∙ ap (Option.map f) e

-- In a cache with one copy of each block at most, `bget` for a disk's block panics only if every
-- buffer is in use. Otherwise it returns a buffer that carries the block, and that either had it
-- already or was in use by nobody, and there is still one copy of each block at most.
pub bget-Got : (dev blockno : ℕ) (bs : List Buf) → 0 < dev → HasOneCopy bs → Got dev blockno bs
bget-Got dev blockno bs lt one = elim (Option-cases (find_index? (is_block dev blockno) bs)) [
  | inr (i, e) ↦
      (let f = find_index?-IsFirst (is_block dev blockno) bs i e in
        let key = is_block_lem dev blockno f.item f.passes in
        got i f.item (hold f.item) (modify bs i hold) (bget-hit dev blockno i bs e) f.at
          (at-modify bs i hold f.at) key (inl key)
          (λ d n pos. omega (arith, copies-modify d n bs i hold (λ _. refl), one d n pos)))
  | inl e ↦ elim (Option-cases (find_last? bs)) [
    | inl l ↦ panicked (bget-panic dev blockno bs e l) (find_last?-none bs l)
    | inr (i, l) ↦
        (let (b, at, free) = find_last?-free bs i l in
          got i b (recycle dev blockno b) (modify bs i (recycle dev blockno))
            (bget-miss dev blockno i bs e l) at (at-modify bs i (recycle dev blockno) at)
            (refl, refl) (inr free) (HasOneCopy-recycle dev blockno i bs e one))
  ]
]

-- The operations on the cache, in any order.
pub data Step (bs : List Buf) : List Buf → Type 0 where
  gets :
      {bs' : List Buf} (dev blockno i : ℕ)
      → 0 < dev
      → bget dev blockno bs ≡ some (i, bs')
      → Step bs bs'
  releases : (i : ℕ) → Step bs (brelse i bs)
  pins : (i : ℕ) → Step bs (bpin i bs)
  unpins : (i : ℕ) → Step bs (bunpin i bs)

pub data Reach (bs : List Buf) : List Buf → Type 0 where
  here : Reach bs bs
  next : {cs ds : List Buf} → Reach bs cs → Step cs ds → Reach bs ds

HasOneCopy-bget :
    (dev blockno i : ℕ) (bs : List Buf) {bs' : List Buf}
    → 0 < dev
    → bget dev blockno bs ≡ some (i, bs')
    → HasOneCopy bs
    → HasOneCopy bs'
HasOneCopy-bget dev blockno i bs lt e one = elim (bget-Got dev blockno bs lt one) [
  | panicked p _ ↦ absurd (cc)
  | got j _ _ cs g _ _ _ _ one' ↦
      subst HasOneCopy (ap (λ r. r.1) (some-injective _ _ (sym g ∙ e))) one'
]

Step-HasOneCopy : {bs cs : List Buf} → Step bs cs → HasOneCopy bs → HasOneCopy cs
unfolding bpin bunpin
Step-HasOneCopy {bs = bs} (gets dev blockno i lt e) one = HasOneCopy-bget dev blockno i bs lt e one
Step-HasOneCopy {bs = bs} (releases i) one =
    λ d n lt. omega (arith, copies-brelse d n i bs, one d n lt)
Step-HasOneCopy {bs = bs} (pins i) one =
    λ d n lt. omega (arith, copies-modify d n bs i hold (λ _. refl), one d n lt)
Step-HasOneCopy {bs = bs} (unpins i) one =
    λ d n lt. omega (arith, copies-modify d n bs i drop (λ _. refl), one d n lt)

copies-binit : (d n m : ℕ) (bs : List Buf) → 0 < d → copies d n (binit m bs) ≡ copies d n bs
unfolding binit
copies-binit d n zero bs lt = refl
copies-binit d n (suc m) bs lt = copies-binit d n m _ lt ∙ ground arith

-- From `binit` on, whatever blocks are got, released, pinned and unpinned in whatever order, no block
-- of a disk is ever in two buffers.
pub Reach-HasOneCopy : {bs : List Buf} → Reach (binit nbuf []) bs → HasOneCopy bs
Reach-HasOneCopy here = λ d n lt. omega (arith, copies-binit d n nbuf [] lt)
Reach-HasOneCopy (next r s) = Step-HasOneCopy s (Reach-HasOneCopy r)
