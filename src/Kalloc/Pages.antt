-- ===== src/Kalloc/Pages.antt =====
-- What the allocator of kernel/kalloc.c hands out: whole pages of the allowed range, none of them twice.
use mathlib.Core.List.{append_assoc}
use mathlib.Core.Path.{ap₂}
use os_cea.Base.{
  ◌↔◌, le→leb, ℕ, zero, suc, ◌+◌, ◌-◌, ◌*◌, ◌/◌, ◌%◌, ◌≤◌, ◌<◌, ◌≡◌, ◌≢◌, inl, inr, refl, sym, ap,
  ◌∙◌, not, ◌||◌, none, some, List, [], ◌∷◌, ◌++◌, ◌==◌, leb, ltb, arith, Bool-cases,
}
use os_cea.Kalloc.{
  pgsize, phystop, pgroundup, Memory, fill, kfree, kalloc, free_from, freerange, kinit,
}

-- A page that kfree accepts.
abbrev pub IsPage : ℕ → ℕ → Type 0
IsPage first pa = (pa % pgsize ≡ 0) × (first ≤ pa) × (pa < phystop)

abbrev pub All {ℓ} : {A : Type ℓ} → (A → Type 0) → List A → Type 0
All P [] = Unit
All P (x ∷ xs) = P x × All P xs

abbrev pub AllDistinct : List ℕ → Type 0
AllDistinct [] = Unit
AllDistinct (x ∷ xs) = All (λ y. x ≢ y) xs × AllDistinct xs

-- The pages below page number `n`, `k` of them, the highest first.
abbrev pub pages_below : ℕ → ℕ → List ℕ
pages_below n zero = []
pages_below n (suc k) = (n - 1) * pgsize ∷ pages_below (n - 1) k

-- The allocator together with the pages that are in use: no page is in both, or twice in one.
pub record IsSound (first : ℕ) (m : Memory) (used : List ℕ) : Type 0 where
  pub pages : All (IsPage first) (m.freelist ++ used)
  pub distinct : AllDistinct (m.freelist ++ used)

All-move {ℓ} :
    {A : Type ℓ} (P : A → Type 0) (xs ys : List A) (x : A)
    → All P (x ∷ (xs ++ ys)) ↔ All P (xs ++ (x ∷ ys))
All-move P [] ys x = (λ h. h, λ h. h)
All-move P (y ∷ xs) ys x = (
  λ h. (let rest = h.1 in (rest.0, (All-move P xs ys x).0 (h.0, rest.1))),
  λ h. (let back = (All-move P xs ys x).1 h.1 in (back.0, (h.0, back.1))),
)

AllDistinct-move :
    (xs ys : List ℕ) (x : ℕ) → AllDistinct (x ∷ (xs ++ ys)) ↔ AllDistinct (xs ++ (x ∷ ys))
AllDistinct-move [] ys x = (λ h. h, λ h. h)
AllDistinct-move (y ∷ xs) ys x = (
  λ h.
      (let (far, rest) = h in
        (
          (All-move (λ z. y ≢ z) xs ys x).0 ((λ e. far.0 (sym e)), rest.0),
          (AllDistinct-move xs ys x).0 (far.1, rest.1),
        )),
  λ h.
      (let near = (All-move (λ z. y ≢ z) xs ys x).1 h.0 in
        let rest = (AllDistinct-move xs ys x).1 h.1 in
        (((λ e. near.0 (sym e)), rest.0), (near.1, rest.1))),
)

kfree-page :
    (first pa : ℕ) (m : Memory)
    → IsPage first pa
    → kfree first pa m ≡ some (record { freelist = pa ∷ m.freelist; byte = fill pa 1 m.byte })
unfolding kfree
kfree-page first pa m (a, lo, hi) = ground arith

kfree-panic : (first pa : ℕ) (m : Memory) → ¬ IsPage first pa → kfree first pa m ≡ none
unfolding kfree
kfree-panic first pa m h =
    elim (Bool-cases (not (pa % pgsize == 0) || (ltb pa first || leb phystop pa))) [
      | inl e ↦ rw e
      | inr e ↦ absurd (h (ground arith))
    ]

-- `kfree` of a page in use succeeds and keeps the free pages and the pages in use apart.
pub kfree-IsSound :
    (first pa : ℕ) (m : Memory) (used : List ℕ)
    → IsSound first m (pa ∷ used)
    → (m' : Memory) × (kfree first pa m ≡ some m') × IsSound first m' used
kfree-IsSound first pa m used s =
    let pages = (All-move (IsPage first) m.freelist used pa).1 s.pages in
    (
      record { freelist = pa ∷ m.freelist; byte = fill pa 1 m.byte },
      kfree-page first pa m pages.0,
      record { pages = pages; distinct = (AllDistinct-move m.freelist used pa).1 s.distinct },
    )

-- What `kalloc` answers.
pub data Answer (first : ℕ) (m : Memory) (used : List ℕ) : Type 0 where
  exhausted : m.freelist ≡ [] → kalloc m ≡ (0, m) → Answer first m used
  page :
      (pa : ℕ) (m' : Memory)
      → kalloc m ≡ (pa, m')
      → IsPage first pa
      → All (λ u. pa ≢ u) used
      → IsSound first m' (pa ∷ used)
      → ((a : ℕ) → pa ≤ a → a < pa + pgsize → m'.byte a ≡ 5)
      → Answer first m used

All-append-right {ℓ} : {A : Type ℓ} (P : A → Type 0) (xs ys : List A) → All P (xs ++ ys) → All P ys
All-append-right P [] ys h = h
All-append-right P (x ∷ xs) ys h = All-append-right P xs ys h.1

kalloc-cases :
    (m : Memory) (fl : List ℕ) → m.freelist ≡ fl → kalloc m ≡ kalloc (record m { freelist = fl })
unfolding kalloc
kalloc-cases m fl e = ground arith

fill-inside : (pa c : ℕ) (byte : ℕ → ℕ) (a : ℕ) → pa ≤ a → a < pa + pgsize → fill pa c byte a ≡ c
unfolding fill
fill-inside pa c byte a lo hi = ground arith

-- `kalloc` answers 0 only when no page is free; any other answer is a whole page of the allowed range
-- that nobody uses, filled with 5, and the free pages and the pages in use stay apart.
pub kalloc-Answer :
    (first : ℕ) (m : Memory) (used : List ℕ) → IsSound first m used → Answer first m used
unfolding kalloc
kalloc-Answer first m used s = go m.freelist refl
  where
    go : (fl : List ℕ) → m.freelist ≡ fl → Answer first m used
    go [] e = exhausted e (ground arith)
    go (pa ∷ fl) e =
        let pages : All (IsPage first) (pa ∷ (fl ++ used)) = rw e at s.pages in
        let distinct : AllDistinct (pa ∷ (fl ++ used)) = rw e at s.distinct in
        page pa (record { freelist = fl; byte = fill pa 5 m.byte }) (ground arith) pages.0
          (All-append-right (λ u. pa ≢ u) fl used distinct.0)
          (record {
            pages = (All-move (IsPage first) fl used pa).0 pages;
            distinct = (AllDistinct-move fl used pa).0 distinct;
          })
          (fill-inside pa 5 m.byte)

pages_below-snoc :
    (a n : ℕ) → pages_below (a + suc n) (suc n) ≡ pages_below (a + 1 + n) n ++ (a * pgsize ∷ [])
pages_below-snoc a zero = ap (λ (p : ℕ). p ∷ []) (omega arith)
pages_below-snoc a (suc n) = ap₂ ◌∷◌ (omega arith) (
    ap (λ (b : ℕ). pages_below b (suc n)) (omega arith)
    ∙ pages_below-snoc a n
    ∙ ap (λ (b : ℕ). pages_below b n ++ (a * pgsize ∷ [])) (omega arith))

free_from-stop :
    (fuel first p pa_end : ℕ) (m : Memory)
    → pa_end < p + pgsize
    → free_from (suc fuel) first p pa_end m ≡ some m
unfolding free_from
free_from-stop fuel first p pa_end m h = ground arith

free_from-step :
    (fuel first p : ℕ) (m : Memory)
    → p + pgsize ≤ phystop
    → IsPage first p
    → free_from (suc fuel) first p phystop m
      ≡ free_from fuel first
          (p + pgsize)
          phystop
          (record { freelist = p ∷ m.freelist; byte = fill p 1 m.byte })
unfolding free_from
free_from-step fuel first p m h ok =
    rw (le→leb (p + pgsize) phystop h, free_from, kfree-page first p m ok)

free_from-pages :
    (n fuel first a : ℕ) (m : Memory)
    → n < fuel
    → first ≤ a * pgsize
    → (a + n) * pgsize ≡ phystop
    → (m' : Memory) × (free_from fuel first (a * pgsize) phystop m ≡ some m')
      × (m'.freelist ≡ pages_below (a + n) n ++ m.freelist)
free_from-pages n zero first a m lt lo e = elim lt [ ]
free_from-pages zero (suc fuel) first a m lt lo e =
    (m, free_from-stop fuel first (a * pgsize) phystop m (omega arith), refl)
free_from-pages (suc n) (suc fuel) first a m lt lo e =
    let m₁ : Memory = record {
      freelist = a * pgsize ∷ m.freelist;
      byte = fill (a * pgsize) 1 m.byte;
    } in
    let (m', ran, fl) =
      free_from-pages n fuel first (a + 1) m₁ (omega arith) (omega arith) (omega arith) in
    (
      m',
      free_from-step fuel first (a * pgsize) m (omega arith) (omega arith)
          ∙ ap (λ (p : ℕ). free_from fuel first p phystop m₁) (omega arith)
          ∙ ran,
      fl
          ∙ sym (append_assoc (pages_below (a + 1 + n) n) (a * pgsize ∷ []) m.freelist)
          ∙ ap (λ (l : List ℕ). l ++ m.freelist) (sym (pages_below-snoc a n)),
    )

-- The number of whole pages from `first` up to PHYSTOP.
abbrev pub whole_pages : ℕ → ℕ
whole_pages first = phystop / pgsize - (first + (pgsize - 1)) / pgsize

-- `kinit` frees exactly the whole pages between the end of the kernel and PHYSTOP, and never panics
-- or runs out of fuel.
pub kinit-pages :
    (first : ℕ) (m : Memory)
    → first ≤ phystop
    → (m' : Memory) × (kinit first m ≡ some m')
      × (m'.freelist ≡ pages_below (phystop / pgsize) (whole_pages first) ++ m.freelist)
unfolding kinit freerange pgroundup
kinit-pages first m le =
    let (m', ran, fl) =
      free_from-pages (whole_pages first) (phystop / pgsize + 1) first
        ((first + (pgsize - 1)) / pgsize) m (omega arith) (omega arith) (omega arith) in
    (
      m',
      ap (λ (p : ℕ). free_from (phystop / pgsize + 1) first p phystop m) (omega arith) ∙ ran,
      fl ∙ ap (λ (b : ℕ). pages_below b (whole_pages first) ++ m.freelist) (omega arith),
    )
