-- ===== src/Vm/Tree.antt =====
-- The shape of the pages that make up page tables (kernel/vm.c): a tree of three levels.
use mathlib.Core.Path.{subst}
use mathlib.Core.Option.{some-injective}
use os_cea.Base.{
  ℕ, zero, suc, ◌%◌, ◌^◌, ◌≤◌, ◌<◌, ◌≡◌, ◌≢◌, inl, inr, refl, sym, ap, ◌∙◌, true, false, Option,
  none, some, List, [], ◌∷◌, arith, Bool-cases, lt_or_eq_or_lt,
}
use os_cea.Vm.{Mem, is_valid, pte2pa, px, walk_from}

-- A page that the allocator may hold: its number fits in a page-table entry.
abbrev pub IsFrame : ℕ → Type 0
IsFrame p = (p % 4096 ≡ 0) × (0 < p) × (p < 2 ^ 56)

abbrev pub IsMissing : ℕ → List ℕ → Type 0
IsMissing p [] = Unit
IsMissing p (q ∷ qs) = (p ≢ q) × IsMissing p qs

-- The free pages: frames, no page twice, none of them a page table.
abbrev pub AreFree : (ℕ → ℕ) → List ℕ → Type 0
AreFree rank [] = Unit
AreFree rank (p ∷ ps) = IsFrame p × (3 ≤ rank p) × IsMissing p ps × AreFree rank ps

-- `rank` is the level of each page that is a page table, and 3 or more elsewhere. Every valid entry
-- above level 0 leads to a page table one level below, and no two of them to the same one.
pub record IsTree (rank : ℕ → ℕ) (w : ℕ → ℕ → ℕ) (freelist : List ℕ) : Type 0 where
  pub leads :
      (p i l : ℕ)
      → rank p ≡ suc l
      → l < 2
      → i < 512
      → is_valid (w p i) ≡ true
      → rank (pte2pa (w p i)) ≡ l
  pub apart :
      (p i q j l : ℕ)
      → rank p ≡ suc l
      → rank q ≡ suc l
      → l < 2
      → i < 512
      → j < 512
      → is_valid (w p i) ≡ true
      → is_valid (w q j) ≡ true
      → pte2pa (w p i) ≡ pte2pa (w q j)
      → (p ≡ q) × (i ≡ j)
  pub free : AreFree rank freelist

-- The place of the level 0 entry of an address, below a table of some level.
abbrev pub slot : ℕ → ℕ → ℕ → (ℕ → ℕ → ℕ) → Option (ℕ × ℕ)
slot zero pt va w = some (pt, px 0 va)
slot (suc l) pt va w = elim (is_valid (w pt (px (suc l) va))) [
  | true ↦ slot l (pte2pa (w pt (px (suc l) va))) va w
  | false ↦ none
]

-- That entry, or 0, which is not valid.
abbrev pub entry : ℕ → ℕ → ℕ → (ℕ → ℕ → ℕ) → ℕ
entry l pt va w = elim (slot l pt va w) [ none ↦ 0 | some (p, i) ↦ w p i ]

pub px-small : (l va : ℕ) → px l va < 512
px-small l va = omega arith

-- Without `alloc` a walk changes nothing.
pub walk_from-slot : (l pt va : ℕ) (m : Mem) → walk_from l pt va false m ≡ (slot l pt va m.pte, m)
unfolding walk_from
walk_from-slot zero pt va m = refl
walk_from-slot (suc l) pt va m = elim (Bool-cases (is_valid (m.pte pt (px (suc l) va)))) [
  | inl t ↦ rw (t, walk_from, slot) (walk_from-slot l (pte2pa (m.pte pt (px (suc l) va))) va m)
  | inr f ↦ rw (f, walk_from, slot) refl
]

pub slot-step :
    (l pt va : ℕ) (w : ℕ → ℕ → ℕ)
    → is_valid (w pt (px (suc l) va)) ≡ true
    → slot (suc l) pt va w ≡ slot l (pte2pa (w pt (px (suc l) va))) va w
slot-step l pt va w t = rw (t, slot) refl

pub slot-stop :
    (l pt va : ℕ) (w : ℕ → ℕ → ℕ)
    → is_valid (w pt (px (suc l) va)) ≡ false
    → slot (suc l) pt va w ≡ none
slot-stop l pt va w f = rw (f, slot) refl

-- A slot lies in a table of level 0, at the address's own index.
pub slot-rank :
    {rank : ℕ → ℕ} {w : ℕ → ℕ → ℕ} {fl : List ℕ}
    → IsTree rank w fl
    → (l pt va p i : ℕ) → l ≤ 2
    → rank pt ≡ l
    → slot l pt va w ≡ some (p, i)
    → (rank p ≡ 0) × (i < 512)
slot-rank {rank = rank} t zero pt va p i le r e =
    let q = some-injective _ _ e in
    (subst (λ s. rank s.0 ≡ 0) q r, subst (λ s. s.1 < 512) q (px-small 0 va))
slot-rank {w = w} t (suc l) pt va p i le r e = elim (Bool-cases (is_valid (w pt (px (suc l) va)))) [
  | inl v ↦
      slot-rank t l (pte2pa (w pt (px (suc l) va))) va p i (omega arith)
        (t.leads pt (px (suc l) va) l r (omega arith) (px-small (suc l) va) v)
        (sym (slot-step l pt va w v) ∙ e)
  | inr f ↦ absurd (let n = sym (slot-stop l pt va w f) ∙ e in cc)
]

-- Two addresses with the same slot have the same index at every level.
abbrev pub HasSameIndexes : ℕ → ℕ → ℕ → Type 0
HasSameIndexes l va va' = (k : ℕ) → k ≤ l → px k va ≡ px k va'

zero_only : (k : ℕ) → k ≤ 0 → 0 ≡ k
zero_only k le = omega arith

extend :
    (l va va' : ℕ)
    → HasSameIndexes l va va'
    → px (suc l) va ≡ px (suc l) va'
    → HasSameIndexes (suc l) va va'
extend l va va' h e k le = elim (lt_or_eq_or_lt k (suc l)) [
  | inl lt ↦ h k (omega arith)
  | inr (inl q) ↦ subst (λ k. px k va ≡ px k va') (sym q) e
  | inr (inr lt) ↦ absurd (omega arith)
]

pub slot-injective :
    {rank : ℕ → ℕ} {w : ℕ → ℕ → ℕ} {fl : List ℕ}
    → IsTree rank w fl
    → (l pt pt' va va' : ℕ) (s : ℕ × ℕ) → l ≤ 2
    → rank pt ≡ l
    → rank pt' ≡ l
    → slot l pt va w ≡ some s
    → slot l pt' va' w ≡ some s
    → (pt ≡ pt') × HasSameIndexes l va va'
slot-injective t zero pt pt' va va' s le r r' e e' =
    let q = some-injective _ _ (e ∙ sym e') in
    (ap (λ s. s.0) q, λ k le'. subst (λ k. px k va ≡ px k va') (zero_only k le') (ap (λ s. s.1) q))
slot-injective {w = w} t (suc l) pt pt' va va' s le r r' e e' =
    elim (Bool-cases (is_valid (w pt (px (suc l) va)))) [
      | inr f ↦ absurd (let n = sym (slot-stop l pt va w f) ∙ e in cc)
      | inl v ↦ elim (Bool-cases (is_valid (w pt' (px (suc l) va')))) [
        | inr f ↦ absurd (let n = sym (slot-stop l pt' va' w f) ∙ e' in cc)
        | inl v' ↦
            (let ih =
                slot-injective t l (pte2pa (w pt (px (suc l) va))) (pte2pa (w pt' (px (suc l) va')))
                  va va' s (omega arith)
                  (t.leads pt (px (suc l) va) l r (omega arith) (px-small (suc l) va) v)
                  (t.leads pt' (px (suc l) va') l r' (omega arith) (px-small (suc l) va') v')
                  (sym (slot-step l pt va w v) ∙ e) (sym (slot-step l pt' va' w v') ∙ e') in
              let here =
                t.apart pt (px (suc l) va) pt' (px (suc l) va') l r r' (omega arith)
                  (px-small (suc l) va) (px-small (suc l) va') v v' ih.0 in
              (here.0, λ k le'. extend l va va' ih.1 here.1 k le'))
      ]
    ]
