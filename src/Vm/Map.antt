-- ===== src/Vm/Map.antt =====
-- mappages and walkaddr (kernel/vm.c): a page table is a map from page numbers to entries.
use mathlib.Core.Path.{subst}
use mathlib.Core.Option.{some-injective}
use os_cea.Base.{
  ℕ, zero, suc, ◌+◌, ◌*◌, ◌/◌, ◌%◌, ◌^◌, ◌≤◌, ◌<◌, ◌≡◌, ◌≢◌, ◌⊎◌, inl, inr, refl, sym, ap, ◌∙◌,
  Bool, true, false, not, [], Option, none, some, leb, if◌then◌else◌, arith, true≢false, ==_iff,
}
use os_cea.Vm.{
  Mem, maxva, is_valid, is_user, pte2pa, set_pte, leaf_pte, walk, walk_from, walkaddr, entry_of,
  map_from, mappages,
}
use os_cea.Vm.Tree.{IsTree, slot, entry, walk_from-slot, slot-rank}
use os_cea.Vm.Walk.{no_memory, found, walk_from-Walked}
use os_cea.Vm.Leaf.{read, set_pte-IsTree, entry-set_pte_self, entry-set_pte_other}

-- A page outside the `n` pages from `a` on.
abbrev pub IsOut : ℕ → ℕ → ℕ → Type 0
IsOut a n va = (va / 4096 < a / 4096) ⊎ (a / 4096 + n ≤ va / 4096)

-- Other pages of this address space, and all pages of other ones, are mapped as before.
abbrev pub IsSameElsewhere : (ℕ → ℕ) → ℕ → ℕ → ℕ → Mem → Mem → Type 0
IsSameElsewhere rank root a n m m' =
    (q va : ℕ)
    → rank q ≡ 2
    → va < 2 ^ 39
    → (q ≢ root) ⊎ IsOut a n va
    → entry 2 q va m'.pte ≡ entry 2 q va m.pte

-- What mapping `n` pages at `a` has done.
pub data Mapped (rank : ℕ → ℕ) (root a pa perm n : ℕ) (m : Mem) (out : Option (Bool × Mem))
    : Type 0 where
  all_mapped :
      (new_rank : ℕ → ℕ) (m' : Mem)
      → out ≡ some (true, m')
      → IsTree new_rank m'.pte m'.phys.freelist
      → ((p l : ℕ) → rank p ≡ l → l ≤ 2 → new_rank p ≡ l)
      → ((k : ℕ) → k < n → entry 2 root (a + k * 4096) m'.pte ≡ leaf_pte (pa + k * 4096) perm)
      → IsSameElsewhere rank root a n m m'
      → Mapped rank root a pa perm n m out
  no_table :
      (new_rank : ℕ → ℕ) (m' : Mem)
      → out ≡ some (false, m')
      → m'.phys.freelist ≡ []
      → (k : ℕ) → k < n
      → slot 2 root (a + k * 4096) m'.pte ≡ none
      → IsTree new_rank m'.pte m'.phys.freelist
      → ((p l : ℕ) → rank p ≡ l → l ≤ 2 → new_rank p ≡ l)
      → IsSameElsewhere rank root a n m m'
      → Mapped rank root a pa perm n m out

leaf_pte-valid : (pa perm : ℕ) → is_valid (leaf_pte pa perm) ≡ true
leaf_pte-valid pa perm = (==_iff _ 1).1 (omega arith)

pub walk-low :
    (pagetable va : ℕ) (create : Bool) (m : Mem)
    → va < maxva
    → walk pagetable va create m ≡ some (walk_from 2 pagetable va create m)
unfolding walk
walk-low pagetable va create m lt = ground arith

abbrev after_walk : ℕ → ℕ → ℕ → ℕ → ℕ → Option (Option (ℕ × ℕ) × Mem) → Option (Bool × Mem)
after_walk n pagetable a pa perm o = elim o [
  | none ↦ none
  | some (none, m') ↦ some (false, m')
  | some (some (page, index), m') ↦ elim (is_valid (m'.pte page index)) [
    | true ↦ none
    | false ↦
        map_from n pagetable (a + 4096) (pa + 4096) perm
          (record m' { pte = set_pte page index (leaf_pte pa perm) m'.pte })
  ]
]

map_from-step :
    (n root a pa perm : ℕ) (m : Mem)
    → map_from (suc n) root a pa perm m ≡ after_walk n root a pa perm (walk root a true m)
unfolding map_from
map_from-step n root a pa perm m = refl

pub IsOut-rest : (a n va : ℕ) → IsOut a (suc n) va → IsOut (a + 4096) n va
IsOut-rest a n va (inl lt) = inl (omega arith)
IsOut-rest a n va (inr le) = inr (omega arith)

pub IsOut-first : (a n va : ℕ) → IsOut a (suc n) va → IsOut a 1 va
IsOut-first a n va (inl lt) = inl lt
IsOut-first a n va (inr le) = inr (omega arith)

-- One page more at the front.
module _ (rank rank₂ : ℕ → ℕ) (m m₂ : Mem) (n root a pa perm : ℕ) (is_root : rank root ≡ 2)
    (low : a < 2 ^ 38) (kept : (p l : ℕ) → rank p ≡ l → l ≤ 2 → rank₂ p ≡ l)
    (first : entry 2 root a m₂.pte ≡ leaf_pte pa perm)
    (same : IsSameElsewhere rank root a 1 m m₂) where
  same-suc :
      (m' : Mem)
      → IsSameElsewhere rank₂ root (a + 4096) n m₂ m'
      → IsSameElsewhere rank root a (suc n) m m'
  same-suc m' same' q va e lt (inl ne) =
      same' q va (kept q 2 e (omega arith)) lt (inl ne) ∙ same q va e lt (inl ne)
  same-suc m' same' q va e lt (inr far) =
      same' q va (kept q 2 e (omega arith)) lt (inr (IsOut-rest a n va far))
      ∙ same q va e lt (inr (IsOut-first a n va far))

  entries-suc :
      (m' : Mem)
      → ((k : ℕ)
          → k < n
          → entry 2 root (a + 4096 + k * 4096) m'.pte ≡ leaf_pte (pa + 4096 + k * 4096) perm)
      → IsSameElsewhere rank₂ root (a + 4096) n m₂ m'
      → (k : ℕ) → k < suc n
      → entry 2 root (a + k * 4096) m'.pte ≡ leaf_pte (pa + k * 4096) perm
  entries-suc m' rest same' zero lt =
      let here =
        same' root a (kept root 2 is_root (omega arith)) (omega arith) (inr (inl (omega arith)))
        ∙ first in
      let ea : a ≡ a + 0 * 4096 = omega arith in
      let ep : pa ≡ pa + 0 * 4096 = omega arith in
      ap (λ x. entry 2 root x m'.pte) (sym ea) ∙ (here ∙ ap (λ x. leaf_pte x perm) ep)
  entries-suc m' rest same' (suc k) lt =
      let ea : a + suc k * 4096 ≡ a + 4096 + k * 4096 = omega arith in
      let ep : pa + 4096 + k * 4096 ≡ pa + suc k * 4096 = omega arith in
      ap (λ x. entry 2 root x m'.pte) ea ∙ (rest k (omega arith) ∙ ap (λ x. leaf_pte x perm) ep)

  Mapped-suc :
      {out : Option (Bool × Mem)}
      → Mapped rank₂ root (a + 4096) (pa + 4096) perm n m₂ out
      → Mapped rank root a pa perm (suc n) m out
  Mapped-suc (all_mapped r m' z t kept' at same') =
      all_mapped r m' z t (λ p l e le. kept' p l (kept p l e le) le) (entries-suc m' at same')
        (same-suc m' same')
  Mapped-suc (no_table r m' z full k less gone t kept' same') =
      let ea : a + suc k * 4096 ≡ a + 4096 + k * 4096 = omega arith in
      no_table r m' z full (suc k) (omega arith) (ap (λ x. slot 2 root x m'.pte) ea ∙ gone) t
        (λ p l e le. kept' p l (kept p l e le) le) (same-suc m' same')

map_from-no_memory :
    (n root a pa perm : ℕ) (m : Mem)
    → a < maxva
    → (walk_from 2 root a true m).0 ≡ none
    → map_from (suc n) root a pa perm m ≡ some (false, (walk_from 2 root a true m).1)
map_from-no_memory n root a pa perm m lt z =
    map_from-step n root a pa perm m
    ∙ (ap (after_walk n root a pa perm) (walk-low root a true m lt)
        ∙ ap (λ o. after_walk n root a pa perm (some (o, (walk_from 2 root a true m).1))) z)

map_from-found :
    (n root a pa perm page index : ℕ) (m : Mem)
    → a < maxva
    → (walk_from 2 root a true m).0 ≡ some (page, index)
    → is_valid ((walk_from 2 root a true m).1.pte page index) ≡ false
    → map_from (suc n) root a pa perm m
      ≡ map_from n root (a + 4096) (pa + 4096) perm (record (walk_from 2 root a true m).1 {
        pte = set_pte page index (leaf_pte pa perm) (walk_from 2 root a true m).1.pte;
      })
map_from-found n root a pa perm page index m lt z f =
    map_from-step n root a pa perm m
    ∙ (ap (after_walk n root a pa perm) (walk-low root a true m lt)
        ∙ (ap (λ o. after_walk n root a pa perm (some (o, (walk_from 2 root a true m).1))) z
            ∙ rw (f, after_walk) refl))

-- The pages after the first are as unmapped as before.
unused_rest :
    (rank : ℕ → ℕ) (m m₂ : Mem) (n root a : ℕ)
    → rank root ≡ 2
    → a + suc n * 4096 ≤ 2 ^ 38
    → a % 4096 ≡ 0
    → IsSameElsewhere rank root a 1 m m₂
    → ((k : ℕ) → k < suc n → is_valid (entry 2 root (a + k * 4096) m.pte) ≡ false)
    → (k : ℕ) → k < n
    → is_valid (entry 2 root (a + 4096 + k * 4096) m₂.pte) ≡ false
unused_rest rank m m₂ n root a e le al same un k lt =
    let shift : a + 4096 + k * 4096 ≡ a + suc k * 4096 = omega arith in
    ap (λ x. is_valid (entry 2 root x m₂.pte)) shift
    ∙ (ap is_valid (same root (a + suc k * 4096) e (omega arith) (inr (inr (omega arith))))
        ∙ un (suc k) (omega arith))

pub apart_first :
    (q root a va : ℕ) → (q ≢ root) ⊎ IsOut a 1 va → (q ≢ root) ⊎ (va / 4096 ≢ a / 4096)
apart_first q root a va (inl ne) = inl ne
apart_first q root a va (inr (inl lt)) = inr (λ e. omega arith)
apart_first q root a va (inr (inr le)) = inr (λ e. omega arith)

start : (a : ℕ) → a + 0 * 4096 ≡ a
start a = omega arith

map_from-Mapped :
    (n root a pa perm : ℕ) {rank : ℕ → ℕ} (m : Mem)
    → IsTree rank m.pte m.phys.freelist
    → rank root ≡ 2
    → a % 4096 ≡ 0
    → a + n * 4096 ≤ maxva
    → ((k : ℕ) → k < n → is_valid (entry 2 root (a + k * 4096) m.pte) ≡ false)
    → Mapped rank root a pa perm n m (map_from n root a pa perm m)
unfolding map_from
map_from-Mapped zero root a pa perm {rank = rank} m t e al le un =
    all_mapped rank m refl t (λ p l q _. q) (λ k lt. absurd (omega arith)) (λ q va _ _ _. refl)
map_from-Mapped (suc n) root a pa perm {rank = rank} m t e al le un =
    let lt : a < maxva = omega arith in
    elim (walk_from-Walked 2 root a m t (omega arith) e) [
      | no_memory z full gone g ↦
          no_table g.new_rank (walk_from 2 root a true m).1
            (map_from-no_memory n root a pa perm m lt z) full 0 (omega arith)
            (ap (λ x. slot 2 root x (walk_from 2 root a true m).1.pte) (start a) ∙ gone) g.tree
            g.kept (λ q va e' _ _. g.same 2 q va (omega arith) e')
      | found (page, index) z h g ↦
          (let e₁ = g.kept root 2 e (omega arith) in
            let m₁ = (walk_from 2 root a true m).1 in
            let leaf = (slot-rank g.tree 2 root a page index (omega arith) e₁ h).0 in
            let v = leaf_pte pa perm in
            let old : is_valid (entry 2 root a m.pte) ≡ false =
              sym (ap (λ x. is_valid (entry 2 root x m.pte)) (start a)) ∙ un 0 (omega arith) in
            let unused : is_valid (m₁.pte page index) ≡ false =
              sym (ap (λ s. is_valid (read m₁.pte s)) h)
              ∙ (ap is_valid (g.same 2 root a (omega arith) e) ∙ old) in
            let m₂ : Mem = record m₁ { pte = set_pte page index v m₁.pte } in
            let same : IsSameElsewhere rank root a 1 m m₂ = λ q va e' lt' far.
              entry-set_pte_other page index v g.tree leaf root a q va e₁
                (g.kept q 2 e' (omega arith)) (omega arith) lt' h (apart_first q root a va far)
              ∙ g.same 2 q va (omega arith) e' in
            subst (Mapped rank root a pa perm (suc n) m)
              (sym (map_from-found n root a pa perm page index m lt z unused))
              (Mapped-suc rank g.new_rank m m₂ n root a pa perm e (omega arith) g.kept
                (entry-set_pte_self page index v g.tree leaf root a e₁ h) same
                (map_from-Mapped n root (a + 4096) (pa + 4096) perm m₂
                  (set_pte-IsTree page index v g.tree leaf) e₁ (omega arith) (omega arith)
                  (unused_rest rank m m₂ n root a e (omega arith) al same un))))
    ]

mappages-pages :
    (root va size pa perm : ℕ) (m : Mem)
    → va % 4096 ≡ 0
    → size % 4096 ≡ 0
    → 0 < size
    → mappages root va size pa perm m ≡ map_from (size / 4096) root va pa perm m
unfolding mappages
mappages-pages root va size pa perm m al al' pos = ground arith

-- Mapping aligned and unmapped pages below MAXVA never panics: it maps exactly those pages to the
-- frames from `pa` on; or it returns an error, there is no free page left, and one of the pages to map has
-- no entry since a table is missing on the way to it. Either way the page tables stay a tree over the free list, and every other page of this and of every other page
-- table is mapped as before.
pub mappages-Mapped :
    (root va size pa perm : ℕ) {rank : ℕ → ℕ} (m : Mem)
    → IsTree rank m.pte m.phys.freelist
    → rank root ≡ 2
    → va % 4096 ≡ 0
    → size % 4096 ≡ 0
    → 0 < size
    → va + size ≤ maxva
    → ((k : ℕ) → k < size / 4096 → is_valid (entry 2 root (va + k * 4096) m.pte) ≡ false)
    → Mapped rank root va pa perm (size / 4096) m (mappages root va size pa perm m)
mappages-Mapped root va size pa perm {rank = rank} m t e al al' pos le un =
    subst (Mapped rank root va pa perm (size / 4096) m)
      (sym (mappages-pages root va size pa perm m al al' pos))
      (map_from-Mapped (size / 4096) root va pa perm m t e al (omega arith) un)

abbrev pub resolve : ℕ → ℕ
resolve pte = if not (is_valid pte) then 0 else if not (is_user pte) then 0 else pte2pa pte

abbrev resolve? : Option ℕ → ℕ
resolve? o = elim o [ none ↦ 0 | some pte ↦ resolve pte ]

resolve-slot : (s : Option (ℕ × ℕ)) (m : Mem) → resolve? (entry_of s m) ≡ resolve (read m.pte s)
unfolding entry_of
resolve-slot none m = refl
resolve-slot (some (p, i)) m = refl

-- walkaddr reads the entry of the address, and nothing else.
pub walkaddr-entry :
    (root va : ℕ) (m : Mem) → va < maxva → walkaddr root va m ≡ resolve (entry 2 root va m.pte)
unfolding walkaddr
walkaddr-entry root va m lt =
    let high : leb maxva va ≡ false = ground arith in
    rw high (
      ap (λ r. resolve? (entry_of r.0 m)) (walk_from-slot 2 root va m)
      ∙ resolve-slot (slot 2 root va m.pte) m)

resolve-leaf :
    (pa perm : ℕ)
    → pa % 4096 ≡ 0
    → pa < 2 ^ 56
    → perm < 1024
    → is_user perm ≡ true
    → resolve (leaf_pte pa perm) ≡ pa
resolve-leaf pa perm al lt small user =
    let bit : perm / 16 % 2 ≡ 1 = (==_iff _ 1).0 user in
    let valid : is_valid (leaf_pte pa perm) ≡ true = leaf_pte-valid pa perm in
    let user' : is_user (leaf_pte pa perm) ≡ true = (==_iff _ 1).1 (omega arith) in
    let back : pte2pa (leaf_pte pa perm) ≡ pa = omega arith in rw (valid, user') back

-- After `mappages` has succeeded for aligned user pages below MAXVA that were unmapped, `walkaddr` of each
-- of them is its frame.
pub walkaddr-mappages :
    (root va size pa perm : ℕ) {rank : ℕ → ℕ} (m m' : Mem)
    → IsTree rank m.pte m.phys.freelist
    → rank root ≡ 2
    → va % 4096 ≡ 0
    → size % 4096 ≡ 0
    → 0 < size
    → va + size ≤ maxva
    → ((k : ℕ) → k < size / 4096 → is_valid (entry 2 root (va + k * 4096) m.pte) ≡ false)
    → pa % 4096 ≡ 0
    → pa + size ≤ 2 ^ 56
    → perm < 1024
    → is_user perm ≡ true
    → mappages root va size pa perm m ≡ some (true, m')
    → (k : ℕ) → k < size / 4096
    → walkaddr root (va + k * 4096) m' ≡ pa + k * 4096
walkaddr-mappages root va size pa perm {rank = rank} m m' t e al al' pos le un pal ple small user
      out k lt =
    elim (mappages-Mapped root va size pa perm m t e al al' pos le un) [
      | no_table r m₂ z _ _ _ _ _ _ _ ↦
          absurd (let q = some-injective _ _ (sym out ∙ z) in true≢false refl (ap (λ o. o.0) q))
      | all_mapped r m₂ z _ _ at _ ↦
          (let same : m' ≡ m₂ = ap (λ o. o.1) (some-injective _ _ (sym out ∙ z)) in
            walkaddr-entry root (va + k * 4096) m' (omega arith)
            ∙ (ap (λ x. resolve (entry 2 root (va + k * 4096) x.pte)) same
                ∙ (ap resolve (at k lt)
                    ∙ resolve-leaf (pa + k * 4096) perm (omega arith) (omega arith) small user)))
    ]
