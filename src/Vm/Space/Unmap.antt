-- ===== src/Vm/Space/Unmap.antt =====
-- uvmunmap (kernel/vm.c) takes exactly the pages asked for out of one address space.
use os_cea.Base.{
  ℕ, zero, suc, ◌+◌, ◌-◌, ◌*◌, ◌/◌, ◌%◌, ◌^◌, ◌≤◌, ◌<◌, ◌≡◌, inl, inr, refl, ap, ◌∙◌, true, false,
  Option, none, some, ◌==◌, arith, Bool-cases, Option-cases, ==_iff,
}
use os_cea.Vm.{Mem, maxva, is_valid, set_pte, walk}
use os_cea.Vm.Tree.{IsTree, slot, entry, walk_from-slot, slot-rank}
use os_cea.Vm.Leaf.{read, set_pte-IsTree, entry-set_pte_self, entry-set_pte_other}
use os_cea.Vm.Map.{IsSameElsewhere, walk-low, IsOut-rest, IsOut-first, apart_first}
use os_cea.Vm.Space.{store_pte, unmap_entry, unmap_from, uvmunmap}

-- What taking out `n` pages at `a` has done.
pub record Unmapped (rank : ℕ → ℕ) (root a n : ℕ) (m m' : Mem) : Type 0 where
  pub tree : IsTree rank m'.pte m'.phys.freelist
  pub frames : m'.phys ≡ m.phys
  pub gone : (k : ℕ) → k < n → is_valid (entry 2 root (a + k * 4096) m'.pte) ≡ false
  pub same : IsSameElsewhere rank root a n m m'

walk-slot :
    (root va : ℕ) (m : Mem) → va < maxva → walk root va false m ≡ some (slot 2 root va m.pte, m)
walk-slot root va m lt = walk-low root va false m lt ∙ ap some (walk_from-slot 2 root va m)

-- One page.
unmap_entry-Unmapped :
    (first root a : ℕ) (rank : ℕ → ℕ) (m : Mem)
    → IsTree rank m.pte m.phys.freelist
    → rank root ≡ 2
    → a < maxva
    → (m' : Mem) × (unmap_entry first false (slot 2 root a m.pte) m ≡ some m')
      × Unmapped rank root a 1 m m'
unfolding unmap_entry
unmap_entry-Unmapped first root a rank m t e lt = elim (Option-cases (slot 2 root a m.pte)) [
  | inl n ↦
      (m, ap (λ s. unmap_entry first false s m) n, unchanged (ap (λ s. is_valid (read m.pte s)) n))
  | inr ((page, index), h) ↦ elim (Bool-cases (is_valid (m.pte page index))) [
    | inr f ↦ (
      m,
      ap (λ s. unmap_entry first false s m) h ∙ rw (f, unmap_entry) refl,
      unchanged (ap (λ s. is_valid (read m.pte s)) h ∙ f),
    )
    | inl v ↦
        (let leaf = (slot-rank t 2 root a page index (omega arith) e h).0 in
          (
            store_pte page index 0 m,
            ap (λ s. unmap_entry first false s m) h ∙ rw (v, unmap_entry) refl,
            record {
              tree = set_pte-IsTree page index 0 t leaf;
              frames = refl;
              gone = λ k k_lt.
                  (let at : a + k * 4096 ≡ a = omega arith in
                    ap (λ x. is_valid (entry 2 root x (set_pte page index 0 m.pte))) at
                    ∙ ap is_valid (entry-set_pte_self page index 0 t leaf root a e h));
              same = λ q va e' lt' far.
                  entry-set_pte_other page index 0 t leaf root a q va e e' (omega arith) lt' h
                    (apart_first q root a va far);
            },
          ))
  ]
]
  where
    unchanged : is_valid (entry 2 root a m.pte) ≡ false → Unmapped rank root a 1 m m
    unchanged f = record {
      tree = t;
      frames = refl;
      gone = λ k k_lt.
          (let at : a + k * 4096 ≡ a = omega arith in
            ap (λ x. is_valid (entry 2 root x m.pte)) at ∙ f);
      same = λ q va _ _ _. refl;
    }

abbrev after_walk : ℕ → ℕ → ℕ → ℕ → Option (Option (ℕ × ℕ) × Mem) → Option Mem
after_walk first n root a o = elim o [
  | none ↦ none
  | some (slot, m') ↦ elim (unmap_entry first false slot m') [
    | none ↦ none
    | some m'' ↦ unmap_from first n root (a + 4096) false m''
  ]
]

unmap_from-step :
    (first n root a : ℕ) (m m' : Mem)
    → a < maxva
    → unmap_entry first false (slot 2 root a m.pte) m ≡ some m'
    → unmap_from first (suc n) root a false m ≡ unmap_from first n root (a + 4096) false m'
unfolding unmap_from
unmap_from-step first n root a m m' lt h =
    ap (after_walk first n root a) (walk-slot root a m lt) ∙ rw (h, after_walk) refl

-- One page, then the others.
Unmapped-suc :
    (rank : ℕ → ℕ) (root a n : ℕ) (m m₁ m₂ : Mem)
    → rank root ≡ 2
    → a + suc n * 4096 ≤ maxva
    → a % 4096 ≡ 0
    → Unmapped rank root a 1 m m₁
    → Unmapped rank root (a + 4096) n m₁ m₂
    → Unmapped rank root a (suc n) m m₂
Unmapped-suc rank root a n m m₁ m₂ e le al u rest = record {
  tree = rest.tree;
  frames = rest.frames ∙ u.frames;
  gone = gone';
  same = same';
}
  where
    gone' : (k : ℕ) → k < suc n → is_valid (entry 2 root (a + k * 4096) m₂.pte) ≡ false
    gone' zero lt =
        ap is_valid (rest.same root (a + 0 * 4096) e (omega arith) (inr (inl (omega arith))))
        ∙ u.gone 0 (omega arith)
    gone' (suc k) lt =
        let at : a + suc k * 4096 ≡ a + 4096 + k * 4096 = omega arith in
        ap (λ x. is_valid (entry 2 root x m₂.pte)) at ∙ rest.gone k (omega arith)

    same' : IsSameElsewhere rank root a (suc n) m m₂
    same' q va e' lt (inl ne) = rest.same q va e' lt (inl ne) ∙ u.same q va e' lt (inl ne)
    same' q va e' lt (inr far) =
        rest.same q va e' lt (inr (IsOut-rest a n va far))
        ∙ u.same q va e' lt (inr (IsOut-first a n va far))

unmap_from-Unmapped :
    (first n root a : ℕ) (rank : ℕ → ℕ) (m : Mem)
    → IsTree rank m.pte m.phys.freelist
    → rank root ≡ 2
    → a % 4096 ≡ 0
    → a + n * 4096 ≤ maxva
    → (m' : Mem) × (unmap_from first n root a false m ≡ some m') × Unmapped rank root a n m m'
unfolding unmap_from
unmap_from-Unmapped first zero root a rank m t e al le = (
  m,
  refl,
  record {
    tree = t;
    frames = refl;
    gone = λ k lt. absurd (omega arith);
    same = λ q va _ _ _. refl;
  },
)
unmap_from-Unmapped first (suc n) root a rank m t e al le =
    let (m₁, h, u) = unmap_entry-Unmapped first root a rank m t e (omega arith) in
    let (m₂, h', u') =
      unmap_from-Unmapped first n root (a + 4096) rank m₁ u.tree e (omega arith) (omega arith) in
    (
      m₂,
      unmap_from-step first n root a m m₁ (omega arith) h ∙ h',
      Unmapped-suc rank root a n m m₁ m₂ e le al u u',
    )

uvmunmap-rounds :
    (first root va npages : ℕ) (m : Mem)
    → va % 4096 ≡ 0
    → va + npages * 4096 ≤ maxva
    → uvmunmap first root va npages false m ≡ unmap_from first npages root va false m
unfolding uvmunmap
uvmunmap-rounds first root va npages m al le =
    let rounds : ((va + npages * 4096) % 2 ^ 64 - va) / 4096 ≡ npages = omega arith in
    let aligned : (va % 4096 == 0) ≡ true = (==_iff _ 0).1 al in rw (aligned, rounds) refl

-- `uvmunmap` of aligned pages below MAXVA, without freeing the frames, never panics, whether or not the
-- pages are mapped. Afterwards none of them is, every other page of this and of every other page table is
-- mapped as before, the page tables are still a tree, and physical memory is untouched.
pub uvmunmap-Unmapped :
    (first root va npages : ℕ) (rank : ℕ → ℕ) (m : Mem)
    → IsTree rank m.pte m.phys.freelist
    → rank root ≡ 2
    → va % 4096 ≡ 0
    → va + npages * 4096 ≤ maxva
    → (m' : Mem) × (uvmunmap first root va npages false m ≡ some m')
      × Unmapped rank root va npages m m'
uvmunmap-Unmapped first root va npages rank m t e al le =
    let (m', h, u) = unmap_from-Unmapped first npages root va rank m t e al le in
    (m', uvmunmap-rounds first root va npages m al le ∙ h, u)
