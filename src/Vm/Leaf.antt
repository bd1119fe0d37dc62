-- ===== src/Vm/Leaf.antt =====
-- Writing a level 0 entry (kernel/vm.c) changes one page of one address space.
use native.Mathlib.Decide.{ℕ_discrete}
use os_cea.Base.{
  ℕ, zero, suc, ◌/◌, ◌%◌, ◌^◌, ◌≤◌, ◌<◌, ◌≡◌, ◌≢◌, ◌⊎◌, inl, inr, refl, sym, ap, ◌∙◌, Option, none,
  some, List, arith, Bool-cases, Option-cases,
}
use os_cea.Vm.{is_valid, pte2pa, px, set_pte}
use os_cea.Vm.Tree.{IsTree, slot, entry, slot-step, slot-stop, px-small}
use os_cea.Vm.Tree.{HasSameIndexes, slot-injective}

-- The three indexes make up the page number.
pub page-indexes :
    (va va' : ℕ) → va < 2 ^ 39 → va' < 2 ^ 39 → HasSameIndexes 2 va va' → va / 4096 ≡ va' / 4096
page-indexes va va' lt lt' h =
    let a : va / 4096 % 512 ≡ va' / 4096 % 512 = h 0 (omega arith) in
    let b : va / 2097152 % 512 ≡ va' / 2097152 % 512 = h 1 (omega arith) in
    let c : va / 1073741824 % 512 ≡ va' / 1073741824 % 512 = h 2 (omega arith) in omega arith

-- The entry at a place.
abbrev pub read : (ℕ → ℕ → ℕ) → Option (ℕ × ℕ) → ℕ
read w s = elim s [ none ↦ 0 | some (p, i) ↦ w p i ]

module _ {rank : ℕ → ℕ} {w : ℕ → ℕ → ℕ} {fl : List ℕ} (page index v : ℕ) (t : IsTree rank w fl)
    (is_table : rank page ≡ 0) where
  abbrev w' : ℕ → ℕ → ℕ
  w' = set_pte page index v w

  upper_word : (p i l : ℕ) → rank p ≡ suc l → w' p i ≡ w p i
  upper_word p i l e =
      let ne : p ≢ page =
        (λ z. absurd (let q : suc l ≡ 0 = sym e ∙ (ap rank z ∙ is_table) in omega arith)) in
      ground arith

  pub set_pte-IsTree : IsTree rank w' fl
  set_pte-IsTree = record {
    leads = λ p i l e lt ins u.
        (let same = upper_word p i l e in
          ap (λ c. rank (pte2pa c)) same ∙ t.leads p i l e lt ins (sym (ap is_valid same) ∙ u));
    apart = λ p i q j l e e' lt ins ins' u u' c.
        (let same = upper_word p i l e in
          let same' = upper_word q j l e' in
          t.apart p i q j l e e' lt ins ins' (sym (ap is_valid same) ∙ u)
            (sym (ap is_valid same') ∙ u') (sym (ap pte2pa same) ∙ (c ∙ ap pte2pa same')));
    free = t.free;
  }

  pub slot-set_pte : (k q va : ℕ) → k ≤ 2 → rank q ≡ k → slot k q va w' ≡ slot k q va w
  slot-set_pte zero q va le e = refl
  slot-set_pte (suc k) q va le e =
      let same = upper_word q (px (suc k) va) k e in
      elim (Bool-cases (is_valid (w q (px (suc k) va)))) [
        | inr f ↦ slot-stop k q va w' (ap is_valid same ∙ f) ∙ sym (slot-stop k q va w f)
        | inl u ↦
            slot-step k q va w' (ap is_valid same ∙ u)
            ∙ (ap (λ c. slot k (pte2pa c) va w') same
                ∙ (slot-set_pte k (pte2pa (w q (px (suc k) va))) va (omega arith)
                      (t.leads q (px (suc k) va) k e (omega arith) (px-small (suc k) va) u)
                    ∙ sym (slot-step k q va w u)))
      ]

  -- The address that has this slot is now mapped by `v`.
  pub entry-set_pte_self :
      (root va : ℕ) → rank root ≡ 2 → slot 2 root va w ≡ some (page, index) → entry 2 root va w' ≡ v
  entry-set_pte_self root va e h =
      ap (λ s. elim s [ none ↦ 0 | some (p, i) ↦ w' p i ])
        (slot-set_pte 2 root va (omega arith) e ∙ h)
      ∙ ground arith

  other_word : (p i : ℕ) → (p ≢ page) ⊎ (i ≢ index) → w' p i ≡ w p i
  other_word p i (inl a) = ground arith
  other_word p i (inr a) = ground arith

  never :
      (root va root' va' p i : ℕ)
      → rank root ≡ 2
      → rank root' ≡ 2
      → va < 2 ^ 39
      → va' < 2 ^ 39
      → slot 2 root va w ≡ some (page, index)
      → (root' ≢ root) ⊎ (va' / 4096 ≢ va / 4096)
      → slot 2 root' va' w ≡ some (p, i)
      → p ≡ page
      → i ≡ index
      → ⊥
  never root va root' va' p i e e' lt lt' h far h' a b =
      let h'' : slot 2 root' va' w ≡ some (page, index) =
        h' ∙ ap (λ q. some (q, i)) a ∙ ap (λ j. some (page, j)) b in
      let (same_root, same) =
        slot-injective t 2 root' root va' va (page, index) (omega arith) e' e h'' h in
      elim far [ inl ne ↦ ne same_root | inr ne ↦ ne (page-indexes va' va lt' lt same) ]

  -- Every other address, and every address of another page table, is mapped as before.
  pub entry-set_pte_other :
      (root va root' va' : ℕ)
      → rank root ≡ 2
      → rank root' ≡ 2
      → va < 2 ^ 39
      → va' < 2 ^ 39
      → slot 2 root va w ≡ some (page, index)
      → (root' ≢ root) ⊎ (va' / 4096 ≢ va / 4096)
      → entry 2 root' va' w' ≡ entry 2 root' va' w
  entry-set_pte_other root va root' va' e e' lt lt' h far =
      elim (Option-cases (slot 2 root' va' w)) [
        | inl n ↦ ap (read w') (slot-set_pte 2 root' va' (omega arith) e' ∙ n) ∙ sym (ap (read w) n)
        | inr ((p, i), h') ↦
            (let apart : (p ≢ page) ⊎ (i ≢ index) = elim (ℕ_discrete p page) [
              | no ne ↦ inl ne
              | yes a ↦ elim (ℕ_discrete i index) [
                | no ne ↦ inr ne
                | yes b ↦ absurd (never root va root' va' p i e e' lt lt' h far h' a b)
              ]
            ] in
              ap (read w') (slot-set_pte 2 root' va' (omega arith) e' ∙ h')
              ∙ (other_word p i apart ∙ sym (ap (read w) h')))
      ]
