-- ===== src/Vm/Grow.antt =====
-- A walk that adds a page table (kernel/vm.c) keeps the tree, and what every address is mapped to.
use mathlib.Core.Path.{subst}
use native.Mathlib.Decide.{ℕ_discrete}
use os_cea.Base.{
  ℕ, zero, suc, ◌+◌, ◌≤◌, ◌<◌, ◌≡◌, ◌≢◌, ◌⊎◌, inl, inr, sym, ap, ◌∙◌, true, false, none, some, List,
  [], ◌∷◌, ◌==◌, if◌then◌else◌, arith, Bool-cases, true≢false,
}
use os_cea.Vm.{is_valid, pa2pte, pte2pa, px, set_pte, fill_words}
use os_cea.Vm.Tree.{
  IsFrame, IsMissing, AreFree, IsTree, slot, entry, slot-step, slot-stop, px-small,
}

abbrev pub ranked : ℕ → ℕ → (ℕ → ℕ) → ℕ → ℕ
ranked r l rank p = if p == r then l else rank p

-- The words after `walk` has put the empty table `r` behind an entry.
abbrev pub linked : ℕ → ℕ → ℕ → ℕ → (ℕ → ℕ → ℕ) → ℕ → ℕ → ℕ
linked pt index r junk w = set_pte pt index (pa2pte r + 1) (fill_words r 0 (fill_words r junk w))

pte2pa-pa2pte : (r : ℕ) → IsFrame r → pte2pa (pa2pte r + 1) ≡ r
pte2pa-pa2pte r (a, b, c) = omega arith

valid-link : (r : ℕ) → is_valid (pa2pte r + 1) ≡ true
valid-link r = ground arith

AreFree-ranked :
    (rank : ℕ → ℕ) (r l : ℕ) (ps : List ℕ)
    → IsMissing r ps
    → AreFree rank ps
    → AreFree (ranked r l rank) ps
AreFree-ranked rank r l [] miss f = tt
AreFree-ranked rank r l (p ∷ ps) (ne, miss) (frame, big, m, f) =
    (frame, ground arith, m, AreFree-ranked rank r l ps miss f)

module _ {rank : ℕ → ℕ} {w : ℕ → ℕ → ℕ} {rest : List ℕ} (r junk pt index l : ℕ)
    (t : IsTree rank w (r ∷ rest)) (is_table : rank pt ≡ suc l) (low : l < 2) (inside : index < 512)
    (unused : is_valid (w pt index) ≡ false) where
  abbrev w' : ℕ → ℕ → ℕ
  w' = linked pt index r junk w

  abbrev rank' : ℕ → ℕ
  rank' = ranked r l rank

  far : 3 ≤ rank r
  far = t.free.1

  pt-ne-r : pt ≢ r
  pt-ne-r e = absurd (
      let q : rank r ≡ suc l = subst (λ p. rank p ≡ suc l) e is_table in
      let big = far in omega arith)

  new_word : w' pt index ≡ pa2pte r + 1
  new_word = ground arith

  empty_word : (i : ℕ) → w' r i ≡ 0
  empty_word i = let ne = pt-ne-r in ground arith

  old_word : (p i : ℕ) → p ≢ r → (p ≢ pt) ⊎ (i ≢ index) → w' p i ≡ w p i
  old_word p i ne (inl a) = ground arith
  old_word p i ne (inr a) = ground arith

  rank-r : rank' r ≡ l
  rank-r = ground arith

  rank-ne : (p : ℕ) → p ≢ r → rank' p ≡ rank p
  rank-ne p ne = ground arith

  child-ne : (p k : ℕ) → rank p ≡ k → k ≤ 2 → p ≢ r
  child-ne p k e le q =
      absurd (let z : rank r ≡ k = subst (λ x. rank x ≡ k) q e in let big = far in omega arith)

  -- An entry of the new tree is one of the empty table, the new link, or an old one.
  word-cases :
      (p i : ℕ)
      → (p ≡ r) ⊎ ((p ≢ r) × ((p ≡ pt) × (i ≡ index) ⊎ (w' p i ≡ w p i) × ((p ≢ pt) ⊎ (i ≢ index))))
  word-cases p i = elim (ℕ_discrete p r) [
    | yes e ↦ inl e
    | no ne ↦ elim (ℕ_discrete p pt) [
      | no a ↦ inr (ne, inr (old_word p i ne (inl a), inl a))
      | yes a ↦ elim (ℕ_discrete i index) [
        | yes b ↦ inr (ne, inl (a, b))
        | no b ↦ inr (ne, inr (old_word p i ne (inr b), inr b))
      ]
    ]
  ]

  not_empty : (p i : ℕ) → p ≡ r → is_valid (w' p i) ≡ true → ⊥
  not_empty p i e v =
      let z : is_valid (w' r i) ≡ true = subst (λ q. is_valid (w' q i) ≡ true) e v in
      let n : is_valid (w' r i) ≡ false = ap is_valid (empty_word i) in true≢false z n

  new_child : pte2pa (w' pt index) ≡ r
  new_child = ap pte2pa new_word ∙ pte2pa-pa2pte r t.free.0

  at_link : (p i : ℕ) → p ≡ pt → i ≡ index → pte2pa (w' p i) ≡ r
  at_link p i a b = ap (λ q. pte2pa (w' q i)) a ∙ ap (λ j. pte2pa (w' pt j)) b ∙ new_child

  old_child :
      (p i k : ℕ)
      → p ≢ r
      → w' p i ≡ w p i
      → rank' p ≡ suc k
      → k < 2
      → i < 512
      → is_valid (w' p i) ≡ true
      → (rank p ≡ suc k)
        × (is_valid (w p i) ≡ true)
        × (rank (pte2pa (w p i)) ≡ k)
        × (pte2pa (w' p i) ≡ pte2pa (w p i))
        × (pte2pa (w' p i) ≢ r)
  old_child p i k ne same e lt ins v =
      let e₀ : rank p ≡ suc k = sym (rank-ne p ne) ∙ e in
      let v₀ : is_valid (w p i) ≡ true = sym (ap is_valid same) ∙ v in
      let child = t.leads p i k e₀ lt ins v₀ in
      (
        e₀,
        v₀,
        child,
        ap pte2pa same,
        λ q. child-ne (pte2pa (w p i)) k child (omega arith) (sym (ap pte2pa same) ∙ q),
      )

  leads' :
      (p i k : ℕ)
      → rank' p ≡ suc k
      → k < 2
      → i < 512
      → is_valid (w' p i) ≡ true
      → rank' (pte2pa (w' p i)) ≡ k
  leads' p i k e lt ins v = elim (word-cases p i) [
    | inl q ↦ absurd (not_empty p i q v)
    | inr (ne, inl (a, b)) ↦
        (let e₀ : suc l ≡ suc k = sym is_table ∙ (sym (ap rank a) ∙ (sym (rank-ne p ne) ∙ e)) in
          ap rank' (at_link p i a b) ∙ (rank-r ∙ (omega arith)))
    | inr (ne, inr (same, _)) ↦
        (let (_, _, child, link, far_child) = old_child p i k ne same e lt ins v in
          rank-ne (pte2pa (w' p i)) far_child ∙ (ap rank link ∙ child))
  ]

  apart' :
      (p i q j k : ℕ)
      → rank' p ≡ suc k
      → rank' q ≡ suc k
      → k < 2
      → i < 512
      → j < 512
      → is_valid (w' p i) ≡ true
      → is_valid (w' q j) ≡ true
      → pte2pa (w' p i) ≡ pte2pa (w' q j)
      → (p ≡ q) × (i ≡ j)
  apart' p i q j k e e' lt ins ins' v v' c = elim (word-cases p i) [
    | inl z ↦ absurd (not_empty p i z v)
    | inr (ne, inl (a, b)) ↦ elim (word-cases q j) [
      | inl z ↦ absurd (not_empty q j z v')
      | inr (ne', inl (a', b')) ↦ (a ∙ sym a', b ∙ sym b')
      | inr (ne', inr (same', _)) ↦
          absurd ((old_child q j k ne' same' e' lt ins' v').4 (sym c ∙ at_link p i a b))
    ]
    | inr (ne, inr (same, _)) ↦ elim (word-cases q j) [
      | inl z ↦ absurd (not_empty q j z v')
      | inr (ne', inl (a', b')) ↦
          absurd ((old_child p i k ne same e lt ins v).4 (c ∙ at_link q j a' b'))
      | inr (ne', inr (same', _)) ↦
          (let (r₀, v₀, _, link, _) = old_child p i k ne same e lt ins v in
            let (r₁, v₁, _, link', _) = old_child q j k ne' same' e' lt ins' v' in
            t.apart p i q j k r₀ r₁ lt ins ins' v₀ v₁ (sym link ∙ (c ∙ link')))
    ]
  ]

  pub linked-IsTree : IsTree rank' w' rest
  linked-IsTree = record {
    leads = leads';
    apart = apart';
    free = AreFree-ranked rank r l rest t.free.2 t.free.3;
  }

  -- Below the new link there is nothing yet.
  entry_new : (k : ℕ) (va : ℕ) → entry k r va w' ≡ 0
  entry_new zero va = empty_word (px 0 va)
  entry_new (suc k) va =
      let n : is_valid (w' r (px (suc k) va)) ≡ false = ap is_valid (empty_word (px (suc k) va)) in
      ap (λ s. elim s [ none ↦ 0 | some (p, i) ↦ w' p i ]) (slot-stop k r va w' n)

  entry-step :
      (k q va : ℕ) (u : ℕ → ℕ → ℕ)
      → is_valid (u q (px (suc k) va)) ≡ true
      → entry (suc k) q va u ≡ entry k (pte2pa (u q (px (suc k) va))) va u
  entry-step k q va u v = ap (λ s. elim s [ none ↦ 0 | some (p, i) ↦ u p i ]) (slot-step k q va u v)

  entry-stop :
      (k q va : ℕ) (u : ℕ → ℕ → ℕ)
      → is_valid (u q (px (suc k) va)) ≡ false
      → entry (suc k) q va u ≡ 0
  entry-stop k q va u v = ap (λ s. elim s [ none ↦ 0 | some (p, i) ↦ u p i ]) (slot-stop k q va u v)

  not_used : (q i : ℕ) → q ≡ pt → i ≡ index → is_valid (w q i) ≡ false
  not_used q i a b = ap (λ x. is_valid (w x i)) a ∙ (ap (λ j. is_valid (w pt j)) b ∙ unused)

  -- Every address is mapped as before.
  pub entry-linked : (k q va : ℕ) → k ≤ 2 → rank q ≡ k → entry k q va w' ≡ entry k q va w
  entry-linked zero q va le e =
      old_word q (px 0 va) (child-ne q 0 e le)
        (inl (λ z. absurd (let n : 0 ≡ suc l = sym e ∙ (ap rank z ∙ is_table) in omega arith)))
  entry-linked (suc k) q va le e = elim (word-cases q (px (suc k) va)) [
    | inl z ↦ absurd (child-ne q (suc k) e le z)
    | inr (ne, inl (a, b)) ↦
        (let f : is_valid (w q (px (suc k) va)) ≡ false = not_used q (px (suc k) va) a b in
          let v : is_valid (w' q (px (suc k) va)) ≡ true =
            ap (λ x. is_valid (w' x (px (suc k) va))) a
            ∙ (ap (λ j. is_valid (w' pt j)) b ∙ (ap is_valid new_word ∙ valid-link r)) in
          entry-step k q va w' v
          ∙ (ap (λ c. entry k c va w') (at_link q (px (suc k) va) a b)
              ∙ (entry_new k va ∙ sym (entry-stop k q va w f))))
    | inr (ne, inr (same, _)) ↦ elim (Bool-cases (is_valid (w q (px (suc k) va)))) [
      | inl v ↦
          entry-step k q va w' (ap is_valid same ∙ v)
          ∙ (ap (λ c. entry k c va w') (ap pte2pa same)
              ∙ (entry-linked k (pte2pa (w q (px (suc k) va))) va (omega arith)
                    (t.leads q (px (suc k) va) k e (omega arith) (px-small (suc k) va) v)
                  ∙ sym (entry-step k q va w v)))
      | inr f ↦ entry-stop k q va w' (ap is_valid same ∙ f) ∙ sym (entry-stop k q va w f)
    ]
  ]

  -- And the place of an entry that there was stays the same.
  pub slot-linked :
      (k q va : ℕ) (s : ℕ × ℕ)
      → k ≤ 2
      → rank q ≡ k
      → slot k q va w ≡ some s
      → slot k q va w' ≡ some s
  slot-linked zero q va s le e h = h
  slot-linked (suc k) q va s le e h = elim (Bool-cases (is_valid (w q (px (suc k) va)))) [
    | inr f ↦ absurd (let n = sym (slot-stop k q va w f) ∙ h in cc)
    | inl v ↦ elim (word-cases q (px (suc k) va)) [
      | inl z ↦ absurd (child-ne q (suc k) e le z)
      | inr (ne, inl (a, b)) ↦ absurd (true≢false v (not_used q (px (suc k) va) a b))
      | inr (ne, inr (same, _)) ↦
          slot-step k q va w' (ap is_valid same ∙ v)
          ∙ (ap (λ c. slot k c va w') (ap pte2pa same)
              ∙ slot-linked k (pte2pa (w q (px (suc k) va))) va s (omega arith)
                  (t.leads q (px (suc k) va) k e (omega arith) (px-small (suc k) va) v)
                  (sym (slot-step k q va w v) ∙ h))
    ]
  ]

  -- A valid entry of a page table is not touched.
  pub word_kept : (p i k : ℕ) → rank p ≡ k → k ≤ 2 → is_valid (w p i) ≡ true → w' p i ≡ w p i
  word_kept p i k e le v = elim (word-cases p i) [
    | inl z ↦ absurd (child-ne p k e le z)
    | inr (ne, inl (a, b)) ↦ absurd (true≢false v (not_used p i a b))
    | inr (ne, inr (same, _)) ↦ same
  ]
