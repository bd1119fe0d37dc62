-- ===== src/Virtio/Three.antt =====
-- alloc3_desc (kernel/virtio_disk.c) takes three descriptors or none.
use mathlib.Core.Path.{subst}
use native.Mathlib.Decide.{ℕ_discrete}
use os_cea.Base.{
  ℕ, zero, suc, ◌+◌, ◌≤◌, ◌<◌, ◌≡◌, ◌≢◌, ◌⊎◌, inl, inr, refl, sym, ap, ◌∙◌, Bool, true, false,
  Option, none, some, List, [], ◌∷◌, ◌++◌, ◌==◌, leb, if◌then◌else◌, arith, Bool-cases,
  lt_or_eq_or_lt, true≢false,
}
use os_cea.Virtio.{
  Descs, set_free, alloc_from, alloc_desc, no_desc, free_desc, free_all, alloc_more, alloc3_desc,
}

abbrev took : ℕ → Descs → Descs
took i q = record q { is_free = set_free i false q.is_free }

-- What `alloc_desc` does.
data Taken (q : Descs) (i n : ℕ) (out : Option ℕ × Descs) : Type 0 where
  took_one : (k : ℕ) → out ≡ (some k, took k q) → k < i + n → q.is_free k ≡ true → Taken q i n out
  none_free :
      out ≡ (none, q) → ((k : ℕ) → i ≤ k → k < i + n → q.is_free k ≡ false) → Taken q i n out

Taken-suc :
    (q : Descs) (i n : ℕ) {out : Option ℕ × Descs}
    → q.is_free i ≡ false
    → Taken q (i + 1) n out
    → Taken q i (suc n) out
Taken-suc q i n f (took_one k e lt t) = took_one k e (omega arith) t
Taken-suc q i n f (none_free e all) = none_free e (λ k le lt. elim (lt_or_eq_or_lt i k) [
  | inl below ↦ all k (omega arith) (omega arith)
  | inr (inl same) ↦ subst (λ x. q.is_free x ≡ false) same f
  | inr (inr above) ↦ absurd (omega arith)
])

alloc_from-Taken : (n i : ℕ) (q : Descs) → Taken q i n (alloc_from n i q)
unfolding alloc_from
alloc_from-Taken zero i q = none_free refl (λ k le lt. absurd (omega arith))
alloc_from-Taken (suc n) i q = elim (Bool-cases (q.is_free i)) [
  | inl t ↦ took_one i (rw (t, alloc_from) refl) (omega arith) t
  | inr f ↦
      (let step : alloc_from (suc n) i q ≡ alloc_from n (i + 1) q = rw (f, alloc_from) refl in
        subst (Taken q i (suc n)) (sym step) (Taken-suc q i n f (alloc_from-Taken n (i + 1) q)))
]

alloc_desc-Taken : (q : Descs) → Taken q 0 8 (alloc_desc q)
unfolding alloc_desc
alloc_desc-Taken q = alloc_from-Taken 8 0 q

abbrev freed : ℕ → Descs → Descs
freed i q = record {
  is_free = set_free i true q.is_free;
  desc = λ j. if j == i then no_desc else q.desc j;
}

free_desc-taken :
    (i : ℕ) (q : Descs) → i < 8 → q.is_free i ≡ false → free_desc i q ≡ some (freed i q)
unfolding free_desc
free_desc-taken i q lt f = let inside : leb 8 i ≡ false = ground arith in rw (inside, f) refl

set_free_self : (i : ℕ) (v : Bool) (f : ℕ → Bool) → set_free i v f i ≡ v
set_free_self i v f = ground arith

set_free_other : (i j : ℕ) (v : Bool) (f : ℕ → Bool) → j ≢ i → set_free i v f j ≡ f j
set_free_other i j v f ne = ground arith

-- Freeing what was taken.
put_back :
    (i : ℕ) (f : ℕ → Bool) → f i ≡ true → (n : ℕ) → set_free i true (set_free i false f) n ≡ f n
put_back i f t n = elim (ℕ_discrete n i) [
  | yes e ↦
      ap (set_free i true (set_free i false f)) e
      ∙ (set_free_self i true (set_free i false f) ∙ (sym t ∙ ap f (sym e)))
  | no ne ↦ set_free_other i n true (set_free i false f) ne ∙ set_free_other i n false f ne
]

-- A descriptor that is free, but not after another was taken, is that one.
only_taken : (i k : ℕ) (f : ℕ → Bool) → f k ≡ true → set_free i false f k ≡ false → k ≡ i
only_taken i k f t z = elim (ℕ_discrete k i) [
  | yes e ↦ e
  | no ne ↦ absurd (true≢false t (sym (set_free_other i k false f ne) ∙ z))
]

not_taken : (i k : ℕ) (f : ℕ → Bool) → set_free i false f k ≡ true → (k ≢ i) × (f k ≡ true)
not_taken i k f t = elim (ℕ_discrete k i) [
  | yes e ↦ absurd (true≢false t (ap (set_free i false f) e ∙ set_free_self i false f))
  | no ne ↦ (ne, sym (set_free_other i k false f ne) ∙ t)
]

-- No three different descriptors are free.
abbrev pub HasFew : Descs → Type 0
HasFew q =
    (a b c : ℕ)
    → a < 8
    → b < 8
    → c < 8
    → q.is_free a ≡ true
    → q.is_free b ≡ true
    → q.is_free c ≡ true
    → (a ≡ b) ⊎ ((a ≡ c) ⊎ (b ≡ c))

abbrev pub IsFreeIn : Descs → ℕ → Type 0
IsFreeIn q i = (i < 8) × (q.is_free i ≡ true)

-- What `alloc3_desc` does.
pub data Three (q : Descs) (out : Option (Option (List ℕ) × Descs)) : Type 0 where
  three :
      (i j k : ℕ) (q' : Descs)
      → out ≡ some (some (i ∷ (j ∷ (k ∷ []))), q')
      → IsFreeIn q i
      → IsFreeIn q j
      → IsFreeIn q k
      → (j ≢ i) × (k ≢ i) × (k ≢ j)
      → ((n : ℕ)
          → q'.is_free n ≡ set_free k false (set_free j false (set_free i false q.is_free)) n)
      → Three q out
  too_few :
      (q' : Descs)
      → out ≡ some (none, q')
      → ((n : ℕ) → q'.is_free n ≡ q.is_free n)
      → HasFew q
      → Three q out

abbrev after_desc : ℕ → List ℕ → Option ℕ × Descs → Option (Option (List ℕ) × Descs)
after_desc n idx (found, q') = elim found [
  | some i ↦ alloc_more n (idx ++ (i ∷ [])) q'
  | none ↦ elim (free_all idx q') [ none ↦ none | some q'' ↦ some (none, q'') ]
]

alloc_more-step :
    (n : ℕ) (idx : List ℕ) (q : Descs) → alloc_more (suc n) idx q ≡ after_desc n idx (alloc_desc q)
unfolding alloc_more
alloc_more-step n idx q = refl

alloc_more-done : (idx : List ℕ) (q : Descs) → alloc_more 0 idx q ≡ some (some idx, q)
unfolding alloc_more
alloc_more-done idx q = refl

abbrev after_free : List ℕ → Option Descs → Option Descs
after_free idx o = elim o [ none ↦ none | some q' ↦ free_all idx q' ]

free_all-step :
    (i : ℕ) (idx : List ℕ) (q : Descs) → free_all (i ∷ idx) q ≡ after_free idx (free_desc i q)
unfolding free_all
free_all-step i idx q = refl

free_all-nil : (q : Descs) → free_all [] q ≡ some q
unfolding free_all
free_all-nil q = refl

free_all-one :
    (i : ℕ) (q : Descs) → i < 8 → q.is_free i ≡ false → free_all (i ∷ []) q ≡ some (freed i q)
free_all-one i q lt f =
    free_all-step i [] q
    ∙ (ap (after_free []) (free_desc-taken i q lt f) ∙ free_all-nil (freed i q))

free_all-two :
    (i j : ℕ) (q : Descs)
    → i < 8
    → j < 8
    → j ≢ i
    → q.is_free i ≡ false
    → q.is_free j ≡ false
    → free_all (i ∷ (j ∷ [])) q ≡ some (freed j (freed i q))
free_all-two i j q lt lt' ne f f' =
    free_all-step i (j ∷ []) q
    ∙ (ap (after_free (j ∷ [])) (free_desc-taken i q lt f)
        ∙ free_all-one j (freed i q) lt' (set_free_other i j true q.is_free ne ∙ f'))

abbrev failed : Option Descs → Option (Option (List ℕ) × Descs)
failed o = elim o [ none ↦ none | some q'' ↦ some (none, q'') ]

put_back_two :
    (i j : ℕ) (f : ℕ → Bool)
    → f i ≡ true
    → f j ≡ true
    → (n : ℕ) → set_free j true (set_free i true (set_free j false (set_free i false f))) n ≡ f n
put_back_two i j f ti tj n = elim (ℕ_discrete n j) [
  | yes e ↦
      ap (set_free j true (set_free i true (set_free j false (set_free i false f)))) e
      ∙ (set_free_self j true (set_free i true (set_free j false (set_free i false f)))
          ∙ (sym tj ∙ ap f (sym e)))
  | no ne ↦
      set_free_other j n true (set_free i true (set_free j false (set_free i false f))) ne
      ∙ elim (ℕ_discrete n i) [
        | yes e ↦
            ap (set_free i true (set_free j false (set_free i false f))) e
            ∙ (set_free_self i true (set_free j false (set_free i false f))
                ∙ (sym ti ∙ ap f (sym e)))
        | no ne' ↦
            set_free_other i n true (set_free j false (set_free i false f)) ne'
            ∙ (set_free_other j n false (set_free i false f) ne ∙ set_free_other i n false f ne')
      ]
]

-- The three rounds.
module _ (q : Descs) where
  third :
      (i j : ℕ)
      → IsFreeIn q i
      → IsFreeIn q j
      → j ≢ i
      → Three q (alloc_more 1 (i ∷ (j ∷ [])) (took j (took i q)))
  third i j (lti, ti) (ltj, tj) ne =
      let q₂ = took j (took i q) in
      elim (alloc_desc-Taken q₂) [
        | took_one k e lt t ↦
            (let (ne', t') = not_taken j k (took i q).is_free t in
              let (ne'', t'') = not_taken i k q.is_free t' in
              three i j k (took k q₂)
                (alloc_more-step 0 (i ∷ (j ∷ [])) q₂
                  ∙ (ap (after_desc 0 (i ∷ (j ∷ []))) e
                      ∙ alloc_more-done (i ∷ (j ∷ (k ∷ []))) (took k q₂)))
                (lti, ti) (ltj, tj) (omega arith, t'') (ne, ne'', ne') (λ n. refl))
        | none_free e all ↦
            (let fi : q₂.is_free i ≡ false = all i (omega arith) (omega arith) in
              let fj : q₂.is_free j ≡ false = all j (omega arith) (omega arith) in
              too_few (freed j (freed i q₂))
                (alloc_more-step 0 (i ∷ (j ∷ [])) q₂
                  ∙ (ap (after_desc 0 (i ∷ (j ∷ []))) e
                      ∙ ap failed (free_all-two i j q₂ lti ltj ne fi fj)))
                (put_back_two i j q.is_free ti tj)
                (λ a b c la lb lc ta tb tc.
                  let ea = either i j a ta (all a (omega arith) (omega arith)) in
                  let eb = either i j b tb (all b (omega arith) (omega arith)) in
                  let ec = either i j c tc (all c (omega arith) (omega arith)) in
                  pigeons i j a b c ea eb ec))
      ]
    where
      either :
          (i j a : ℕ)
          → q.is_free a ≡ true
          → set_free j false (set_free i false q.is_free) a ≡ false
          → (a ≡ i) ⊎ (a ≡ j)
      either i j a t z = elim (ℕ_discrete a j) [
        | yes e ↦ inr e
        | no far ↦ inl (
            only_taken i a q.is_free t
              (sym (set_free_other j a false (set_free i false q.is_free) far) ∙ z))
      ]

      pigeons :
          (i j a b c : ℕ)
          → (a ≡ i) ⊎ (a ≡ j)
          → (b ≡ i) ⊎ (b ≡ j)
          → (c ≡ i) ⊎ (c ≡ j)
          → (a ≡ b) ⊎ ((a ≡ c) ⊎ (b ≡ c))
      pigeons i j a b c (inl x) (inl y) z = inl (x ∙ sym y)
      pigeons i j a b c (inr x) (inr y) z = inl (x ∙ sym y)
      pigeons i j a b c (inl x) (inr y) (inl z) = inr (inl (x ∙ sym z))
      pigeons i j a b c (inl x) (inr y) (inr z) = inr (inr (y ∙ sym z))
      pigeons i j a b c (inr x) (inl y) (inl z) = inr (inr (y ∙ sym z))
      pigeons i j a b c (inr x) (inl y) (inr z) = inr (inl (x ∙ sym z))

  second : (i : ℕ) → IsFreeIn q i → Three q (alloc_more 2 (i ∷ []) (took i q))
  second i (lti, ti) = elim (alloc_desc-Taken (took i q)) [
    | took_one j e lt t ↦
        (let (ne, tj) = not_taken i j q.is_free t in
          subst (Three q)
            (sym (alloc_more-step 1 (i ∷ []) (took i q) ∙ ap (after_desc 1 (i ∷ [])) e))
            (third i j (lti, ti) (omega arith, tj) ne))
    | none_free e all ↦
        (let fi : (took i q).is_free i ≡ false = set_free_self i false q.is_free in
          too_few (freed i (took i q))
            (alloc_more-step 1 (i ∷ []) (took i q)
              ∙ (ap (after_desc 1 (i ∷ [])) e ∙ ap failed (free_all-one i (took i q) lti fi)))
            (put_back i q.is_free ti)
            (λ a b c la lb lc ta tb tc.
              let ea = only_taken i a q.is_free ta (all a (omega arith) (omega arith)) in
              let eb = only_taken i b q.is_free tb (all b (omega arith) (omega arith)) in
              inl (ea ∙ sym eb)))
  ]

-- `alloc3_desc` never panics. It takes three different descriptors that were free, and no other, or it
-- returns -1; then as many descriptors are free as before, the same ones, and they are less than three.
pub alloc3_desc-Three : (q : Descs) → Three q (alloc3_desc q)
unfolding alloc3_desc free_all
alloc3_desc-Three q = elim (alloc_desc-Taken q) [
  | took_one i e lt t ↦
      subst (Three q) (sym (alloc_more-step 2 [] q ∙ ap (after_desc 2 []) e))
        (second q i (omega arith, t))
  | none_free e all ↦
      too_few q (alloc_more-step 2 [] q ∙ ap (after_desc 2 []) e) (λ n. refl)
        (λ a b c la lb lc ta tb tc. absurd (true≢false ta (all a (omega arith) (omega arith))))
]
