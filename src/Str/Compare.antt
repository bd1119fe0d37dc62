-- ===== src/Str/Compare.antt =====
-- strncmp against the strings that it compares (kernel/string.c).
use mathlib.Core.Path.{ap₂}
use native.Mathlib.Decide.{ℕ_discrete}
use os_cea.Base.{
  ℕ, zero, suc, ◌+◌, ◌≡◌, ◌≢◌, ◌↔◌, ◌⊎◌, inl, inr, refl, sym, ◌∙◌, List, [], ◌∷◌, ◌==◌,
  if◌then◌else◌, arith,
}
use os_cea.Base.Int.{pos, sub_ℕ, sub_ℕ-zero}
use os_cea.Str.{Memory, strncmp}

-- The bytes from `p` on up to the first NUL, at most `n`.
abbrev pub cstr : ℕ → ℕ → Memory → List ℕ
cstr p zero mem = []
cstr p (suc n) mem = let rest = cstr (p + 1) n mem in if mem p == 0 then [] else mem p ∷ rest

pub cstr-end : (p n : ℕ) (mem : Memory) → mem p ≡ 0 → cstr p (suc n) mem ≡ []
cstr-end p n mem e = ground arith

pub cstr-more :
    (p n : ℕ) (mem : Memory) → mem p ≢ 0 → cstr p (suc n) mem ≡ mem p ∷ cstr (p + 1) n mem
cstr-more p n mem e = ground arith

tail-eq : {x y : ℕ} {xs ys : List ℕ} → x ∷ xs ≡ y ∷ ys → xs ≡ ys
tail-eq e = cc

head-eq : {x y : ℕ} {xs ys : List ℕ} → x ∷ xs ≡ y ∷ ys → x ≡ y
head-eq e = cc

module _ (p q n : ℕ) (mem : Memory) where
  strncmp-step : mem p ≢ 0 → mem p ≡ mem q → strncmp p q (suc n) mem ≡ strncmp (p + 1) (q + 1) n mem
  unfolding strncmp
  strncmp-step h e = ground arith

  strncmp-stop : (mem p ≡ 0) ⊎ (mem p ≢ mem q) → strncmp p q (suc n) mem ≡ sub_ℕ (mem p) (mem q)
  unfolding strncmp
  strncmp-stop (inl h) = ground arith
  strncmp-stop (inr h) = ground arith

-- `strncmp` returns 0 exactly when the two strings agree up to a NUL or to `n` bytes.
pub strncmp_iff :
    (n p q : ℕ) (mem : Memory) → (strncmp p q n mem ≡ pos 0) ↔ (cstr p n mem ≡ cstr q n mem)
unfolding strncmp
strncmp_iff zero p q mem = (λ _. refl, λ _. refl)
strncmp_iff (suc n) p q mem = elim (ℕ_discrete (mem p) 0) [
  | yes z ↦ (
    λ h.
        (let same = (sub_ℕ-zero (mem p) (mem q)).0 (sym (strncmp-stop p q n mem (inl z)) ∙ h) in
          cstr-end p n mem z ∙ sym (cstr-end q n mem (sym same ∙ z))),
    λ h. elim (ℕ_discrete (mem q) 0) [
      | yes y ↦ strncmp-stop p q n mem (inl z) ∙ (sub_ℕ-zero (mem p) (mem q)).1 (z ∙ sym y)
      | no y ↦ absurd (let e = sym (cstr-end p n mem z) ∙ h ∙ cstr-more q n mem y in cc)
    ],
  )
  | no nz ↦ elim (ℕ_discrete (mem p) (mem q)) [
    | yes e ↦
        (let nq : mem q ≢ 0 = λ y. nz (e ∙ y) in
          (
            λ h.
                cstr-more p n mem nz
                ∙ ap₂ ◌∷◌ e
                    ((strncmp_iff n (p + 1) (q + 1) mem).0 (sym (strncmp-step p q n mem nz e) ∙ h))
                ∙ sym (cstr-more q n mem nq),
            λ h.
                strncmp-step p q n mem nz e
                ∙ (strncmp_iff n (p + 1) (q + 1) mem).1
                    (tail-eq (sym (cstr-more p n mem nz) ∙ h ∙ cstr-more q n mem nq)),
          ))
    | no ne ↦ (
      λ h. absurd (ne ((sub_ℕ-zero (mem p) (mem q)).0 (sym (strncmp-stop p q n mem (inr ne)) ∙ h))),
      λ h. elim (ℕ_discrete (mem q) 0) [
        | yes y ↦ absurd (let e = sym (cstr-more p n mem nz) ∙ h ∙ cstr-end q n mem y in cc)
        | no y ↦ absurd (ne (head-eq (sym (cstr-more p n mem nz) ∙ h ∙ cstr-more q n mem y)))
      ],
    )
  ]
]
