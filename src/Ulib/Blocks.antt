-- ===== src/Ulib/Blocks.antt =====
-- memmove and memcmp of user/ulib.c.
use os_cea.Base.{
  ℕ, zero, suc, ◌+◌, ◌-◌, ◌≡◌, ◌≢◌, ◌↔◌, inl, inr, refl, sym, ◌∙◌, ltb, if◌then◌else◌, arith,
  Bool-cases,
}
use os_cea.Base.Int.{pos, sub_ℕ, sub_ℕ-zero}
use native.Mathlib.Decide.{ℕ_discrete}
use os_cea.Str.{Memory}
use os_cea.Str.Move.{within, copy_up_lem, copy_down_lem}
use os_cea.Ulib.{memmove, memcmp}

-- The user library's `memmove` copies `n` bytes as they were before the call, also where the two
-- blocks overlap in either direction, and changes nothing else.
pub memmove_copies :
    (vdst vsrc n : ℕ) (mem : Memory) (a : ℕ)
    → memmove vdst vsrc n mem a ≡ (if within vdst n a then mem (vsrc + (a - vdst)) else mem a)
unfolding memmove
memmove_copies vdst vsrc n mem a = elim (Bool-cases (ltb vdst vsrc)) [
  | inl b ↦ rw b (copy_up_lem vdst vsrc n mem a (ground arith))
  | inr b ↦ rw b (copy_down_lem vdst vsrc n mem a (ground arith))
]

memcmp_step :
    (n p q : ℕ) (mem : Memory)
    → (memcmp p q (suc n) mem ≡ pos 0) ↔ ((mem p ≡ mem q) × (memcmp (p + 1) (q + 1) n mem ≡ pos 0))
unfolding memcmp
memcmp_step n p q mem = elim (ℕ_discrete (mem p) (mem q)) [
  | yes e ↦ (λ h. (e, sym (same e) ∙ h), λ h. same e ∙ h.1)
  | no ne ↦ (
    λ h. absurd (ne ((sub_ℕ-zero (mem p) (mem q)).0 (sym (differ ne) ∙ h))),
    λ h. absurd (ne h.0),
  )
]
  where
    same : mem p ≡ mem q → memcmp p q (suc n) mem ≡ memcmp (p + 1) (q + 1) n mem
    same e = ground arith

    differ : mem p ≢ mem q → memcmp p q (suc n) mem ≡ sub_ℕ (mem p) (mem q)
    differ ne = ground arith

-- The two blocks hold the same bytes.
abbrev pub AreEqual : ℕ → ℕ → ℕ → Memory → Type 0
AreEqual p q zero mem = Unit
AreEqual p q (suc n) mem = (mem p ≡ mem q) × AreEqual (p + 1) (q + 1) n mem

-- The user library's `memcmp` returns 0 exactly when the two blocks hold the same bytes.
pub memcmp_iff : (n p q : ℕ) (mem : Memory) → (memcmp p q n mem ≡ pos 0) ↔ AreEqual p q n mem
unfolding memcmp
memcmp_iff zero p q mem = (λ _. tt, λ _. refl)
memcmp_iff (suc n) p q mem =
    let step = memcmp_step n p q mem in
    let rest = memcmp_iff n (p + 1) (q + 1) mem in
    (λ h. (let (e, t) = step.0 h in (e, rest.0 t)), λ h. step.1 (h.0, rest.1 h.1))
