-- ===== src/Str/Copy.antt =====
-- strncpy and safestrcpy (kernel/string.c): what they write, and that a copied name compares equal.
use native.Mathlib.Decide.{ℕ_discrete}
use mathlib.Core.Path.{ap₂}
use os_cea.Base.{
  ℕ, zero, suc, ◌+◌, ◌≤◌, ◌<◌, ◌≡◌, ◌≢◌, ◌⊎◌, inl, inr, refl, sym, ap, ◌∙◌, ◌∷◌, arith,
}
use os_cea.Base.Int.{pos}
use os_cea.Str.{Memory, write, strncmp, zero_fill, strncpy, safestrcpy_from, safestrcpy}
use os_cea.Str.Compare.{cstr, cstr-end, cstr-more, strncmp_iff}

-- An address outside the `n` bytes from `s` on.
abbrev pub IsApart : ℕ → ℕ → ℕ → Type 0
IsApart s n a = (a < s) ⊎ (s + n ≤ a)

IsApart-suc : (s n a : ℕ) → IsApart s (suc n) a → IsApart (s + 1) n a × (a ≢ s)
IsApart-suc s n a (inl lt) = (inl (omega arith), omega arith)
IsApart-suc s n a (inr le) = (inr (omega arith), omega arith)

write-ne : (mem : Memory) (s v a : ℕ) → a ≢ s → write mem s v a ≡ mem a
write-ne mem s v a ne = ground arith

write_self : (mem : Memory) (s v : ℕ) → write mem s v s ≡ v
write_self mem s v = ground arith

zero_fill-apart : (n s : ℕ) (mem : Memory) (a : ℕ) → IsApart s n a → zero_fill s n mem a ≡ mem a
unfolding zero_fill
zero_fill-apart zero s mem a h = refl
zero_fill-apart (suc n) s mem a h =
    let (far, ne) = IsApart-suc s n a h in
    zero_fill-apart n (s + 1) (write mem s 0) a far ∙ write-ne mem s 0 a ne

module _ (s t n : ℕ) (mem : Memory) where
  strncpy-nul : mem t ≡ 0 → strncpy s t (suc n) mem ≡ zero_fill (s + 1) n (write mem s (mem t))
  unfolding strncpy
  strncpy-nul z = ground arith

  strncpy-more :
      mem t ≢ 0 → strncpy s t (suc n) mem ≡ strncpy (s + 1) (t + 1) n (write mem s (mem t))
  unfolding strncpy
  strncpy-more nz = ground arith

strncpy-apart : (n s t : ℕ) (mem : Memory) (a : ℕ) → IsApart s n a → strncpy s t n mem a ≡ mem a
unfolding strncpy
strncpy-apart zero s t mem a h = refl
strncpy-apart (suc n) s t mem a h =
    let (far, ne) = IsApart-suc s n a h in
    elim (ℕ_discrete (mem t) 0) [
      | yes z ↦
          ap (λ (m : Memory). m a) (strncpy-nul s t n mem z)
          ∙ zero_fill-apart n (s + 1) (write mem s (mem t)) a far
          ∙ write-ne mem s (mem t) a ne
      | no nz ↦
          ap (λ (m : Memory). m a) (strncpy-more s t n mem nz)
          ∙ strncpy-apart n (s + 1) (t + 1) (write mem s (mem t)) a far
          ∙ write-ne mem s (mem t) a ne
    ]

cstr-same :
    (n p : ℕ) (m m' : Memory)
    → ((a : ℕ) → p ≤ a → a < p + n → m a ≡ m' a)
    → cstr p n m ≡ cstr p n m'
cstr-same zero p m m' h = refl
cstr-same (suc n) p m m' h =
    let here = h p (omega arith) (omega arith) in
    let rest = cstr-same n (p + 1) m m' (λ a lo hi. h a (omega arith) (omega arith)) in
    elim (ℕ_discrete (m p) 0) [
      | yes z ↦ cstr-end p n m z ∙ sym (cstr-end p n m' (sym here ∙ z))
      | no nz ↦ cstr-more p n m nz ∙ ap₂ ◌∷◌ here rest ∙ sym (cstr-more p n m' (λ e. nz (here ∙ e)))
    ]

-- The two blocks of `n` bytes do not overlap.
abbrev pub AreDisjoint : ℕ → ℕ → ℕ → Type 0
AreDisjoint s t n = (s + n ≤ t) ⊎ (t + n ≤ s)

AreDisjoint-suc : (s t n : ℕ) → AreDisjoint s t (suc n) → AreDisjoint (s + 1) (t + 1) n
AreDisjoint-suc s t n (inl le) = inl (omega arith)
AreDisjoint-suc s t n (inr le) = inr (omega arith)

AreDisjoint-ne : (s t n a : ℕ) → AreDisjoint s t (suc n) → t + 1 ≤ a → a < t + 1 + n → a ≢ s
AreDisjoint-ne s t n a (inl le) lo hi = omega arith
AreDisjoint-ne s t n a (inr le) lo hi = omega arith

cstr-strncpy :
    (n s t : ℕ) (mem : Memory) → AreDisjoint s t n → cstr s n (strncpy s t n mem) ≡ cstr t n mem
cstr-strncpy zero s t mem d = refl
cstr-strncpy (suc n) s t mem d = elim (ℕ_discrete (mem t) 0) [
  | yes z ↦
      ap (cstr s (suc n)) (strncpy-nul s t n mem z)
      ∙ cstr-end s n (zero_fill (s + 1) n (write mem s (mem t))) (
          zero_fill-apart n (s + 1) (write mem s (mem t)) s (inl (omega arith))
          ∙ write_self mem s (mem t)
          ∙ z)
      ∙ sym (cstr-end t n mem z)
  | no nz ↦
      (let m : Memory = write mem s (mem t) in
        let first : strncpy (s + 1) (t + 1) n m s ≡ mem t =
          strncpy-apart n (s + 1) (t + 1) m s (inl (omega arith)) ∙ write_self mem s (mem t) in
        ap (cstr s (suc n)) (strncpy-more s t n mem nz)
        ∙ cstr-more s n (strncpy (s + 1) (t + 1) n m) (λ e. nz (sym first ∙ e))
        ∙ ap₂ ◌∷◌ first (
            cstr-strncpy n (s + 1) (t + 1) m (AreDisjoint-suc s t n d)
            ∙ cstr-same n (t + 1) m mem
                (λ a lo hi. write-ne mem s (mem t) a (AreDisjoint-ne s t n a d lo hi)))
        ∙ sym (cstr-more t n mem nz))
]

AreDisjoint-IsApart : (s t n a : ℕ) → AreDisjoint s t n → t ≤ a → a < t + n → IsApart s n a
AreDisjoint-IsApart s t n a (inl le) lo hi = inr (omega arith)
AreDisjoint-IsApart s t n a (inr le) lo hi = inl (omega arith)

-- A name that `strncpy` has copied between two blocks that do not overlap compares equal to the
-- original by `strncmp` at the same length, and no byte outside the copy has changed.
pub strncmp-strncpy :
    (n s t : ℕ) (mem : Memory)
    → AreDisjoint s t n
    → (strncmp s t n (strncpy s t n mem) ≡ pos 0)
      × ((a : ℕ) → IsApart s n a → strncpy s t n mem a ≡ mem a)
strncmp-strncpy n s t mem d = (
  (strncmp_iff n s t (strncpy s t n mem)).1 (
      cstr-strncpy n s t mem d
      ∙ sym (
          cstr-same n t (strncpy s t n mem) mem
            (λ a lo hi. strncpy-apart n s t mem a (AreDisjoint-IsApart s t n a d lo hi)))),
  strncpy-apart n s t mem,
)

-- A NUL among the `n` bytes from `s` on.
abbrev pub HasNul : ℕ → ℕ → Memory → Type 0
HasNul s n mem = (k : ℕ) × (k < n) × (mem (s + k) ≡ 0)

module _ (s t n : ℕ) (mem : Memory) where
  safestrcpy_from-nul :
      mem t ≡ 0 → safestrcpy_from s t (suc n) mem ≡ write (write mem s (mem t)) (s + 1) 0
  unfolding safestrcpy_from
  safestrcpy_from-nul z = ground arith

  safestrcpy_from-more :
      mem t ≢ 0
      → safestrcpy_from s t (suc n) mem ≡ safestrcpy_from (s + 1) (t + 1) n (write mem s (mem t))
  unfolding safestrcpy_from
  safestrcpy_from-more nz = ground arith

safestrcpy_from_lem :
    (n s t : ℕ) (mem : Memory)
    → HasNul s (suc n) (safestrcpy_from s t n mem)
      × ((a : ℕ) → IsApart s (suc n) a → safestrcpy_from s t n mem a ≡ mem a)
unfolding safestrcpy_from
safestrcpy_from_lem zero s t mem =
    ((0, omega arith, ground arith), λ a h. write-ne mem s 0 a (IsApart-suc s 0 a h).1)
safestrcpy_from_lem (suc n) s t mem = elim (ℕ_discrete (mem t) 0) [
  | yes z ↦ rw (safestrcpy_from-nul s t n mem z) (
    (1, omega arith, ground arith),
    λ a h.
        write-ne (write mem s (mem t)) (s + 1) 0 a (far a h)
        ∙ write-ne mem s (mem t) a (IsApart-suc s (suc n) a h).1,
  )
  | no nz ↦
      (let (nul, same) = safestrcpy_from_lem n (s + 1) (t + 1) (write mem s (mem t)) in
        rw (safestrcpy_from-more s t n mem nz) (
          (
            suc (nul.0),
            omega arith,
            ap (safestrcpy_from (s + 1) (t + 1) n (write mem s (mem t))) (omega arith) ∙ nul.2,
          ),
          λ a h.
              same a (IsApart-suc s (suc n) a h).0
              ∙ write-ne mem s (mem t) a (IsApart-suc s (suc n) a h).1,
        ))
]
  where
    far : (a : ℕ) → IsApart s (suc (suc n)) a → a ≢ s + 1
    far a (inl lt) = omega arith
    far a (inr le) = omega arith

-- Into a buffer of at least one byte `safestrcpy` always leaves a NUL within the buffer, and writes
-- nothing outside it.
pub safestrcpy_lem :
    (n s t : ℕ) (mem : Memory)
    → HasNul s (suc n) (safestrcpy s t (suc n) mem)
      × ((a : ℕ) → IsApart s (suc n) a → safestrcpy s t (suc n) mem a ≡ mem a)
unfolding safestrcpy
safestrcpy_lem n s t mem = safestrcpy_from_lem n s t mem
