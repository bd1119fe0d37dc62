-- ===== src/Str/Move.antt =====
-- memset and memmove (kernel/string.c): what is at each address afterwards.
use os_cea.Base.{
  ℕ, zero, suc, ◌+◌, ◌-◌, ◌%◌, ◌≤◌, ◌<◌, ◌≡◌, ◌⊎◌, inl, inr, ◌∙◌, Bool, false, ◌&&◌, ◌==◌, ltb, leb,
  if◌then◌else◌, arith, Bool-cases, lt_or_eq_or_lt,
}
use os_cea.Str.{Memory, write, memset_from, memset, copy_up, copy_down, memmove}

abbrev pub within : ℕ → ℕ → ℕ → Bool
within d n a = leb d a && ltb a (d + n)

memset_from_lem :
    (n dst c i : ℕ) (mem : Memory) (a : ℕ)
    → memset_from n dst c i mem a ≡ (if within (dst + i) n a then c % 256 else mem a)
unfolding memset_from
memset_from_lem zero dst c i mem a = ground arith
memset_from_lem (suc n) dst c i mem a =
    ground (arith, memset_from_lem n dst c (i + 1) (write mem (dst + i) (c % 256)) a)

-- `memset` writes the low byte of `c` to the `n` addresses from `dst` on, and nothing else.
pub memset_lem :
    (dst c n : ℕ) (mem : Memory) (a : ℕ)
    → memset dst c n mem a ≡ (if within dst n a then c % 256 else mem a)
unfolding memset
memset_lem dst c n mem a = memset_from_lem n dst c 0 mem a ∙ ground arith

pub copy_up_lem :
    (d s n : ℕ) (mem : Memory) (a : ℕ)
    → (d ≤ s) ⊎ (s + n ≤ d)
    → copy_up d s n mem a ≡ (if within d n a then mem (s + (a - d)) else mem a)
unfolding copy_up
copy_up_lem d s zero mem a h = ground arith
copy_up_lem d s (suc n) mem a h =
    copy_up_lem (d + 1) (s + 1) n (write mem d (mem s)) a (next h) ∙ first (lt_or_eq_or_lt a d) h
  where
    next : (d ≤ s) ⊎ (s + suc n ≤ d) → (d + 1 ≤ s + 1) ⊎ (s + 1 + n ≤ d + 1)
    next (inl le) = inl (omega arith)
    next (inr le) = inr (omega arith)

    first :
        (a < d) ⊎ ((a ≡ d) ⊎ (d < a))
        → (d ≤ s) ⊎ (s + suc n ≤ d)
        → (if within (d + 1) n a
            then write mem d (mem s) (s + 1 + (a - (d + 1)))
            else write mem d (mem s) a)
          ≡ (if within d (suc n) a then mem (s + (a - d)) else mem a)
    first (inl lt) g = ground arith
    first (inr (inl e)) g = let i : s + (a - d) ≡ s = omega arith in ground arith
    first (inr (inr lt)) (inl le) =
        let i : s + 1 + (a - (d + 1)) ≡ s + (a - d) = omega arith in ground arith
    first (inr (inr lt)) (inr le) =
        let i : s + 1 + (a - (d + 1)) ≡ s + (a - d) = omega arith in ground arith

pub copy_down_lem :
    (d s n : ℕ) (mem : Memory) (a : ℕ)
    → s ≤ d
    → copy_down d s n mem a ≡ (if within d n a then mem (s + (a - d)) else mem a)
unfolding copy_down
copy_down_lem d s zero mem a h = ground arith
copy_down_lem d s (suc n) mem a h =
    copy_down_lem d s n (write mem (d + n) (mem (s + n))) a h ∙ last (lt_or_eq_or_lt a (d + n))
  where
    last :
        (a < d + n) ⊎ ((a ≡ d + n) ⊎ (d + n < a))
        → (if within d n a
            then write mem (d + n) (mem (s + n)) (s + (a - d))
            else write mem (d + n) (mem (s + n)) a)
          ≡ (if within d (suc n) a then mem (s + (a - d)) else mem a)
    last (inl lt) = ground arith
    last (inr (inl e)) = let i : s + (a - d) ≡ s + n = omega arith in ground arith
    last (inr (inr lt)) = ground arith

apart : (s d n : ℕ) → (ltb s d && ltb d (s + n)) ≡ false → (d ≤ s) ⊎ (s + n ≤ d)
apart s d n h = grind arith

-- `memmove` copies `n` bytes as they were before the call, also where the two blocks overlap in either
-- direction, and changes nothing else.
pub memmove_lem :
    (d s n : ℕ) (mem : Memory) (a : ℕ)
    → memmove d s n mem a ≡ (if within d n a then mem (s + (a - d)) else mem a)
unfolding memmove
memmove_lem d s n mem a = elim (Bool-cases (n == 0)) [
  | inl z ↦ rw z (ground arith)
  | inr z ↦ elim (Bool-cases (ltb s d && ltb d (s + n))) [
    | inl b ↦ rw (z, b) (copy_down_lem d s n mem a (ground arith))
    | inr b ↦ rw (z, b) (copy_up_lem d s n mem a (apart s d n b))
  ]
]
