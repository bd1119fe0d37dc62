-- ===== src/Ulib/Strings.antt =====
-- Strings and numbers of user/ulib.c.

use os_cea.Base.{
  ℕ, zero, suc, ◌+◌, ◌-◌, ◌*◌, ◌<◌, ◌≡◌, ◌≢◌, ◌↔◌, ◌⊎◌, inl, inr, refl, sym, ◌∙◌, true, ◌&&◌, ◌||◌,
  Option, none, some, List, [], ◌∷◌, ◌++◌, map, length, find_index?, IsFirst, find_index?-IsFirst,
  ◌==◌, leb, ltb, arith, Bool-cases, ==_refl,
}
use os_cea.Base.Int.{pos, sub_ℕ, sub_ℕ-zero}
use native.Mathlib.Decide.{ℕ_discrete}
use mathlib.Core.Path.{subst}
use os_cea.Ulib.{strcmp, strchr, gets, gets_from, atoi, atoi_from}

-- A string has no NUL before its end.
abbrev pub IsString : List ℕ → Type 0
IsString [] = Unit
IsString (c ∷ s) = (c ≢ 0) × IsString s

strcmp-same : (c : ℕ) (p q : List ℕ) → strcmp (c ∷ p) (c ∷ q) ≡ strcmp p q
unfolding strcmp
strcmp-same c p q = rw (==_refl c) refl

strcmp-differ : (c d : ℕ) (p q : List ℕ) → c ≢ d → strcmp (c ∷ p) (d ∷ q) ≡ sub_ℕ c d
unfolding strcmp
strcmp-differ c d p q ne = ground arith

-- `strcmp` returns 0 exactly for equal strings.
pub strcmp_iff : (p q : List ℕ) → IsString p → IsString q → (strcmp p q ≡ pos 0) ↔ (p ≡ q)
unfolding strcmp
strcmp_iff [] [] hp hq = (λ _. refl, λ _. refl)
strcmp_iff [] (d ∷ q) hp hq = (λ h. absurd (hq.0 (sym ((sub_ℕ-zero 0 d).0 h))), λ h. absurd cc)
strcmp_iff (c ∷ p) [] hp hq = (λ h. absurd (hp.0 ((sub_ℕ-zero c 0).0 h)), λ h. absurd cc)
strcmp_iff (c ∷ p) (d ∷ q) hp hq = elim (ℕ_discrete c d) [
  | yes e ↦
      (let ih = strcmp_iff p q hp.1 hq.1 in
        let step : strcmp (c ∷ p) (d ∷ q) ≡ strcmp p q =
          subst (λ x. strcmp (c ∷ p) (x ∷ q) ≡ strcmp p q) e (strcmp-same c p q) in
        (λ h. (let t = ih.0 (sym step ∙ h) in cc), λ h. (let t : p ≡ q = cc in step ∙ ih.1 t)))
  | no ne ↦ (
    λ h. absurd (ne ((sub_ℕ-zero c d).0 (sym (strcmp-differ c d p q ne) ∙ h))),
    λ h. absurd (ne cc),
  )
]

strchr-find_index? : (s : List ℕ) (c : ℕ) → strchr s c ≡ find_index? (λ x. x == c) s
unfolding strchr
strchr-find_index? [] c = refl
strchr-find_index? (x ∷ s) c = rw (strchr-find_index? s c) refl

abbrev pub pow10 : ℕ → ℕ
pow10 zero = 1
pow10 (suc k) = 10 * pow10 k

-- The number that decimal digits denote, each digit with the weight of its place.
abbrev pub value : List ℕ → ℕ
value [] = 0
value (d ∷ ds) = d * pow10 (length ds) + value ds

abbrev pub AreDigits : List ℕ → Type 0
AreDigits [] = Unit
AreDigits (d ∷ ds) = (d < 10) × AreDigits ds

-- No digit at the front.
abbrev pub IsEnd : List ℕ → Type 0
IsEnd [] = Unit
IsEnd (c ∷ s) = (c < 48) ⊎ (57 < c)

leb-digit : (d : ℕ) → d < 10 → (leb 48 (d + 48) && leb (d + 48) 57) ≡ true
leb-digit d lt = ground arith

atoi_from-value :
    (n : ℕ) (ds rest : List ℕ)
    → AreDigits ds
    → IsEnd rest
    → atoi_from n (map (λ d. d + 48) ds ++ rest) ≡ n * pow10 (length ds) + value ds
unfolding atoi_from
atoi_from-value n [] [] h e = omega arith
atoi_from-value n [] (c ∷ rest) h e = elim e [ inl lt ↦ ground arith | inr gt ↦ ground arith ]
atoi_from-value n (d ∷ ds) rest h e =
    let next : n * 10 + (d + 48) - 48 ≡ n * 10 + d = omega arith in
    let ih = atoi_from-value (n * 10 + d) ds rest h.1 e in
    let small = h.0 in rw (leb-digit d h.0, next, ih) (omega arith)

length-gets_from :
    (input : List (Option ℕ)) (i max : ℕ) → i < max → i + length (gets_from input i max).0 < max
unfolding gets_from
length-gets_from [] i max lt = omega arith
length-gets_from (none ∷ input) i max lt = ground arith
length-gets_from (some c ∷ input) i max lt = elim (Bool-cases (ltb (i + 1) max)) [
  | inr f ↦ rw f (omega arith)
  | inl t ↦
      (let ih = length-gets_from input (i + 1) max (ground arith) in
        elim (Bool-cases (c == 10 || c == 13)) [
          | inl u ↦ rw (t, u) (ground arith)
          | inr v ↦ rw (t, v) (omega arith)
        ])
]

-- `atoi` of a decimal numeral that ends where no digit follows is the number that the numeral denotes.
pub atoi-value :
    (ds rest : List ℕ) → AreDigits ds → IsEnd rest → atoi (map (λ d. d + 48) ds ++ rest) ≡ value ds
unfolding atoi
atoi-value ds rest h e = atoi_from-value 0 ds rest h e ∙ omega arith

-- `gets` leaves room for the NUL: the line is shorter than the buffer.
pub length-gets : (input : List (Option ℕ)) (max : ℕ) → 0 < max → length (gets input max).0 < max
unfolding gets
length-gets input max lt = omega (arith, length-gets_from input 0 max lt)

-- `strchr` finds the first byte that is `c`.
pub strchr-IsFirst : (s : List ℕ) (c i : ℕ) → strchr s c ≡ some i → IsFirst (λ x. x == c) s i
strchr-IsFirst s c i h = find_index?-IsFirst (λ x. x == c) s i (sym (strchr-find_index? s c) ∙ h)
