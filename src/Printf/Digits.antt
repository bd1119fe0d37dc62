-- ===== src/Printf/Digits.antt =====
-- What printint (kernel/printf.c) prints, and that its buffer does not overflow.
use os_cea.Base.{
  ℕ, zero, suc, ◌+◌, ◌-◌, ◌*◌, ◌/◌, ◌%◌, ◌^◌, ◌≤◌, ◌<◌, ◌≡◌, ◌⊎◌, inl, inr, refl, sym, ap, ◌∙◌,
  Bool, true, false, ◌&&◌, Option, none, some, List, [], ◌∷◌, ◌++◌, ◌==◌, leb, ltb, if◌then◌else◌,
  arith, Bool-cases, length, length-append,
}
use os_cea.Printf.{digit, digits_from, fill_buf}

-- The value of a digit character.
abbrev pub digit_value : ℕ → ℕ
digit_value c = if ltb c 58 then c - 48 else c - 87

-- The number that the digits denote, the last digit first.
abbrev pub value : ℕ → List ℕ → ℕ
value base [] = 0
value base (c ∷ cs) = digit_value c + base * value base cs

digit_value-digit : (d : ℕ) → d < 16 → digit_value (digit d) ≡ d
digit_value-digit d lt = ground arith

-- The bases that printf uses.
abbrev pub IsBase : ℕ → Type 0
IsBase base = (base ≡ 10) ⊎ (base ≡ 16)

-- One round fewer is left for each factor of ten.
abbrev pub Digits : ℕ → ℕ → ℕ → Option (List ℕ) → Type 0
Digits n base x out = (ds : List ℕ) × (out ≡ some ds) × (length ds ≤ n) × (value base ds ≡ x)

digits_from-step :
    (n base x : ℕ) (ds : List ℕ)
    → (x / base == 0) ≡ false
    → digits_from n base (x / base) ≡ some ds
    → digits_from (suc n) base x ≡ some (digit (x % base) ∷ ds)
unfolding digits_from
digits_from-step n base x ds f e = rw (f, e, digits_from) refl

digits_from-last :
    (n base x : ℕ)
    → (x / base == 0) ≡ true
    → digits_from (suc n) base x ≡ some (digit (x % base) ∷ [])
unfolding digits_from
digits_from-last n base x t = rw (t, digits_from) refl

-- Division by a base of at least ten.
quotient : (base x y : ℕ) → IsBase base → x < 10 * y → x / base < y
quotient base x y (inl e) lt = rw e (omega arith)
quotient base x y (inr e) lt = rw e (omega arith)

divide : (base x : ℕ) → IsBase base → (x % base < 16) × (x % base + base * (x / base) ≡ x)
divide base x (inl e) = rw e (omega arith, omega arith)
divide base x (inr e) = rw e (omega arith, omega arith)

abbrev pub ten_to : ℕ → ℕ
ten_to zero = 1
ten_to (suc k) = 10 * ten_to k

Digits-last :
    (k n base x : ℕ)
    → IsBase base
    → (x / base == 0) ≡ true
    → Digits (suc k) base x (digits_from (suc n) base x)
Digits-last k n base x h t =
    let (small, sum) = divide base x h in
    let one : digit_value (digit (x % base)) ≡ x % base = digit_value-digit (x % base) small in
    let none_left : x / base ≡ 0 = ground arith in
    let whole : x % base + base * 0 ≡ x = ap (λ q. x % base + base * q) (sym none_left) ∙ sum in
    (
      digit (x % base) ∷ [],
      digits_from-last n base x t,
      omega arith,
      ap (λ v. v + base * 0) one ∙ whole,
    )

Digits-more :
    (k n base x : ℕ)
    → IsBase base
    → (x / base == 0) ≡ false
    → Digits (suc k) base (x / base) (digits_from n base (x / base))
    → Digits (suc (suc k)) base x (digits_from (suc n) base x)
Digits-more k n base x h f (ds, e, le, v) =
    let (small, sum) = divide base x h in
    let one : digit_value (digit (x % base)) ≡ x % base = digit_value-digit (x % base) small in
    (
      digit (x % base) ∷ ds,
      digits_from-step n base x ds f e,
      omega arith,
      ap (λ a. a + base * value base ds) one ∙ (ap (λ q. x % base + base * q) v ∙ sum),
    )

-- A number below a power of ten has at most that many digits, in base 10 and in base 16.
digits_from-Digits :
    (k n base x : ℕ)
    → IsBase base
    → x < ten_to (suc k)
    → k < n
    → Digits (suc k) base x (digits_from n base x)
digits_from-Digits k zero base x h lt enough = absurd (omega arith)
digits_from-Digits zero (suc n) base x h lt enough =
    let small = quotient base x 1 h lt in
    Digits-last zero n base x h (let z : x / base ≡ 0 = omega arith in ground arith)
digits_from-Digits (suc k) (suc n) base x h lt enough = elim (Bool-cases (x / base == 0)) [
  | inl t ↦ Digits-last (suc k) n base x h t
  | inr f ↦ Digits-more k n base x h f (
      digits_from-Digits k n base (x / base) h (quotient base x (ten_to (suc k)) h lt)
        (omega arith))
]

-- What is in `buf`.
pub data Buffered (base xx : ℕ) (sign : Bool) (out : Option (List ℕ)) : Type 0 where
  plain :
      (buf : List ℕ)
      → (sign && leb (2 ^ 63) xx) ≡ false
      → out ≡ some buf
      → length buf ≤ 20
      → value base buf ≡ xx
      → Buffered base xx sign out
  negative :
      (ds : List ℕ)
      → (sign && leb (2 ^ 63) xx) ≡ true
      → out ≡ some (ds ++ (45 ∷ []))
      → length (ds ++ (45 ∷ [])) ≤ 20
      → value base ds ≡ 2 ^ 64 - xx
      → Buffered base xx sign out

abbrev signed : Option (List ℕ) → Option (List ℕ)
signed o = elim o [ none ↦ none | some ds ↦ some (ds ++ (45 ∷ [])) ]

fill_buf-plain :
    (xx base : ℕ) (sign : Bool)
    → (sign && leb (2 ^ 63) xx) ≡ false
    → fill_buf xx base sign ≡ digits_from 64 base xx
unfolding fill_buf
fill_buf-plain xx base sign f = rw f refl

fill_buf-negative :
    (xx base : ℕ) (sign : Bool)
    → (sign && leb (2 ^ 63) xx) ≡ true
    → fill_buf xx base sign ≡ signed (digits_from 64 base (2 ^ 64 - xx))
unfolding fill_buf
fill_buf-negative xx base sign t = rw t refl

high : (xx : ℕ) (sign : Bool) → (sign && leb (2 ^ 63) xx) ≡ true → 2 ^ 63 ≤ xx
high xx true t = ground arith
high xx false t = absurd cc

-- For every 64-bit number, in base 10 and in base 16, the loop of `printint` ends within its fuel, and the
-- 20 bytes of its buffer are enough, the sign included. The digits denote the number, or its negation
-- behind a minus sign if it is printed as signed and is negative.
pub fill_buf-Buffered :
    (xx base : ℕ) (sign : Bool)
    → IsBase base
    → xx < 2 ^ 64
    → Buffered base xx sign (fill_buf xx base sign)
fill_buf-Buffered xx base sign h lt = elim (Bool-cases (sign && leb (2 ^ 63) xx)) [
  | inr f ↦
      (let (buf, e, le, v) = digits_from-Digits 19 64 base xx h (omega arith) (omega arith) in
        plain buf f (fill_buf-plain xx base sign f ∙ e) le v)
  | inl t ↦
      (let big = high xx sign t in
        let (ds, e, le, v) =
          digits_from-Digits 18 64 base (2 ^ 64 - xx) h (omega arith) (omega arith) in
        negative ds t (fill_buf-negative xx base sign t ∙ ap signed e)
          (omega (arith, length-append ds (45 ∷ []))) v)
]
