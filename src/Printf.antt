-- ===== src/Printf.antt =====
-- Numbers on the console (kernel/printf.c: printint, printptr). The characters are bytes, and a `long long`
-- its 64 bits as a natural number.
pub mod Digits
mod Tests
use os_cea.Base.{
  ℕ, zero, suc, ◌+◌, ◌-◌, ◌*◌, ◌/◌, ◌%◌, ◌^◌, Bool, true, false, ◌&&◌, Option, none, some, List, [],
  ◌∷◌, ◌++◌, ◌==◌, leb, ltb, if◌then◌else◌,
}

-- digits[d]
abbrev pub digit : ℕ → ℕ
digit d = if ltb d 10 then 48 + d else 87 + d

-- The do loop of `printint`: what it appends to `buf`, the last digit first. `none` is the fuel used up.
pub digits_from : ℕ → ℕ → ℕ → Option (List ℕ)
digits_from zero base x = none
digits_from (suc n) base x = elim (x / base == 0) [
  | true ↦ some (digit (x % base) ∷ [])
  | false ↦ elim (digits_from n base (x / base)) [
    | none ↦ none
    | some ds ↦ some (digit (x % base) ∷ ds)
  ]
]

-- `buf`, when the last loop starts; 64 rounds are enough for 64 bits.
pub fill_buf : ℕ → ℕ → Bool → Option (List ℕ)
fill_buf xx base sign =
    if sign && leb (2 ^ 63) xx
    then elim (digits_from 64 base (2 ^ 64 - xx)) [ none ↦ none | some ds ↦ some (ds ++ (45 ∷ [])) ]
    else digits_from 64 base xx

-- `while(--i >= 0) consputc(buf[i]);`
pub reversed : List ℕ → List ℕ
reversed [] = []
reversed (c ∷ cs) = reversed cs ++ (c ∷ [])

pub printint : ℕ → ℕ → Bool → Option (List ℕ)
printint xx base sign = elim (fill_buf xx base sign) [
  | none ↦ none
  | some buf ↦ some (reversed buf)
]

-- The loop of `printptr` with `n` rounds to go.
pub hex_from : ℕ → ℕ → List ℕ
hex_from zero x = []
hex_from (suc n) x = digit (x / 2 ^ 60) ∷ hex_from n (x * 16 % 2 ^ 64)

pub printptr : ℕ → List ℕ
printptr x = 48 ∷ (120 ∷ hex_from 16 x)
