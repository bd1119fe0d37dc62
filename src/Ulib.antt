-- ===== src/Ulib.antt =====
-- The C library of the user programs (user/ulib.c). memmove, memset and memcmp are on the memory of
-- `Str`, whose copying and filling loops are the same code. Elsewhere a string is the list of its bytes
-- up to the NUL, and a pointer into it an index.
pub mod Strings
pub mod Blocks
use mathlib.Core.Option
use os_cea.Base.{
  ℕ, zero, suc, ◌+◌, ◌-◌, ◌*◌, Bool, true, false, not, ◌&&◌, ◌||◌, Option, none, some, List, [],
  ◌∷◌, ◌==◌, leb, ltb, if◌then◌else◌,
}
use os_cea.Base.Int.{ℤ, pos, sub_ℕ}
use os_cea.Str.{Memory, write, memset_from, copy_up, copy_down}

-- `while((*s++ = *t++) != 0)` for the string `str` at `t`; the last round copies the NUL.
pub strcpy : ℕ → List ℕ → Memory → Memory
strcpy s [] mem = write mem s 0
strcpy s (c ∷ str) mem = strcpy (s + 1) str (write mem s c)

pub strcmp : List ℕ → List ℕ → ℤ
strcmp [] [] = pos 0
strcmp [] (d ∷ q) = sub_ℕ 0 d
strcmp (c ∷ p) [] = sub_ℕ c 0
strcmp (c ∷ p) (d ∷ q) = let rest = strcmp p q in if c == d then rest else sub_ℕ c d

pub strlen : List ℕ → ℕ
strlen [] = 0
strlen (c ∷ s) = strlen s + 1

pub strchr : List ℕ → ℕ → Option ℕ
strchr [] c = none
strchr (x ∷ s) c = let rest = strchr s c in if x == c then some 0 else Option.map suc rest

-- `input` is what each `read` of one byte gives, `none` for the end of the file or an error; `i` bytes
-- are in the buffer. The result is the line without its NUL, and the input that is left.
pub gets_from : List (Option ℕ) → ℕ → ℕ → List ℕ × List (Option ℕ)
gets_from [] i max = ([], [])
gets_from (none ∷ input) i max = if ltb (i + 1) max then ([], input) else ([], none ∷ input)
gets_from (some c ∷ input) i max =
    let rest = gets_from input (i + 1) max in
    if ltb (i + 1) max
    then (if c == 10 || c == 13 then (c ∷ [], input) else (c ∷ rest.0, rest.1))
    else ([], some c ∷ input)

pub gets : List (Option ℕ) → ℕ → List ℕ × List (Option ℕ)
gets input max = gets_from input 0 max

-- The loop of `atoi`; the number fits in an int.
pub atoi_from : ℕ → List ℕ → ℕ
atoi_from n [] = n
atoi_from n (c ∷ s) =
    let rest = atoi_from (n * 10 + c - 48) s in if leb 48 c && leb c 57 then rest else n

pub atoi : List ℕ → ℕ
atoi s = atoi_from 0 s

pub memset : ℕ → ℕ → ℕ → Memory → Memory
memset dst c n mem = memset_from n dst c 0 mem

-- `n` is not negative.
pub memmove : ℕ → ℕ → ℕ → Memory → Memory
memmove vdst vsrc n mem =
    if ltb vdst vsrc then copy_up vdst vsrc n mem else copy_down vdst vsrc n mem

pub memcpy : ℕ → ℕ → ℕ → Memory → Memory
memcpy dst src n mem = memmove dst src n mem

-- `char` is unsigned on RISC-V.
pub memcmp : ℕ → ℕ → ℕ → Memory → ℤ
memcmp s₁ s₂ zero mem = pos 0
memcmp s₁ s₂ (suc n) mem =
    let rest = memcmp (s₁ + 1) (s₂ + 1) n mem in
    if not (mem s₁ == mem s₂) then sub_ℕ (mem s₁) (mem s₂) else rest
