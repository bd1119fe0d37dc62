-- ===== src/Str.antt =====
-- Memory and strings (kernel/string.c). Memory is a function from addresses to bytes.
pub mod Move
pub mod Copy
pub mod Compare
mod Tests
use os_cea.Base.{
  ℕ, zero, suc, ◌+◌, ◌%◌, Bool, true, false, not, ◌&&◌, Option, none, some, ◌==◌, ltb,
  if◌then◌else◌,
}
use os_cea.Base.Int.{ℤ, pos, sub_ℕ}

abbrev pub Memory : Type 0
Memory = ℕ → ℕ

abbrev pub write : Memory → ℕ → ℕ → Memory
write mem a v x = if x == a then v else mem x

-- The loop of `memset`, from `i` on with `n` rounds left.
pub memset_from : ℕ → ℕ → ℕ → ℕ → Memory → Memory
memset_from zero dst c i mem = mem
memset_from (suc n) dst c i mem = memset_from n dst c (i + 1) (write mem (dst + i) (c % 256))

pub memset : ℕ → ℕ → ℕ → Memory → Memory
memset dst c n mem = memset_from n dst c 0 mem

pub memcmp : ℕ → ℕ → ℕ → Memory → ℤ
memcmp v₁ v₂ zero mem = pos 0
memcmp v₁ v₂ (suc n) mem =
    let rest = memcmp (v₁ + 1) (v₂ + 1) n mem in
    if mem v₁ == mem v₂ then rest else sub_ℕ (mem v₁) (mem v₂)

-- `while(n-- > 0) *d++ = *s++;`
pub copy_up : ℕ → ℕ → ℕ → Memory → Memory
copy_up d s zero mem = mem
copy_up d s (suc n) mem = copy_up (d + 1) (s + 1) n (write mem d (mem s))

-- `s += n; d += n; while(n-- > 0) *--d = *--s;`, with `d` and `s` the starts of the two blocks.
pub copy_down : ℕ → ℕ → ℕ → Memory → Memory
copy_down d s zero mem = mem
copy_down d s (suc n) mem = copy_down d s n (write mem (d + n) (mem (s + n)))

-- The test `n == 0` returns early where both loops would do nothing.
pub memmove : ℕ → ℕ → ℕ → Memory → Memory
memmove d s n mem =
    if n == 0
    then mem
    else if ltb s d && ltb d (s + n)
    then copy_down d s n mem
    else copy_up d s n mem

pub memcpy : ℕ → ℕ → ℕ → Memory → Memory
memcpy dst src n mem = memmove dst src n mem

pub strncmp : ℕ → ℕ → ℕ → Memory → ℤ
strncmp p q zero mem = pos 0
strncmp p q (suc n) mem =
    let rest = strncmp (p + 1) (q + 1) n mem in
    if not (mem p == 0) && mem p == mem q then rest else sub_ℕ (mem p) (mem q)

-- `while(n-- > 0) *s++ = 0;`
pub zero_fill : ℕ → ℕ → Memory → Memory
zero_fill s zero mem = mem
zero_fill s (suc n) mem = zero_fill (s + 1) n (write mem s 0)

pub strncpy : ℕ → ℕ → ℕ → Memory → Memory
strncpy s t zero mem = mem
strncpy s t (suc n) mem =
    let mem' : Memory = write mem s (mem t) in
    let rest = strncpy (s + 1) (t + 1) n mem' in
    if mem t == 0 then zero_fill (s + 1) n mem' else rest

-- The loop of `safestrcpy` and its last assignment; `n` counts the rounds that `--n > 0` allows.
pub safestrcpy_from : ℕ → ℕ → ℕ → Memory → Memory
safestrcpy_from s t zero mem = write mem s 0
safestrcpy_from s t (suc n) mem =
    let mem' : Memory = write mem s (mem t) in
    let rest = safestrcpy_from (s + 1) (t + 1) n mem' in
    if mem t == 0 then write mem' (s + 1) 0 else rest

-- The buffer size is not negative where the kernel calls it.
pub safestrcpy : ℕ → ℕ → ℕ → Memory → Memory
safestrcpy s t zero mem = mem
safestrcpy s t (suc n) mem = safestrcpy_from s t n mem

-- The loop of `strlen` from `n` on; `none` is the fuel used up.
pub strlen_from : ℕ → ℕ → ℕ → Memory → Option ℕ
strlen_from zero s n mem = none
strlen_from (suc fuel) s n mem =
    let rest = strlen_from fuel s (n + 1) mem in if mem (s + n) == 0 then some n else rest
