-- ===== src/Vm/Copy.antt =====
-- Copies between user and kernel memory (kernel/vm.c: copyin, copyout, copyinstr). `first`, `sz` and
-- `own` are as in Space. Each round of a loop copies at least a byte, so that fuel for the bytes asked
-- for is enough; `none` is a panic or the fuel used up. A sum of addresses cannot wrap around: above
-- MAXVA no page is found.
pub mod Chunks
use os_cea.Base.{
  ℕ, zero, suc, ◌+◌, ◌-◌, Bool, true, false, Option, none, some, ◌==◌, leb, ltb, if◌then◌else◌,
}
use os_cea.Kalloc.{pgsize}
use os_cea.Str.{Memory, write, memmove}
use os_cea.Vm.{Mem, maxva, is_writable, pgrounddown, walk, walkaddr, entry_of}
use os_cea.Vm.Space.{vmfault}

-- `mem` with other bytes.
abbrev pub with_bytes : Mem → Memory → Mem
with_bytes m b = record m { phys = record m.phys { byte = b } }

-- The frame of a page, after a page fault if need be.
pub frame_of : ℕ → ℕ → ℕ → ℕ → ℕ → Mem → Option (ℕ × Mem)
frame_of first sz own pagetable va0 m =
    (let pa0 = walkaddr pagetable va0 m in
      elim (pa0 == 0) [ true ↦ vmfault first sz own pagetable va0 m | false ↦ some (pa0, m) ])

-- How many of `len` bytes from `va` on lie in its page.
pub in_page : ℕ → ℕ → ℕ
in_page va len = let n = pgsize - (va - pgrounddown va) in if ltb len n then len else n

-- The Boolean is `true` for the return value 0.
pub copyin : ℕ → ℕ → ℕ → ℕ → ℕ → ℕ → ℕ → ℕ → Mem → Option (Bool × Mem)
copyin first sz own zero pagetable dst srcva len m = if len == 0 then some (true, m) else none
copyin first sz own (suc fuel) pagetable dst srcva len m = elim (len == 0) [
  | true ↦ some (true, m)
  | false ↦ elim (frame_of first sz own pagetable (pgrounddown srcva) m) [
    | none ↦ none
    | some (pa0, m') ↦ elim (pa0 == 0) [
      | true ↦ some (false, m')
      | false ↦
          (let n = in_page srcva len in
            copyin first sz own fuel pagetable (dst + n) (pgrounddown srcva + pgsize) (len - n)
              (with_bytes m' (memmove dst (pa0 + (srcva - pgrounddown srcva)) n m'.phys.byte)))
    ]
  ]
]

-- A null pointer to an entry is read only when `pagetable` is not the table of the running process;
-- that is `none` too.
pub copyout : ℕ → ℕ → ℕ → ℕ → ℕ → ℕ → ℕ → ℕ → Mem → Option (Bool × Mem)
copyout first sz own zero pagetable dstva src len m = if len == 0 then some (true, m) else none
copyout first sz own (suc fuel) pagetable dstva src len m = elim (len == 0) [
  | true ↦ some (true, m)
  | false ↦ elim (leb maxva (pgrounddown dstva)) [
    | true ↦ some (false, m)
    | false ↦ elim (frame_of first sz own pagetable (pgrounddown dstva) m) [
      | none ↦ none
      | some (pa0, m') ↦ elim (pa0 == 0) [
        | true ↦ some (false, m')
        | false ↦ elim (walk pagetable (pgrounddown dstva) false m') [
          | none ↦ none
          | some (slot, m'') ↦ elim (entry_of slot m'') [
            | none ↦ none
            | some pte ↦ elim (is_writable pte) [
              | false ↦ some (false, m'')
              | true ↦
                  (let n = in_page dstva len in
                    copyout first sz own fuel pagetable (pgrounddown dstva + pgsize) (src + n)
                      (len - n)
                      (with_bytes m''
                        (memmove (pa0 + (dstva - pgrounddown dstva)) src n m''.phys.byte)))
            ]
          ]
        ]
      ]
    ]
  ]
]

-- The inner loop of `copyinstr` over `n` bytes; the Boolean is `got_null`.
pub copy_chars : ℕ → ℕ → ℕ → Memory → Bool × Memory
copy_chars zero p dst b = (false, b)
copy_chars (suc n) p dst b = elim (b p == 0) [
  | true ↦ (true, write b dst 0)
  | false ↦ copy_chars n (p + 1) (dst + 1) (write b dst (b p))
]

pub copyinstr : ℕ → ℕ → ℕ → ℕ → ℕ → Mem → Option (Bool × Mem)
copyinstr zero pagetable dst srcva max m = if max == 0 then some (false, m) else none
copyinstr (suc fuel) pagetable dst srcva max m = elim (max == 0) [
  | true ↦ some (false, m)
  | false ↦ elim (walkaddr pagetable (pgrounddown srcva) m == 0) [
    | true ↦ some (false, m)
    | false ↦
        (let n = in_page srcva max in
          let (got_null, b) =
            copy_chars n (walkaddr pagetable (pgrounddown srcva) m + (srcva - pgrounddown srcva))
              dst m.phys.byte in
          elim got_null [
            | true ↦ some (true, with_bytes m b)
            | false ↦
                copyinstr fuel pagetable (dst + n) (pgrounddown srcva + pgsize) (max - n)
                  (with_bytes m b)
          ])
  ]
]
