-- ===== src/Vm/Space.antt =====
-- User address spaces (kernel/vm.c: uvmunmap, uvmalloc, uvmdealloc, uvmcopy, uvmclear, freewalk, uvmfree
-- and vmfault). `first` is the linker's `end`; `none` is a panic.
pub mod Unmap
use os_cea.Base.{
  ℕ, zero, suc, ◌+◌, ◌-◌, ◌*◌, ◌/◌, ◌%◌, ◌^◌, Bool, true, false, not, ◌&&◌, Option, none, some,
  ◌==◌, leb, ltb, if◌then◌else◌,
}
use os_cea.Kalloc
use os_cea.Kalloc.{pgsize, pgroundup, fill}
use os_cea.Str.{memmove}
use os_cea.Vm.{
  Mem, is_valid, is_leaf, pa2pte, pte2pa, pte_flags, pgrounddown, set_pte, fill_words, alloc,
  free_page, walk, entry_of, mappages, ismapped,
}

abbrev pub store_pte : ℕ → ℕ → ℕ → Mem → Mem
store_pte page index v m = record m { pte = set_pte page index v m.pte }

-- memset(pa, 0, PGSIZE)
abbrev pub zero_page : ℕ → Mem → Mem
zero_page pa m = record {
  phys = record m.phys { byte = fill pa 0 m.phys.byte };
  pte = fill_words pa 0 m.pte;
}

-- What the body of the loop of `uvmunmap` does with one entry.
pub unmap_entry : ℕ → Bool → Option (ℕ × ℕ) → Mem → Option Mem
unmap_entry first do_free none m = some m
unmap_entry first do_free (some (page, index)) m = elim (is_valid (m.pte page index)) [
  | false ↦ some m
  | true ↦ elim do_free [
    | false ↦ some (store_pte page index 0 m)
    | true ↦ elim (free_page first (pte2pa (m.pte page index)) m) [
      | none ↦ none
      | some m' ↦ some (store_pte page index 0 m')
    ]
  ]
]

pub unmap_from : ℕ → ℕ → ℕ → ℕ → Bool → Mem → Option Mem
unmap_from first zero pagetable a do_free m = some m
unmap_from first (suc n) pagetable a do_free m = elim (walk pagetable a false m) [
  | none ↦ none
  | some (slot, m') ↦ elim (unmap_entry first do_free slot m') [
    | none ↦ none
    | some m'' ↦ unmap_from first n pagetable (a + pgsize) do_free m''
  ]
]

-- The rounds of the loop are those before `a` is `va + npages*PGSIZE`, a sum of type uint64.
pub uvmunmap : ℕ → ℕ → ℕ → ℕ → Bool → Mem → Option Mem
uvmunmap first pagetable va npages do_free m =
    if not (va % pgsize == 0)
    then none
    else unmap_from first (((va + npages * pgsize) % 2 ^ 64 - va) / pgsize) pagetable va do_free m

-- A uint64 stored in an `int` and read as a uint64 again.
abbrev pub through_int : ℕ → ℕ
through_int n = let k = n % 2 ^ 32 in if ltb k (2 ^ 31) then k else k + (2 ^ 64 - 2 ^ 32)

pub uvmdealloc : ℕ → ℕ → ℕ → ℕ → Mem → Option (ℕ × Mem)
uvmdealloc first pagetable oldsz newsz m =
    if leb oldsz newsz
    then some (oldsz, m)
    else if ltb (pgroundup newsz) (pgroundup oldsz)
    then elim (uvmunmap first pagetable (pgroundup newsz)
        (through_int ((pgroundup oldsz - pgroundup newsz) / pgsize)) true m) [
          | none ↦ none
          | some m' ↦ some (newsz, m')
        ]
    else some (newsz, m)

-- The value 0 after `uvmdealloc`.
abbrev give_back : Option (ℕ × Mem) → Option (ℕ × Mem)
give_back r = elim r [ none ↦ none | some (_, m) ↦ some (0, m) ]

-- The loop of `uvmalloc` with `n` pages to go; PTE_R|PTE_U is 18.
pub alloc_from : ℕ → ℕ → ℕ → ℕ → ℕ → ℕ → ℕ → Mem → Option (ℕ × Mem)
alloc_from first zero pagetable oldsz a newsz xperm m = some (newsz, m)
alloc_from first (suc n) pagetable oldsz a newsz xperm m =
    (let (mem, m₁) = alloc m in
      elim (mem == 0) [
        | true ↦ give_back (uvmdealloc first pagetable a oldsz m₁)
        | false ↦ elim (mappages pagetable a pgsize mem (18 + xperm) (zero_page mem m₁)) [
          | none ↦ none
          | some (true, m₂) ↦ alloc_from first n pagetable oldsz (a + pgsize) newsz xperm m₂
          | some (false, m₂) ↦ elim (free_page first mem m₂) [
            | none ↦ none
            | some m₃ ↦ give_back (uvmdealloc first pagetable a oldsz m₃)
          ]
        ]
      ])

-- `xperm` is 0, PTE_W or PTE_X or both, so that the flags add up.
pub uvmalloc : ℕ → ℕ → ℕ → ℕ → ℕ → Mem → Option (ℕ × Mem)
uvmalloc first pagetable oldsz newsz xperm m =
    if ltb newsz oldsz
    then some (oldsz, m)
    else alloc_from first ((newsz - pgroundup oldsz + (pgsize - 1)) / pgsize) pagetable
        (pgroundup oldsz) (pgroundup oldsz) newsz xperm m

-- The loop of `uvmcopy` from `i` on; the second value is whether all pages are copied, the first the
-- address at which it stopped.
pub copy_from : ℕ → ℕ → ℕ → ℕ → ℕ → Mem → Option (ℕ × Bool × Mem)
copy_from first zero old new i m = some (i, true, m)
copy_from first (suc n) old new i m = elim (walk old i false m) [
  | none ↦ none
  | some (none, m₁) ↦ copy_from first n old new (i + pgsize) m₁
  | some (some (page, index), m₁) ↦ elim (is_valid (m₁.pte page index)) [
    | false ↦ copy_from first n old new (i + pgsize) m₁
    | true ↦
        (let pte = m₁.pte page index in
          let (mem, m₂) = alloc m₁ in
          elim (mem == 0) [
            | true ↦ some (i, false, m₂)
            | false ↦
                elim (mappages new i pgsize mem (pte_flags pte) (record m₂ {
                  phys = record m₂.phys { byte = memmove mem (pte2pa pte) pgsize m₂.phys.byte };
                })) [
                  | none ↦ none
                  | some (true, m₃) ↦ copy_from first n old new (i + pgsize) m₃
                  | some (false, m₃) ↦ elim (free_page first mem m₃) [
                    | none ↦ none
                    | some m₄ ↦ some (i, false, m₄)
                  ]
                ]
          ])
  ]
]

-- The Boolean is `true` for the return value 0.
pub uvmcopy : ℕ → ℕ → ℕ → ℕ → Mem → Option (Bool × Mem)
uvmcopy first old new sz m = elim (copy_from first ((sz + (pgsize - 1)) / pgsize) old new 0 m) [
  | none ↦ none
  | some (i, true, m') ↦ some (true, m')
  | some (i, false, m') ↦ elim (uvmunmap first new 0 (i / pgsize) true m') [
    | none ↦ none
    | some m'' ↦ some (false, m'')
  ]
]

pub uvmclear : ℕ → ℕ → Mem → Option Mem
uvmclear pagetable va m = elim (walk pagetable va false m) [
  | none ↦ none
  | some (none, m') ↦ none
  | some (some (page, index), m') ↦
      (let pte = m'.pte page index in some (store_pte page index (pte - pte / 16 % 2 * 16) m'))
]

-- The loop of `freewalk` from entry `i` on, with `n` entries to go.
pub free_entries : (ℕ → Mem → Option Mem) → ℕ → ℕ → ℕ → Mem → Option Mem
free_entries free_child zero i pagetable m = some m
free_entries free_child (suc n) i pagetable m = elim (is_valid (m.pte pagetable i)) [
  | false ↦ free_entries free_child n (i + 1) pagetable m
  | true ↦ elim (is_leaf (m.pte pagetable i)) [
    | true ↦ none
    | false ↦ elim (free_child (pte2pa (m.pte pagetable i)) m) [
      | none ↦ none
      | some m' ↦ free_entries free_child n (i + 1) pagetable (store_pte pagetable i 0 m')
    ]
  ]
]

-- `depth` bounds the recursion: page tables have three levels.
pub freewalk : ℕ → ℕ → ℕ → Mem → Option Mem
freewalk first zero pagetable m = none
freewalk first (suc depth) pagetable m =
    elim (free_entries (freewalk first depth) 512 0 pagetable m) [
      | none ↦ none
      | some m' ↦ free_page first pagetable m'
    ]

pub uvmfree : ℕ → ℕ → ℕ → Mem → Option Mem
uvmfree first pagetable sz m =
    elim (if ltb 0 sz then uvmunmap first pagetable 0 (pgroundup sz / pgsize) true m else some m) [
      | none ↦ none
      | some m' ↦ freewalk first 3 pagetable m'
    ]

-- `sz` and `own` are the size and the page table of the running process; PTE_W|PTE_U|PTE_R is 22.
pub vmfault : ℕ → ℕ → ℕ → ℕ → ℕ → Mem → Option (ℕ × Mem)
vmfault first sz own pagetable va m =
    if leb sz va then some (0, m) else elim (ismapped pagetable (pgrounddown va) m) [
      | none ↦ none
      | some true ↦ some (0, m)
      | some false ↦
          (let (mem, m₁) = alloc m in
            elim (mem == 0) [
              | true ↦ some (0, m₁)
              | false ↦ elim (mappages own (pgrounddown va) pgsize mem 22 (zero_page mem m₁)) [
                | none ↦ none
                | some (true, m₂) ↦ some (mem, m₂)
                | some (false, m₂) ↦ elim (free_page first mem m₂) [
                  | none ↦ none
                  | some m₃ ↦ some (0, m₃)
                ]
              ]
            ])
    ]
