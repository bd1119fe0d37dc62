-- ===== src/Vm.antt =====
-- Page tables (kernel/vm.c). The 64-bit words of the pages that serve as page tables are `pte`; `phys`
-- is the allocator of kernel/kalloc.c with the bytes of the other pages. A pointer to a page-table
-- entry is its page and its index there. `none` is a panic.
pub mod Tree
pub mod Grow
pub mod Walk
pub mod Leaf
pub mod Map
pub mod Space
pub mod Copy
mod Tests
use os_cea.Base.{
  ℕ, zero, suc, ◌+◌, ◌-◌, ◌*◌, ◌/◌, ◌%◌, ◌^◌, Bool, true, false, not, ◌&&◌, ◌||◌, Option, none,
  some, List, [], ◌∷◌, ◌==◌, leb, ltb, if◌then◌else◌,
}
use os_cea.Kalloc
use os_cea.Kalloc.{kalloc, kfree, pgsize}

abbrev pub maxva : ℕ
maxva = 0x4000000000

pub record Mem : Type 0 where
  pub phys : Kalloc.Memory
  pub pte : ℕ → ℕ → ℕ

-- `pte & PTE_V`, `pte & PTE_W`, `pte & PTE_U`, and `pte & (PTE_R|PTE_W|PTE_X)`
abbrev pub is_valid : ℕ → Bool
is_valid pte = pte % 2 == 1

abbrev pub is_writable : ℕ → Bool
is_writable pte = pte / 4 % 2 == 1

abbrev pub is_user : ℕ → Bool
is_user pte = pte / 16 % 2 == 1

abbrev pub is_leaf : ℕ → Bool
is_leaf pte = not (pte / 2 % 8 == 0)

abbrev pub pa2pte : ℕ → ℕ
pa2pte pa = pa / 4096 * 1024

abbrev pub pte2pa : ℕ → ℕ
pte2pa pte = pte / 1024 * 4096 % 2 ^ 64

abbrev pub pte_flags : ℕ → ℕ
pte_flags pte = pte % 1024

-- `PA2PTE(pa) | perm | PTE_V`, where `perm` is below 2 ^ 10
abbrev pub leaf_pte : ℕ → ℕ → ℕ
leaf_pte pa perm = pa2pte pa + (perm + 1 - perm % 2)

abbrev pub px : ℕ → ℕ → ℕ
px level va = va / 2 ^ (12 + 9 * level) % 512

abbrev pub pgrounddown : ℕ → ℕ
pgrounddown a = a / pgsize * pgsize

-- `*pte = v`
abbrev pub set_pte : ℕ → ℕ → ℕ → (ℕ → ℕ → ℕ) → ℕ → ℕ → ℕ
set_pte page index v w p i = if p == page && i == index then v else w p i

-- Every word of a page.
abbrev pub fill_words : ℕ → ℕ → (ℕ → ℕ → ℕ) → ℕ → ℕ → ℕ
fill_words page v w p i = if p == page then v else w p i

-- kalloc, whose junk is in the words too.
pub alloc : Mem → ℕ × Mem
alloc m =
    let (r, phys) = kalloc m.phys in
    (
      r,
      record { phys = phys; pte = if r == 0 then m.pte else fill_words r 0x0505050505050505 m.pte },
    )

pub free_page : ℕ → ℕ → Mem → Option Mem
free_page first pa m = elim (kfree first pa m.phys) [
  | none ↦ none
  | some phys ↦ some (record { phys = phys; pte = fill_words pa 0x0101010101010101 m.pte })
]

-- The loop of `walk` from `level` down.
pub walk_from : ℕ → ℕ → ℕ → Bool → Mem → Option (ℕ × ℕ) × Mem
walk_from zero pagetable va create m = (some (pagetable, px 0 va), m)
walk_from (suc level) pagetable va create m =
    elim (is_valid (m.pte pagetable (px (suc level) va))) [
      | true ↦ walk_from level (pte2pa (m.pte pagetable (px (suc level) va))) va create m
      | false ↦ elim create [
        | false ↦ (none, m)
        | true ↦
            (let (r, m') = alloc m in
              elim (r == 0) [
                | true ↦ (none, m')
                | false ↦ walk_from level r va true (record m' {
                  pte =
                      set_pte pagetable (px (suc level) va) (pa2pte r + 1) (fill_words r 0 m'.pte);
                })
              ])
      ]
    ]

pub walk : ℕ → ℕ → Bool → Mem → Option (Option (ℕ × ℕ) × Mem)
walk pagetable va create m = if leb maxva va then none else some (walk_from 2 pagetable va create m)

-- `none` is the null pointer here.
pub entry_of : Option (ℕ × ℕ) → Mem → Option ℕ
entry_of none m = none
entry_of (some (page, index)) m = some (m.pte page index)

pub walkaddr : ℕ → ℕ → Mem → ℕ
walkaddr pagetable va m =
    if leb maxva va then 0 else elim (entry_of (walk_from 2 pagetable va false m).0 m) [
      | none ↦ 0
      | some pte ↦ if not (is_valid pte) then 0 else if not (is_user pte) then 0 else pte2pa pte
    ]

-- The loop of `mappages` with `n` pages to go. The Boolean is `true` for the return value 0.
pub map_from : ℕ → ℕ → ℕ → ℕ → ℕ → Mem → Option (Bool × Mem)
map_from zero pagetable a pa perm m = some (true, m)
map_from (suc n) pagetable a pa perm m = elim (walk pagetable a true m) [
  | none ↦ none
  | some (none, m') ↦ some (false, m')
  | some (some (page, index), m') ↦ elim (is_valid (m'.pte page index)) [
    | true ↦ none
    | false ↦
        map_from n pagetable (a + pgsize) (pa + pgsize) perm
          (record m' { pte = set_pte page index (leaf_pte pa perm) m'.pte })
  ]
]

-- The loop stops at `a == last`, after `size / PGSIZE` rounds.
pub mappages : ℕ → ℕ → ℕ → ℕ → ℕ → Mem → Option (Bool × Mem)
mappages pagetable va size pa perm m =
    if not (va % pgsize == 0) || (not (size % pgsize == 0) || size == 0)
    then none
    else map_from (size / pgsize) pagetable va pa perm m

-- `true` for the return without a panic.
pub kvmmap : ℕ → ℕ → ℕ → ℕ → ℕ → Mem → Option Mem
kvmmap kpgtbl va pa sz perm m = elim (mappages kpgtbl va sz pa perm m) [
  | none ↦ none
  | some (ok, m') ↦ if ok then some m' else none
]

pub ismapped : ℕ → ℕ → Mem → Option Bool
ismapped pagetable va m = elim (walk pagetable va false m) [
  | none ↦ none
  | some (slot, m') ↦ elim (entry_of slot m') [ none ↦ some false | some pte ↦ some (is_valid pte) ]
]

pub uvmcreate : Mem → ℕ × Mem
uvmcreate m =
    let (r, m') = alloc m in
    if r == 0 then (0, m') else (r, record m' { pte = fill_words r 0 m'.pte })
