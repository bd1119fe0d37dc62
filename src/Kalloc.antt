-- ===== src/Kalloc.antt =====
-- The physical page allocator (kernel/kalloc.c). `kmem.freelist` is the list of the pages that its
-- `next` pointers link; a page is its address. `first` is the linker's `end`.
pub mod Pages
mod Tests
use os_cea.Base.{
  ℕ, zero, suc, ◌+◌, ◌-◌, ◌*◌, ◌/◌, ◌%◌, ◌^◌, Bool, true, false, not, ◌&&◌, ◌||◌, Option, none,
  some, List, [], ◌∷◌, ◌==◌, leb, ltb, if◌then◌else◌,
}

abbrev pub pgsize : ℕ
pgsize = 4096

abbrev pub phystop : ℕ
phystop = 0x88000000

-- PGROUNDUP on a uint64
pub pgroundup : ℕ → ℕ
pgroundup sz = (sz + pgsize - 1) % 2 ^ 64 / pgsize * pgsize

-- `kmem` and the bytes of physical memory.
pub record Memory : Type 0 where
  pub freelist : List ℕ
  pub byte : ℕ → ℕ

-- memset(pa, c, PGSIZE)
pub fill : ℕ → ℕ → (ℕ → ℕ) → ℕ → ℕ
fill pa c byte a = if leb pa a && ltb a (pa + pgsize) then c else byte a

-- `none` is the panic.
pub kfree : ℕ → ℕ → Memory → Option Memory
kfree first pa m =
    if not (pa % pgsize == 0) || (ltb pa first || leb phystop pa)
    then none
    else some (record { freelist = pa ∷ m.freelist; byte = fill pa 1 m.byte })

-- The address of a page, 0 if there is none.
unfoldable pub kalloc : Memory → ℕ × Memory
kalloc m = elim m.freelist [
  | [] ↦ (0, m)
  | r ∷ rest ↦ (r, record { freelist = rest; byte = fill r 5 m.byte })
]

-- The loop of `freerange` from `p` on; `none` is a panic, or the fuel used up.
pub free_from : ℕ → ℕ → ℕ → ℕ → Memory → Option Memory
free_from zero first p pa_end m = none
free_from (suc fuel) first p pa_end m = elim (leb (p + pgsize) pa_end) [
  | false ↦ some m
  | true ↦ elim (kfree first p m) [
    | none ↦ none
    | some m' ↦ free_from fuel first (p + pgsize) pa_end m'
  ]
]

pub freerange : ℕ → ℕ → ℕ → ℕ → Memory → Option Memory
freerange fuel first pa_start pa_end m = free_from fuel first (pgroundup pa_start) pa_end m

-- Enough fuel for every page below PHYSTOP.
pub kinit : ℕ → Memory → Option Memory
kinit first m = freerange (phystop / pgsize + 1) first first phystop m
