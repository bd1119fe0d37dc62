-- ===== src/Kalloc/Tests.antt =====
-- The allocator's theorems with a kernel that ends two and a half pages below PHYSTOP.
use os_cea.Base.{ℕ, ◌/◌, ◌≡◌, some, [], ◌++◌, arith}
use os_cea.Kalloc.{Memory, pgsize, phystop, kinit}
use os_cea.Kalloc.Pages.{pages_below, whole_pages, kinit-pages}

abbrev kernel_end : ℕ
kernel_end = 0x87ffd800

abbrev full : Memory
full = record { freelist = []; byte = λ a. 0 }

kinit-pages_example :
    (m : Memory) × (kinit kernel_end full ≡ some m)
    × (m.freelist ≡ pages_below (phystop / pgsize) (whole_pages kernel_end) ++ [])
kinit-pages_example = kinit-pages kernel_end full (omega arith)
