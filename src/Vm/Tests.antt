-- ===== src/Vm/Tests.antt =====
-- The theorems on page tables, with an empty page table, and with two pages of one that is in use.
use os_cea.Base.{
  ℕ, zero, suc, ◌+◌, ◌-◌, ◌*◌, ◌/◌, ◌<◌, ◌≡◌, ◌≢◌, refl, Bool, true, false, Option, none, some, [],
  ◌∷◌, ◌==◌, ◌&&◌, if◌then◌else◌, arith, true≢false,
}
use os_cea.Kalloc.{kalloc}
use os_cea.Str.{Memory}
use os_cea.Str.Move.{within}
use os_cea.Vm.{Mem, pgrounddown, alloc, walk_from, walk, walkaddr, entry_of, map_from, mappages}
use os_cea.Vm.Tree.{IsTree}
use os_cea.Vm.Map.{Mapped, mappages-Mapped, walkaddr-mappages}
use os_cea.Vm.Space.{uvmunmap}
use os_cea.Vm.Space.Unmap.{Unmapped, uvmunmap-Unmapped}
use os_cea.Vm.Copy.{with_bytes, copyin}
use os_cea.Vm.Copy.Chunks.{phys_of, copied, copyin-bytes}

abbrev fresh : Mem
fresh = record {
  phys = record { freelist = 8192 ∷ 12288 ∷ 16384 ∷ []; byte = λ a. 0 };
  pte = λ p i. 0;
}

abbrev rank : ℕ → ℕ
rank p = if p == 4096 then 2 else 3

fresh-IsTree : IsTree rank fresh.pte fresh.phys.freelist
fresh-IsTree = record {
  leads = λ p i l e lt ins v. absurd (true≢false v refl);
  apart = λ p i q j l e e' lt ins ins' v v' c. absurd (true≢false v refl);
  free = (
    (omega arith, omega arith, omega arith),
    omega arith,
    (omega arith, (omega arith, tt)),
    (
      (omega arith, omega arith, omega arith),
      omega arith,
      (omega arith, tt),
      ((omega arith, omega arith, omega arith), omega arith, tt, tt),
    ),
  );
}

mappages-Mapped_example :
    Mapped rank 4096 0 0x80000000 22 (8192 / 4096) fresh (mappages 4096 0 8192 0x80000000 22 fresh)
mappages-Mapped_example =
    mappages-Mapped 4096 0 8192 0x80000000 22 fresh fresh-IsTree refl refl refl (omega arith)
      (omega arith) (λ k lt. refl)

abbrev result : Option (Bool × Mem) → Mem
result o = elim o [ none ↦ fresh | some (_, m) ↦ m ]

abbrev two_pages : Mem
two_pages = result (mappages 4096 0 8192 0x80000000 22 fresh)

two_pages_lem : mappages 4096 0 8192 0x80000000 22 fresh ≡ some (true, two_pages)
unfolding mappages map_from walk walk_from alloc kalloc
two_pages_lem = refl

walkaddr-mappages_example : walkaddr 4096 (0 + 1 * 4096) two_pages ≡ 0x80000000 + 1 * 4096
walkaddr-mappages_example =
    walkaddr-mappages 4096 0 8192 0x80000000 22 fresh two_pages fresh-IsTree refl refl refl
      (omega arith) (omega arith) (λ k lt. refl) refl (omega arith) (omega arith) refl two_pages_lem
      1 (omega arith)

uvmunmap-Unmapped_example :
    (m' : Mem) × (uvmunmap 0x80000000 4096 4096 3 false fresh ≡ some m')
    × Unmapped rank 4096 4096 3 fresh m'
uvmunmap-Unmapped_example =
    uvmunmap-Unmapped 0x80000000 4096 4096 3 rank fresh fresh-IsTree refl refl (omega arith)

-- Two pages of user memory, in the frames 4 and 5.
abbrev user : Mem
user = record {
  phys = record { freelist = []; byte = λ a. 0 };
  pte = λ p i.
      if p == 4096 && i == 0
      then 2049
      else if p == 8192 && i == 0
      then 3073
      else if p == 12288 && i == 0
      then 4115
      else if p == 12288 && i == 1
      then 5139
      else 0;
}

abbrev letters : Memory
letters a = a - 20000

user-mapped : (i : ℕ) → i < 2 → walkaddr 4096 (pgrounddown (4095 + i)) user ≢ 0
unfolding walkaddr walk_from entry_of
user-mapped zero lt = omega arith
user-mapped (suc zero) lt = omega arith
user-mapped (suc (suc i)) lt = absurd (omega arith)

user-apart : (i : ℕ) → i < 2 → within 100 2 (phys_of 4096 user (4095 + i)) ≡ false
unfolding walkaddr walk_from entry_of
user-apart zero lt = refl
user-apart (suc zero) lt = refl
user-apart (suc (suc i)) lt = absurd (omega arith)

copyin-bytes_example :
    (b' : Memory) × (copyin 0x80000000 8192 4096 2 4096 100 4095 2 (with_bytes user letters)
      ≡ some (true, with_bytes user b'))
    × ((a : ℕ) → b' a ≡ copied 4096 100 4095 2 user letters a)
copyin-bytes_example =
    copyin-bytes 0x80000000 8192 4096 2 4096 100 4095 2 user letters (omega arith) user-mapped
      user-apart
