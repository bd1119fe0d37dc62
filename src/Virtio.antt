-- ===== src/Virtio.antt =====
-- The descriptors of the disk's queue (kernel/virtio_disk.c: alloc_desc, free_desc, free_chain, alloc3_desc).
-- The wakeup in free_desc changes nothing here.
pub mod Three
mod Tests
use os_cea.Base.{
  ℕ, zero, suc, ◌+◌, ◌%◌, Bool, true, false, Option, none, some, List, [], ◌∷◌, ◌++◌, ◌==◌, leb,
  if◌then◌else◌,
}

abbrev pub num : ℕ
num = 8

-- `struct virtq_desc`
pub record Desc : Type 0 where
  pub addr : ℕ
  pub len : ℕ
  pub flags : ℕ
  pub next : ℕ

-- `disk.free` and `disk.desc`
pub record Descs : Type 0 where
  pub is_free : ℕ → Bool
  pub desc : ℕ → Desc

abbrev pub set_free : ℕ → Bool → (ℕ → Bool) → ℕ → Bool
set_free i v f j = if j == i then v else f j

-- The loop of `alloc_desc` from `i` on; `none` is -1.
pub alloc_from : ℕ → ℕ → Descs → Option ℕ × Descs
alloc_from zero i q = (none, q)
alloc_from (suc n) i q = elim (q.is_free i) [
  | true ↦ (some i, record q { is_free = set_free i false q.is_free })
  | false ↦ alloc_from n (i + 1) q
]

pub alloc_desc : Descs → Option ℕ × Descs
alloc_desc q = alloc_from num 0 q

abbrev pub no_desc : Desc
no_desc = record { addr = 0; len = 0; flags = 0; next = 0 }

-- `none` is a panic.
pub free_desc : ℕ → Descs → Option Descs
free_desc i q =
    if leb num i
    then none
    else if q.is_free i
    then none
    else some (record {
      is_free = set_free i true q.is_free;
      desc = λ j. if j == i then no_desc else q.desc j;
    })

-- `flags & VRING_DESC_F_NEXT` is the lowest bit; fuel for each descriptor is enough, as a longer chain would
-- free one twice.
pub free_chain_from : ℕ → ℕ → Descs → Option Descs
free_chain_from zero i q = none
free_chain_from (suc n) i q = elim (free_desc i q) [
  | none ↦ none
  | some q' ↦ if (q.desc i).flags % 2 == 1 then free_chain_from n (q.desc i).next q' else some q'
]

pub free_chain : ℕ → Descs → Option Descs
free_chain i q = free_chain_from (suc num) i q

-- The inner loop of `alloc3_desc`, over `idx[0]` to `idx[i - 1]`.
pub free_all : List ℕ → Descs → Option Descs
free_all [] q = some q
free_all (i ∷ idx) q = elim (free_desc i q) [ none ↦ none | some q' ↦ free_all idx q' ]

-- The loop of `alloc3_desc` with `n` descriptors to go; the inner `none` is -1.
pub alloc_more : ℕ → List ℕ → Descs → Option (Option (List ℕ) × Descs)
alloc_more zero idx q = some (some idx, q)
alloc_more (suc n) idx q =
    (let (found, q') = alloc_desc q in
      elim found [
        | some i ↦ alloc_more n (idx ++ (i ∷ [])) q'
        | none ↦ elim (free_all idx q') [ none ↦ none | some q'' ↦ some (none, q'') ]
      ])

pub alloc3_desc : Descs → Option (Option (List ℕ) × Descs)
alloc3_desc q = alloc_more 3 [] q
