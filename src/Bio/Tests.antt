-- ===== src/Bio/Tests.antt =====
-- The buffer cache's theorems on three buffers, the middle one in use.
use os_cea.Base.{ℕ, ◌≡◌, true, false, some, List, [], ◌∷◌, arith, refl}
use os_cea.Bio.{Buf, bget, binit, nbuf, find_last?}
use os_cea.Bio.Copies.{HasOneCopy, gets, Reach, here, next, Reach-HasOneCopy}

abbrev cache : List Buf
cache =
    record { valid = true; dev = 1; blockno = 7; refcnt = 0 }
    ∷ record { valid = true; dev = 1; blockno = 9; refcnt = 1 }
    ∷ record { valid = false; dev = 0; blockno = 0; refcnt = 0 }
    ∷ []

abbrev last : ℕ
last = 29

got_block : (bs : List Buf) × (bget 1 8 (binit nbuf []) ≡ some (last, bs))
unfolding bget binit find_last?
got_block = (_, refl)

got_reached : Reach (binit nbuf []) got_block.0
got_reached = next here (gets 1 8 last (omega arith) got_block.1)

Reach-HasOneCopy_example : HasOneCopy got_block.0
Reach-HasOneCopy_example = Reach-HasOneCopy got_reached
