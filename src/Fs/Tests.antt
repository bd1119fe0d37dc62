-- ===== src/Fs/Tests.antt =====
-- The theorems on the inode table and on paths, on a table of two entries and the path "//usr/bin".
use os_cea.Base.{ℕ, ◌≡◌, ◌⊎◌, true, none, some, List, [], ◌∷◌, arith}
use os_cea.Fs.{Inode, dirsiz, first_bytes, skipelem}
use os_cea.Fs.Table.{HasOneEntry, Got, iget-Got}
use os_cea.Fs.Elem.{AreSlashes, IsCut, skipelem-IsCut}

abbrev table : List Inode
table =
    record { dev = 1; inum = 5; ref = 1; valid = true; type = 2; nlink = 1 }
    ∷ record { dev = 1; inum = 5; ref = 0; valid = true; type = 2; nlink = 1 }
    ∷ []

table-HasOneEntry : HasOneEntry table
table-HasOneEntry d n = ground arith

iget-Got_example : Got 1 6 table
iget-Got_example = iget-Got 1 6 table table-HasOneEntry

abbrev path : List ℕ
path = b'/' ∷ b'/' ∷ b'u' ∷ b's' ∷ b'r' ∷ b'/' ∷ b'b' ∷ b'i' ∷ b'n' ∷ []

skipelem-IsCut_example :
    ((skipelem path ≡ none) × AreSlashes path)
    ⊎ ((elem rest : List ℕ) × (skipelem path ≡ some (first_bytes dirsiz elem, rest))
        × IsCut path elem rest)
skipelem-IsCut_example = skipelem-IsCut path
