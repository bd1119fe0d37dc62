-- ===== src/File/Tests.antt =====
-- The file table's theorems on a pipe with two references and a free entry.
use os_cea.Base.{ℕ, zero, suc, ◌<◌, ◌≡◌, ◌⊎◌, refl, true, false, some, List, [], ◌∷◌, arith}
use os_cea.File.{File, fd_none, fd_pipe, fileclose, Close, still_open}
use os_cea.File.References.{IsCounted, Closes, count, fileclose-IsCounted}

abbrev pipe : File
pipe = record { type = fd_pipe; ref = 2; readable = true; writable = false; pipe = 4096; ip = 0 }

abbrev table : List File
table =
    pipe
    ∷ record { type = fd_none; ref = 0; readable = false; writable = false; pipe = 0; ip = 0 }
    ∷ []

abbrev owners : List ℕ
owners = 0 ∷ 0 ∷ []

abbrev one : List ℕ
one = 0 ∷ []

table-IsCounted : IsCounted table owners
table-IsCounted zero f e = ground arith
table-IsCounted (suc zero) f e = ground arith
table-IsCounted (suc (suc i)) f e = ground arith

fileclose-IsCounted_example :
    (c : Close) × (fs : List File) × (fileclose 0 table ≡ some (c, fs))
    × IsCounted fs one
    × (((0 < count 0 one) × (c ≡ still_open)) ⊎ ((count 0 one ≡ 0) × Closes pipe c))
fileclose-IsCounted_example = fileclose-IsCounted 0 pipe table one table-IsCounted refl
