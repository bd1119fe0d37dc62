-- ===== src/Str/Tests.antt =====
-- The string theorems on a memory in which the byte at an address is the address modulo 7.
use os_cea.Base.{◌+◌, ◌-◌, ◌%◌, ◌≡◌, if◌then◌else◌}
use os_cea.Str.{Memory, memmove}
use os_cea.Str.Move.{within, memmove_lem}

abbrev sevens : Memory
sevens a = a % 7

-- The blocks overlap.
memmove_lem_example :
    memmove 102 100 8 sevens 103
    ≡ (if within 102 8 103 then sevens (100 + (103 - 102)) else sevens 103)
memmove_lem_example = memmove_lem 102 100 8 sevens 103
