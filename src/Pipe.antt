-- ===== src/Pipe.antt =====
-- Pipes (kernel/pipe.c). The two counters are uint. `sleep` ends a pass: a later pass starts from
-- whatever the pipe has become meanwhile. What copyin and copyout answer for each byte is an argument.
pub mod Fifo
pub mod Read
mod Tests
use os_cea.Base.{
  ℕ, ◌+◌, ◌%◌, ◌^◌, Bool, true, false, not, ◌&&◌, ◌||◌, Option, none, some, List, [], ◌∷◌, ◌==◌,
  if◌then◌else◌, get_or, set,
}

abbrev pub pipe_size : ℕ
pipe_size = 512

-- `struct pipe`
pub record Pipe : Type 0 where
  pub bytes : List ℕ
  pub nread : ℕ
  pub nwrite : ℕ
  pub readopen : Bool
  pub writeopen : Bool

abbrev pub inc : ℕ → ℕ
inc n = (n + 1) % 2 ^ 32

-- `pi->nwrite == pi->nread + PIPESIZE`
pub is_full : Pipe → Bool
is_full pi = pi.nwrite == (pi.nread + pipe_size) % 2 ^ 32

pub is_empty : Pipe → Bool
is_empty pi = pi.nread == pi.nwrite

-- How a pass ends: with a return value, with -1, or asleep with some bytes done.
pub data Pass : Type 0 where
  returns : ℕ → Pass
  fails : Pass
  sleeps : ℕ → Pass

-- `pi->data[pi->nwrite++ % PIPESIZE] = ch`
pub put : ℕ → Pipe → Pipe
put ch pi = record pi { bytes = set pi.bytes (pi.nwrite % pipe_size) ch; nwrite = inc pi.nwrite }

-- The loop of `pipewrite` over the bytes that are left, `i` being done; `none` is a byte that copyin
-- cannot read.
pub pipewrite : Bool → List (Option ℕ) → ℕ → Pipe → Pass × Pipe
pipewrite killed [] i pi = (returns i, pi)
pipewrite killed (none ∷ src) i pi =
    if not pi.readopen || killed
    then (fails, pi)
    else if is_full pi
    then (sleeps i, pi)
    else (returns i, pi)
pipewrite killed (some ch ∷ src) i pi =
    let rest = pipewrite killed src (i + 1) (put ch pi) in
    if not pi.readopen || killed then (fails, pi) else if is_full pi then (sleeps i, pi) else rest

-- The copying loop of `piperead`: `outs` says for each byte of the user's buffer whether copyout
-- succeeds. The result has the bytes that were delivered.
pub read_loop : List Bool → ℕ → Pipe → Pass × List ℕ × Pipe
read_loop [] i pi = (returns i, [], pi)
read_loop (false ∷ outs) i pi =
    if is_empty pi then (returns i, [], pi) else (if i == 0 then fails else returns i, [], pi)
read_loop (true ∷ outs) i pi =
    let rest = read_loop outs (i + 1) (record pi { nread = inc pi.nread }) in
    if is_empty pi
    then (returns i, [], pi)
    else (rest.0, get_or pi.bytes (pi.nread % pipe_size) 0 ∷ rest.1, rest.2)

pub piperead : Bool → List Bool → Pipe → Pass × List ℕ × Pipe
piperead killed outs pi =
    if is_empty pi && pi.writeopen
    then (if killed then fails else sleeps 0, [], pi)
    else read_loop outs 0 pi

-- The end that is closed; the Boolean is whether the pipe's page is freed.
pub pipeclose : Bool → Pipe → Bool × Pipe
pipeclose writable pi =
    let pi' : Pipe =
      if writable then record pi { writeopen = false } else record pi { readopen = false } in
    (not pi'.readopen && not pi'.writeopen, pi')
