-- ===== src/Pipe/Tests.antt =====
-- The pipe's theorems on a pipe whose counters are about to wrap around.
use os_cea.Base.{
  ℕ, zero, suc, ◌-◌, ◌^◌, ◌≡◌, refl, Bool, true, false, Option, some, none, List, [], ◌∷◌, length,
  arith,
}
use os_cea.Pipe.{Pipe, pipewrite, read_loop}
use os_cea.Pipe.Fifo.{IsValid, Wrote, pipewrite-Wrote}
use os_cea.Pipe.Read.{Delivered, read_loop-Delivered}

abbrev zeros : ℕ → List ℕ
zeros zero = []
zeros (suc n) = 0 ∷ zeros n

length-zeros : (n : ℕ) → length (zeros n) ≡ n
length-zeros zero = refl
length-zeros (suc n) = omega (arith, length-zeros n)

-- Three bytes in the pipe: the last place, and two round its end.
abbrev wrapped : Pipe
wrapped = record {
  bytes = zeros 512;
  nread = 2 ^ 32 - 1;
  nwrite = 2;
  readopen = true;
  writeopen = true;
}

wrapped-IsValid : IsValid wrapped
wrapped-IsValid = record {
  room = length-zeros 512;
  read_fits = omega arith;
  write_fits = omega arith;
  few = omega arith;
}

abbrev bytes : List (Option ℕ)
bytes = some 65 ∷ some 66 ∷ none ∷ []

pipewrite-Wrote_example : Wrote false bytes 0 wrapped (pipewrite false bytes 0 wrapped)
pipewrite-Wrote_example = pipewrite-Wrote false bytes 0 wrapped wrapped-IsValid

abbrev outs : List Bool
outs = true ∷ true ∷ []

read_loop-Delivered_example : Delivered outs 0 wrapped (read_loop outs 0 wrapped)
read_loop-Delivered_example = read_loop-Delivered outs 0 wrapped wrapped-IsValid
