-- ===== src/Printf/Tests.antt =====
-- -7 as a signed decimal number.
use os_cea.Base.{◌-◌, ◌^◌, inl, refl, true, arith}
use os_cea.Printf.{fill_buf}
use os_cea.Printf.Digits.{Buffered, fill_buf-Buffered}

fill_buf-Buffered_example : Buffered 10 (2 ^ 64 - 7) true (fill_buf (2 ^ 64 - 7) 10 true)
fill_buf-Buffered_example = fill_buf-Buffered (2 ^ 64 - 7) 10 true (inl refl) (omega arith)
