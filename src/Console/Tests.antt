-- ===== src/Console/Tests.antt =====
-- The console's theorems on a buffer with a complete line and three more characters.
use os_cea.Base.{ℕ, zero, suc, ◌≡◌, refl, List, [], ◌∷◌, length, arith}
use os_cea.Console.{Cons, consoleintr}
use os_cea.Console.Editing.{IsValid, Keeps, consoleintr-Keeps}

abbrev zeros : ℕ → List ℕ
zeros zero = []
zeros (suc n) = 0 ∷ zeros n

length-zeros : (n : ℕ) → length (zeros n) ≡ n
length-zeros zero = refl
length-zeros (suc n) = omega (arith, length-zeros n)

-- "ls", a newline, and "abc" that is still being edited.
abbrev typed : Cons
typed = record {
  buf = 108 ∷ 115 ∷ 10 ∷ 97 ∷ 98 ∷ 99 ∷ zeros 122;
  r = 0;
  w = 3;
  e = 6;
  sent = [];
  wakeups = 1;
}

typed-IsValid : IsValid typed
typed-IsValid = record {
  room = omega (arith, length-zeros 122);
  r_fits = omega arith;
  w_fits = omega arith;
  e_fits = omega arith;
  order = omega arith;
  few = omega arith;
}

consoleintr-Keeps_example : Keeps typed (consoleintr 8 typed)
consoleintr-Keeps_example = consoleintr-Keeps 8 typed typed-IsValid
