-- ===== src/Console.antt =====
-- The console's line discipline (kernel/console.c): consoleintr and consoleread over the input buffer.
-- The three indices are uint. What goes out on the uart is `sent`, oldest byte first.
pub mod Editing
pub mod Lines
mod Tests
use os_cea.Base.{
  ℕ, zero, suc, ◌+◌, ◌-◌, ◌%◌, ◌^◌, Bool, true, false, not, ◌&&◌, ◌||◌, List, [], ◌∷◌, ◌++◌, ◌==◌,
  ltb, if◌then◌else◌, get_or, set,
}

abbrev pub input_buf_size : ℕ
input_buf_size = 128

abbrev pub newline : ℕ
newline = 10

abbrev pub ctrl_d : ℕ
ctrl_d = 4

pub record Cons : Type 0 where
  pub buf : List ℕ
  pub r : ℕ
  pub w : ℕ
  pub e : ℕ
  pub sent : List ℕ
  pub wakeups : ℕ

-- uint subtraction, and `x - 1` and `x + 1`
abbrev pub sub32 : ℕ → ℕ → ℕ
sub32 a b = (a + 2 ^ 32 - b) % 2 ^ 32

abbrev pub inc : ℕ → ℕ
inc n = (n + 1) % 2 ^ 32

abbrev pub backspace_code : ℕ
backspace_code = 0x100

-- The bytes that `consputc` sends.
abbrev pub consputc : ℕ → List ℕ
consputc c = if c == backspace_code then 8 ∷ 32 ∷ 8 ∷ [] else c ∷ []

-- `cons.e--; consputc(BACKSPACE);`
pub erase : Cons → Cons
erase s = record s { e = sub32 s.e 1; sent = s.sent ++ consputc backspace_code }

-- The test of the kill-line loop.
pub erasable : Cons → Bool
erasable s = not (s.e == s.w) && not (get_or s.buf (sub32 s.e 1 % input_buf_size) 0 == newline)

-- The kill-line loop: every round erases a character, and there are at most `input_buf_size`.
pub kill_line : ℕ → Cons → Cons
kill_line zero s = s
kill_line (suc fuel) s = elim (erasable s) [ true ↦ kill_line fuel (erase s) | false ↦ s ]

pub backspace : Cons → Cons
backspace s = if s.e == s.w then s else erase s

-- `(c == '\r') ? '\n' : c`
pub cooked : ℕ → ℕ
cooked c = if c == 13 then newline else c

-- Echo and store a character.
pub store : ℕ → Cons → Cons
store c s = record s {
  sent = s.sent ++ consputc c;
  buf = set s.buf (s.e % input_buf_size) c;
  e = inc s.e;
}

-- Hand the line to `consoleread` if it is complete or the buffer is full.
pub hand_over : ℕ → Cons → Cons
hand_over c s =
    if c == newline || (c == ctrl_d || sub32 s.e s.r == input_buf_size)
    then record s { w = s.e; wakeups = s.wakeups + 1 }
    else s

-- `c` is what uartgetc returns; C('P') prints the process list and changes nothing here.
pub consoleintr : ℕ → Cons → Cons
consoleintr c s =
    if c == 16
    then s
    else if c == 21
    then kill_line input_buf_size s
    else if c == 8 || c == 127
    then backspace s
    else if not (c == 0) && ltb (sub32 s.e s.r) input_buf_size
    then hand_over (cooked c) (store (cooked c) s)
    else s

-- How a pass of `consoleread` ends.
pub data Pass : Type 0 where
  returns : Pass
  fails : Pass
  sleeps : Pass

-- The loop of `consoleread`: `outs` says for each byte that is still wanted whether copyout would
-- succeed, `more` is whether a byte has been delivered already. The result has the bytes delivered.
pub consoleread : Bool → List Bool → Bool → Cons → Pass × List ℕ × Cons
consoleread killed [] more s = (returns, [], s)
consoleread killed (ok ∷ outs) more s =
    let c : ℕ = get_or s.buf (s.r % input_buf_size) 0 in
    let s' : Cons = record s { r = inc s.r } in
    let rest = consoleread killed outs true s' in
    if s.r == s.w
    then (if killed then fails else sleeps, [], s)
    else if c == ctrl_d
    then (returns, [], if more then s else s')
    else if not ok
    then (returns, [], s')
    else if c == newline
    then (returns, c ∷ [], s')
    else (rest.0, c ∷ rest.1, rest.2)
