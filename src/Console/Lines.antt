-- ===== src/Console/Lines.antt =====
-- What one consoleread delivers (kernel/console.c).
use os_cea.Base.{
  ℕ, ◌%◌, ◌≤◌, ◌≢◌, inl, inr, Bool, true, not, List, [], ◌∷◌, ◌==◌, get_or, length, arith,
  Bool-cases,
}
use os_cea.Console.{Cons, input_buf_size, newline, ctrl_d, inc, consoleread}

-- At most one line: a newline only as the last byte, and no end-of-file mark.
abbrev pub IsLine : List ℕ → Type 0
IsLine [] = Unit
IsLine (c ∷ []) = c ≢ ctrl_d
IsLine (c ∷ d ∷ cs) = (c ≢ ctrl_d) × (c ≢ newline) × IsLine (d ∷ cs)

IsLine-cons : (c : ℕ) (cs : List ℕ) → c ≢ ctrl_d → c ≢ newline → IsLine cs → IsLine (c ∷ cs)
IsLine-cons c [] d n h = d
IsLine-cons c (x ∷ cs) d n h = (d, n, h)

-- A read delivers at most as many bytes as were asked for, of one line, and never the end-of-file mark.
pub consoleread-IsLine :
    (killed : Bool) (outs : List Bool) (more : Bool) (s : Cons)
    → IsLine (consoleread killed outs more s).1
      × (length (consoleread killed outs more s).1 ≤ length outs)
unfolding consoleread
consoleread-IsLine killed [] more s = (tt, omega arith)
consoleread-IsLine killed (ok ∷ outs) more s = elim (Bool-cases (s.r == s.w)) [
  | inl a ↦ rw a (tt, omega arith)
  | inr a ↦ elim (Bool-cases (get_or s.buf (s.r % input_buf_size) 0 == ctrl_d)) [
    | inl d ↦ rw (a, d) (tt, omega arith)
    | inr d ↦ elim (Bool-cases (not ok)) [
      | inl f ↦ rw (a, d, f) (tt, omega arith)
      | inr f ↦ elim (Bool-cases (get_or s.buf (s.r % input_buf_size) 0 == newline)) [
        | inl n ↦ rw (a, d, f, n) (ground arith, omega arith)
        | inr n ↦
            (let (l, len) = consoleread-IsLine killed outs true (record s { r = inc s.r }) in
              rw (a, d, f, n) (IsLine-cons _ _ (ground arith) (ground arith) l, omega arith))
      ]
    ]
  ]
]
