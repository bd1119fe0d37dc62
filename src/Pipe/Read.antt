-- ===== src/Pipe/Read.antt =====
-- What a pass of piperead takes out of a pipe (kernel/pipe.c).
use os_cea.Base.{
  ℕ, suc, ◌+◌, ◌%◌, ◌≡◌, ◌≢◌, ◌⊎◌, inl, inr, refl, ap, ◌∙◌, Bool, true, false, ◌&&◌, some, List, [],
  ◌∷◌, ◌++◌, ◌==◌, if◌then◌else◌, get_or, get_elem?, length, arith, Bool-cases,
}
use os_cea.Pipe.{Pipe, pipe_size, is_empty, Pass, returns, fails, sleeps, read_loop, piperead}
use os_cea.Pipe.Fifo.{held, contents, IsValid, advance, contents-advance, is_empty_iff}

-- What a pass has done: `i` bytes were delivered before it, `outs` is what copyout answers.
pub record Delivered (outs : List Bool) (i : ℕ) (pi : Pipe) (out : Pass × List ℕ × Pipe)
    : Type 0 where
  pub queue : contents pi ≡ out.1 ++ contents out.2
  pub valid : IsValid out.2
  pub count : (n : ℕ) → out.0 ≡ returns n → n ≡ i + length out.1
  pub failed : out.0 ≡ fails → (i ≡ 0) × (out.1 ≡ [])
  pub why :
      (length out.1 ≡ length outs)
      ⊎ ((held out.2 ≡ 0) ⊎ (get_elem? outs (length out.1) ≡ some false))

Delivered-nothing :
    (outs : List Bool) (i : ℕ) (pi : Pipe) (p : Pass)
    → IsValid pi
    → ((n : ℕ) → p ≡ returns n → n ≡ i)
    → (p ≡ fails → i ≡ 0)
    → (0 ≡ length outs) ⊎ ((held pi ≡ 0) ⊎ (get_elem? outs 0 ≡ some false))
    → Delivered outs i pi (p, [], pi)
Delivered-nothing outs i pi p v c f w = record {
  queue = refl;
  valid = v;
  count = λ n e. c n e ∙ omega arith;
  failed = λ e. (f e, refl);
  why = w;
}

Delivered-more :
    (outs : List Bool) (i : ℕ) (pi : Pipe) (out : Pass × List ℕ × Pipe)
    → IsValid pi
    → pi.nread ≢ pi.nwrite
    → Delivered outs (i + 1) (advance pi) out
    → Delivered (true ∷ outs) i pi (out.0, get_or pi.bytes (pi.nread % pipe_size) 0 ∷ out.1, out.2)
Delivered-more outs i pi out v ne d = record {
  queue =
      (contents-advance pi v ne).0
      ∙ ap (λ (q : List ℕ). get_or pi.bytes (pi.nread % pipe_size) 0 ∷ q) d.queue;
  valid = d.valid;
  count = λ n e. d.count n e ∙ omega arith;
  failed = λ e. absurd (omega (arith, (d.failed e).0));
  why = later d.why;
}
  where
    later :
        (length out.1 ≡ length outs)
          ⊎ ((held out.2 ≡ 0) ⊎ (get_elem? outs (length out.1) ≡ some false))
        → (suc (length out.1) ≡ suc (length outs))
          ⊎ ((held out.2 ≡ 0) ⊎ (get_elem? outs (length out.1) ≡ some false))
    later (inl e) = inl (ap suc e)
    later (inr e) = inr e

returns-eq : (i n : ℕ) → returns i ≡ returns n → n ≡ i
returns-eq i n e = cc

held-empty : (pi : Pipe) → IsValid pi → is_empty pi ≡ true → held pi ≡ 0
unfolding is_empty
held-empty pi v h =
    let e : pi.nread ≡ pi.nwrite = ground arith in omega (arith, v.read_fits, v.write_fits)

Delivered-end :
    (outs : List Bool) (i : ℕ) (pi : Pipe)
    → IsValid pi
    → (0 ≡ length outs) ⊎ ((held pi ≡ 0) ⊎ (get_elem? outs 0 ≡ some false))
    → Delivered outs i pi (returns i, [], pi)
Delivered-end outs i pi v w =
    Delivered-nothing outs i pi (returns i) v (returns-eq i) (λ e. absurd (cc)) w

-- The copying loop of `piperead` takes bytes off the front of the pipe, in order, and hands on exactly
-- those; it stops when the user's buffer is full, the pipe is empty, or copyout fails.
pub read_loop-Delivered :
    (outs : List Bool) (i : ℕ) (pi : Pipe) → IsValid pi → Delivered outs i pi (read_loop outs i pi)
unfolding read_loop
read_loop-Delivered [] i pi v = Delivered-end [] i pi v (inl refl)
read_loop-Delivered (false ∷ outs) i pi v = elim (Bool-cases (is_empty pi)) [
  | inl e ↦ rw e (Delivered-end (false ∷ outs) i pi v (inr (inl (held-empty pi v e))))
  | inr e ↦ elim (Bool-cases (i == 0)) [
    | inl z ↦
        rw (e, z)
          (Delivered-nothing (false ∷ outs) i pi fails v (λ n p. absurd (cc)) (λ _. ground arith)
            (inr (inr refl)))
    | inr z ↦ rw (e, z) (Delivered-end (false ∷ outs) i pi v (inr (inr refl)))
  ]
]
read_loop-Delivered (true ∷ outs) i pi v = elim (Bool-cases (is_empty pi)) [
  | inl e ↦ rw e (Delivered-end (true ∷ outs) i pi v (inr (inl (held-empty pi v e))))
  | inr e ↦ rw e (
      Delivered-more outs i pi (read_loop outs (i + 1) (advance pi)) v (is_empty_iff pi e) (
        read_loop-Delivered outs (i + 1) (advance pi)
          (contents-advance pi v (is_empty_iff pi e)).1))
]

-- A whole pass of `piperead`: on an empty pipe with a writer it changes nothing, and sleeps unless the
-- process has been killed; otherwise it delivers what the copying loop does.
pub piperead_pass :
    (killed : Bool) (outs : List Bool) (pi : Pipe)
    → IsValid pi
    → ((held pi ≡ 0)
        × (pi.writeopen ≡ true)
        × (piperead killed outs pi ≡ (if killed then fails else sleeps 0, [], pi)))
      ⊎ Delivered outs 0 pi (piperead killed outs pi)
unfolding piperead
piperead_pass killed outs pi v = elim (Bool-cases (is_empty pi && pi.writeopen)) [
  | inl e ↦ inl (held-empty pi v (ground arith), ground arith, rw e)
  | inr e ↦ inr (rw e (read_loop-Delivered outs 0 pi v))
]
