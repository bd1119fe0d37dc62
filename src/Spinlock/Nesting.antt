-- ===== src/Spinlock/Nesting.antt =====
-- push_off and pop_off match (kernel/spinlock.c).
use os_cea.Base.{
  ◌+◌, ◌-◌, ◌<◌, ◌≡◌, ◌⊎◌, inl, inr, refl, ◌∙◌, true, false, ◌&&◌, Option, none, some, ◌==◌,
  if◌then◌else◌, arith, Bool-cases,
}
use os_cea.Spinlock.{Cpu, push_off, pop_off}

-- Critical sections, one inside or after another.
pub data Sections : Type 0 where
  done : Sections
  section : Sections → Sections → Sections

-- `push_off`, the inner sections, `pop_off`, and what follows.
pub run : Sections → Cpu → Option Cpu
run done c = some c
run (section inner after) c = elim (run inner (push_off c)) [
  | none ↦ none
  | some c₁ ↦ elim (pop_off c₁) [ none ↦ none | some c₂ ↦ run after c₂ ]
]

-- Interrupts are off inside a critical section.
abbrev pub IsQuiet : Cpu → Type 0
IsQuiet c = 0 < c.noff → c.intr ≡ false

-- The same CPU as far as later code can tell: outside all sections `intena` is dead.
pub record IsRestored (c d : Cpu) : Type 0 where
  pub noff : d.noff ≡ c.noff
  pub intr : d.intr ≡ c.intr
  pub intena : 0 < c.noff → d.intena ≡ c.intena

push_off_lem : (c : Cpu) → IsQuiet (push_off c) × (0 < (push_off c).noff)
unfolding push_off
push_off_lem c = (λ _. refl, omega arith)

pop_off-push_off :
    (c d : Cpu)
    → IsQuiet c
    → IsRestored (push_off c) d
    → (e : Cpu) × (pop_off d ≡ some e) × IsRestored c e
unfolding push_off pop_off
pop_off-push_off c d q r = (
  record d { noff = d.noff - 1; intr = d.noff - 1 == 0 && d.intena },
  ground arith,
  record {
    noff = omega (arith, r.noff);
    intr = opened (Bool-cases (c.noff == 0));
    intena = λ pos. saved ∙ ground arith;
  },
)
  where
    saved : d.intena ≡ (if c.noff == 0 then c.intr else c.intena)
    saved = r.intena (omega arith)

    opened :
        ((c.noff == 0) ≡ true) ⊎ ((c.noff == 0) ≡ false) → (d.noff - 1 == 0 && d.intena) ≡ c.intr
    opened (inl z) = let n : d.noff ≡ c.noff + 1 = r.noff in let s = saved in ground arith
    opened (inr z) =
        let n : d.noff ≡ c.noff + 1 = r.noff in
        let off : c.intr ≡ false = q (ground arith) in ground arith

-- What `Sections` do from a restored CPU is what they do from the first: only restored fields are read.
IsRestored-refl : (c : Cpu) → IsRestored c c
IsRestored-refl c = record { noff = refl; intr = refl; intena = λ _. refl }

IsRestored-trans : (c d e : Cpu) → IsRestored c d → IsRestored d e → IsRestored c e
IsRestored-trans c d e r s = record {
  noff = s.noff ∙ r.noff;
  intr = s.intr ∙ r.intr;
  intena = λ pos. s.intena (rw r.noff pos) ∙ r.intena pos;
}

IsQuiet-restored : (c d : Cpu) → IsQuiet c → IsRestored c d → IsQuiet d
IsQuiet-restored c d q r pos = r.intr ∙ q (rw r.noff at pos)

-- Any nesting of critical sections runs without a panic and leaves the interrupt bit, the depth and,
-- inside an outer section, the saved bit as they were.
pub run-IsRestored :
    (p : Sections) (c : Cpu) → IsQuiet c → (d : Cpu) × (run p c ≡ some d) × IsRestored c d
unfolding run
run-IsRestored done c q = (c, refl, IsRestored-refl c)
run-IsRestored (section inner after) c q =
    let (c₁, e₁, r₁) = run-IsRestored inner (push_off c) (push_off_lem c).0 in
    let (c₂, e₂, r₂) = pop_off-push_off c c₁ q r₁ in
    let (c₃, e₃, r₃) = run-IsRestored after c₂ (IsQuiet-restored c c₂ q r₂) in
    (c₃, rw (e₁, e₂) e₃, IsRestored-trans c c₂ c₃ r₂ r₃)
