-- ===== src/Proc/Mlfq/Rotation.antt =====
-- The order in which `scheduler` serves the runnable processes of one level (kernel/proc.c): the
-- scan starts at the first slot each time, so nothing moves a process behind its equals.
use mathlib.Core.Option
use mathlib.Core.Option.{some-injective}
use os_cea.Base.{
  ℕ, ◌+◌, ◌<◌, ◌≡◌, ◌≢◌, ◌⊎◌, ap, ◌∙◌, sym, inl, inr, true, false, none, some, List, get_elem?,
  modify, length, modify-modify, get_elem?-modify_self, get_elem?-modify_ne, get_elem?-modify_inv,
  get_or-set_self, arith,
}
use os_cea.Proc.{Proc, Kernel, myproc}
use os_cea.Proc.Mlfq.{starvation_threshold, candidate, pick, charge, dispatch, give_up, scheduler}
use os_cea.Proc.Mlfq.Pick.{IsBest, pick-IsBest_iff, pick-IsBest}
use os_cea.Proc.Mlfq.Timer.{kerneltrap_timer, procs-kerneltrap_timer, leave, at_tick}

pub candidate-other : (l m : ℕ) (p : Proc) → candidate l p ≡ true → m < l → candidate m p ≡ false
candidate-other l m p h lt = ground arith

-- A change to the chosen entry that leaves it a candidate of its level keeps it the chosen one.
IsBest-modify :
    {procs : List Proc} {i : ℕ} (f : Proc → Proc) (b : IsBest procs i)
    → candidate b.level (f b.first.item) ≡ true
    → IsBest (modify procs i f) i
IsBest-modify {procs} {i} f b h = record {
  level = b.level;
  exists = b.exists;
  first = record {
    item = f b.first.item;
    at = get_elem?-modify_self procs i f ∙ ap (Option.map f) b.first.at;
    passes = h;
    before = λ j y lt at.
        b.first.before j y lt (sym (get_elem?-modify_ne procs i j f (omega arith)) ∙ at);
  };
  higher = λ l lt j q at. idle l lt j q (get_elem?-modify_inv procs i j f at);
}
  where
    idle :
        (l : ℕ)
        → l < b.level
        → (j : ℕ) (q : Proc)
        → (a : Proc) × (get_elem? procs j ≡ some a) × ((i ≡ j) × (q ≡ f a) ⊎ (i ≢ j) × (q ≡ a))
        → candidate l q ≡ false
    idle l lt j q (a, old, inr (_, e)) = rw e (b.higher l lt j a old)
    idle l lt j q (a, old, inl (e, v)) =
        let same : a ≡ b.first.item = some-injective _ _ (sym old ∙ rw (← e) b.first.at) in
        rw (v, same) (candidate-other b.level l (f b.first.item) h lt)

-- The chosen process after one tick on the CPU.
abbrev served : ℕ → Proc → Proc
served ticks p = leave ticks (charge (dispatch ticks p))

candidate-served :
    (ticks l : ℕ) (p : Proc)
    → candidate l p ≡ true
    → p.timeslice_used + 1 < p.timeslice
    → candidate l (served ticks p) ≡ true
unfolding give_up charge dispatch
candidate-served ticks l p h s = ground arith

pub scheduler-picked :
    (cpu : ℕ) (k : Kernel) (i : ℕ)
    → pick k.procs ≡ some i
    → cpu < length k.cpus
    → ((scheduler cpu k).procs ≡ modify k.procs i (dispatch k.ticks))
      × (myproc (scheduler cpu k) cpu ≡ some i)
      × ((scheduler cpu k).starvation_counter ≡ k.starvation_counter)
      × ((scheduler cpu k).ticks ≡ k.ticks)
unfolding scheduler
scheduler-picked cpu k i e lt = (
  rw (e, scheduler),
  rw (e, scheduler) (get_or-set_self k.cpus cpu (some i) none lt),
  rw (e, scheduler),
  rw (e, scheduler),
)

at_tick-other : (cpu : ℕ) (k : Kernel) → cpu ≢ 0 → at_tick cpu k ≡ k
at_tick-other cpu k nz = ground arith

-- A process that has been chosen and has taken a timer interrupt with ticks of its slice left is
-- chosen again at once, however long the other runnable processes of its level have waited. (The
-- interrupt is not the boosting one, and is not on CPU 0, whose interrupt may also wake sleepers.)
pub no_rotation :
    (cpu : ℕ) (k : Kernel) (i : ℕ) (p : Proc)
    → cpu ≢ 0
    → cpu < length k.cpus
    → k.starvation_counter + 1 < starvation_threshold
    → pick k.procs ≡ some i
    → get_elem? k.procs i ≡ some p
    → p.timeslice_used + 1 < p.timeslice
    → pick (kerneltrap_timer cpu (scheduler cpu k)).procs ≡ some i
no_rotation cpu k i p nz lt h e at s = rw (after) (
    (pick-IsBest_iff _ i).1 (
      IsBest-modify (served k.ticks) best
        (candidate-served k.ticks best.level best.first.item best.first.passes (rw (← same) s))))
  where
    best : IsBest k.procs i
    best = pick-IsBest k.procs i e

    same : p ≡ best.first.item
    same = some-injective _ _ (sym at ∙ best.first.at)

    k₁ : Kernel
    k₁ = scheduler cpu k

    procs : k₁.procs ≡ modify k.procs i (dispatch k.ticks)
    procs = (scheduler-picked cpu k i e lt).0

    on : myproc k₁ cpu ≡ some i
    on = (scheduler-picked cpu k i e lt).1

    counter : k₁.starvation_counter ≡ k.starvation_counter
    counter = (scheduler-picked cpu k i e lt).2

    ticks : k₁.ticks ≡ k.ticks
    ticks = (scheduler-picked cpu k i e lt).3

    after : (kerneltrap_timer cpu (scheduler cpu k)).procs ≡ modify k.procs i (served k.ticks)
    after =
        procs-kerneltrap_timer cpu k₁ i on (omega (arith, counter))
        ∙ ap (λ (t : Kernel). modify t.procs i (λ p. leave t.ticks (charge p)))
            (at_tick-other cpu k₁ nz)
        ∙ ap (λ (t : ℕ). modify k₁.procs i (λ p. leave t (charge p))) ticks
        ∙ ap (λ (ps : List Proc). modify ps i (λ p. leave k.ticks (charge p))) procs
        ∙ modify-modify k.procs i (dispatch k.ticks) (λ p. leave k.ticks (charge p))
