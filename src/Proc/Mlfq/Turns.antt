-- ===== src/Proc/Mlfq/Turns.antt =====
-- A process that is chosen again and again between timer interrupts (kernel/proc.c: scheduler, mlfq_tick,
-- yield; kernel/trap.c: kerneltrap).
use Prim.Native.Nat.{min}
use mathlib.Core.Option
use os_cea.Base.{
  ltb, Bool-cases, ℕ, suc, ◌+◌, ◌≤◌, ◌<◌, ◌≡◌, refl, sym, ap, ◌∙◌, ◌⊎◌, inl, inr, some, List,
  get_elem?, length, lt_or_eq_or_lt, arith, get_elem?-modify_self,
}
use os_cea.Proc.{Proc, Kernel, running, myproc}
use os_cea.Proc.Mlfq.{
  mlfq_low, starvation_threshold, get_timeslice, charge, demote, dispatch, give_up, pick, scheduler,
}
use os_cea.Proc.Mlfq.Slices.{HasSlice}
use os_cea.Proc.Mlfq.Timer.{kerneltrap_timer, procs-kerneltrap_timer, leave, at_tick, at_tick_self}
use os_cea.Proc.Mlfq.Rotation.{scheduler-picked}

-- The process in slot `i` has taken `n` timer interrupts, none of them at a boosting tick, and been chosen
-- again after each, on any CPU. In between other processes run and other CPUs take their interrupts: all
-- that is asked of that time is that it leaves the entry of the process as it is.
pub data Served (i : ℕ) : ℕ → Kernel → Kernel → Type 0 where
  not_yet : {k : Kernel} → Served i 0 k k
  again :
      {n : ℕ} {k k₁ : Kernel} (cpu cpu' : ℕ) (k₂ : Kernel)
      → Served i n k k₁
      → myproc k₁ cpu ≡ some i
      → k₁.starvation_counter + 1 < starvation_threshold
      → get_elem? k₂.procs i ≡ get_elem? (kerneltrap_timer cpu k₁).procs i
      → pick k₂.procs ≡ some i
      → cpu' < length k₂.cpus
      → Served i (suc n) k (scheduler cpu' k₂)

-- One interrupt and the next choice.
abbrev turn : ℕ → ℕ → Proc → Proc
turn ticks ticks' p = dispatch ticks' (leave ticks (charge p))

entry-turn :
    (i cpu cpu' : ℕ) (k₁ k₂ : Kernel) (p : Proc)
    → get_elem? k₁.procs i ≡ some p
    → myproc k₁ cpu ≡ some i
    → k₁.starvation_counter + 1 < starvation_threshold
    → get_elem? k₂.procs i ≡ get_elem? (kerneltrap_timer cpu k₁).procs i
    → pick k₂.procs ≡ some i
    → cpu' < length k₂.cpus
    → get_elem? (scheduler cpu' k₂).procs i ≡ some (turn (at_tick cpu k₁).ticks k₂.ticks p)
entry-turn i cpu cpu' k₁ k₂ p at on h same e lt =
    let step = leave (at_tick cpu k₁).ticks in
    ap (λ (ps : List Proc). get_elem? ps i) (scheduler-picked cpu' k₂ i e lt).0
    ∙ (get_elem?-modify_self k₂.procs i (dispatch k₂.ticks)
        ∙ ap (Option.map (dispatch k₂.ticks)) (
            same
            ∙ (ap (λ (ps : List Proc). get_elem? ps i) (procs-kerneltrap_timer cpu k₁ i on h)
                ∙ (get_elem?-modify_self (at_tick cpu k₁).procs i (λ p. step (charge p))
                    ∙ ap (Option.map (λ p. step (charge p))) (at_tick_self cpu k₁ i on ∙ at)))))

turn_within :
    (ticks ticks' : ℕ) (p : Proc)
    → p.state ≡ running
    → p.timeslice_used + 1 < p.timeslice
    → ((turn ticks ticks' p).state ≡ running)
      × ((turn ticks ticks' p).priority ≡ p.priority)
      × ((turn ticks ticks' p).timeslice ≡ p.timeslice)
      × ((turn ticks ticks' p).timeslice_used ≡ p.timeslice_used + 1)
unfolding dispatch give_up charge
turn_within ticks ticks' p r h = ground arith

turn_last :
    (ticks ticks' : ℕ) (p : Proc)
    → p.state ≡ running
    → p.timeslice_used + 1 ≡ p.timeslice
    → p.timeslice ≡ get_timeslice p.priority
    → p.priority ≤ mlfq_low
    → ((turn ticks ticks' p).state ≡ running)
      × ((turn ticks ticks' p).priority ≡ min (p.priority + 1) mlfq_low)
      × ((turn ticks ticks' p).timeslice ≡ get_timeslice (min (p.priority + 1) mlfq_low))
      × ((turn ticks ticks' p).timeslice_used ≡ 0)
unfolding dispatch give_up charge demote
turn_last ticks ticks' p r h s l = elim (Bool-cases (ltb p.priority mlfq_low)) [
  | inl t ↦
      (let e : p.priority + 1 ≡ min (p.priority + 1) mlfq_low = ground arith in
        let moved : (turn ticks ticks' p).timeslice ≡ get_timeslice (p.priority + 1) =
          ground arith in
        (refl, ground arith, moved ∙ ap get_timeslice e, ground arith))
  | inr f ↦
      (let e : p.priority ≡ min (p.priority + 1) mlfq_low = ground arith in
        let frozen : (turn ticks ticks' p).timeslice ≡ p.timeslice = ground arith in
        (refl, ground arith, frozen ∙ (s ∙ ap get_timeslice e), ground arith))
]

-- The entry of slot `i` after `n` interrupts, fewer than the slice has ticks.
abbrev IsWithin : ℕ → Proc → ℕ → Kernel → Type 0
IsWithin n p i k =
    (q : Proc) × (get_elem? k.procs i ≡ some q)
    × (q.state ≡ running)
    × (q.priority ≡ p.priority)
    × (q.timeslice ≡ p.timeslice)
    × (q.timeslice_used ≡ n)

module _ (i : ℕ) (p : Proc) (r : p.state ≡ running) (z : p.timeslice_used ≡ 0) where
  Served-IsWithin :
      {n : ℕ} {k k' : Kernel}
      → get_elem? k.procs i ≡ some p
      → n < p.timeslice
      → Served i n k k'
      → IsWithin n p i k'
  Served-IsWithin at lt not_yet = (p, at, r, refl, refl, z)
  Served-IsWithin at lt (again {n = n} {k₁ = k₁} cpu cpu' k₂ sv on h same e less) =
      let (q, at_q, rq, pq, tq, uq) = Served-IsWithin at (omega arith) sv in
      let (a, b, c, d) = turn_within (at_tick cpu k₁).ticks k₂.ticks q rq (omega arith) in
      (
        turn (at_tick cpu k₁).ticks k₂.ticks q,
        entry-turn i cpu cpu' k₁ k₂ q at_q on h same e less,
        a,
        b ∙ pq,
        c ∙ tq,
        omega arith,
      )

  Served-last :
      {n : ℕ} {k k' : Kernel}
      → get_elem? k.procs i ≡ some p
      → n ≡ p.timeslice
      → 0 < n
      → p.timeslice ≡ get_timeslice p.priority
      → p.priority ≤ mlfq_low
      → Served i n k k'
      → (q : Proc) × (get_elem? k'.procs i ≡ some q)
        × (q.state ≡ running)
        × (q.priority ≡ min (p.priority + 1) mlfq_low)
        × (q.timeslice ≡ get_timeslice (min (p.priority + 1) mlfq_low))
        × (q.timeslice_used ≡ 0)
  Served-last at same_n pos slice le not_yet = absurd (omega arith)
  Served-last at same_n pos slice le (again {n = n} {k₁ = k₁} cpu cpu' k₂ sv on h same e less) =
      let (q, at_q, rq, pq, tq, uq) = Served-IsWithin at (omega arith) sv in
      let (a, b, c, d) =
        turn_last (at_tick cpu k₁).ticks k₂.ticks q rq (omega arith)
          (tq ∙ (slice ∙ ap get_timeslice (sym pq))) (omega arith) in
      (
        turn (at_tick cpu k₁).ticks k₂.ticks q,
        entry-turn i cpu cpu' k₁ k₂ q at_q on h same e less,
        a,
        b ∙ ap (λ (x : ℕ). min (x + 1) mlfq_low) pq,
        c ∙ ap (λ (x : ℕ). get_timeslice (min (x + 1) mlfq_low)) pq,
        d,
      )

-- A process that runs at the start of its slice, and is chosen again after every timer interrupt, none of
-- them at a boosting tick, with its entry left alone in between. While it has taken fewer interrupts than
-- its slice has ticks it is at the same level, with a tick used for each. After as many as that it is one
-- level lower, at most the lowest, at the start of the slice of that level.
pub timer_demotes :
    (i n : ℕ) (p : Proc) (k k' : Kernel)
    → get_elem? k.procs i ≡ some p
    → HasSlice p
    → p.state ≡ running
    → p.timeslice_used ≡ 0
    → n ≤ get_timeslice p.priority
    → Served i n k k'
    → (q : Proc) × (get_elem? k'.procs i ≡ some q)
      × (q.state ≡ running)
      × (((n < get_timeslice p.priority)
            × (q.priority ≡ p.priority)
            × (q.timeslice ≡ p.timeslice)
            × (q.timeslice_used ≡ n))
          ⊎ ((n ≡ get_timeslice p.priority)
              × (q.priority ≡ min (p.priority + 1) mlfq_low)
              × (q.timeslice ≡ get_timeslice (min (p.priority + 1) mlfq_low))
              × (q.timeslice_used ≡ 0)))
timer_demotes i n p k k' at h r z le sv = elim (lt_or_eq_or_lt n (get_timeslice p.priority)) [
  | inl lt ↦
      (let (q, at_q, rq, pq, tq, uq) = Served-IsWithin i p r z at (omega (arith, h.slice)) sv in
        (q, at_q, rq, inl (lt, pq, tq, uq)))
  | inr (inl e) ↦
      (let (q, at_q, rq, pq, tq, uq) =
          Served-last i p r z at (omega (arith, h.slice)) (omega (arith, h.slice, h.room)) h.slice
            h.level sv in
        (q, at_q, rq, inr (e, pq, tq, uq)))
  | inr (inr more) ↦ absurd (omega arith)
]
