-- ===== src/Proc/Mlfq/Starvation.antt =====
-- The anti-starvation boost of `mlfq_tick` (kernel/proc.c).
use os_cea.Base.{
  ℕ, ◌+◌, ◌<◌, ◌%◌, ◌≡◌, ◌≢◌, inl, inr, true, none, some, ◌||◌, Option-cases, get_elem?, modify,
  map, ap, ◌∙◌, List, get_elem?-map_inv, get_elem?-modify_inv, get_elem?-modify_ne, arith,
}
use os_cea.Proc.{Proc, Kernel, is_runnable, is_running, myproc}
use os_cea.Proc.Mlfq.{
  mlfq_high, starvation_threshold, get_timeslice, boost, boost_all_priorities, demote, charge,
  count_starvation, mlfq_tick,
}

boost_high :
    (p : Proc)
    → (is_runnable (boost p).state || is_running (boost p).state) ≡ true
    → (boost p).priority ≡ mlfq_high
unfolding boost get_timeslice
boost_high p h = ground arith

charge-boost_high :
    (p : Proc)
    → (is_runnable (charge (boost p)).state || is_running (charge (boost p)).state) ≡ true
    → (charge (boost p)).priority ≡ mlfq_high
unfolding boost charge demote get_timeslice
charge-boost_high p h = ground arith

starvation_counter-mlfq_tick :
    (cpu : ℕ) (k : Kernel)
    → k.starvation_counter < starvation_threshold
    → (mlfq_tick cpu k).starvation_counter ≡ (k.starvation_counter + 1) % starvation_threshold
unfolding mlfq_tick count_starvation
starvation_counter-mlfq_tick cpu k h = ground arith

procs-count_starvation :
    (k : Kernel)
    → k.starvation_counter + 1 ≡ starvation_threshold
    → (count_starvation k).procs ≡ map boost k.procs
unfolding count_starvation boost_all_priorities
procs-count_starvation k h = ground arith

procs-mlfq_tick-none :
    (cpu : ℕ) (k : Kernel)
    → myproc k cpu ≡ none
    → (mlfq_tick cpu k).procs ≡ (count_starvation k).procs
unfolding mlfq_tick
procs-mlfq_tick-none cpu k e = ground arith

procs-mlfq_tick-some :
    (cpu : ℕ) (k : Kernel) (i : ℕ)
    → myproc k cpu ≡ some i
    → (mlfq_tick cpu k).procs ≡ modify (count_starvation k).procs i charge
unfolding mlfq_tick
procs-mlfq_tick-some cpu k i e = ground arith

procs-count_starvation_below :
    (k : Kernel)
    → k.starvation_counter + 1 < starvation_threshold
    → (count_starvation k).procs ≡ k.procs
unfolding count_starvation
procs-count_starvation_below k h = ground arith

boosted_high :
    (procs : List Proc) (j : ℕ) (p : Proc)
    → get_elem? (map boost procs) j ≡ some p
    → (is_runnable p.state || is_running p.state) ≡ true
    → p.priority ≡ mlfq_high
boosted_high procs j p at active =
    let (q, _, e) = get_elem?-map_inv boost procs j at in ground (arith, boost_high q)

charged_high :
    (procs : List Proc) (i j : ℕ) (p : Proc)
    → get_elem? (modify (map boost procs) i charge) j ≡ some p
    → (is_runnable p.state || is_running p.state) ≡ true
    → p.priority ≡ mlfq_high
charged_high procs i j p at active =
    let (q, old, came) = get_elem?-modify_inv (map boost procs) i j charge at in
    let (r, _, e) = get_elem?-map_inv boost procs j old in
    elim came [
      | inl (_, v) ↦
          (let v' : p ≡ charge (boost r) = v ∙ ap charge e in ground (arith, charge-boost_high r))
      | inr (_, v) ↦ ground (arith, boost_high r)
    ]

-- The boost comes at the tick that brings the counter to the threshold: after it every runnable or
-- running process is at the highest level, the one that was charged for the tick included, and the
-- counter starts again at 0.
pub mlfq_tick_boosts :
    (cpu : ℕ) (k : Kernel)
    → k.starvation_counter + 1 ≡ starvation_threshold
    → ((j : ℕ) (p : Proc)
        → get_elem? (mlfq_tick cpu k).procs j ≡ some p
        → (is_runnable p.state || is_running p.state) ≡ true
        → p.priority ≡ mlfq_high)
      × ((mlfq_tick cpu k).starvation_counter ≡ 0)
mlfq_tick_boosts cpu k h = (high, omega (arith, starvation_counter-mlfq_tick cpu k))
  where
    high :
        (j : ℕ) (p : Proc)
        → get_elem? (mlfq_tick cpu k).procs j ≡ some p
        → (is_runnable p.state || is_running p.state) ≡ true
        → p.priority ≡ mlfq_high
    high j p at active = elim (Option-cases (myproc k cpu)) [
      | inl idle ↦
          boosted_high k.procs j p
            (rw (procs-mlfq_tick-none cpu k idle, procs-count_starvation k h) at at) active
      | inr (i, cur) ↦
          charged_high k.procs i j p
            (rw (procs-mlfq_tick-some cpu k i cur, procs-count_starvation k h) at at) active
    ]

-- Below the threshold a tick leaves every process but the current one alone, and adds one to the
-- counter.
pub mlfq_tick_others :
    (cpu : ℕ) (k : Kernel)
    → k.starvation_counter + 1 < starvation_threshold
    → ((j : ℕ) → myproc k cpu ≢ some j → get_elem? (mlfq_tick cpu k).procs j ≡ get_elem? k.procs j)
      × ((mlfq_tick cpu k).starvation_counter ≡ k.starvation_counter + 1)
mlfq_tick_others cpu k h = (same, omega (arith, starvation_counter-mlfq_tick cpu k))
  where
    same :
        (j : ℕ) → myproc k cpu ≢ some j → get_elem? (mlfq_tick cpu k).procs j ≡ get_elem? k.procs j
    same j other = elim (Option-cases (myproc k cpu)) [
      | inl idle ↦ rw (procs-mlfq_tick-none cpu k idle, procs-count_starvation_below k h)
      | inr (i, cur) ↦
          rw (procs-mlfq_tick-some cpu k i cur, procs-count_starvation_below k h)
            (get_elem?-modify_ne k.procs i j charge (λ e. other (cur ∙ ap some e)))
    ]
