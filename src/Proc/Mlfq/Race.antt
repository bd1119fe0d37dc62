-- ===== src/Proc/Mlfq/Race.antt =====
-- Which CPU runs which process (kernel/proc.c): `scheduler` and `yield` keep every process on one
-- CPU at most, and `mlfq_tick`, which writes `p->state` with no lock, does not.
use mathlib.Core.Option
use mathlib.Core.Option.{some-injective}
use mathlib.Core.Path.{subst}
use os_cea.Proc.Mlfq.Slices.{HasSlice}
use os_cea.Proc.Mlfq.Rotation.{candidate-other}
use os_cea.Proc.Mlfq.Timer.{cpus-mlfq_tick, procs-mlfq_tick_current}
use os_cea.Base.{
  ℕ, ◌≤◌, get_elem?-modify_inv, zero, suc, [], ◌∷◌, Option, ◌⊎◌, set, get_or, ◌+◌, ◌<◌, ◌≡◌, ◌≢◌,
  ap, ◌∙◌, sym, refl, inl, inr, true, false, none, some, List, get_elem?, modify, length,
  get_elem?-modify_self, get_elem?-modify_ne, get_or-set_self, get_or-set_ne, arith, true≢false,
  Option-cases, lt_or_eq_or_lt,
}
use os_cea.Proc.{Proc, Kernel, myproc, running}
use os_cea.Proc.Mlfq.{
  starvation_threshold, demote, mlfq_low, candidate, pick, charge, dispatch, scheduler, mlfq_tick,
}
use os_cea.Proc.Mlfq.Pick.{IsBest, IsIdle, pick-IsBest, pick-IsBest_iff}

-- The process of each CPU is RUNNING, and no other CPU has it.
pub record IsExclusive (k : Kernel) : Type 0 where
  pub runs :
      (c i : ℕ)
      → myproc k c ≡ some i
      → (p : Proc) × (get_elem? k.procs i ≡ some p) × (p.state ≡ running)
  pub alone : (c d i : ℕ) → myproc k c ≡ some i → myproc k d ≡ some i → c ≡ d

candidate-running : (l : ℕ) (p : Proc) → p.state ≡ running → candidate l p ≡ false
candidate-running l p r = ground arith

-- A slot that `scheduler` chooses is on no CPU.
picked-free : (k : Kernel) (i c : ℕ) → IsExclusive k → pick k.procs ≡ some i → myproc k c ≢ some i
picked-free k i c x e h =
    let (p, at, r) = x.runs c i h in
    let best = pick-IsBest k.procs i e in
    let same : p ≡ best.first.item = some-injective _ _ (sym at ∙ best.first.at) in
    true≢false best.first.passes (rw (← same) (candidate-running best.level p r))

myproc-scheduler :
    (cpu : ℕ) (k : Kernel) (i : ℕ)
    → pick k.procs ≡ some i
    → ((scheduler cpu k).procs ≡ modify k.procs i (dispatch k.ticks))
      × ((scheduler cpu k).cpus ≡ set k.cpus cpu (some i))
unfolding scheduler
myproc-scheduler cpu k i e = (rw (e, scheduler), rw (e, scheduler))

dispatch-running : (ticks : ℕ) (p : Proc) → (dispatch ticks p).state ≡ running
unfolding dispatch
dispatch-running ticks p = refl

modify-runs :
    (k : Kernel) (i j : ℕ) (f : Proc → Proc)
    → ((p : Proc) → (f p).state ≡ running)
    → (p : Proc) × (get_elem? k.procs j ≡ some p) × (p.state ≡ running)
    → (q : Proc) × (get_elem? (modify k.procs i f) j ≡ some q) × (q.state ≡ running)
modify-runs k i j f h (p, at, r) = elim (lt_or_eq_or_lt i j) [
  | inl lt ↦ (p, get_elem?-modify_ne k.procs i j f (omega arith) ∙ at, r)
  | inr (inl e) ↦ (f p, rw e (get_elem?-modify_self k.procs j f ∙ ap (Option.map f) at), h p)
  | inr (inr lt) ↦ (p, get_elem?-modify_ne k.procs i j f (omega arith) ∙ at, r)
]

-- What a CPU runs after `cpus[cpu].proc = o`.
myproc-set :
    (cpus : List (Option ℕ)) (cpu c i : ℕ) (o : Option ℕ)
    → get_or (set cpus cpu o) c none ≡ some i
    → ((c ≡ cpu) × (o ≡ some i)) ⊎ ((c ≢ cpu) × (get_or cpus c none ≡ some i))
myproc-set [] cpu c i o h = absurd (cc)
myproc-set (x ∷ cpus) zero zero i o h = inl (refl, h)
myproc-set (x ∷ cpus) zero (suc c) i o h = inr (omega arith, h)
myproc-set (x ∷ cpus) (suc cpu) zero i o h = inr (omega arith, h)
myproc-set (x ∷ cpus) (suc cpu) (suc c) i o h = elim (myproc-set cpus cpu c i o h) [
  | inl (e, v) ↦ inl (ap suc e, v)
  | inr (e, v) ↦ inr ((λ s. e (omega arith)), v)
]

scheduler-idle : (cpu : ℕ) (k : Kernel) → pick k.procs ≡ none → scheduler cpu k ≡ k
unfolding scheduler
scheduler-idle cpu k e = rw (e, scheduler)

-- `scheduler` keeps the CPUs on different processes, each RUNNING.
pub scheduler-IsExclusive : (cpu : ℕ) (k : Kernel) → IsExclusive k → IsExclusive (scheduler cpu k)
scheduler-IsExclusive cpu k x = elim (Option-cases (pick k.procs)) [
  | inl e ↦ subst IsExclusive (sym (scheduler-idle cpu k e)) x
  | inr (i, e) ↦ taken i e
]
  where
    runs :
        (i c j : ℕ)
        → pick k.procs ≡ some i
        → (c ≡ cpu) × (◌≡◌ {A = Option ℕ} (some i) (some j)) ⊎ (c ≢ cpu) × (myproc k c ≡ some j)
        → (p : Proc) × (get_elem? (modify k.procs i (dispatch k.ticks)) j ≡ some p)
          × (p.state ≡ running)
    runs i c j e (inl (_, same)) =
        let best = pick-IsBest k.procs i e in
        (
          dispatch k.ticks best.first.item,
          rw (← some-injective _ _ same) (
              get_elem?-modify_self k.procs i (dispatch k.ticks)
              ∙ ap (Option.map (dispatch k.ticks)) best.first.at),
          dispatch-running k.ticks best.first.item,
        )
    runs i c j e (inr (_, on)) =
        modify-runs k i j (dispatch k.ticks) (dispatch-running k.ticks) (x.runs c j on)

    alone :
        (i c d j : ℕ)
        → pick k.procs ≡ some i
        → (c ≡ cpu) × (◌≡◌ {A = Option ℕ} (some i) (some j)) ⊎ (c ≢ cpu) × (myproc k c ≡ some j)
        → (d ≡ cpu) × (◌≡◌ {A = Option ℕ} (some i) (some j)) ⊎ (d ≢ cpu) × (myproc k d ≡ some j)
        → c ≡ d
    alone i c d j e (inl (u, _)) (inl (v, _)) = u ∙ sym v
    alone i c d j e (inl (_, same)) (inr (_, on)) = absurd (picked-free k i d x e (on ∙ sym same))
    alone i c d j e (inr (_, on)) (inl (_, same)) = absurd (picked-free k i c x e (on ∙ sym same))
    alone i c d j e (inr (_, u)) (inr (_, v)) = x.alone c d j u v

    taken : (i : ℕ) → pick k.procs ≡ some i → IsExclusive (scheduler cpu k)
    taken i e =
        let (procs, cpus) = myproc-scheduler cpu k i e in
        record {
          runs =
              λ c j h. rw procs (runs i c j e (myproc-set k.cpus cpu c j (some i) (rw cpus at h)));
          alone = λ c d j h g.
              alone i c d j e (myproc-set k.cpus cpu c j (some i) (rw cpus at h))
                (myproc-set k.cpus cpu d j (some i) (rw cpus at g));
        }

charge_expired :
    (p : Proc)
    → HasSlice p
    → p.state ≡ running
    → p.timeslice_used + 1 ≡ p.timeslice
    → (candidate (charge p).priority (charge p) ≡ true) × ((charge p).priority ≤ mlfq_low)
unfolding charge demote
charge_expired p h r e = ground (arith, h.level)

-- The expired process is the best one to run as soon as `mlfq_tick` has marked it.
expired-IsBest :
    (procs : List Proc) (i : ℕ) (p : Proc)
    → get_elem? procs i ≡ some p
    → HasSlice p
    → p.state ≡ running
    → p.timeslice_used + 1 ≡ p.timeslice
    → ((l : ℕ) → l ≤ mlfq_low → IsIdle procs l)
    → IsBest (modify procs i charge) i
expired-IsBest procs i p at h r e idle =
    let (c, l) = charge_expired p h r e in
    record {
      level = (charge p).priority;
      exists = l;
      first = record {
        item = charge p;
        at = get_elem?-modify_self procs i charge ∙ ap (Option.map charge) at;
        passes = c;
        before = λ j y lt old.
            idle (charge p).priority l j y
              (sym (get_elem?-modify_ne procs i j charge (omega arith)) ∙ old);
      };
      higher = λ m lt j q old.
          other m lt (omega (arith, l)) j q (get_elem?-modify_inv procs i j charge old);
    }
  where
    other :
        (m : ℕ)
        → m < (charge p).priority
        → m ≤ mlfq_low
        → (j : ℕ) (q : Proc)
        → (a : Proc) × (get_elem? procs j ≡ some a) × ((i ≡ j) × (q ≡ charge a) ⊎ (i ≢ j) × (q ≡ a))
        → candidate m q ≡ false
    other m lt le j q (a, old, inr (_, v)) = rw v (idle m le j a old)
    other m lt le j q (a, old, inl (u, v)) =
        let same : a ≡ p = some-injective _ _ (sym old ∙ rw (← u) at) in
        rw (v, same)
          (candidate-other (charge p).priority m (charge p) (charge_expired p h r e).0 lt)

-- CPU `a`'s timer interrupt ends the slice of the process that it runs, the only one that can run.
-- If CPU `b` makes its round of `scheduler` before CPU `a` reaches `yield`, both CPUs have the same
-- process: the states before are exclusive, and the state after is not.
pub mlfq_tick_runs_twice :
    (a b : ℕ) (k : Kernel) (i : ℕ) (p : Proc)
    → a ≢ b
    → b < length k.cpus
    → myproc k a ≡ some i
    → get_elem? k.procs i ≡ some p
    → HasSlice p
    → p.state ≡ running
    → p.timeslice_used + 1 ≡ p.timeslice
    → ((l : ℕ) → l ≤ mlfq_low → IsIdle k.procs l)
    → k.starvation_counter + 1 < starvation_threshold
    → (myproc (scheduler b (mlfq_tick a k)) a ≡ some i)
      × (myproc (scheduler b (mlfq_tick a k)) b ≡ some i)
      × ¬ IsExclusive (scheduler b (mlfq_tick a k))
mlfq_tick_runs_twice a b k i p ne lt on at h r e idle quiet =
    (on_a, on_b, λ x. ne (x.alone a b i on_a on_b))
  where
    chosen : pick (mlfq_tick a k).procs ≡ some i
    chosen =
        rw (procs-mlfq_tick_current a k i on quiet)
          ((pick-IsBest_iff _ i).1 (expired-IsBest k.procs i p at h r e idle))

    cpus : (scheduler b (mlfq_tick a k)).cpus ≡ set k.cpus b (some i)
    cpus =
        (myproc-scheduler b (mlfq_tick a k) i chosen).1
        ∙ ap (λ (cs : List (Option ℕ)). set cs b (some i)) (cpus-mlfq_tick a k)

    on_a : myproc (scheduler b (mlfq_tick a k)) a ≡ some i
    on_a = rw cpus (get_or-set_ne k.cpus b a (some i) none (λ s. ne (sym s)) ∙ on)

    on_b : myproc (scheduler b (mlfq_tick a k)) b ≡ some i
    on_b = rw cpus (get_or-set_self k.cpus b (some i) none lt)
