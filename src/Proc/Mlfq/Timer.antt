-- ===== src/Proc/Mlfq/Timer.antt =====
-- clockintr, devintr and kerneltrap of kernel/trap.c, less the trap registers that kerneltrap saves: what one timer interrupt does to
-- the process that is running.

use os_cea.Base.{
  Bool, true, false, not, ◌||◌, Option, zero, suc, [], ◌∷◌, ◌+◌, ◌<◌, ◌≡◌, refl, none, some,
  get_elem?, get_or, set, Option-cases, modify, ◌==◌, ap, ◌∙◌, get_elem?-modify_self, modify-modify,
  List, ℕ, Bool-cases, if◌then◌else◌, arith, inl, inr,
}
use os_cea.Proc.{Proc, Kernel, running, runnable, myproc, inc32, ticks_chan}
use os_cea.Proc.Sleep.{wakeup, rouse, map_others}
use os_cea.Proc.Mlfq.{
  starvation_threshold, boost_all_priorities, mlfq_tick, yield, give_up, charge, switch_back,
  count_starvation,
}

unfoldable pub clockintr : ℕ → Kernel → Kernel
clockintr cpu k =
    mlfq_tick cpu
      (if cpu == 0 then wakeup cpu ticks_chan (record k { ticks = inc32 k.ticks }) else k)

-- `if(which_dev == 2 && myproc() != 0) yield();` after `devintr` has called `clockintr`.
unfoldable pub kerneltrap_timer : ℕ → Kernel → Kernel
kerneltrap_timer cpu k =
    let k' = clockintr cpu k in elim (myproc k' cpu) [ none ↦ k' | some _ ↦ yield cpu k' ]

abbrev pub external_cause : ℕ
external_cause = 0x8000000000000009

abbrev pub timer_cause : ℕ
timer_cause = 0x8000000000000005

-- `device` is what the handlers of the uart, the disk and the PLIC do to the kernel's state.
pub devintr : (Kernel → Kernel) → ℕ → ℕ → Kernel → ℕ × Kernel
devintr device scause cpu k =
    if scause == external_cause
    then (1, device k)
    else if scause == timer_cause
    then (2, clockintr cpu k)
    else (0, k)

-- The part of `kerneltrap` that acts on what devintr returned; `none` is a panic.
pub after_device : ℕ → ℕ → Kernel → Option Kernel
after_device cpu which_dev k =
    if which_dev == 0
    then none
    else if which_dev == 2
    then some (elim (myproc k cpu) [ none ↦ k | some _ ↦ yield cpu k ])
    else some k

-- `supervisor` and `enabled` are SSTATUS_SPP and the interrupt bit; `none` is one of the panics.
pub kerneltrap : (Kernel → Kernel) → Bool → Bool → ℕ → ℕ → Kernel → Option Kernel
kerneltrap device supervisor enabled scause cpu k =
    let came = devintr device scause cpu k in
    if not supervisor || enabled then none else after_device cpu came.0 came.1

pub cpus-mlfq_tick : (cpu : ℕ) (k : Kernel) → (mlfq_tick cpu k).cpus ≡ k.cpus
unfolding mlfq_tick count_starvation boost_all_priorities
cpus-mlfq_tick cpu k = ground arith

pub procs-mlfq_tick_current :
    (cpu : ℕ) (k : Kernel) (i : ℕ)
    → myproc k cpu ≡ some i
    → k.starvation_counter + 1 < starvation_threshold
    → (mlfq_tick cpu k).procs ≡ modify k.procs i charge
unfolding mlfq_tick count_starvation
procs-mlfq_tick_current cpu k i e h = ground arith

ticks-mlfq_tick : (cpu : ℕ) (k : Kernel) → (mlfq_tick cpu k).ticks ≡ k.ticks
unfolding mlfq_tick count_starvation boost_all_priorities
ticks-mlfq_tick cpu k = ground arith

abbrev pub leave : ℕ → Proc → Proc
leave ticks p = record (give_up p) { last_scheduled = ticks }

pub procs-switch_back :
    (cpu : ℕ) (k : Kernel) (i : ℕ)
    → myproc k cpu ≡ some i
    → (switch_back cpu k).procs ≡ modify k.procs i (λ p. record p { last_scheduled = k.ticks })
unfolding switch_back
procs-switch_back cpu k i e = rw (e, switch_back)

get_or-set-none : (xs : List (Option ℕ)) (i : ℕ) → get_or (set xs i none) i none ≡ none
get_or-set-none [] i = refl
get_or-set-none (x ∷ xs) zero = refl
get_or-set-none (x ∷ xs) (suc i) = get_or-set-none xs i

-- Nothing runs on a CPU after `switch_back`, until its scheduler chooses again.
myproc-switch_back : (cpu : ℕ) (k : Kernel) → myproc (switch_back cpu k) cpu ≡ none
unfolding switch_back
myproc-switch_back cpu k = elim (Option-cases (myproc k cpu)) [
  | inl e ↦ rw (e, switch_back) e
  | inr (i, e) ↦ rw (e, switch_back) (get_or-set-none k.cpus cpu)
]

myproc-yield :
    (cpu : ℕ) (k : Kernel) (i : ℕ) → myproc k cpu ≡ some i → myproc (yield cpu k) cpu ≡ none
unfolding yield
myproc-yield cpu k i e =
    rw (e, yield) (myproc-switch_back cpu (record k { procs = modify k.procs i give_up }))

procs-yield :
    (cpu : ℕ) (k : Kernel) (i : ℕ)
    → myproc k cpu ≡ some i
    → (yield cpu k).procs ≡ modify k.procs i (leave k.ticks)
unfolding yield
procs-yield cpu k i e =
    rw (e, yield)
      (procs-switch_back cpu (record k { procs = modify k.procs i give_up }) i e
        ∙ modify-modify k.procs i give_up (λ p. record p { last_scheduled = k.ticks }))

-- The state in which the tick handler runs.
abbrev pub at_tick : ℕ → Kernel → Kernel
at_tick cpu k = if cpu == 0 then wakeup cpu ticks_chan (record k { ticks = inc32 k.ticks }) else k

at_tick-same :
    (cpu : ℕ) (k : Kernel)
    → ((at_tick cpu k).cpus ≡ k.cpus) × ((at_tick cpu k).starvation_counter ≡ k.starvation_counter)
unfolding wakeup
at_tick-same cpu k = ground arith

myproc-clockintr :
    (cpu : ℕ) (k : Kernel) (i : ℕ) → myproc k cpu ≡ some i → myproc (clockintr cpu k) cpu ≡ some i
unfolding clockintr
myproc-clockintr cpu k i e = rw (cpus-mlfq_tick cpu (at_tick cpu k), (at_tick-same cpu k).0) e

pub procs-kerneltrap_timer :
    (cpu : ℕ) (k : Kernel) (i : ℕ)
    → myproc k cpu ≡ some i
    → k.starvation_counter + 1 < starvation_threshold
    → (kerneltrap_timer cpu k).procs
      ≡ modify (at_tick cpu k).procs i (λ p. leave (at_tick cpu k).ticks (charge p))
unfolding kerneltrap_timer clockintr
procs-kerneltrap_timer cpu k i e h =
    rw (myproc-clockintr cpu k i e, kerneltrap_timer)
      (procs-yield cpu (clockintr cpu k) i (myproc-clockintr cpu k i e)
        ∙ ap (λ (t : ℕ). modify (clockintr cpu k).procs i (leave t))
            (ticks-mlfq_tick cpu (at_tick cpu k))
        ∙ ap (λ (ps : List Proc). modify ps i (leave (at_tick cpu k).ticks)) tick
        ∙ modify-modify (at_tick cpu k).procs i charge (leave (at_tick cpu k).ticks))
  where
    tick : (clockintr cpu k).procs ≡ modify (at_tick cpu k).procs i charge
    tick =
        procs-mlfq_tick_current cpu (at_tick cpu k) i (rw (at_tick-same cpu k).0 e)
          (omega (arith, (at_tick-same cpu k).1))

myproc-kerneltrap_timer :
    (cpu : ℕ) (k : Kernel) (i : ℕ)
    → myproc k cpu ≡ some i
    → myproc (kerneltrap_timer cpu k) cpu ≡ none
unfolding kerneltrap_timer
myproc-kerneltrap_timer cpu k i e =
    rw (myproc-clockintr cpu k i e, kerneltrap_timer)
      (myproc-yield cpu (clockintr cpu k) i (myproc-clockintr cpu k i e))

get_elem?-map_others_self :
    (procs : List Proc) (i : ℕ) (f : Proc → Proc)
    → get_elem? (map_others (some i) f procs) i ≡ get_elem? procs i
get_elem?-map_others_self [] i f = refl
get_elem?-map_others_self (p ∷ procs) zero f = refl
get_elem?-map_others_self (p ∷ procs) (suc i) f = get_elem?-map_others_self procs i f

pub at_tick_self :
    (cpu : ℕ) (k : Kernel) (i : ℕ)
    → myproc k cpu ≡ some i
    → get_elem? (at_tick cpu k).procs i ≡ get_elem? k.procs i
unfolding wakeup
at_tick_self cpu k i e = elim (Bool-cases (cpu == 0)) [
  | inl z ↦ rw (z, wakeup, e) (get_elem?-map_others_self k.procs i (rouse ticks_chan))
  | inr n ↦ rw n
]

charge-within :
    (ticks : ℕ) (p : Proc)
    → p.state ≡ running
    → p.timeslice_used + 1 < p.timeslice
    → ((leave ticks (charge p)).state ≡ runnable)
      × ((leave ticks (charge p)).yielded_io ≡ 1)
      × ((leave ticks (charge p)).priority ≡ p.priority)
      × ((leave ticks (charge p)).timeslice_used ≡ p.timeslice_used + 1)
unfolding give_up charge
charge-within ticks p r h = ground arith

-- A timer interrupt whose tick is not the boosting one takes the CPU away from a running process whose
-- slice is not used up: the CPU runs no process and the process is runnable. It keeps its level, is
-- charged one tick, and is marked `yielded_io`, as if it had given up the CPU for I/O.
pub kerneltrap_timer_marks_io :
    (cpu : ℕ) (k : Kernel) (i : ℕ) (p : Proc)
    → myproc k cpu ≡ some i
    → get_elem? k.procs i ≡ some p
    → k.starvation_counter + 1 < starvation_threshold
    → p.state ≡ running
    → p.timeslice_used + 1 < p.timeslice
    → (q : Proc) × (get_elem? (kerneltrap_timer cpu k).procs i ≡ some q)
      × (q.state ≡ runnable)
      × (q.yielded_io ≡ 1)
      × (q.priority ≡ p.priority)
      × (q.timeslice_used ≡ p.timeslice_used + 1)
      × (myproc (kerneltrap_timer cpu k) cpu ≡ none)
kerneltrap_timer_marks_io cpu k i p e at h r s =
    let (a, b, c, d) = charge-within (at_tick cpu k).ticks p r s in
    (leave (at_tick cpu k).ticks (charge p), entry, a, b, c, d, myproc-kerneltrap_timer cpu k i e)
  where
    entry :
        get_elem? (kerneltrap_timer cpu k).procs i ≡ some (leave (at_tick cpu k).ticks (charge p))
    entry =
        rw (procs-kerneltrap_timer cpu k i e h, get_elem?-modify_self, at_tick_self cpu k i e, at)

module _ (device : Kernel → Kernel) (scause cpu : ℕ) (k : Kernel) where
  devintr-external : (scause == external_cause) ≡ true → devintr device scause cpu k ≡ (1, device k)
  unfolding devintr
  devintr-external e = rw (e, devintr) refl

  devintr-timer :
      (scause == external_cause) ≡ false
      → (scause == timer_cause) ≡ true
      → devintr device scause cpu k ≡ (2, clockintr cpu k)
  unfolding devintr
  devintr-timer e t = rw (e, t, devintr) refl

  devintr_unknown :
      (scause == external_cause) ≡ false
      → (scause == timer_cause) ≡ false
      → devintr device scause cpu k ≡ (0, k)
  unfolding devintr
  devintr_unknown e t = rw (e, t, devintr) refl

-- From supervisor mode with interrupts off, `kerneltrap` does `kerneltrap_timer` on a timer interrupt,
-- only what the device's handler does on an external one, and panics on any other cause.
pub kerneltrap_causes :
    (device : Kernel → Kernel) (scause cpu : ℕ) (k : Kernel)
    → kerneltrap device true false scause cpu k ≡ (
        if scause == timer_cause
        then some (kerneltrap_timer cpu k)
        else if scause == external_cause
        then some (device k)
        else none)
unfolding kerneltrap kerneltrap_timer after_device
kerneltrap_causes device scause cpu k = elim (Bool-cases (scause == timer_cause)) [
  | inl t ↦
      (let e : (scause == external_cause) ≡ false = ground arith in
        rw t (ap (λ r. after_device cpu r.0 r.1) (devintr-timer device scause cpu k e t)))
  | inr f ↦ elim (Bool-cases (scause == external_cause)) [
    | inl e ↦
        rw (f, e) (ap (λ r. after_device cpu r.0 r.1) (devintr-external device scause cpu k e))
    | inr g ↦
        rw (f, g) (ap (λ r. after_device cpu r.0 r.1) (devintr_unknown device scause cpu k g f))
  ]
]
