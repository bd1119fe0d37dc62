-- ===== src/Proc/Life/Exit.antt =====
-- An exiting child and its waiting parent: kexit and kwait of kernel/proc.c.
use mathlib.Core.Option
use mathlib.Core.Option.{some-injective}
use os_cea.Base.{
  ℕ, get_or, zero, suc, ◌+◌, ◌≡◌, ◌≢◌, ap, ◌∙◌, sym, refl, inl, inr, true, none, some, List,
  get_elem?, modify, length, find_index?, get_elem?-modify_self, arith, true≢false, Option-cases,
  find_index?-IsFirst, find_index?-none, Option, false, ◌==◌, ==_iff, ◌&&◌, Bool-cases,
}
use os_cea.Proc.{
  Proc, Kernel, is_zombie, myproc, ProcState, unused, used, sleeping, runnable, running, zombie,
}
use os_cea.Proc.Sleep.{wakeup}
use os_cea.Proc.Mlfq.{switch_back}
use os_cea.Proc.Mlfq.Timer.{procs-switch_back}
use os_cea.Proc.Life.{
  chan_of, parent_of, reparent_one, reparent_from, reparent, bury, kexit, reaped, kwait,
  exited_child, freeproc, failed, is_child,
}
use os_cea.Proc.Life.Family.{parent_of-wakeup, parent_of-none, parent_of-some, parent_of-reparent}

parent_of-entry :
    (k : Kernel) (j i : ℕ)
    → parent_of k j ≡ some i
    → (p : Proc) × (get_elem? k.procs j ≡ some p) × (p.parent ≡ some i)
parent_of-entry k j i h = elim (Option-cases (get_elem? k.procs j)) [
  | inl e ↦ absurd (let e' = parent_of-none k j e in cc)
  | inr (p, e) ↦ (p, e, sym (parent_of-some k j p e) ∙ h)
]

bury_lem :
    (status ticks : ℕ) (p : Proc)
    → (is_zombie (bury status ticks p).state ≡ true) × ((bury status ticks p).parent ≡ p.parent)
unfolding bury
bury_lem status ticks p = (refl, refl)

abbrev stamp : ℕ → Proc → Proc
stamp ticks p = record p { last_scheduled = ticks }

exited_child-zombie :
    (i : ℕ) (p : Proc) → p.parent ≡ some i → is_zombie p.state ≡ true → exited_child i p ≡ true
exited_child-zombie i p e z = ground arith

-- The table that `kexit` leaves.
cpus-reparent_one : (cpu i j : ℕ) (k : Kernel) → (reparent_one cpu i j k).cpus ≡ k.cpus
unfolding reparent_one wakeup
cpus-reparent_one cpu i j k = ground arith

cpus-reparent_from : (n cpu i j : ℕ) (k : Kernel) → (reparent_from n cpu i j k).cpus ≡ k.cpus
unfolding reparent_from
cpus-reparent_from zero cpu i j k = refl
cpus-reparent_from (suc n) cpu i j k =
    cpus-reparent_from n cpu i (j + 1) (reparent_one cpu i j k) ∙ cpus-reparent_one cpu i j k

cpus-reparent : (cpu i : ℕ) (k : Kernel) → (reparent cpu i k).cpus ≡ k.cpus
unfolding reparent
cpus-reparent cpu i k = cpus-reparent_from (length k.procs) cpu i 0 k

abbrev woken : ℕ → ℕ → Kernel → Kernel
woken cpu i k = wakeup cpu (chan_of (parent_of (reparent cpu i k) i)) (reparent cpu i k)

kexit-some :
    (cpu i status : ℕ) (k : Kernel) {k' : Kernel}
    → kexit cpu i status k ≡ some k'
    → k'
      ≡ switch_back cpu (record (woken cpu i k) {
        procs = modify (woken cpu i k).procs i (bury status (woken cpu i k).ticks);
      })
unfolding kexit
kexit-some cpu i status k h = ground arith

cpus-woken : (cpu i : ℕ) (k : Kernel) → (woken cpu i k).cpus ≡ k.cpus
unfolding wakeup
cpus-woken cpu i k = cpus-reparent cpu i k

-- After `kexit` the slot is a zombie with the same parent.
kexit-zombie :
    (cpu c i status : ℕ) (k : Kernel) {k' : Kernel}
    → kexit cpu c status k ≡ some k'
    → myproc k cpu ≡ some c
    → parent_of k c ≡ some i
    → i ≢ c
    → (p : Proc) × (get_elem? k'.procs c ≡ some p) × (exited_child i p ≡ true)
kexit-zombie cpu c i status k {k'} h on par ne =
    let kept : parent_of (reparent cpu c k) c ≡ some i =
      parent_of-reparent cpu c c k ∙ rw par (ground arith) in
    let (p, at, e) =
      parent_of-entry (woken cpu c k) c i (parent_of-wakeup cpu _ (reparent cpu c k) c ∙ kept) in
    let (z, same) = bury_lem status (woken cpu c k).ticks p in
    (
      stamp (woken cpu c k).ticks (bury status (woken cpu c k).ticks p),
      rw
          (
            kexit-some cpu c status k h,
            procs-switch_back cpu dead c
                (ap (λ (cs : List (Option ℕ)). get_or cs cpu none) (cpus-woken cpu c k) ∙ on),
          )
          (get_elem?-modify_self dead.procs c (stamp dead.ticks)
            ∙ ap (Option.map (stamp dead.ticks)) (
                get_elem?-modify_self (woken cpu c k).procs c (bury status (woken cpu c k).ticks)
                ∙ ap (Option.map (bury status (woken cpu c k).ticks)) at)),
      exited_child-zombie i (stamp (woken cpu c k).ticks (bury status (woken cpu c k).ticks p))
          (same ∙ e) z,
    )
  where
    dead : Kernel
    dead = record (woken cpu c k) {
      procs = modify (woken cpu c k).procs c (bury status (woken cpu c k).ticks);
    }

kwait-found :
    (i j : ℕ) (p : Proc) (k : Kernel)
    → find_index? (exited_child i) k.procs ≡ some j
    → get_elem? k.procs j ≡ some p
    → kwait i true k ≡ (reaped p.pid, record k { procs = modify k.procs j freeproc })
unfolding kwait
kwait-found i j p k e at = rw (e, kwait, at)

kwait-fault :
    (i j : ℕ) (p : Proc) (k : Kernel)
    → find_index? (exited_child i) k.procs ≡ some j
    → get_elem? k.procs j ≡ some p
    → kwait i false k ≡ (failed, k)
unfolding kwait
kwait-fault i j p k e at = rw (e, kwait, at)

is_zombie_lem : (s : ProcState) → is_zombie s ≡ true → s ≡ zombie
is_zombie_lem unused h = absurd cc
is_zombie_lem used h = absurd cc
is_zombie_lem sleeping h = absurd cc
is_zombie_lem runnable h = absurd cc
is_zombie_lem running h = absurd cc
is_zombie_lem zombie h = refl

is_child_lem : (i : ℕ) (p : Proc) → is_child i p ≡ true → p.parent ≡ some i
is_child_lem i p h = elim (Option-cases p.parent) [
  | inl e ↦
      absurd (true≢false h (ap (λ (o : Option ℕ). elim o [ none ↦ false | some j ↦ j == i ]) e))
  | inr (j, e) ↦
      e
      ∙ ap some (
          (==_iff j i).0
            (sym (ap (λ (o : Option ℕ). elim o [ none ↦ false | some j ↦ j == i ]) e) ∙ h))
]

-- A zombie child of the process in slot `i`.
exited_child-parent :
    (i : ℕ) (p : Proc) → exited_child i p ≡ true → (p.state ≡ zombie) × (p.parent ≡ some i)
exited_child-parent i p h = elim (Bool-cases (is_child i p)) [
  | inl c ↦
      (is_zombie_lem p.state (sym (ap (λ b. b && is_zombie p.state) c) ∙ h), is_child_lem i p c)
  | inr c ↦ absurd (true≢false h (ap (λ b. b && is_zombie p.state) c))
]

-- When a child of the process in slot `i` has exited, the parent's next pass of `kwait` does not sleep: it
-- finds a ZOMBIE child of its own. If the status can be written to the user's address it returns the pid of
-- that child and frees its slot; if not it fails, and nothing changes.
pub kwait-kexit :
    (cpu c i status : ℕ) (k k' : Kernel)
    → kexit cpu c status k ≡ some k'
    → myproc k cpu ≡ some c
    → parent_of k c ≡ some i
    → i ≢ c
    → (j : ℕ) × (p : Proc) × (get_elem? k'.procs j ≡ some p)
      × (p.state ≡ zombie)
      × (p.parent ≡ some i)
      × ((kwait i true k').0 ≡ reaped p.pid)
      × (get_elem? (kwait i true k').1.procs j ≡ some (freeproc p))
      × (kwait i false k' ≡ (failed, k'))
kwait-kexit cpu c i status k k' h on par ne =
    let (q, at_c, z) = kexit-zombie cpu c i status k h on par ne in
    elim (Option-cases (find_index? (exited_child i) k'.procs)) [
      | inl e ↦ absurd (true≢false z (find_index?-none (exited_child i) k'.procs e c q at_c))
      | inr (j, e) ↦
          (let f = find_index?-IsFirst (exited_child i) k'.procs j e in
            let found = kwait-found i j f.item k' e f.at in
            (
              j,
              f.item,
              f.at,
              (exited_child-parent i f.item f.passes).0,
              (exited_child-parent i f.item f.passes).1,
              rw found,
              rw found (get_elem?-modify_self k'.procs j freeproc ∙ ap (Option.map freeproc) f.at),
              kwait-fault i j f.item k' e f.at,
            ))
    ]
