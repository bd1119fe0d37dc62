-- ===== src/Proc/Life/Pids.antt =====
-- Process identifiers (kernel/proc.c: allocpid, allocproc, kfork, kwait, kkill): a slot in use has a
-- pid of its own, and a free slot has pid 0.

use mathlib.Core.Path.{fun_ext}
use native.Mathlib.Nat.{mod-eq_of_lt}
use os_cea.Base.{
  ℕ, if◌then◌else◌, ◌+◌, ◌<◌, ◌≤◌, ◌^◌, ◌⊎◌, ◌≡◌, ◌≢◌, ap, ◌∙◌, refl, inl, inr, true, false, none,
  some, List, get_elem?, modify, find_index?, ◌||◌, get_elem?-modify_inv, modify-modify, arith,
  Option-cases, ◌==◌, Bool-cases,
}
use os_cea.Proc.{Proc, Kernel, inc32, is_unused}
use os_cea.Proc.Mlfq.{init_mlfq_proc}
use os_cea.Proc.Life.{claim, freeproc, allocproc}

pub record HasPids (procs : List Proc) (nextpid : ℕ) : Type 0 where
  pub idle : (j : ℕ) (p : Proc) → get_elem? procs j ≡ some p → is_unused p.state ≡ true → p.pid ≡ 0
  pub fresh :
      (j : ℕ) (p : Proc)
      → get_elem? procs j ≡ some p
      → is_unused p.state ≡ false
      → (0 < p.pid) × (p.pid < nextpid)
  pub distinct :
      (i j : ℕ) (p q : Proc)
      → get_elem? procs i ≡ some p
      → get_elem? procs j ≡ some q
      → is_unused p.state ≡ false
      → is_unused q.state ≡ false
      → p.pid ≡ q.pid
      → i ≡ j

-- The ways in which an operation changes the pid of a slot: it frees the slot, keeps the pid, or
-- gives a pid that nobody has had.
abbrev Allowed : ℕ → ℕ → Proc → Proc → Type 0
Allowed n n' p q =
    (is_unused q.state ≡ true) × (q.pid ≡ 0)
    ⊎ ((is_unused p.state ≡ false) × (is_unused q.state ≡ false) × (q.pid ≡ p.pid)
        ⊎ (is_unused q.state ≡ false) × (0 < q.pid) × (n ≤ q.pid) × (q.pid < n'))

small : (n : ℕ) → n + 1 < 2 ^ 31 → n + 1 < 2 ^ 32
small n h = omega arith

-- Where the pid of a slot in use comes from.
abbrev Origin : List Proc → ℕ → ℕ → ℕ → ℕ → Proc → Type 0
Origin procs n n' i j q =
    ((a : Proc) × (get_elem? procs j ≡ some a) × (is_unused a.state ≡ false) × (q.pid ≡ a.pid))
    ⊎ (i ≡ j) × (0 < q.pid) × (n ≤ q.pid) × (q.pid < n')

module _ {procs : List Proc} {n : ℕ} (pids : HasPids procs n) (i n' : ℕ) (f : Proc → Proc)
    (ok : (p : Proc) → get_elem? procs i ≡ some p → Allowed n n' p (f p)) where
  origin :
      (j : ℕ) (q : Proc)
      → get_elem? (modify procs i f) j ≡ some q
      → is_unused q.state ≡ false
      → Origin procs n n' i j q
  origin j q at u = from (get_elem?-modify_inv procs i j f at)
    where
      from :
          (a : Proc) × (get_elem? procs j ≡ some a) × ((i ≡ j) × (q ≡ f a) ⊎ (i ≢ j) × (q ≡ a))
          → Origin procs n n' i j q
      from (a, old, inr (_, v)) = inl (a, old, ground arith, ground arith)
      from (a, old, inl (e, v)) = changed (ok a (rw e old))
        where
          changed : Allowed n n' a (f a) → Origin procs n n' i j q
          changed (inl (w, _)) = absurd (ground arith)
          changed (inr (inl (w, _, s))) = inl (a, old, w, ground arith)
          changed (inr (inr (_, z, l, b))) = inr (e, ground arith, ground arith, ground arith)

  pub modify-HasPids : n ≤ n' → HasPids (modify procs i f) n'
  modify-HasPids le = record {
    idle = λ j q at u. freed j q u (get_elem?-modify_inv procs i j f at);
    fresh = λ j q at u. bounded j q (origin j q at u);
    distinct = λ a b p q at_a at_b u v e. apart a b p q (origin a p at_a u) (origin b q at_b v) e;
  }
    where
      freed :
          (j : ℕ) (q : Proc)
          → is_unused q.state ≡ true
          → (a : Proc) × (get_elem? procs j ≡ some a) × ((i ≡ j) × (q ≡ f a) ⊎ (i ≢ j) × (q ≡ a))
          → q.pid ≡ 0
      freed j q u (a, old, inr (_, v)) = ground (arith, pids.idle j a old)
      freed j q u (a, old, inl (e, v)) = ground (arith, ok a (rw e old))

      bounded : (j : ℕ) (q : Proc) → Origin procs n n' i j q → (0 < q.pid) × (q.pid < n')
      bounded j q (inl (a, old, u, e)) = let (z, b) = pids.fresh j a old u in omega arith
      bounded j q (inr (_, z, _, b)) = (z, b)

      apart :
          (a b : ℕ) (p q : Proc)
          → Origin procs n n' i a p
          → Origin procs n n' i b q
          → p.pid ≡ q.pid
          → a ≡ b
      apart a b p q (inl (x, at_x, u, d)) (inl (y, at_y, v, e)) s =
          pids.distinct a b x y at_x at_y u v (omega arith)
      apart a b p q (inl (x, at_x, u, d)) (inr (_, _, l, _)) s =
          absurd (omega (arith, (pids.fresh a x at_x u).1))
      apart a b p q (inr (_, _, l, _)) (inl (y, at_y, v, e)) s =
          absurd (omega (arith, (pids.fresh b y at_y v).1))
      apart a b p q (inr (d, _, _, _)) (inr (e, _, _, _)) s = omega arith

freeproc_lem : (p : Proc) → (is_unused (freeproc p).state ≡ true) × ((freeproc p).pid ≡ 0)
unfolding freeproc
freeproc_lem p = (refl, refl)

pub freeproc-HasPids :
    {procs : List Proc} {n : ℕ} (i : ℕ) → HasPids procs n → HasPids (modify procs i freeproc) n
freeproc-HasPids {n = n} i pids =
    modify-HasPids pids i n freeproc (λ p _. inl (freeproc_lem p)) (omega arith)

-- The two ways in which `allocproc` leaves a slot that it found.
abbrev pub settle : ℕ → ℕ → ℕ → ℕ → Proc → Proc
settle pid ticks frame table p =
    if frame == 0 || table == 0
    then freeproc (claim pid ticks p)
    else record (claim pid ticks p) { trapframe = frame; pagetable = table }

settle-Allowed :
    (pid ticks frame table : ℕ) (p : Proc)
    → 0 < pid
    → Allowed pid (pid + 1) p (settle pid ticks frame table p)
unfolding claim freeproc init_mlfq_proc
settle-Allowed pid ticks frame table p h = elim (Bool-cases (frame == 0 || table == 0)) [
  | inl e ↦ rw e (inl (refl, refl))
  | inr e ↦ rw e (inr (inr (refl, h, omega arith, omega arith)))
]

pub allocproc-some :
    (frame table : ℕ) (k : Kernel) (i : ℕ)
    → find_index? (λ p. is_unused p.state) k.procs ≡ some i
    → ((allocproc frame table k).1.procs ≡ modify k.procs i (settle k.nextpid k.ticks frame table))
      × ((allocproc frame table k).1.nextpid ≡ inc32 k.nextpid)
      × ((allocproc frame table k).0 ≡ (if frame == 0 || table == 0 then none else some i))
unfolding allocproc
allocproc-some frame table k i e = elim (Bool-cases (frame == 0 || table == 0)) [
  | inl f ↦ (
    rw (e, allocproc, f)
        (modify-modify k.procs i (claim k.nextpid k.ticks) freeproc
          ∙ ap (modify k.procs i) (fun_ext λ p. rw f)),
    rw (e, allocproc, f),
    rw (e, allocproc, f),
  )
  | inr f ↦ (
    rw (e, allocproc, f)
        (modify-modify k.procs i (claim k.nextpid k.ticks)
            (λ p. record p { trapframe = frame; pagetable = table })
          ∙ ap (modify k.procs i) (fun_ext λ p. rw f)),
    rw (e, allocproc, f),
    rw (e, allocproc, f),
  )
]

pub allocproc-none :
    (frame table : ℕ) (k : Kernel)
    → find_index? (λ p. is_unused p.state) k.procs ≡ none
    → allocproc frame table k ≡ (none, k)
unfolding allocproc
allocproc-none frame table k e = rw (e, allocproc)

-- `allocproc` keeps the pids distinct, while the counter has not run out: whether it finds a slot, and
-- whether its pages can be had or not.
pub allocproc-HasPids :
    (frame table : ℕ) (k : Kernel)
    → 0 < k.nextpid
    → k.nextpid + 1 < 2 ^ 31
    → HasPids k.procs k.nextpid
    → HasPids (allocproc frame table k).1.procs (allocproc frame table k).1.nextpid
allocproc-HasPids frame table k pos room pids =
    elim (Option-cases (find_index? (λ (p : Proc). is_unused p.state) k.procs)) [
      | inl e ↦ rw (allocproc-none frame table k e) pids
      | inr (i, e) ↦
          (let (procs, nextpid, _) = allocproc-some frame table k i e in
            rw (procs, nextpid, mod-eq_of_lt (small k.nextpid room))
              (modify-HasPids pids i (k.nextpid + 1) (settle k.nextpid k.ticks frame table)
                (λ p _. settle-Allowed k.nextpid k.ticks frame table p pos) (omega arith)))
    ]
