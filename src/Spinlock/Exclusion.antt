-- ===== src/Spinlock/Exclusion.antt =====
-- Mutual exclusion under a spin lock, for any number of CPUs in any interleaving (kernel/spinlock.c).
use os_cea.Base.{
  ℕ, ◌≡◌, ◌⊎◌, inl, inr, Bool, true, false, some, ◌==◌, if◌then◌else◌, arith, Bool-cases,
  true≢false,
}
use os_cea.Spinlock.{
  Cpu, SpinLock, initlock, push_off, pop_off, holding, acquired, acquire, release,
}

abbrev pub update {ℓ} : {A : Type ℓ} → (ℕ → A) → ℕ → A → ℕ → A
update f i a j = if j == i then a else f j

-- One lock, the CPUs, and which of them are between `acquire` and `release`.
pub record System : Type 0 where
  pub lock : SpinLock
  pub cpus : ℕ → Cpu
  pub inside : ℕ → Bool

-- A spinning `acquire` waits, and tests the lock again later; other sections nest on every CPU.
pub data Step (s : System) : System → Type 0 where
  enters :
      (i : ℕ) {c : Cpu} {lk : SpinLock}
      → acquire i (s.cpus i) s.lock ≡ (c, acquired lk)
      → Step s (record { lock = lk; cpus = update s.cpus i c; inside = update s.inside i true })
  leaves :
      (i : ℕ) {c : Cpu} {lk : SpinLock}
      → release i (s.cpus i) s.lock ≡ some (c, lk)
      → Step s (record { lock = lk; cpus = update s.cpus i c; inside = update s.inside i false })
  pushes : (i : ℕ) → Step s (record s { cpus = update s.cpus i (push_off (s.cpus i)) })
  pops :
      (i : ℕ) {c : Cpu}
      → pop_off (s.cpus i) ≡ some c
      → Step s (record s { cpus = update s.cpus i c })

pub data Reach (s : System) : System → Type 0 where
  here : Reach s s
  next : {t u : System} → Reach s t → Step t u → Reach s u

-- A CPU inside holds the lock.
abbrev pub IsOwned : System → Type 0
IsOwned s = (i : ℕ) → s.inside i ≡ true → holding i s.lock ≡ true

acquire_acquired :
    (i : ℕ) (c c' : Cpu) (lk lk' : SpinLock)
    → acquire i c lk ≡ (c', acquired lk')
    → (lk.locked ≡ false) × (holding i lk' ≡ true)
unfolding acquire holding
acquire_acquired i c c' lk lk' e = ground arith

release-some :
    (i : ℕ) (c c' : Cpu) (lk lk' : SpinLock) → release i c lk ≡ some (c', lk') → holding i lk ≡ true
unfolding release
release-some i c c' lk lk' e = ground arith

holding-locked : (i : ℕ) (lk : SpinLock) → holding i lk ≡ true → lk.locked ≡ true
unfolding holding
holding-locked i lk e = ground arith

holding_unique : (i j : ℕ) (lk : SpinLock) → holding i lk ≡ true → holding j lk ≡ true → i ≡ j
unfolding holding
holding_unique i j lk e f = ground arith

Step-IsOwned : {s t : System} → Step s t → IsOwned s → IsOwned t
Step-IsOwned {s} (enters i {c} {lk} e) o j h = entered (Bool-cases (j == i)) h
  where
    entered :
        ((j == i) ≡ true) ⊎ ((j == i) ≡ false)
        → update s.inside i true j ≡ true
        → holding j lk ≡ true
    entered (inl same) g =
        let e' : j ≡ i = ground arith in rw e' (acquire_acquired i (s.cpus i) c s.lock lk e).1
    entered (inr ne) g =
        let was : s.inside j ≡ true = ground arith in
        absurd (
          true≢false (holding-locked j s.lock (o j was))
            (acquire_acquired i (s.cpus i) c s.lock lk e).0)
Step-IsOwned {s} (leaves i {c} {lk} e) o j h = left (Bool-cases (j == i)) h
  where
    left :
        ((j == i) ≡ true) ⊎ ((j == i) ≡ false)
        → update s.inside i false j ≡ true
        → holding j lk ≡ true
    left (inl same) g = absurd (ground arith)
    left (inr ne) g =
        let was : s.inside j ≡ true = ground arith in
        let same = holding_unique j i s.lock (o j was) (release-some i (s.cpus i) c s.lock lk e) in
        absurd (ground arith)
Step-IsOwned (pushes i) o j h = o j h
Step-IsOwned (pops i e) o j h = o j h

Reach-IsOwned : {s t : System} → IsOwned s → Reach s t → IsOwned t
Reach-IsOwned o here = o
Reach-IsOwned o (next r st) = Step-IsOwned st (Reach-IsOwned o r)

abbrev pub start : (ℕ → Cpu) → System
start cpus = record { lock = initlock; cpus = cpus; inside = λ _. false }

-- In any interleaving from a fresh lock, two CPUs are never inside together.
pub mutual_exclusion :
    {s : System} (cpus : ℕ → Cpu)
    → Reach (start cpus) s
    → (i j : ℕ) → s.inside i ≡ true
    → s.inside j ≡ true
    → i ≡ j
mutual_exclusion {s} cpus r i j p q =
    let o = Reach-IsOwned {s = start cpus} (λ k h. absurd (cc)) r in
    holding_unique i j s.lock (o i p) (o j q)
