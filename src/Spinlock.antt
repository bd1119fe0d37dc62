-- ===== src/Spinlock.antt =====
-- Spin locks and the nesting of interrupt disabling (kernel/spinlock.c).
pub mod Nesting
pub mod Exclusion
mod Tests
use os_cea.Base.{
  ℕ, ◌+◌, ◌-◌, Bool, true, false, ◌&&◌, ◌||◌, Option, none, some, ltb, ◌==◌, if◌then◌else◌,
}

-- The interrupt bit of `sstatus`, and the fields of `struct cpu` that count the nesting.
pub record Cpu : Type 0 where
  pub intr : Bool
  pub noff : ℕ
  pub intena : Bool

-- `struct spinlock`; `cpu` is the CPU that holds it.
pub record SpinLock : Type 0 where
  pub locked : Bool
  pub cpu : Option ℕ

pub initlock : SpinLock
initlock = record { locked = false; cpu = none }

pub push_off : Cpu → Cpu
push_off c = record {
  intr = false;
  noff = c.noff + 1;
  intena = if c.noff == 0 then c.intr else c.intena;
}

-- `none` is one of the two panics.
pub pop_off : Cpu → Option Cpu
pop_off c =
    if c.intr || ltb c.noff 1
    then none
    else some (record c { noff = c.noff - 1; intr = c.noff - 1 == 0 && c.intena })

abbrev pub is_cpu : ℕ → Option ℕ → Bool
is_cpu i none = false
is_cpu i (some j) = i == j

pub holding : ℕ → SpinLock → Bool
holding i lk = lk.locked && is_cpu i lk.cpu

-- What one test of the lock by `acquire` does: it panics, spins on, or has the lock.
pub data Attempt : Type 0 where
  panics : Attempt
  spins : Attempt
  acquired : SpinLock → Attempt

-- The CPU, with interrupts off, and what its atomic swap brings.
pub acquire : ℕ → Cpu → SpinLock → Cpu × Attempt
acquire i c lk = (
  push_off c,
  if holding i lk
      then panics
      else if lk.locked
      then spins
      else acquired (record { locked = true; cpu = some i }),
)

pub release : ℕ → Cpu → SpinLock → Option (Cpu × SpinLock)
release i c lk =
    if holding i lk
    then elim (pop_off c) [
      | none ↦ none
      | some c' ↦ some (c', record { locked = false; cpu = none })
    ]
    else none
