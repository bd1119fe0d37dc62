-- ===== src/Spinlock/Tests.antt =====
-- The spin lock's theorems on a run of two CPUs, and on two nested critical sections.
use os_cea.Base.{ℕ, ◌≡◌, refl, true, false, some, arith}
use os_cea.Spinlock.{Cpu, initlock, push_off, acquire, holding}
use os_cea.Spinlock.Nesting.{Sections, done, section, run, IsRestored, run-IsRestored}
use os_cea.Spinlock.Exclusion.{System, Reach, here, next, enters, start, mutual_exclusion, update}

abbrev cpu : Cpu
cpu = record { intr = true; noff = 0; intena = false }

abbrev nested : Sections
nested = section (section done done) done

run-IsRestored_example : (d : Cpu) × (run nested cpu ≡ some d) × IsRestored cpu d
run-IsRestored_example = run-IsRestored nested cpu (λ lt. absurd (omega arith))

abbrev entered : System
entered = record {
  lock = record { locked = true; cpu = some 1 };
  cpus = update (λ i. cpu) 1 (record { intr = false; noff = 1; intena = true });
  inside = update (λ i. false) 1 true;
}

entered_reached : Reach (start (λ i. cpu)) entered
unfolding acquire push_off holding initlock
entered_reached = next here (enters 1 refl)

abbrev one : ℕ
one = 1

mutual_exclusion_example : one ≡ one
mutual_exclusion_example = mutual_exclusion (λ i. cpu) entered_reached 1 1 refl refl
