-- ===== src/Sleeplock.antt =====
-- Sleep locks (kernel/sleeplock.c). The inner spin lock makes each function one step; `pid` is the
-- calling process's, which is not 0.
pub mod Holders
mod Tests
use os_cea.Base.{ℕ, Bool, true, false, ◌&&◌, Option, none, some, ◌==◌, if◌then◌else◌}

-- `struct sleeplock`
pub record SleepLock : Type 0 where
  pub locked : Bool
  pub pid : ℕ

pub initsleeplock : SleepLock
initsleeplock = record { locked = false; pid = 0 }

-- One test of the lock; `none` is `sleep`, after which the test is made again.
pub acquiresleep : ℕ → SleepLock → Option SleepLock
acquiresleep pid lk = if lk.locked then none else some (record { locked = true; pid = pid })

pub releasesleep : SleepLock → SleepLock
releasesleep lk = record { locked = false; pid = 0 }

pub holdingsleep : ℕ → SleepLock → Bool
holdingsleep pid lk = lk.locked && lk.pid == pid
