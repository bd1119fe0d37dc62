-- ===== src/Sleeplock/Holders.antt =====
-- Who holds a sleep lock, for any number of processes in any order (kernel/sleeplock.c). A process
-- releases the lock only when `holdingsleep` says that it has it, as brelse and iunlock do.
use os_cea.Base.{ℕ, ◌≡◌, refl, Bool, true, false, not, ◌&&◌, some, ◌==◌, if◌then◌else◌, arith}
use os_cea.Sleeplock.{SleepLock, initsleeplock, acquiresleep, releasesleep, holdingsleep}

abbrev pub mark : (ℕ → Bool) → ℕ → Bool → ℕ → Bool
mark f i b j = if j == i then b else f j

-- A lock, and which processes are between their acquiresleep and their releasesleep.
pub record Users : Type 0 where
  pub lock : SleepLock
  pub inside : ℕ → Bool

pub data Step (u : Users) : Users → Type 0 where
  enters :
      (pid : ℕ) {lk : SleepLock}
      → acquiresleep pid u.lock ≡ some lk
      → Step u (record { lock = lk; inside = mark u.inside pid true })
  leaves :
      (pid : ℕ)
      → holdingsleep pid u.lock ≡ true
      → Step u (record { lock = releasesleep u.lock; inside = mark u.inside pid false })

pub data Reach (u : Users) : Users → Type 0 where
  here : Reach u u
  next : {v w : Users} → Reach u v → Step v w → Reach u w

abbrev pub start : Users
start = record { lock = initsleeplock; inside = λ pid. false }

abbrev IsExact : Users → Type 0
IsExact u = (pid : ℕ) → u.inside pid ≡ holdingsleep pid u.lock

acquiresleep-some :
    (pid : ℕ) (lk lk' : SleepLock)
    → acquiresleep pid lk ≡ some lk'
    → (lk.locked ≡ false) × (lk'.locked ≡ true) × (lk'.pid ≡ pid)
unfolding acquiresleep
acquiresleep-some pid lk lk' e = ground arith

Step-IsExact : {u v : Users} → Step u v → IsExact u → IsExact v
unfolding acquiresleep releasesleep holdingsleep
Step-IsExact {u = u} (enters pid {lk = lk} e) h j =
    let (free, taken, owner) = acquiresleep-some pid u.lock lk e in
    let k : u.inside j ≡ (u.lock.locked && u.lock.pid == j) = h j in ground arith
Step-IsExact {u = u} (leaves pid e) h j =
    let k : u.inside j ≡ (u.lock.locked && u.lock.pid == j) = h j in ground arith

Reach-IsExact : {u : Users} → Reach start u → IsExact u
unfolding initsleeplock holdingsleep
Reach-IsExact here j = refl
Reach-IsExact (next r s) j = Step-IsExact s (Reach-IsExact r) j

-- `holdingsleep` tells exactly the process that has acquired the lock and not yet released it, and
-- there is one such process at most, in any order of steps.
pub holdingsleep_exact :
    {u : Users}
    → Reach start u
    → (i j : ℕ)
    → (holdingsleep i u.lock ≡ u.inside i) × ((u.inside i && u.inside j && not (i == j)) ≡ false)
unfolding holdingsleep
holdingsleep_exact r i j = let p = Reach-IsExact r i in let q = Reach-IsExact r j in ground arith
