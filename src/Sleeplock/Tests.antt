-- ===== src/Sleeplock/Tests.antt =====
-- The sleep lock's theorem after process 3 has acquired it.
use os_cea.Base.{ℕ, ◌≡◌, refl, true, false, not, ◌&&◌, ◌==◌}
use os_cea.Sleeplock.{initsleeplock, acquiresleep, holdingsleep}
use os_cea.Sleeplock.Holders.{Users, Reach, here, next, enters, start, mark, holdingsleep_exact}

abbrev entered : Users
entered = record { lock = record { locked = true; pid = 3 }; inside = mark (λ pid. false) 3 true }

entered_reached : Reach start entered
unfolding acquiresleep initsleeplock
entered_reached = next here (enters 3 refl)

abbrev holder : ℕ
holder = 3

abbrev other : ℕ
other = 4

holdingsleep_exact_example :
    (holdingsleep 3 entered.lock ≡ true)
    × ((true && entered.inside 4 && not (holder == other)) ≡ false)
holdingsleep_exact_example = holdingsleep_exact entered_reached 3 4
