-- ===== src/Sleeplock.antt =====
-- kernel/sleeplock.c. The spinlock inside makes each function one step. A process that finds the lock
-- taken goes to sleep; `wakeup` in `releasesleep` changes only processes, which are not part of it.
use ev.Prelude.{ℕ, Bool, true, false, ◌&&◌, ◌==◌, if◌then◌else◌, Result, ok, asleep}

pub record Sleeplock : Type 0 where
  pub locked : Bool
  pub pid : ℕ

unfoldable pub initsleeplock : Sleeplock
initsleeplock = record { locked = false; pid = 0 }

unfoldable pub acquiresleep : ℕ → Sleeplock → Result Sleeplock
acquiresleep me l = if l.locked then asleep else ok (record { locked = true; pid = me })

unfoldable pub releasesleep : Sleeplock → Sleeplock
releasesleep l = record { locked = false; pid = 0 }

unfoldable pub holdingsleep : ℕ → Sleeplock → Bool
holdingsleep me l = l.locked && l.pid == me
