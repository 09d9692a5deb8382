-- ===== src/Sleeplock.antt =====
-- sleeplock.c: locks that a process waits for asleep. A run of a call ends where it sleeps; a process
-- is its pid, and `lk` is whether the inner lock is held.
pub mod Waiters
mod Tests
use osass.Base.{
  ℕ, Bool, true, false, ◌&&◌, ◌==◌, if◌then◌else◌, List, [], ◌∷◌, Outcome, ok, panic, ◌>>=◌,
}
use osass.Lock.Held.{take_lock, drop_lock}

-- `struct sleeplock`
pub record Sleeplock : Type 0 where
  pub lk : Bool
  pub locked : Bool
  pub pid : ℕ

pub initsleeplock : Sleeplock
initsleeplock = record { lk = false; locked = false; pid = 0 }

-- How a run of `acquiresleep` ends: with the lock, or asleep on it, with the inner lock given up.
pub data Acquired : Type 0 where
  taken waits : Sleeplock → Acquired

pub acquiresleep : ℕ → Sleeplock → Outcome Acquired
acquiresleep me l = take_lock l.lk >>= λ h.
    if l.locked
    then (drop_lock h >>= λ g. ok (waits (record l { lk = g })))
    else (drop_lock h >>= λ g. ok (taken (record { lk = g; locked = true; pid = me })))

-- A call of `wakeup(lk)`.
pub data Wakeup : Type 0 where
  wakeup_lk : Wakeup

-- The calls of `wakeup` that it makes, and the lock.
pub releasesleep : Sleeplock → Outcome (List Wakeup × Sleeplock)
releasesleep l = take_lock l.lk >>= λ h.
    drop_lock h >>= λ g. ok (wakeup_lk ∷ [], record { lk = g; locked = false; pid = 0 })

pub holdingsleep : ℕ → Sleeplock → Outcome (Bool × Sleeplock)
holdingsleep me l =
    take_lock l.lk >>= λ h. drop_lock h >>= λ g. ok (l.locked && (l.pid == me), record l { lk = g })
