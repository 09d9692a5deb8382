-- ===== src/Sleeplock/Tests.antt =====
-- A run of sleeplock.c, and its theorem at a concrete system.
use osass.Base.{ℕ, ◌≡◌, refl, true, false, ok}
use osass.Log.Blocks.{at}
use osass.Sleeplock.{initsleeplock, acquiresleep, holdingsleep}
use osass.Sleeplock.Waiters.{System, takes, sleeps, Reach, start, then_step, sleeplock_exclusive}

abbrev idle : System
idle = record { lock = initsleeplock; inside = λ p. false; asleep = λ p. false }

-- Process 3 has the lock.
abbrev one_in : System
one_in = record {
  lock = record { lk = false; locked = true; pid = 3 };
  inside = at 3 true (λ p. false);
  asleep = λ p. false;
}

-- Process 4 sleeps on it.
abbrev contended : System
contended = record one_in { asleep = at 4 true (λ p. false) }

contended-Reach : Reach contended
unfolding acquiresleep initsleeplock
contended-Reach =
    then_step one_in contended (then_step idle one_in start (takes idle 3 one_in.lock refl refl))
      (sleeps one_in 4 one_in.lock refl refl)

sleeplock_exclusive_example :
    ((p q : ℕ) → contended.inside p ≡ true → contended.inside q ≡ true → p ≡ q)
    × ((p : ℕ)
        → contended.inside p ≡ true
        → holdingsleep p contended.lock ≡ ok (true, contended.lock))
    × ((p : ℕ) → contended.asleep p ≡ true → contended.lock.locked ≡ true)
sleeplock_exclusive_example = sleeplock_exclusive contended contended-Reach
