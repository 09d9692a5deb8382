-- ===== src/Lock/Held.antt =====
-- spinlock.c as the kernel code that holds no other CPU's locks sees it: a lock is a flag, whether
-- this CPU has it. The components take a lock by these two operations.
use osass.Base.{◌<◌, ◌≡◌, ◌⊎◌, arith, Bool, true, false, ◌&&◌, Outcome, ok, panic}
use osass.Lock.{Cpu, Spinlock, initlock, pushcli, is_cpu, Acquired, got, spins, acquire, release}
use osass.Lock.Laws.{IsValid, acquire_cases, release_cases}

abbrev pub take_lock : Bool → Outcome Bool
take_lock true = panic "acquire"
take_lock false = ok true

abbrev pub drop_lock : Bool → Outcome Bool
drop_lock true = ok false
drop_lock false = panic "release"

-- The flag of a lock.
abbrev pub held : Cpu → Spinlock → Bool
held c l = l.locked && is_cpu l.cpu c.id

-- What an `acquire` comes to in terms of the flag, once it has stopped spinning.
abbrev pub acquired_flag : Outcome Acquired → Outcome Bool
acquired_flag (ok (got c l)) = ok (held c l)
acquired_flag (ok (spins c)) = ok false
acquired_flag (panic s) = panic s

abbrev pub released_flag : Outcome (Cpu × Spinlock) → Outcome Bool
released_flag (ok (c, l)) = ok (held c l)
released_flag (panic s) = panic s

-- Where no other CPU has the lock, `acquire` and `release` act on its flag as `take_lock` and
-- `drop_lock` do, panics included.
pub acquire_refines :
    (c : Cpu) (l : Spinlock)
    → (l.locked ≡ false) ⊎ (held c l ≡ true)
    → acquired_flag (acquire c l) ≡ take_lock (held c l)
unfolding pushcli
acquire_refines c l h = rw acquire_cases (ground arith)

pub release_refines :
    (c : Cpu) (l : Spinlock)
    → IsValid c
    → 0 < c.ncli
    → released_flag (release c l) ≡ drop_lock (held c l)
unfolding initlock
release_refines c l v p = rw (release_cases c l v p) (ground arith)
