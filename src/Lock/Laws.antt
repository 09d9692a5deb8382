-- ===== src/Lock/Laws.antt =====
-- spinlock.c: the laws of nesting, and of acquiring and releasing.
use osass.Base.{
  ◌-◌, ◌<◌, ◌≡◌, ◌⊎◌, refl, arith, Bool, true, false, ◌&&◌, ◌==◌, if◌then◌else◌, some, ok, panic,
}
use osass.Lock.{
  Cpu, Spinlock, initlock, pushcli, popcli, is_cpu, holding, got, spins, acquire, release,
}

-- With a nesting of `pushcli` open, interrupts are off.
pub record IsValid (c : Cpu) : Type 0 where
  pub masked : (c.ncli ≡ 0) ⊎ (c.interrupts ≡ false)

pub pushcli-IsValid : (c : Cpu) → IsValid (pushcli c)
unfolding pushcli
pushcli-IsValid c = ground arith

-- What `popcli` leaves is valid, where it does not panic.
pub popcli-IsValid : (c : Cpu) {d : Cpu} → popcli c ≡ ok d → IsValid d
unfolding popcli
popcli-IsValid c h = ground arith

-- The flag that the outermost `pushcli` saved, or the flag itself outside of any.
abbrev pub enabled : Cpu → Bool
enabled c = if c.ncli == 0 then c.interrupts else c.intena

-- Two CPUs agree in what the kernel can tell: the identity, the nesting, the flag, and the flag
-- to come back to.
pub record Same (c d : Cpu) : Type 0 where
  pub id : d.id ≡ c.id
  pub ncli : d.ncli ≡ c.ncli
  pub interrupts : d.interrupts ≡ c.interrupts
  pub enabled_same : enabled d ≡ enabled c

-- What a `popcli` of a `pushcli` leaves.
abbrev pub restored : Cpu → Cpu
restored c = record c { intena = if c.ncli == 0 then c.interrupts else c.intena }

-- A `popcli` undoes a `pushcli`: interrupts come back as they were, and only if no nesting is open.
pub popcli-pushcli : (c : Cpu) → IsValid c → popcli (pushcli c) ≡ ok (restored c)
unfolding popcli pushcli
popcli-pushcli c v = ground arith

restored-Same : (c : Cpu) → Same c (restored c)
restored-Same c = ground arith

pub holding_lem :
    (c : Cpu) (l : Spinlock)
    → IsValid c
    → holding c l ≡ ok (restored c, l.locked && is_cpu l.cpu c.id)
unfolding holding
holding_lem c l v = rw (popcli-pushcli c v)

-- The CPU of `c` has the lock.
abbrev pub HeldBy : Cpu → Spinlock → Type 0
HeldBy c l = (l.locked ≡ true) × (l.cpu ≡ some c.id)

-- `acquire` panics on a lock that this CPU holds, spins with interrupts off on one that another CPU
-- holds, and takes a free one: the nesting is one deeper, and this CPU is the holder.
pub acquire_cases :
    (c : Cpu) (l : Spinlock)
    → acquire c l ≡ (
        if l.locked && is_cpu l.cpu c.id
        then panic "acquire"
        else if l.locked
        then ok (spins (pushcli c))
        else ok (got (pushcli c) (record { locked = true; cpu = some c.id })))
unfolding acquire pushcli
acquire_cases c l = rw (holding_lem (pushcli c) l (pushcli-IsValid c)) (ground arith)

-- `release` panics on a lock that this CPU does not hold. Else it frees the lock and undoes one
-- level of nesting: interrupts come back on exactly if it was the outermost and they were on.
pub release_cases :
    (c : Cpu) (l : Spinlock)
    → IsValid c
    → 0 < c.ncli
    → release c l ≡ (
        if l.locked && is_cpu l.cpu c.id
        then ok
            (record c { ncli = c.ncli - 1; interrupts = (c.ncli - 1 == 0) && c.intena }, initlock)
        else panic "release")
unfolding release popcli initlock
release_cases c l v h = rw (holding_lem c l v) (ground arith)

-- An `acquire` that returns, then the `release`: the lock is free again, and the CPU as before,
-- its interrupt flag included.
pub release-acquire :
    (c : Cpu) (l : Spinlock)
    → IsValid c
    → l.locked ≡ false
    → (d e : Cpu) × (held : Spinlock) × (acquire c l ≡ ok (got d held))
      × (release d held ≡ ok (e, initlock))
      × (d.interrupts ≡ false)
      × Same c e
unfolding pushcli
release-acquire c l v free = (
  pushcli c,
  restored c,
  record { locked = true; cpu = some c.id },
  rw acquire_cases (ground arith),
  rw
      (release_cases (pushcli c) (record { locked = true; cpu = some c.id }) (pushcli-IsValid c)
        (omega arith))
      (ground arith),
  refl,
  restored-Same c,
)
