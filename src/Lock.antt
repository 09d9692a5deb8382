-- ===== src/Lock.antt =====
-- spinlock.c: interrupt nesting and spin locks on one CPU. `holding`, `acquire` and `release` bracket
-- every critical section of the kernel. A `volatile` read of the flags, `cli` and `sti` act on the
-- CPU's interrupt flag; `xchg` and the barriers are single steps. The call stack that `acquire`
-- records for debugging is left out.
pub mod Laws
pub mod Held
pub mod Mutex
mod Tests
use osass.Base.{
  ℕ, zero, suc, ◌+◌, ◌-◌, ◌≡◌, Bool, true, false, ◌&&◌, not, ◌==◌, ltb, if◌then◌else◌, Option, none,
  some, Outcome, ok, panic, panic_if, ◌>>=◌, ◌>>◌, String,
}

-- `struct cpu` (proc.h), what locking reads of it, and the interrupt flag of `eflags`.
-- `ncli` never falls below 0: `popcli` panics first.
pub record Cpu : Type 0 where
  pub id : ℕ
  pub interrupts : Bool
  pub ncli : ℕ
  pub intena : Bool

-- `struct spinlock`: `cpu` is the holder, none for the null pointer.
pub record Spinlock : Type 0 where
  pub locked : Bool
  pub cpu : Option ℕ

pub initlock : Spinlock
initlock = record { locked = false; cpu = none }

-- The flag is read before `cli`, and kept only at the outermost level.
pub pushcli : Cpu → Cpu
pushcli c = record c {
  interrupts = false;
  ncli = c.ncli + 1;
  intena = if c.ncli == 0 then c.interrupts else c.intena;
}

pub popcli : Cpu → Outcome Cpu
popcli c =
    if c.interrupts
    then panic "popcli - interruptible"
    else if c.ncli == 0
    then panic "popcli"
    else ok (record c { ncli = c.ncli - 1; interrupts = (c.ncli - 1 == 0) && c.intena })

-- `lock->cpu == mycpu()`.
abbrev pub is_cpu : Option ℕ → ℕ → Bool
is_cpu none i = false
is_cpu (some j) i = j == i

pub holding : Cpu → Spinlock → Outcome (Cpu × Bool)
holding c l = do c' ← popcli (pushcli c); ok (c', l.locked && is_cpu l.cpu c.id)

-- What a call of `acquire` comes to: it returns with the lock, or it goes on spinning while another
-- CPU has it, with interrupts off.
pub data Acquired : Type 0 where
  got : Cpu → Spinlock → Acquired
  spins : Cpu → Acquired

pub acquire : Cpu → Spinlock → Outcome Acquired
acquire c l = do
  (c', h) ← holding (pushcli c) l
  panic_if h "acquire"
  ok (if l.locked then spins c' else got c' (record { locked = true; cpu = some c'.id }))

pub release : Cpu → Spinlock → Outcome (Cpu × Spinlock)
release c l = do
  (c', h) ← holding c l
  panic_if (not h) "release"
  c'' ← popcli c'
  ok (c'', record { locked = false; cpu = none })
