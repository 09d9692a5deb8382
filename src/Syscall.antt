-- ===== src/Syscall.antt =====
-- syscall.c: how a system call fetches its arguments from the memory of the process. Words are 32-bit;
-- an `int` is such a word, and a size is negative from 2 ^ 31 on.
pub mod Bounds
mod Tests
use osass.Base.{
  ℕ, zero, suc, ◌+◌, ◌-◌, ◌*◌, ◌%◌, ◌^◌, ◌≤◌, ◌<◌, Bool, true, false, ◌||◌, ◌==◌, ltb, leb,
  if◌then◌else◌, Option, none, some, Memory,
}
use osass.Base.Words.{get32}
use osass.Pipe.{u32}

-- What the calls read of the process: the size of its memory, the stack pointer of its trap frame,
-- and the memory.
pub record User : Type 0 where
  pub sz : ℕ
  pub esp : ℕ
  pub mem : Memory

-- `none` is the return of -1, here and below.
pub fetchint : User → ℕ → Option ℕ
fetchint u addr =
    if leb u.sz addr || ltb u.sz ((addr + 4) % u32) then none else some (get32 u.mem addr)

-- The loop of `fetchstr`, with `r` bytes to go up to `ep`, `len` bytes past the start.
pub find_nul : Memory → ℕ → ℕ → ℕ → Option ℕ
find_nul m addr zero len = none
find_nul m addr (suc r) len =
    let more = find_nul m addr r (len + 1) in if m (addr + len) == 0 then some len else more

-- The length of the string.
pub fetchstr : User → ℕ → Option ℕ
fetchstr u addr = if leb u.sz addr then none else find_nul u.mem addr (u.sz - addr) 0

pub argint : User → ℕ → Option ℕ
argint u n = fetchint u ((u.esp + 4 + 4 * n) % u32)

pub argptr : User → ℕ → ℕ → Option ℕ
argptr u n size = elim (argint u n) [
  | none ↦ none
  | some i ↦
      if leb (2 ^ 31) size || (leb u.sz i || ltb u.sz ((i + size) % u32)) then none else some i
]

-- The address and the length of the string.
pub argstr : User → ℕ → Option (ℕ × ℕ)
argstr u n = elim (argint u n) [
  | none ↦ none
  | some addr ↦ elim (fetchstr u addr) [ none ↦ none | some len ↦ some (addr, len) ]
]
