-- ===== src/Log/Ops.antt =====
-- log.c: `begin_op`, `end_op` and `log_write`, each critical section under `log.lock` a single step.
-- A system call brackets its updates by the first two.
pub mod Write
pub mod Transaction
pub mod Budget
pub mod Space
pub mod Overflow
mod Tests
use osass.Base.{
  ℕ, zero, suc, ◌+◌, ◌-◌, ◌*◌, ◌≤◌, ◌<◌, ◌≡◌, Bool, true, false, ◌==◌, leb, ltb, if◌then◌else◌,
  ◌||◌, Option, none, some, List, [], ◌∷◌, Memory, Outcome, ok, panic, panic_if, ◌>>=◌, ◌>>◌,
}
use osass.Log.{max_op_blocks, log_size, LogHeader, Log, Fs, commit}
use osass.Log.Blocks.{Block, at}

-- One round of `begin_op`: it has started, or it sleeps on the log and will look again.
pub data Begin : Type 0 where
  started : Fs → Begin
  waits : Begin

pub begin_op : Fs → Begin
begin_op f =
    if f.log.committing
    then waits
    else if ltb log_size (f.log.lh.n + (f.log.outstanding + 1) * max_op_blocks)
    then waits
    else started (record f { log = record (f.log) { outstanding = f.log.outstanding + 1 } })

-- How the first critical section of `end_op` ends: this was the last operation, and it commits; or
-- others are left, and those who wait are woken. `underflow` is an `end_op` with no operation
-- outstanding, which leaves the count of -1 that no caller makes.
pub data End : Type 0 where
  commits : Fs → End
  leaves : Fs → End
  underflow : End

pub end_op_first : Fs → Outcome End
end_op_first f =
    if f.log.committing
    then panic "log.committing"
    else if f.log.outstanding == 0
    then ok underflow
    else if f.log.outstanding - 1 == 0
    then ok (commits (record f { log = record (f.log) { outstanding = 0; committing = true } }))
    else ok (leaves (record f { log = record (f.log) { outstanding = f.log.outstanding - 1 } }))

-- The second one, after the commit; it wakes those who wait.
pub end_op_last : Fs → Fs
end_op_last f = record f { log = record (f.log) { committing = false } }

-- `end_op` as a whole, where it commits or leaves.
pub end_op : Fs → Outcome (Option Fs)
unfolding end_op_first end_op_last
end_op f = end_op_first f >>= λ e.
    ok (elim e [ commits g ↦ some (end_op_last (commit g)) | leaves g ↦ some g | underflow ↦ none ])

-- The search of `log_write` over the `r` entries from `i` on: where it stops.
pub find_from : ℕ → ℕ → (ℕ → ℕ) → ℕ → ℕ
find_from zero i block b = i
find_from (suc r) i block b =
    let more = find_from r (i + 1) block b in if block i == b then i else more

-- `log_write` of the buffer of block `b`.
pub log_write : Fs → ℕ → Outcome Fs
unfolding find_from
log_write f b =
    let lh = f.log.lh in
    let i = find_from lh.n 0 lh.block b in
    panic_if (leb log_size lh.n || leb (f.log.size - 1) lh.n) "too big a transaction"
    >> panic_if (ltb f.log.outstanding 1) "log_write outside of trans"
    >> ok (record {
      log = record (f.log) {
        lh = record { block = at i b lh.block; n = if i == lh.n then lh.n + 1 else lh.n };
      };
      store = record (f.store) { dirty = at b true f.store.dirty };
    })

-- Changing the data of a cached block, as callers do before `log_write`.
pub modify : Fs → ℕ → Block → Fs
modify f b v = record f { store = record (f.store) { cache = at b (some v) f.store.cache } }

-- The use that the comment above `log_write` gives: modify a block, then log it.
pub log_block : Fs → ℕ → Block → Outcome Fs
unfolding modify
log_block f b v = log_write (modify f b v) b
