-- ===== src/Log.antt =====
-- log.c: the redo log. A transaction's blocks are copied to the log, the header that names them is
-- written, the blocks go to their homes, and the header is cleared.
pub mod Blocks
pub mod Header
pub mod Ops
pub mod Crash
mod Tests
use osass.Base.{
  ℕ, zero, suc, ◌+◌, ◌-◌, ◌*◌, ◌≤◌, ◌<◌, ◌≡◌, Bool, true, false, ◌==◌, leb, ltb, if◌then◌else◌,
  ◌||◌, Option, none, some, List, [], ◌∷◌, Memory, Outcome, ok, panic, panic_if, ◌>>=◌, ◌>>◌,
}
use osass.Base.Words.{get32, put32}
use Blocks.{Block, Disk, Store, at, content, bread, bwrite, boot}

-- MAXOPBLOCKS and LOGSIZE (param.h)
abbrev pub max_op_blocks : ℕ
max_op_blocks = 10

abbrev pub log_size : ℕ
log_size = 30

-- `struct logheader`, in memory: `block` is the array.
pub record LogHeader : Type 0 where
  pub n : ℕ
  pub block : ℕ → ℕ

-- `struct log`: its spin lock brackets `begin_op`, `end_op` and `log_write`, which are single steps.
pub record Log : Type 0 where
  pub start : ℕ
  pub size : ℕ
  pub outstanding : ℕ
  pub committing : Bool
  pub lh : LogHeader

-- The log and the blocks below it.
pub record Fs : Type 0 where
  pub log : Log
  pub store : Store

-- The loop of `read_head` for the `r` entries from `i` on.
pub read_entries : ℕ → ℕ → Block → (ℕ → ℕ) → ℕ → ℕ
read_entries zero i b block = block
read_entries (suc r) i b block = read_entries r (i + 1) b (at i (get32 b (4 * i + 4)) block)

pub read_head : Fs → Fs
unfolding read_entries
read_head f =
    let (buf, s) = bread f.store f.log.start in
    let n = get32 buf 0 in
    record {
      log = record (f.log) { lh = record { n = n; block = read_entries n 0 buf f.log.lh.block } };
      store = s;
    }

-- The loop of `write_head` for the `r` entries from `i` on.
pub write_entries : ℕ → ℕ → (ℕ → ℕ) → Block → Block
write_entries zero i block b = b
write_entries (suc r) i block b = write_entries r (i + 1) block (put32 b (4 * i + 4) (block i))

pub write_head : Fs → Fs
unfolding write_entries
write_head f =
    let lh = f.log.lh in
    let (buf, s) = bread f.store f.log.start in
    record {
      log = f.log;
      store = bwrite s f.log.start (write_entries lh.n 0 lh.block (put32 buf 0 lh.n));
    }

-- The loop of `install_trans` for the `r` entries from `tail` on: log block to home.
pub install_from : ℕ → ℕ → Log → Store → Store
install_from zero tail log s = s
install_from (suc r) tail log s =
    let (lbuf, s1) = bread s (log.start + tail + 1) in
    let (dbuf, s2) = bread s1 (log.lh.block tail) in
    install_from r (tail + 1) log (bwrite s2 (log.lh.block tail) lbuf)

pub install_trans : Fs → Fs
unfolding install_from
install_trans f = record f { store = install_from f.log.lh.n 0 f.log f.store }

-- The loop of `write_log` for the `r` entries from `tail` on: cached block to log block.
pub write_log_from : ℕ → ℕ → Log → Store → Store
write_log_from zero tail log s = s
write_log_from (suc r) tail log s =
    let (to, s1) = bread s (log.start + tail + 1) in
    let (from, s2) = bread s1 (log.lh.block tail) in
    write_log_from r (tail + 1) log (bwrite s2 (log.start + tail + 1) from)

pub write_log : Fs → Fs
unfolding write_log_from
write_log f = record f { store = write_log_from f.log.lh.n 0 f.log f.store }

-- `log.lh.n = 0`
pub clear : Fs → Fs
clear f = record f { log = record (f.log) { lh = record (f.log.lh) { n = 0 } } }

pub recover_from_log : Fs → Fs
unfolding read_head install_trans clear write_head
recover_from_log f = write_head (clear (install_trans (read_head f)))

pub commit : Fs → Fs
unfolding write_log write_head install_trans clear
commit f =
    if ltb 0 f.log.lh.n then write_head (clear (install_trans (write_head (write_log f)))) else f

-- `initlog` with the superblock's `logstart` and `nlog`, on a store: the header fits a block, since
-- `sizeof(struct logheader)` is 4 * (1 + LOGSIZE).
pub initlog : ℕ → ℕ → Store → Fs
unfolding recover_from_log
initlog logstart nlog s = recover_from_log (record {
  log = record {
    start = logstart;
    size = nlog;
    outstanding = 0;
    committing = false;
    lh = record { n = 0; block = λ _. 0 };
  };
  store = s;
})
