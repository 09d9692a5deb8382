-- ===== src/Log/Crash.antt =====
-- log.c: crash safety. Whatever state of the disk a power failure leaves during `commit`, recovery
-- brings the home blocks to their contents before the transaction or to those after it, all of them.
pub mod Logging
pub mod Installing
pub mod Commit
pub mod Recovery
use osass.Base.{
  ℕ, zero, suc, ◌+◌, ◌-◌, ◌*◌, ◌^◌, ◌≤◌, ◌<◌, ◌≡◌, ◌≢◌, ◌∙◌, sym, ap, subst, ◌⊎◌, inl, inr, refl,
  arith, Bool, true, false, ◌==◌, leb, ltb, if◌then◌else◌, ◌||◌, Option, none, some, List, [], ◌∷◌,
  Memory,
}
use osass.Base.Words.{get32, put32, get32-put32_self, get32-put32_apart}
use osass.Log.{
  log_size, LogHeader, Log, Fs, read_head, write_head, install_from, install_trans, write_log_from,
  write_log, clear, recover_from_log, commit, initlog,
}
use osass.Log.Blocks.{
  Block, Disk, Store, at, content, bread, bwrite, boot, content-bread, content-bwrite, disk-bread,
  past-bread,
}
use osass.Log.Header.{encode, get32-encode_count, get32-encode_entry, read_entries_lem, Fits}

-- The states of the disk that a power failure may leave.
abbrev pub points : Store → List Disk
points s = s.disk ∷ s.past

abbrev pub All : (Disk → Type 0) → List Disk → Type 0
All P [] = Unit
All P (d ∷ ds) = P d × All P ds

-- Blocks outside of the log that begins at `start`.
abbrev pub IsHome : ℕ → ℕ → Type 0
IsHome start b = (b < start) ⊎ (start + log_size < b)

-- The header names block `b`.
abbrev pub Logged : LogHeader → ℕ → Type 0
Logged lh b = (i : ℕ) × (i < lh.n) × (lh.block i ≡ b)

-- The blocks of a transaction are homes, and fit the log.
pub record Layout (start : ℕ) (lh : LogHeader) : Type 0 where
  pub fits : Fits lh
  pub homes : (i : ℕ) → i < lh.n → IsHome start (lh.block i)

-- The header is clear, and the home blocks hold `v`.
pub record Clear (start : ℕ) (v d : Disk) : Type 0 where
  pub header : get32 (d start) 0 ≡ 0
  pub home : (b : ℕ) → IsHome start b → d b ≡ v b

-- The header names the blocks, the log holds what they become, and each home block is already what
-- it becomes or will be installed.
pub record Committed (start : ℕ) (lh : LogHeader) (new d : Disk) : Type 0 where
  pub count : get32 (d start) 0 ≡ lh.n
  pub entries : (i : ℕ) → i < lh.n → get32 (d start) (4 * i + 4) ≡ lh.block i
  pub log_disk : (i : ℕ) → i < lh.n → d (start + i + 1) ≡ new (lh.block i)
  pub home : (b : ℕ) → IsHome start b → (d b ≡ new b) ⊎ Logged lh b

-- A disk in the course of the transaction `lh`, which takes the home blocks from `old` to `new`:
-- not committed, committed, or done with.
pub data Atomic (start : ℕ) (lh : LogHeader) (old new d : Disk) : Type 0 where
  before : Clear start old d → Atomic start lh old new d
  committed : Committed start lh new d → Atomic start lh old new d
  after : Clear start new d → Atomic start lh old new d
