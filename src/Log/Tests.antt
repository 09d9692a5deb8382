-- ===== src/Log/Tests.antt =====
-- Runs of log.c on a small disk, and its theorems there.
use osass.Base.{ℕ, ◌≡◌, ◌⊎◌, inl, refl, arith, false, none, List, [], ◌∷◌, ok}
use osass.Base.Words.{get32}
use osass.Log.{LogHeader, Log, Fs, read_head, write_head, commit}
use osass.Log.Blocks.{Block, Disk, content}
use osass.Log.Header.{read_head-write_head}
use osass.Log.Crash.{Clear}
use osass.Log.Crash.Commit.{Ready}
use osass.Log.Crash.Recovery.{
  Crashed, in_commit, in_recovery, recovered, recovery_atomic, recovery_durable,
}
use osass.Log.Ops.Transaction.{log_blocks, log_blocks_total, updated, transaction_atomic}

-- A disk of zeros.
abbrev zero_disk : Disk
zero_disk = λ _ _. 0

-- A log at block 2, in which one operation is under way.
abbrev idle_log : Log
idle_log = record {
  start = 2;
  size = 31;
  outstanding = 1;
  committing = false;
  lh = record { n = 0; block = λ _. 0 };
}

abbrev empty_fs : Fs
empty_fs = record {
  log = idle_log;
  store = record { cache = λ _. none; dirty = λ _. false; disk = zero_disk; past = [] };
}

-- A block of ones.
abbrev ones : Block
ones = λ _. 1

empty_fs-Ready : Ready empty_fs
unfolding get32 content
empty_fs-Ready = record {
  header = refl;
  layout = record {
    fits = record { count = omega arith; entries = λ j h. absurd (omega arith) };
    homes = λ i h. absurd (omega arith);
  };
  pinned = λ b h. inl refl;
  fresh = refl;
}

abbrev updates : List (ℕ × Block)
updates = (40, ones) ∷ (41, ones) ∷ []

-- One block is named.
abbrev one_named : Fs
one_named = record {
  log = record idle_log { lh = record { n = 1; block = λ _. 40 } };
  store = record { cache = λ _. none; dirty = λ _. false; disk = zero_disk; past = [] };
}

abbrev no_header : LogHeader
no_header = record { n = 0; block = λ _. 0 }

read_head-write_head_example :
    let g =
      read_head (record (write_head one_named) { log = record idle_log { lh = no_header } }) in
    (g.log.lh.n ≡ 1) × (g.log.lh.block 0 ≡ 40)
read_head-write_head_example =
    read_head-write_head one_named no_header 0
      (record { count = omega arith; entries = λ j h. omega arith }) (omega arith)

-- Both updates are logged without a panic.
both_logged : (g : Fs) × (log_blocks empty_fs updates ≡ ok g)
both_logged = log_blocks_total updates empty_fs (omega arith) (omega arith) (omega arith)

-- The file system with both updates logged.
abbrev logged_fs : Fs
logged_fs = both_logged.0

-- The disk when the power fails at the end of the commit, and again at the end of a recovery.
abbrev crashed_disk : Disk
crashed_disk = (recovered logged_fs.log.start logged_fs.log.size (commit logged_fs).store.disk).disk

logged_fs-Crashed : Crashed logged_fs crashed_disk
logged_fs-Crashed = in_recovery (in_commit (0, refl)) (0, refl)

transaction_atomic_example :
    Clear 2 zero_disk (recovered 2 31 crashed_disk).disk
    ⊎ Clear 2 (updated zero_disk updates) (recovered 2 31 crashed_disk).disk
transaction_atomic_example =
    transaction_atomic empty_fs logged_fs updates empty_fs-Ready refl
      ((omega arith, omega arith), ((omega arith, omega arith), tt)) both_logged.1 logged_fs-Crashed

recovery_atomic_example :
    Clear 2 zero_disk (recovered 2 31 (commit empty_fs).store.disk).disk
    ⊎ Clear 2 (content empty_fs.store) (recovered 2 31 (commit empty_fs).store.disk).disk
recovery_atomic_example = recovery_atomic empty_fs empty_fs-Ready (in_commit (0, refl))

recovery_durable_example :
    Clear 2 (content empty_fs.store) (recovered 2 31 (commit empty_fs).store.disk).disk
recovery_durable_example = recovery_durable empty_fs empty_fs-Ready
