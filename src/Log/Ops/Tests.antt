-- ===== src/Log/Ops/Tests.antt =====
-- Runs of the critical sections of log.c, and their theorems there.
use osass.Base.{ℕ, suc, some, panic, get_elem?, ◌≡◌, ◌<◌, refl, false, none, [], ◌∷◌}
use osass.Log.{log_size, LogHeader, Log, Fs}
use osass.Log.Blocks.{Disk}
use osass.Log.Ops.{begin_op, log_write}
use osass.Log.Ops.Overflow.{log_write_overflows}
use osass.Log.Ops.Space.{Ops, Reach, here, next, begins, LogEnds, log_write-reserved, IsIdle}

-- A disk of zeros.
abbrev zero_disk : Disk
zero_disk = λ _ _. 0

-- A log at block 2, in which one operation is under way.
abbrev idle_log : Log
idle_log = record {
  start = 2;
  size = 30;
  outstanding = 1;
  committing = false;
  lh = record { n = 0; block = λ _. 0 };
}

abbrev empty_fs : Fs
empty_fs = record {
  log = idle_log;
  store = record { cache = λ _. none; dirty = λ _. false; disk = zero_disk; past = [] };
}

abbrev no_header : LogHeader
no_header = record { n = 0; block = λ _. 0 }

-- No operation yet.
abbrev nobody : Ops
nobody = record { fs = record empty_fs { log = record idle_log { outstanding = 0 } }; left = [] }

-- One has begun.
abbrev one_begun : Ops
one_begun = record { fs = empty_fs; left = 10 ∷ [] }

nobody-IsIdle : IsIdle nobody
nobody-IsIdle = record {
  nothing_logged = refl;
  nobody = refl;
  none_outstanding = refl;
  not_committing = refl;
}

one_begun-Reach : Reach nobody one_begun
unfolding begin_op
one_begun-Reach = next here (begins empty_fs refl)

log_write-reserved_example :
    (empty_fs.log.committing ≡ false)
    × (empty_fs.log.lh.n < log_size)
    × LogEnds empty_fs (log_write empty_fs 40)
log_write-reserved_example = log_write-reserved 0 9 40 nobody-IsIdle one_begun-Reach refl

log_write_overflows_example :
    (p : Ops) × (i k b : ℕ) × Reach nobody p
    × (get_elem? p.left i ≡ some (suc k))
    × (log_write p.fs b ≡ panic "too big a transaction")
log_write_overflows_example = log_write_overflows nobody nobody-IsIdle refl
