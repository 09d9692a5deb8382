-- ===== src/File/Tests.antt =====
-- Runs of the file table, and its theorems at concrete tables.
use osass.Base.{ℕ, zero, suc, ◌≡◌, refl, arith, false, ◌==◌, if◌then◌else◌, none, some, [], ◌∷◌, ok}
use osass.File.{
  fd_none, fd_inode, File, Table, puts_inode, fileclose, close_last, Ofile, fd_file, clear_fd,
  argfd, sys_dup, sys_close, pipealloc,
}
use osass.File.Counts.{Counts, together, InTable, DupEnds, sys_dup-DupEnds}
use osass.File.Ends.{PipeEnds, pipealloc-PipeEnds}

abbrev no_file : File
no_file = record {
  type = fd_none;
  ref = 0;
  readable = false;
  writable = false;
  pipe = 0;
  ip = 0;
  off = 0;
}

-- File 7 is an inode that descriptor 1 names.
abbrev table : Table
table = λ f. if f == 7 then record no_file { type = fd_inode; ref = 1; ip = 5 } else no_file

abbrev fds : Ofile
fds = none ∷ some 7 ∷ none ∷ []

fds-InTable : InTable fds
unfolding fd_file
fds-InTable zero f h = absurd (cc)
fds-InTable (suc zero) f h = ground (arith, h)
fds-InTable (suc (suc zero)) f h = absurd (cc)
fds-InTable (suc (suc (suc n))) f h = absurd (cc)

table-Counts : Counts table (together fds (λ f. 0))
table-Counts f l = ground arith

abbrev nobody : ℕ → ℕ
nobody f = 0

closed_7 :
    sys_close (some 1) fds table
    ≡ ok (
      some 0,
      none ∷ none ∷ none ∷ [],
      (λ f. if 7 == f then record no_file { ip = 5 } else table f),
      puts_inode 5 ∷ [],
    )
unfolding sys_close argfd fd_file clear_fd fileclose close_last
closed_7 = refl

sys_dup-DupEnds_example : DupEnds (some 1) fds nobody table (sys_dup (some 1) fds table)
sys_dup-DupEnds_example = sys_dup-DupEnds (some 1) fds nobody table fds-InTable table-Counts

pipealloc-PipeEnds_example :
    PipeEnds (some 4096) (together fds nobody) table (pipealloc (some 4096) table)
pipealloc-PipeEnds_example = pipealloc-PipeEnds (some 4096) (together fds nobody) table table-Counts
