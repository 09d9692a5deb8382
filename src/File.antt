-- ===== src/File.antt =====
-- file.c, the descriptors of sysfile.c, and pipealloc of pipe.c: the table of open files with its
-- reference counts, each critical section under `ftable.lock` a step. A pointer to a file is its
-- index, a pipe or an inode an address.
pub mod Descriptors
pub mod Counts
pub mod Ends
mod Tests
use osass.Base.{
  ℕ, zero, suc, ◌+◌, ◌-◌, ◌^◌, ◌≤◌, ◌<◌, Bool, true, false, not, ◌||◌, ◌==◌, ltb, leb,
  if◌then◌else◌, Option, none, some, List, [], ◌∷◌, ◌++◌, Outcome, ok, panic, panic_if, ◌>>=◌, ◌>>◌,
}
use osass.Log.Blocks.{at}

-- NFILE
abbrev pub nfile : ℕ
nfile = 100

-- NOFILE
abbrev pub nofile : ℕ
nofile = 16

pub data FileType : Type 0 where
  fd_none fd_pipe fd_inode : FileType

-- `struct file`
pub record File : Type 0 where
  pub type : FileType
  pub ref : ℕ
  pub readable : Bool
  pub writable : Bool
  pub pipe : ℕ
  pub ip : ℕ
  pub off : ℕ

abbrev pub Table : Type 0
Table = ℕ → File

-- What closing does besides: `pipeclose` with the end that is closed, and `iput` in a transaction.
pub data Effect : Type 0 where
  pipe_closes : ℕ → Bool → Effect
  puts_inode : ℕ → Effect
  frees_page : ℕ → Effect

-- The loop of `filealloc`, over `r` entries from `i` on.
pub alloc_from : ℕ → ℕ → Table → Option (ℕ × Table)
alloc_from zero i t = none
alloc_from (suc r) i t =
    let more = alloc_from r (i + 1) t in
    if (t i).ref == 0 then some (i, at i (record (t i) { ref = 1 }) t) else more

pub filealloc : Table → Option (ℕ × Table)
filealloc t = alloc_from nfile 0 t

pub filedup : ℕ → Table → Outcome Table
filedup f t =
    panic_if (ltb (t f).ref 1) "filedup" >> ok (at f (record (t f) { ref = (t f).ref + 1 }) t)

-- What is left to do for the last reference.
pub close_last : File → List Effect
close_last ff = elim ff.type [
  | fd_none ↦ []
  | fd_pipe ↦ pipe_closes ff.pipe ff.writable ∷ []
  | fd_inode ↦ puts_inode ff.ip ∷ []
]

pub fileclose : ℕ → Table → Outcome (Table × List Effect)
fileclose f t =
    panic_if (ltb (t f).ref 1) "fileclose"
    >> (if ltb 0 ((t f).ref - 1)
        then ok (at f (record (t f) { ref = (t f).ref - 1 }) t, [])
        else ok (at f (record (t f) { ref = 0; type = fd_none }) t, close_last (t f)))

-- `ofile` of a process: `ofile[n]`, and `ofile[n] = 0`.
abbrev pub Ofile : Type 0
Ofile = List (Option ℕ)

pub fd_file : Ofile → ℕ → Option ℕ
fd_file [] n = none
fd_file (o ∷ os) zero = o
fd_file (o ∷ os) (suc n) = fd_file os n

pub clear_fd : Ofile → ℕ → Ofile
clear_fd [] n = []
clear_fd (o ∷ os) zero = none ∷ os
clear_fd (o ∷ os) (suc n) = o ∷ clear_fd os n

-- `fdalloc`, over the rest of the descriptors, which `i` precede.
pub fdalloc_from : ℕ → ℕ → Ofile → Option (ℕ × Ofile)
fdalloc_from f i [] = none
fdalloc_from f i (none ∷ os) = some (i, some f ∷ os)
fdalloc_from f i (some g ∷ os) = elim (fdalloc_from f (i + 1) os) [
  | none ↦ none
  | some (n, ps) ↦ some (n, some g ∷ ps)
]

pub fdalloc : ℕ → Ofile → Option (ℕ × Ofile)
fdalloc f os = fdalloc_from f 0 os

-- `argfd`, with what `argint` returned; a descriptor is negative from 2 ^ 31 on.
pub argfd : Option ℕ → Ofile → Option (ℕ × ℕ)
argfd none os = none
argfd (some fd) os =
    if leb (2 ^ 31) fd || leb nofile fd
    then none
    else elim (fd_file os fd) [ none ↦ none | some f ↦ some (fd, f) ]

-- The reply, `none` for -1, the descriptors and the table.
pub sys_dup : Option ℕ → Ofile → Table → Outcome (Option ℕ × Ofile × Table)
sys_dup arg os t = elim (argfd arg os) [
  | none ↦ ok (none, os, t)
  | some (fd, f) ↦ elim (fdalloc f os) [
    | none ↦ ok (none, os, t)
    | some (n, ps) ↦ filedup f t >>= λ u. ok (some n, ps, u)
  ]
]

pub sys_close : Option ℕ → Ofile → Table → Outcome (Option ℕ × Ofile × Table × List Effect)
sys_close arg os t = elim (argfd arg os) [
  | none ↦ ok (none, os, t, [])
  | some (fd, f) ↦ fileclose f t >>= λ (u, out). ok (some 0, clear_fd os fd, u, out)
]

-- The two ends of the pipe at `p`.
pub set_ends : ℕ → ℕ → ℕ → Table → Table
set_ends f0 f1 p t =
    let u =
      at f0 (record (t f0) { type = fd_pipe; readable = true; writable = false; pipe = p }) t in
    at f1 (record (u f1) { type = fd_pipe; readable = false; writable = true; pipe = p }) u

-- `pipealloc`, with what `kalloc` returns if it is called: the two files, or none for -1.
pub pipealloc : Option ℕ → Table → Outcome (Option (ℕ × ℕ) × Table × List Effect)
pipealloc page t = elim (filealloc t) [
  | none ↦ ok (none, t, [])
  | some (f0, u) ↦ elim (filealloc u) [
    | none ↦ fileclose f0 u >>= λ (v, out). ok (none, v, out)
    | some (f1, v) ↦ elim page [
      | none ↦
          fileclose f0 v >>= λ (w, out). fileclose f1 w >>= λ (x, more). ok (none, x, out ++ more)
      | some p ↦ ok (some (f0, f1), set_ends f0 f1 p v, [])
    ]
  ]
]
