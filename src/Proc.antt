-- ===== src/Proc.antt =====
-- proc.c: the process table, each critical section under `ptable.lock` a single step. A pointer to a
-- process is its index. What `kalloc` and `copyuvm` return is an argument. The trap frame and the
-- saved context are left out, and so is the page table, but for whether it is there.
pub mod Sched
use osass.Base.{
  ℕ, zero, suc, ◌+◌, ◌-◌, ◌≤◌, ◌<◌, ◌≡◌, Bool, true, false, ◌&&◌, ◌||◌, not, ◌==◌, ltb,
  if◌then◌else◌, Option, none, some, List, [], ◌∷◌, ◌++◌, Outcome, ok, panic, panic_if, ◌>>=◌, ◌>>◌,
  String,
}
use osass.Log.Blocks.{at}

-- NPROC (param.h)
abbrev pub nproc : ℕ
nproc = 64

-- `enum procstate` (proc.h)
pub data ProcState : Type 0 where
  unused embryo sleeping runnable running zombie : ProcState

-- A sleep channel: the address of a process, or another address.
pub data Chan : Type 0 where
  proc_chan : ℕ → Chan
  other_chan : ℕ → Chan

-- `struct proc`; `kstack` and `pgdir` are addresses, `ofile` the open files, `none` the null pointer.
pub record Proc : Type 0 where
  pub sz : ℕ
  pub pgdir : Option ℕ
  pub kstack : Option ℕ
  pub state : ProcState
  pub pid : ℕ
  pub parent : Option ℕ
  pub chan : Option Chan
  pub killed : Bool
  pub ofile : List (Option ℕ)
  pub cwd : Option ℕ
  pub name : List ℕ

-- `ptable`, `nextpid` (which does not overflow) and `initproc`.
pub record Table : Type 0 where
  pub proc : ℕ → Proc
  pub nextpid : ℕ
  pub initproc : ℕ

abbrev pub is_state : ProcState → ProcState → Bool
is_state unused unused = true
is_state embryo embryo = true
is_state sleeping sleeping = true
is_state runnable runnable = true
is_state running running = true
is_state zombie zombie = true
is_state _ _ = false

abbrev pub is_chan : Option Chan → Chan → Bool
is_chan none c = false
is_chan (some (proc_chan i)) (proc_chan j) = i == j
is_chan (some (other_chan i)) (other_chan j) = i == j
is_chan (some _) _ = false

abbrev pub is_proc : Option ℕ → ℕ → Bool
is_proc none i = false
is_proc (some j) i = j == i

abbrev pub set_proc : Table → ℕ → Proc → Table
set_proc t i p = record t { proc = at i p t.proc }

-- `for(p = ptable.proc; p < &ptable.proc[NPROC]; p++) if(test p) goto found;` over `r` entries from
-- `i` on.
pub find_proc : (Proc → Bool) → ℕ → ℕ → (ℕ → Proc) → Option ℕ
find_proc test zero i proc = none
find_proc test (suc r) i proc =
    let more = find_proc test r (i + 1) proc in if test (proc i) then some i else more

-- A loop over `r` entries from `i` on that does `f` to each.
pub each_from {ℓ} : {A : Type ℓ} → (A → A) → ℕ → ℕ → (ℕ → A) → ℕ → A
each_from f zero i proc = proc
each_from f (suc r) i proc = each_from f r (i + 1) (at i (f (proc i)) proc)

-- The first critical section of `allocproc`: an UNUSED entry becomes EMBRYO, with the next pid.
pub claim : Table → Option (ℕ × Table)
unfolding find_proc
claim t = elim (find_proc (λ p. is_state p.state unused) nproc 0 t.proc) [
  | none ↦ none
  | some i ↦ some (
    i,
    record t {
      proc = at i (record (t.proc i) { state = embryo; pid = t.nextpid }) t.proc;
      nextpid = t.nextpid + 1;
    },
  )
]

-- The rest of `allocproc`, with what `kalloc` returned for the kernel stack.
pub give_stack : ℕ → Table → Option ℕ → Option ℕ × Table
give_stack i t none = (none, set_proc t i (record (t.proc i) { kstack = none; state = unused }))
give_stack i t (some k) = (some i, set_proc t i (record (t.proc i) { kstack = some k }))

pub allocproc : Table → Option ℕ → Option ℕ × Table
unfolding claim give_stack
allocproc t stack = elim (claim t) [ none ↦ (none, t) | some (i, u) ↦ give_stack i u stack ]

-- What the process calls do to files, directories and pages, in order; a page is an address.
pub data Call : Type 0 where
  filedup fileclose idup iput : ℕ → Call
  kfree freevm : Option ℕ → Call

-- `if(curproc->ofile[i]) f(curproc->ofile[i])` for each open file.
abbrev pub each_file : (ℕ → Call) → List (Option ℕ) → List Call
each_file f [] = []
each_file f (none ∷ fs) = each_file f fs
each_file f (some a ∷ fs) = f a ∷ each_file f fs

-- A process that runs has a directory.
abbrev pub each_cwd : (ℕ → Call) → Option ℕ → List Call
each_cwd f none = []
each_cwd f (some d) = f d ∷ []

-- `fork` after `allocproc`, with the page table that `copyuvm` returned: the reply (none is -1), the
-- table and the calls. The child becomes RUNNABLE last, under the lock.
pub fork_into : ℕ → ℕ → Table → Option ℕ → Option ℕ × Table × List Call
fork_into me np t none = (
  none,
  set_proc t np (record (t.proc np) { kstack = none; state = unused }),
  kfree (t.proc np).kstack ∷ [],
)
fork_into me np t (some d) =
    let cur = t.proc me in
    (
      some (t.proc np).pid,
      set_proc t np (record (t.proc np) {
        pgdir = some d;
        sz = cur.sz;
        parent = some me;
        ofile = cur.ofile;
        cwd = cur.cwd;
        name = cur.name;
        state = runnable;
      }),
      each_file filedup cur.ofile ++ each_cwd idup cur.cwd,
    )

pub fork : ℕ → Table → Option ℕ → Option ℕ → Option ℕ × Table × List Call
unfolding allocproc fork_into
fork me t stack pages =
    let (np, u) = allocproc t stack in
    elim np [ none ↦ (none, u, []) | some i ↦ fork_into me i u pages ]
