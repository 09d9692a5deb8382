-- ===== src/Proc/Sched.antt =====
-- proc.c: sleeping and waking, giving up the CPU, exit, wait and kill. A call that gives up the CPU
-- ends there, in `sched`; what comes after it is a step of its own.
pub mod Loops
pub mod Inv
pub mod Waiting
pub mod Killing
mod Tests
use osass.Base.{
  ℕ, zero, suc, ◌+◌, ◌-◌, ◌≤◌, ◌<◌, ◌≡◌, Bool, true, false, ◌&&◌, ◌||◌, not, ◌==◌, ltb,
  if◌then◌else◌, Option, none, some, List, [], ◌∷◌, ◌++◌, Outcome, ok, panic, panic_if, ◌>>=◌, ◌>>◌,
  String,
}
use osass.Log.Blocks.{at}
use osass.Proc.{
  nproc, ProcState, unused, embryo, sleeping, runnable, running, zombie, Chan, proc_chan,
  other_chan, Proc, Table, is_state, is_chan, is_proc, set_proc, find_proc, each_from, Call,
  filedup, fileclose, idup, iput, kfree, freevm, each_file, each_cwd,
}

-- The checks of `sched`: whether `ptable.lock` is held, `ncli`, the state, the interrupt flag.
pub sched_checks : Bool → ℕ → ProcState → Bool → Outcome (Unit {0})
sched_checks held ncli state interrupts =
    panic_if (not held) "sched ptable.lock"
    >> panic_if (not (ncli == 1)) "sched locks"
    >> panic_if (is_state state running) "sched running"
    >> panic_if interrupts "sched interruptible"
    >> ok tt

-- `yield`, up to its `sched`.
pub yield : ℕ → Table → Table
yield me t = set_proc t me (record (t.proc me) { state = runnable })

-- `sleep` on `chan`, up to its `sched`; the lock that is handed over is released under
-- `ptable.lock`.
pub sleep : ℕ → Chan → Table → Table
sleep me chan t = set_proc t me (record (t.proc me) { chan = some chan; state = sleeping })

-- `sleep` after its `sched`.
pub sleep_end : ℕ → Table → Table
sleep_end me t = set_proc t me (record (t.proc me) { chan = none })

-- One round of `wakeup1`.
pub woken : Chan → Proc → Proc
woken chan p =
    if is_state p.state sleeping && is_chan p.chan chan then record p { state = runnable } else p

-- `wakeup1` over `r` entries from `i` on.
pub wakeup_from : Chan → ℕ → ℕ → (ℕ → Proc) → ℕ → Proc
wakeup_from chan r i proc = each_from (woken chan) r i proc

pub wakeup1 : Chan → Table → Table
wakeup1 chan t = record t { proc = wakeup_from chan nproc 0 t.proc }

-- `wakeup`, with the lock around.
pub wakeup : Chan → Table → Table
wakeup chan t = wakeup1 chan t

-- One round of the loop of `exit`: a child goes to init.
pub reparent_one : ℕ → ℕ → ℕ → (ℕ → Proc) → ℕ → Proc
reparent_one me init i proc =
    let given = at i (record (proc i) { parent = some init }) proc in
    if is_proc (proc i).parent me
    then if is_state (proc i).state zombie
      then wakeup_from (proc_chan init) nproc 0 given
      else given
    else proc

-- That loop over `r` entries from `i` on.
pub reparent_from : ℕ → ℕ → ℕ → ℕ → (ℕ → Proc) → ℕ → Proc
reparent_from me init zero i proc = proc
reparent_from me init (suc r) i proc = reparent_from me init r (i + 1) (reparent_one me init i proc)

abbrev closed : List (Option ℕ) → List (Option ℕ)
closed [] = []
closed (f ∷ fs) = none ∷ closed fs

-- The part of `exit` before `ptable.lock`: files are closed and the directory is put, inside of a
-- transaction.
pub exit_files : ℕ → Table → Table × List Call
exit_files me t =
    let p = t.proc me in
    (
      set_proc t me (record p { ofile = closed p.ofile; cwd = none }),
      each_file fileclose p.ofile ++ each_cwd iput p.cwd,
    )

-- `wakeup1(curproc->parent)`. A null parent is no channel that anyone sleeps on.
pub wake_parent : Option ℕ → Table → Table
wake_parent none t = t
wake_parent (some q) t = wakeup1 (proc_chan q) t

-- The critical section of `exit`, but for its last step: the parent is woken and the children go to
-- init.
pub exit_family : ℕ → Table → Table
exit_family me t =
    let u = wake_parent (t.proc me).parent t in
    record u { proc = reparent_from me u.initproc nproc 0 u.proc }

-- The whole of it, up to its `sched`.
pub exit_zombie : ℕ → Table → Table
exit_zombie me t = let v = exit_family me t in set_proc v me (record (v.proc me) { state = zombie })

pub exit : ℕ → Table → Outcome (Table × List Call)
exit me t =
    if me == t.initproc
    then panic "init exiting"
    else let (u, calls) = exit_files me t in ok (exit_zombie me u, calls)

-- The entry that `wait` found, given back; `kfree` and `freevm` take its pages.
pub reap : Proc → Proc
reap p = record p {
  kstack = none;
  pid = 0;
  parent = none;
  name = elim p.name [ [] ↦ [] | c ∷ cs ↦ 0 ∷ cs ];
  killed = false;
  state = unused;
}

-- One scan of `wait`: it returns the pid of a child that it reaped, returns -1, or sleeps and will
-- scan again.
pub data Wait : Type 0 where
  reaped : ℕ → Table → List Call → Wait
  childless : Table → Wait
  waits : Table → Wait

abbrev pub has_child : ℕ → Proc → Bool
has_child me p = is_proc p.parent me

-- How the scan of `wait` ends: at a zombie child, or past the table, with `havekids`.
pub data Scan : Type 0 where
  dead : ℕ → Scan
  over : Bool → Scan

-- The scan over `r` entries from `i` on.
pub scan_children : ℕ → ℕ → ℕ → (ℕ → Proc) → Bool → Scan
scan_children me zero i proc havekids = over havekids
scan_children me (suc r) i proc havekids =
    let mine = has_child me (proc i) in
    let more = scan_children me r (i + 1) proc (mine || havekids) in
    if mine && is_state (proc i).state zombie then dead i else more

pub wait : ℕ → Table → Wait
wait me t = elim (scan_children me nproc 0 t.proc false) [
  | dead i ↦
      reaped (t.proc i).pid (set_proc t i (reap (t.proc i)))
        (kfree (t.proc i).kstack ∷ freevm (t.proc i).pgdir ∷ [])
  | over havekids ↦
      if not havekids || (t.proc me).killed then childless t else waits (sleep me (proc_chan me) t)
]

-- `kill`: whether a process has the pid.
pub kill : ℕ → Table → Bool × Table
kill pid t = elim (find_proc (λ p. p.pid == pid) nproc 0 t.proc) [
  | none ↦ (false, t)
  | some i ↦ (
    true,
    set_proc t i (record (t.proc i) {
      killed = true;
      state = if is_state (t.proc i).state sleeping then runnable else (t.proc i).state;
    }),
  )
]

-- The scheduler, at entry `i` of its loop: the process to switch to, if it is RUNNABLE.
pub dispatch : ℕ → Table → Option Table
dispatch i t =
    if is_state (t.proc i).state runnable
    then some (set_proc t i (record (t.proc i) { state = running }))
    else none
