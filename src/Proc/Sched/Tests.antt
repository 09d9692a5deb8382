-- ===== src/Proc/Sched/Tests.antt =====
-- Runs of proc.c, and its theorems at concrete tables.
use osass.Base.{◌≡◌, refl, arith, true, false, ◌==◌, if◌then◌else◌, none, some, [], ◌∷◌}
use osass.Proc.{
  fork, allocproc, filedup, idup, unused, running, zombie, Proc, Table, set_proc, find_proc, claim,
  give_stack, fork_into,
}
use osass.Proc.Sched.{wait, kill}
use osass.Proc.Sched.Waiting.{WaitEnds, wait-WaitEnds}
use osass.Proc.Sched.Killing.{kill-claim_killed}
use osass.Proc.Sched.Inv.{Inv}
use osass.Proc.Sched.Inv.Steps.{claimed, claims, stacks, forks, Steps, done, next, Steps-Inv}

-- An entry that was never used.
abbrev idle : Proc
idle = record {
  sz = 0;
  pgdir = none;
  kstack = none;
  state = unused;
  pid = 0;
  parent = none;
  chan = none;
  killed = false;
  ofile = [];
  cwd = none;
  name = [];
}

-- The first process, as `userinit` and the scheduler leave it, with one open file.
abbrev first : Proc
first = record {
  sz = 4096;
  pgdir = some 1;
  kstack = some 2;
  state = running;
  pid = 1;
  parent = none;
  chan = none;
  killed = false;
  ofile = some 9 ∷ [];
  cwd = some 3;
  name = 105 ∷ [];
}

abbrev boot : Table
boot = record { proc = λ i. if i == 0 then first else idle; nextpid = 2; initproc = 0 }

boot-Inv : Inv boot
boot-Inv = record {
  distinct = λ i j h l a b c. ground arith;
  below = λ i h a. ground arith;
  positive = omega arith;
  init_in = omega arith;
  init_live = ((λ e. cc), (λ e. cc), λ e. cc);
  root = refl;
  no_self = λ i h e. ground arith;
  awake = λ p c h l a b d z. ground arith;
}

-- After a fork by the first process.
abbrev two : Table
two = (fork_into 0 1 (give_stack 1 (claimed boot 1) (some 5)).1 (some 6)).1

forked : Steps boot two
unfolding claim find_proc give_stack
forked =
    next boot _ _
      (next boot _ _ (next boot _ _ (done boot) (claims boot 1 (claimed boot 1) refl))
        (stacks (claimed boot 1) 1 (some 5) refl))
      (forks (give_stack 1 (claimed boot 1) (some 5)).1 0 1 (some 6) (omega arith) refl refl)

fork_twice : fork 0 boot (some 5) (some 6) ≡ (some 2, two, filedup 9 ∷ idup 3 ∷ [])
unfolding fork allocproc claim find_proc give_stack fork_into
fork_twice = refl

Steps-Inv_example : Inv two
Steps-Inv_example = Steps-Inv boot two forked boot-Inv

-- The child of the first process is dead.
abbrev orphaned : Table
orphaned = set_proc boot 2 (record first { state = zombie; pid = 7; parent = some 0 })

wait-WaitEnds_example : WaitEnds 0 orphaned (wait 0 orphaned)
wait-WaitEnds_example = wait-WaitEnds 0 orphaned

-- `kill(0)` marks an unused entry.
kill-claim_killed_example :
    ((boot.proc 1).state ≡ unused) × (((claimed (kill 0 boot).1 1).proc 1).killed ≡ true)
unfolding claim find_proc kill
kill-claim_killed_example = kill-claim_killed 0 boot (claimed (kill 0 boot).1 1) 1 refl refl
