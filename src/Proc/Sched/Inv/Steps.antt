-- ===== src/Proc/Sched/Inv/Steps.antt =====
-- proc.c: new processes and `wait` keep the invariant, and so do all steps together.
use osass.Base.{
  ℕ, ◌+◌, ◌<◌, ◌≡◌, ◌≢◌, ◌∙◌, sym, ap, subst, refl, inl, inr, arith, Option-cases, false, ◌&&◌,
  Option, none, some, List,
}
use osass.Log.Blocks.{at}
use osass.Proc.{
  nproc, unused, embryo, running, zombie, Chan, proc_chan, Table, is_state, set_proc, find_proc,
  claim, give_stack, fork_into, Call,
}
use osass.Proc.Sched.{
  wakeup, yield, sleep, sleep_end, exit_files, exit_zombie, reap, reaped, waits, has_child, wait,
  kill, dispatch,
}
use osass.Proc.Sched.Loops.{find_proc-some}
use mathlib.Core.Option.{some-injective}
use osass.Proc.Sched.Waiting.{WaitEnds, wait-WaitEnds}
use osass.Proc.Sched.Inv.{Inv}
use osass.Proc.Sched.Inv.Simple.{
  set_proc-Inv, wakeup1-Inv, yield-Inv, sleep-Inv, sleep_end-Inv, kill-Inv, dispatch-Inv,
}
use osass.Proc.Sched.Inv.Died.{exit_zombie-Inv, exit_files-Inv}

-- The table with entry `np` claimed.
abbrev pub claimed : Table → ℕ → Table
claimed t np = record t {
  proc = at np (record (t.proc np) { state = embryo; pid = t.nextpid }) t.proc;
  nextpid = t.nextpid + 1;
}

-- Entry `np`, which was UNUSED, becomes EMBRYO with the next pid.
claimed-Inv :
    (t : Table) (np : ℕ) → np < nproc → (t.proc np).state ≡ unused → Inv t → Inv (claimed t np)
claimed-Inv t np h u v = record {
  distinct = λ i j a b c d e. ground (arith, v.distinct i j, v.below i, v.below j);
  below = λ i a c. ground (arith, v.below i, v.positive);
  positive = omega arith;
  init_in = v.init_in;
  init_live = ground (arith, v.init_live);
  root = ground (arith, v.root);
  no_self = λ i a. ground (arith, v.no_self i);
  awake = λ p c a b d e f z. ground (arith, v.awake p c);
}

claim_found :
    (t : Table) (k : ℕ)
    → find_proc (λ p. is_state p.state unused) nproc 0 t.proc ≡ some k
    → claim t ≡ some (k, claimed t k)
unfolding claim
claim_found t k e = rw (e, claim) refl

claim_full :
    (t : Table) → find_proc (λ p. is_state p.state unused) nproc 0 t.proc ≡ none → claim t ≡ none
unfolding claim
claim_full t e = rw (e, claim) refl

-- What `claim` claims.
pub claim_lem :
    (t u : Table) (i : ℕ)
    → claim t ≡ some (i, u)
    → (i < nproc) × ((t.proc i).state ≡ unused) × (u ≡ claimed t i)
claim_lem t u i h = elim (Option-cases (find_proc (λ p. is_state p.state unused) nproc 0 t.proc)) [
  | inl e ↦ absurd (cc (claim_full t e, h))
  | inr (k, e) ↦
      let (a, b, c) = find_proc-some (λ p. is_state p.state unused) nproc 0 t.proc k e in
      let eq = some-injective (k, claimed t k) (i, u) (sym (claim_found t k e) ∙ h) in
      let same : k ≡ i = ap (λ x. x.0) eq in
      (omega (arith, same), ground (arith, c, same), sym (ap (λ x. x.1) eq) ∙ ap (claimed t) same)
]

pub give_stack-Inv :
    (i : ℕ) (t : Table) (o : Option ℕ)
    → (t.proc i).state ≡ embryo
    → Inv t
    → Inv (give_stack i t o).1
unfolding give_stack
give_stack-Inv i t none e v =
    set_proc-Inv t i _
      (record {
        live = λ h. absurd (h refl);
        asleep = λ h k. absurd (cc);
        dead = λ x h k. absurd (cc);
        parent_same = inl refl;
        still_live = λ h. absurd (h.1 e);
      })
      v
give_stack-Inv i t (some k) e v =
    set_proc-Inv t i _
      (record {
        live = λ h. (h, refl);
        asleep = λ h k. (h, k);
        dead = λ x h k. (h, k);
        parent_same = inl refl;
        still_live = λ h. h;
      })
      v

pub fork_into-Inv :
    (me np : ℕ) (t : Table) (pages : Option ℕ)
    → np < nproc
    → (t.proc me).state ≡ running
    → (t.proc np).state ≡ embryo
    → Inv t
    → Inv (fork_into me np t pages).1
unfolding fork_into
fork_into-Inv me np t none h r e v =
    set_proc-Inv t np _
      (record {
        live = λ h. absurd (h refl);
        asleep = λ h k. absurd (cc);
        dead = λ x h k. absurd (cc);
        parent_same = inl refl;
        still_live = λ h. absurd (h.1 e);
      })
      v
fork_into-Inv me np t (some d) h r e v = record {
  distinct = λ i j a b c f g. ground (arith, v.distinct i j);
  below = λ i a c. ground (arith, v.below i);
  positive = v.positive;
  init_in = v.init_in;
  init_live = ground (arith, v.init_live);
  root = ground (arith, v.root, v.init_live);
  no_self = λ i a. ground (arith, v.no_self i);
  awake = λ p c a b k f g z. ground (arith, v.awake p c);
}

-- Sleeping in `wait`, when no child is a zombie.
pub wait_sleep-Inv :
    (me : ℕ) (t : Table)
    → (t.proc me).state ≡ running
    → ((k : ℕ) → k < nproc → (has_child me (t.proc k) && is_state (t.proc k).state zombie) ≡ false)
    → Inv t
    → Inv (sleep me (proc_chan me) t)
unfolding sleep
wait_sleep-Inv me t r n v = record {
  distinct = λ i j a b c d e. ground (arith, v.distinct i j);
  below = λ i a c. ground (arith, v.below i);
  positive = v.positive;
  init_in = v.init_in;
  init_live = ground (arith, v.init_live);
  root = ground (arith, v.root);
  no_self = λ i a. ground (arith, v.no_self i);
  awake = λ p c a b d e f z. ground (arith, v.awake p c, n c);
}

pub reap-Inv :
    (i : ℕ) (t : Table) → (t.proc i).state ≡ zombie → Inv t → Inv (set_proc t i (reap (t.proc i)))
unfolding reap
reap-Inv i t z v =
    set_proc-Inv t i _
      (record {
        live = λ h. absurd (h refl);
        asleep = λ h k. absurd (cc);
        dead = λ x h k. absurd (cc);
        parent_same = inr refl;
        still_live = λ h. absurd (h.2 z);
      })
      v

-- A step of the table: a process in the kernel does one of the calls, or the scheduler picks one.
pub data Step : Table → Table → Type 0 where
  claims : (t : Table) (i : ℕ) (u : Table) → claim t ≡ some (i, u) → Step t u
  stacks :
      (t : Table) (i : ℕ) (o : Option ℕ) → (t.proc i).state ≡ embryo → Step t (give_stack i t o).1
  forks :
      (t : Table) (me np : ℕ) (pages : Option ℕ)
      → np < nproc
      → (t.proc me).state ≡ running
      → (t.proc np).state ≡ embryo
      → Step t (fork_into me np t pages).1
  wakes : (t : Table) (chan : Chan) → Step t (wakeup chan t)
  yields : (t : Table) (me : ℕ) → (t.proc me).state ≡ running → Step t (yield me t)
  sleeps :
      (t : Table) (me : ℕ) (chan : Chan)
      → (t.proc me).state ≡ running
      → chan ≢ proc_chan me
      → Step t (sleep me chan t)
  resumes : (t : Table) (me : ℕ) → Step t (sleep_end me t)
  closes : (t : Table) (me : ℕ) → Step t (exit_files me t).0
  exits :
      (t : Table) (me : ℕ)
      → me < nproc
      → me ≢ t.initproc
      → (t.proc me).state ≡ running
      → Step t (exit_zombie me t)
  reaps :
      (t : Table) (me pid : ℕ) (u : Table) (calls : List Call)
      → wait me t ≡ reaped pid u calls
      → Step t u
  awaits :
      (t : Table) (me : ℕ) (u : Table)
      → (t.proc me).state ≡ running
      → wait me t ≡ waits u
      → Step t u
  kills : (t : Table) (pid : ℕ) → Step t (kill pid t).1
  dispatches : (t : Table) (i : ℕ) (u : Table) → dispatch i t ≡ some u → Step t u

pub Step-Inv : (t u : Table) → Step t u → Inv t → Inv u
unfolding wakeup
Step-Inv _ _ (claims t i u h) v =
    let (a, b, c) = claim_lem t u i h in subst Inv (sym c) (claimed-Inv t i a b v)
Step-Inv _ _ (stacks t i o e) v = give_stack-Inv i t o e v
Step-Inv _ _ (forks t me np pages h r e) v = fork_into-Inv me np t pages h r e v
Step-Inv _ _ (wakes t chan) v = wakeup1-Inv chan t v
Step-Inv _ _ (yields t me r) v = yield-Inv me t r v
Step-Inv _ _ (sleeps t me chan r n) v = sleep-Inv me chan t r n v
Step-Inv _ _ (resumes t me) v = sleep_end-Inv me t v
Step-Inv _ _ (closes t me) v = exit_files-Inv me t v
Step-Inv _ _ (exits t me m n r) v = exit_zombie-Inv me t m n r v
Step-Inv _ _ (reaps t me pid u calls h) v =
    let (i, a, b, c, d, first, e, f, o, g) = subst (WaitEnds me t) h (wait-WaitEnds me t) in
    subst Inv (sym e) (reap-Inv i t c v)
Step-Inv _ _ (awaits t me u r h) v =
    let (e, a, b, n) = subst (WaitEnds me t) h (wait-WaitEnds me t) in
    subst Inv (sym e) (wait_sleep-Inv me t r n v)
Step-Inv _ _ (kills t pid) v = kill-Inv pid t v
Step-Inv _ _ (dispatches t i u h) v = dispatch-Inv i t u h v

-- Any number of steps.
pub data Steps : Table → Table → Type 0 where
  done : (t : Table) → Steps t t
  next : (t u w : Table) → Steps t u → Step u w → Steps t w

-- From a table where the invariant holds, any steps of processes and of the scheduler lead to
-- one where it holds: pids in use stay distinct, positive and below `nextpid`, init stays alive
-- and without a parent, no process is its own parent, and no process sleeps in `wait` that has a
-- zombie child.
pub Steps-Inv : (t u : Table) → Steps t u → Inv t → Inv u
Steps-Inv _ _ (done t) v = v
Steps-Inv _ _ (next t m u s one) v = Step-Inv m u one (Steps-Inv t m s v)
