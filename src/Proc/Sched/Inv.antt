-- ===== src/Proc/Sched/Inv.antt =====
-- proc.c: the invariant of the process table, and a rule to keep it for changes entry by entry.
pub mod Simple
pub mod Exit
pub mod Died
pub mod Steps
use osass.Base.{
  ℕ, zero, suc, ◌+◌, ◌-◌, ◌≤◌, ◌<◌, ◌≡◌, ◌≢◌, ◌∙◌, sym, ap, subst, refl, ◌⊎◌, inl, inr, arith, Bool,
  Bool-cases, true, false, ◌&&◌, ◌||◌, not, ◌==◌, ltb, leb, if◌then◌else◌, Option, none, some, List,
  [], ◌∷◌, ◌++◌, in_range, Outcome, ok, panic, ◌>>=◌,
}
use mathlib.Core.Path.{ap₂}
use osass.Log.Blocks.{at}
use osass.Proc.{
  nproc, ProcState, unused, embryo, sleeping, runnable, running, zombie, Chan, proc_chan,
  other_chan, Proc, Table, is_state, is_chan, is_proc, set_proc, find_proc, each_from, claim,
  give_stack, fork_into, Call,
}
use osass.Proc.Sched.{
  woken, wakeup_from, wakeup1, wakeup, reparent_one, reparent_from, yield, sleep, sleep_end, closed,
  exit_files, exit_zombie, exit, reap, Wait, reaped, childless, waits, has_child, wait, kill,
  dispatch,
}
use osass.Proc.Sched.Loops.{
  find_proc-some, find_proc-none, wakeup_from_lem, zombie_child, given, reparent_from_lem,
}

-- Process ids are distinct and below `nextpid`; init is alive and has no parent; no process is its
-- own parent; and nobody sleeps in `wait`, on its own address, who has a zombie child.
pub record Inv (t : Table) : Type 0 where
  pub distinct :
      (i j : ℕ)
      → i < nproc
      → j < nproc
      → (t.proc i).state ≢ unused
      → (t.proc j).state ≢ unused
      → (t.proc i).pid ≡ (t.proc j).pid
      → i ≡ j
  pub below :
      (i : ℕ)
      → i < nproc
      → (t.proc i).state ≢ unused
      → (0 < (t.proc i).pid) × ((t.proc i).pid < t.nextpid)
  pub positive : 0 < t.nextpid
  pub init_in : t.initproc < nproc
  pub init_live :
      ((t.proc t.initproc).state ≢ unused)
      × ((t.proc t.initproc).state ≢ embryo)
      × ((t.proc t.initproc).state ≢ zombie)
  pub root : (t.proc t.initproc).parent ≡ none
  pub no_self : (i : ℕ) → i < nproc → (t.proc i).parent ≢ some i
  pub awake :
      (p c : ℕ)
      → p < nproc
      → c < nproc
      → (t.proc p).state ≡ sleeping
      → (t.proc p).chan ≡ some (proc_chan p)
      → (t.proc c).parent ≡ some p
      → (t.proc c).state ≢ zombie

-- Entry `i` changed from `p` to `q` in a way that keeps the invariant.
pub record Keeps (i : ℕ) (p q : Proc) : Type 0 where
  pub live : q.state ≢ unused → (p.state ≢ unused) × (q.pid ≡ p.pid)
  pub asleep :
      q.state ≡ sleeping
      → q.chan ≡ some (proc_chan i)
      → (p.state ≡ sleeping) × (p.chan ≡ some (proc_chan i))
  pub dead :
      (x : ℕ) → q.state ≡ zombie → q.parent ≡ some x → (p.state ≡ zombie) × (p.parent ≡ some x)
  pub parent_same : (q.parent ≡ p.parent) ⊎ (q.parent ≡ none)
  pub still_live :
      (p.state ≢ unused) × (p.state ≢ embryo) × (p.state ≢ zombie)
      → (q.state ≢ unused) × (q.state ≢ embryo) × (q.state ≢ zombie)

pub Keeps-self : (i : ℕ) (p : Proc) → Keeps i p p
Keeps-self i p = record {
  live = λ h. (h, refl);
  asleep = λ h k. (h, k);
  dead = λ x h k. (h, k);
  parent_same = inl refl;
  still_live = λ h. h;
}

parent_none :
    (p q : Proc) → (q.parent ≡ p.parent) ⊎ (q.parent ≡ none) → p.parent ≡ none → q.parent ≡ none
parent_none p q (inl e) h = e ∙ h
parent_none p q (inr e) h = e

parent_ne :
    (p q : Proc) (i : ℕ)
    → (q.parent ≡ p.parent) ⊎ (q.parent ≡ none)
    → p.parent ≢ some i
    → q.parent ≢ some i
parent_ne p q i (inl e) h k = h (sym e ∙ k)
parent_ne p q i (inr e) h k = absurd (cc)

-- Changes that keep each entry keep the invariant.
pub Keeps-Inv :
    (t u : Table)
    → u.nextpid ≡ t.nextpid
    → u.initproc ≡ t.initproc
    → ((i : ℕ) → i < nproc → Keeps i (t.proc i) (u.proc i))
    → Inv t
    → Inv u
Keeps-Inv t u e f k v = record {
  distinct = λ i j h l a b c.
      v.distinct i j h l ((k i h).live a).0 ((k j l).live b).0
        (sym ((k i h).live a).1 ∙ c ∙ ((k j l).live b).1);
  below = λ i h a. omega (arith, v.below i h ((k i h).live a).0, ((k i h).live a).1);
  positive = omega (arith, v.positive);
  init_in = omega (arith, v.init_in);
  init_live = rw f ((k t.initproc v.init_in).still_live v.init_live);
  root = rw f (
      parent_none (t.proc t.initproc) (u.proc t.initproc) (k t.initproc v.init_in).parent_same
        v.root);
  no_self = λ i h. parent_ne (t.proc i) (u.proc i) i (k i h).parent_same (v.no_self i h);
  awake = λ p c h l a b d z.
      let s = (k p h).asleep a b in let y = (k c l).dead p z d in v.awake p c h l s.0 s.1 y.1 y.0;
}
