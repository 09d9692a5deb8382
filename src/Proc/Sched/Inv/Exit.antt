-- ===== src/Proc/Sched/Inv/Exit.antt =====
-- proc.c: `exit` keeps the invariant. Its parent, and init if it inherits a zombie, are woken before
-- they could miss a zombie child.
use osass.Base.{
  ℕ, zero, suc, ◌+◌, ◌≤◌, ◌<◌, ◌≡◌, ◌≢◌, ◌∙◌, sym, ap, subst, refl, ◌⊎◌, inl, inr, arith, Bool,
  true, false, ◌&&◌, if◌then◌else◌, Option, none, some,
}
use osass.Proc.{
  nproc, sleeping, runnable, zombie, Chan, proc_chan, other_chan, Proc, Table, is_state, is_chan,
  is_proc,
}
use osass.Proc.Sched.{woken, wakeup1, reparent_from, wake_parent, exit_family}
use osass.Proc.Sched.Loops.{wakeup_from_lem, zombie_child, given, reparent_from_lem}

-- What waking leaves of a process that still sleeps, or is a zombie; the rest it does not touch.
woken_lem :
    (chan : Chan) (p : Proc)
    → ((woken chan p).pid ≡ p.pid)
      × ((woken chan p).parent ≡ p.parent)
      × ((woken chan p).chan ≡ p.chan)
      × ((is_state p.state sleeping && is_chan p.chan chan) ≡ false
          → (woken chan p).state ≡ p.state)
      × ((is_state p.state sleeping && is_chan p.chan chan) ≡ true
          → (woken chan p).state ≡ runnable)
unfolding woken
woken_lem chan p =
    (ground arith, ground arith, ground arith, (λ h. ground arith), λ h. ground arith)

given_lem :
    (me init : ℕ) (p : Proc)
    → ((given me init p).pid ≡ p.pid)
      × ((given me init p).chan ≡ p.chan)
      × ((given me init p).state ≡ p.state)
      × ((given me init p).parent ≡ (if is_proc p.parent me then some init else p.parent))
unfolding given
given_lem me init p = ground arith

-- A zombie child in range is seen by the loop.
zombie_child-true :
    (me r i : ℕ) (proc : ℕ → Proc) (k : ℕ)
    → i ≤ k
    → k < i + r
    → is_proc (proc k).parent me ≡ true
    → is_state (proc k).state zombie ≡ true
    → zombie_child me r i proc ≡ true
zombie_child-true me zero i proc k a b h l = absurd (omega arith)
zombie_child-true me (suc r) i proc k a b h l =
    ground (arith, zombie_child-true me r (i + 1) proc k)

-- An entry after the waking and giving away of `exit`: nothing changes but that a child goes to init
-- and that a sleeper may have been woken.
pub record Left (me init : ℕ) (p q : Proc) : Type 0 where
  pub pid_same : q.pid ≡ p.pid
  pub chan_same : q.chan ≡ p.chan
  pub parent_given : q.parent ≡ (if is_proc p.parent me then some init else p.parent)
  pub state_kept : (q.state ≡ p.state) ⊎ ((p.state ≡ sleeping) × (q.state ≡ runnable))

woken-Left :
    (me init : ℕ) (z : Bool) (p : Proc)
    → Left me init p (given me init (if z then woken (proc_chan init) p else p))
unfolding woken given
woken-Left me init true p = record {
  pid_same = ground arith;
  chan_same = ground arith;
  parent_given = ground arith;
  state_kept = ground arith;
}
woken-Left me init false p = record {
  pid_same = ground arith;
  chan_same = ground arith;
  parent_given = ground arith;
  state_kept = inl (ground arith);
}

-- Waking changes an entry in its state alone.
record Roused (p q : Proc) : Type 0 where
  pid_same : q.pid ≡ p.pid
  chan_same : q.chan ≡ p.chan
  parent_same : q.parent ≡ p.parent
  state_kept : (q.state ≡ p.state) ⊎ ((p.state ≡ sleeping) × (q.state ≡ runnable))

woken-Roused : (chan : Chan) (p : Proc) → Roused p (woken chan p)
unfolding woken
woken-Roused chan p = record {
  pid_same = ground arith;
  chan_same = ground arith;
  parent_same = ground arith;
  state_kept = ground arith;
}

wake_parent_entry :
    (o : Option ℕ) (t : Table) (j : ℕ)
    → j < nproc
    → ((o ≡ none) × ((wake_parent o t).proc j ≡ t.proc j))
      ⊎ ((q : ℕ) × (o ≡ some q) × ((wake_parent o t).proc j ≡ woken (proc_chan q) (t.proc j)))
unfolding wake_parent wakeup1
wake_parent_entry none t j h = inl (refl, refl)
wake_parent_entry (some q) t j h =
    inr (q, refl, wakeup_from_lem (proc_chan q) nproc 0 t.proc j ∙ ground arith)

wake_parent-Roused :
    (o : Option ℕ) (t : Table) (j : ℕ) → j < nproc → Roused (t.proc j) ((wake_parent o t).proc j)
wake_parent-Roused o t j h = elim (wake_parent_entry o t j h) [
  | inl (_, e) ↦
      subst (Roused (t.proc j)) (sym e)
        (record { pid_same = refl; chan_same = refl; parent_same = refl; state_kept = inl refl })
  | inr (q, _, e) ↦ subst (Roused (t.proc j)) (sym e) (woken-Roused (proc_chan q) (t.proc j))
]

pub wake_parent_same :
    (o : Option ℕ) (t : Table)
    → ((wake_parent o t).nextpid ≡ t.nextpid) × ((wake_parent o t).initproc ≡ t.initproc)
unfolding wake_parent wakeup1
wake_parent_same none t = (refl, refl)
wake_parent_same (some q) t = (refl, refl)

Roused-Left : (me init : ℕ) (p q r : Proc) → Roused p q → Left me init q r → Left me init p r
Roused-Left me init p q r a b = record {
  pid_same = b.pid_same ∙ a.pid_same;
  chan_same = b.chan_same ∙ a.chan_same;
  parent_given = b.parent_given ∙ ap (λ o. if is_proc o me then some init else o) a.parent_same;
  state_kept = ground (arith, a.state_kept, b.state_kept);
}

woken_not_asleep : (chan : Chan) (p : Proc) → p.chan ≡ some chan → (woken chan p).state ≢ sleeping
unfolding woken
woken_not_asleep (proc_chan i) p c s = ground (arith, c, s)
woken_not_asleep (other_chan i) p c s = ground (arith, c, s)

pub Left-asleep :
    (me init : ℕ) (p q : Proc) → Left me init p q → q.state ≡ sleeping → p.state ≡ sleeping
Left-asleep me init p q l s = ground (arith, l.state_kept, s)

module _ (me : ℕ) (t : Table) where
  -- The table between the two parts.
  abbrev mid : Table
  mid = wake_parent (t.proc me).parent t

  -- Whether `me` leaves a zombie child behind.
  abbrev leaves_zombie : Bool
  leaves_zombie = zombie_child me nproc 0 mid.proc

  exit_family_entry :
      (j : ℕ)
      → j < nproc
      → (exit_family me t).proc j
        ≡ given me t.initproc
            (if leaves_zombie then woken (proc_chan t.initproc) (mid.proc j) else mid.proc j)
  unfolding exit_family
  exit_family_entry j h =
      ap (λ n. reparent_from me n nproc 0 mid.proc j) (wake_parent_same (t.proc me).parent t).1
      ∙ reparent_from_lem me t.initproc nproc 0 mid.proc j h
      ∙ ground arith

  pub exit_family-Left :
      (j : ℕ) → j < nproc → Left me t.initproc (t.proc j) ((exit_family me t).proc j)
  exit_family-Left j h = subst (Left me t.initproc (t.proc j)) (sym (exit_family_entry j h)) (
      Roused-Left me t.initproc (t.proc j) (mid.proc j) _
        (wake_parent-Roused (t.proc me).parent t j h)
        (woken-Left me t.initproc leaves_zombie (mid.proc j)))

  mid-Left : (j : ℕ) → j < nproc → Left me t.initproc (mid.proc j) ((exit_family me t).proc j)
  mid-Left j h =
      subst (Left me t.initproc (mid.proc j)) (sym (exit_family_entry j h))
        (woken-Left me t.initproc leaves_zombie (mid.proc j))

  -- The parent does not go on sleeping on its own address.
  pub parent_awake :
      (q : ℕ)
      → q < nproc
      → (t.proc me).parent ≡ some q
      → (t.proc q).chan ≡ some (proc_chan q)
      → ((exit_family me t).proc q).state ≢ sleeping
  parent_awake q h e c s = elim (wake_parent_entry (t.proc me).parent t q h) [
    | inl (f, _) ↦ absurd (cc)
    | inr (r, f, w) ↦
        let same : r ≡ q = ground (arith, f, e) in
        woken_not_asleep (proc_chan q) (t.proc q) c (
          sym (ap (λ p. p.state) (w ∙ ap (λ x. woken (proc_chan x) (t.proc q)) same))
          ∙ Left-asleep me t.initproc (mid.proc q) _ (mid-Left q h) s)
  ]

  -- Nor does init, if it gets a zombie.
  pub init_awake :
      (k : ℕ)
      → k < nproc
      → t.initproc < nproc
      → (t.proc k).parent ≡ some me
      → (t.proc k).state ≡ zombie
      → (t.proc t.initproc).chan ≡ some (proc_chan t.initproc)
      → ((exit_family me t).proc t.initproc).state ≢ sleeping
  init_awake k h i e z c s =
      let r = wake_parent-Roused (t.proc me).parent t in
      let found : leaves_zombie ≡ true =
        zombie_child-true me nproc 0 mid.proc k (omega arith) (omega arith)
          (ground (arith, (r k h).parent_same, e)) (ground (arith, (r k h).state_kept, z)) in
      woken_not_asleep (proc_chan t.initproc) (mid.proc t.initproc) ((r t.initproc i).chan_same ∙ c)
        (ground (
          arith,
          found,
          exit_family_entry t.initproc i,
          s,
          given_lem me t.initproc (woken (proc_chan t.initproc) (mid.proc t.initproc)),
        ))
