-- ===== src/Proc/Sched/Inv/Died.antt =====
-- proc.c: the table after `exit`, and the invariant for it.
use osass.Base.{
  ℕ, ◌<◌, ◌≡◌, ◌≢◌, ◌∙◌, sym, refl, inl, inr, arith, Bool-cases, ◌==◌, if◌then◌else◌, some,
}
use osass.Proc.{nproc, unused, embryo, sleeping, running, zombie, proc_chan, Proc, Table, is_proc}
use osass.Proc.Sched.{exit_files, exit_family, exit_zombie}
use osass.Proc.Sched.Inv.{Inv}
use osass.Proc.Sched.Inv.Simple.{set_proc-Inv}
use osass.Proc.Sched.Inv.Exit.{
  Left-asleep, wake_parent_same, exit_family-Left, parent_awake, init_awake,
}

module _ (me : ℕ) (t : Table) where
  -- The table after `exit`.
  abbrev after : Table
  after = exit_zombie me t

  after_other : (j : ℕ) → j ≢ me → after.proc j ≡ (exit_family me t).proc j
  unfolding exit_zombie
  after_other j h = ground arith

  after_me : after.proc me ≡ record ((exit_family me t).proc me) { state = zombie }
  unfolding exit_zombie
  after_me = ground arith

  after_same : (after.nextpid ≡ t.nextpid) × (after.initproc ≡ t.initproc)
  unfolding exit_zombie exit_family
  after_same = wake_parent_same (t.proc me).parent t

  -- What every entry keeps.
  record Kept (p q : Proc) : Type 0 where
    pid_same : q.pid ≡ p.pid
    chan_same : q.chan ≡ p.chan
    parent_given : q.parent ≡ (if is_proc p.parent me then some t.initproc else p.parent)

  after-Kept : (j : ℕ) → j < nproc → Kept (t.proc j) (after.proc j)
  after-Kept j h =
      let l = exit_family-Left me t j h in
      elim (Bool-cases (j == me)) [
        | inl e ↦ record {
          pid_same = ground (arith, e, after_me, l.pid_same);
          chan_same = ground (arith, e, after_me, l.chan_same);
          parent_given = ground (arith, e, after_me, l.parent_given);
        }
        | inr e ↦ record {
          pid_same = ground (arith, e, after_other j, l.pid_same);
          chan_same = ground (arith, e, after_other j, l.chan_same);
          parent_given = ground (arith, e, after_other j, l.parent_given);
        }
      ]

  after_live :
      (j : ℕ)
      → j < nproc
      → (t.proc me).state ≡ running
      → (after.proc j).state ≢ unused
      → (t.proc j).state ≢ unused
  after_live j h r u =
      let l = exit_family-Left me t j h in
      elim (Bool-cases (j == me)) [
        | inl e ↦ ground (arith, e, r)
        | inr e ↦ ground (arith, e, after_other j, l.state_kept, u)
      ]

  after_init :
      t.initproc < nproc
      → t.initproc ≢ me
      → ((t.proc t.initproc).state ≢ unused)
        × ((t.proc t.initproc).state ≢ embryo)
        × ((t.proc t.initproc).state ≢ zombie)
      → ((after.proc t.initproc).state ≢ unused)
        × ((after.proc t.initproc).state ≢ embryo)
        × ((after.proc t.initproc).state ≢ zombie)
  after_init h n v =
      let l = exit_family-Left me t t.initproc h in
      ground (arith, after_other t.initproc n, l.state_kept, v)

  after_no_self : Inv t → (j : ℕ) → j < nproc → (after.proc j).parent ≢ some j
  after_no_self v j h e =
      let k = after-Kept j h in ground (arith, k.parent_given, e, v.no_self j h, v.root)

  after_awake :
      Inv t
      → me < nproc
      → (p c : ℕ) → p < nproc
      → c < nproc
      → (after.proc p).state ≡ sleeping
      → (after.proc p).chan ≡ some (proc_chan p)
      → (after.proc c).parent ≡ some p
      → (after.proc c).state ≢ zombie
  after_awake v m p c hp hc s ch e z =
      let n : p ≢ me = λ q. ground (arith, q, after_me, s) in
      let asleep : ((exit_family me t).proc p).state ≡ sleeping =
        ground (arith, n, after_other p, s) in
      let k = after-Kept p hp in
      let kc = after-Kept c hc in
      let l = exit_family-Left me t c hc in
      let own : (t.proc p).chan ≡ some (proc_chan p) = sym k.chan_same ∙ ch in
      let old = Left-asleep me t.initproc (t.proc p) _ (exit_family-Left me t p hp) asleep in
      elim (Bool-cases (c == me)) [
        | inl q ↦
            parent_awake me t p hp (ground (arith, q, kc.parent_given, e, v.no_self me m)) own
              asleep
        | inr q ↦
            let dead : (t.proc c).state ≡ zombie =
              ground (arith, q, after_other c, l.state_kept, z) in
            elim (Bool-cases (is_proc (t.proc c).parent me)) [
              | inl b ↦
                  let i : t.initproc ≡ p = ground (arith, b, kc.parent_given, e) in
                  init_awake me t c hc v.init_in (ground (arith, b)) dead (ground (arith, i, own))
                    (ground (arith, i, asleep))
              | inr b ↦ v.awake p c hp hc old own (ground (arith, b, kc.parent_given, e)) dead
            ]
      ]

-- `exit` keeps the invariant.
pub exit_zombie-Inv :
    (me : ℕ) (t : Table)
    → me < nproc
    → me ≢ t.initproc
    → (t.proc me).state ≡ running
    → Inv t
    → Inv (exit_zombie me t)
exit_zombie-Inv me t m n r v = record {
  distinct = λ i j h l a b c.
      v.distinct i j h l (after_live me t i h r a) (after_live me t j l r b)
        (sym (after-Kept me t i h).pid_same ∙ c ∙ (after-Kept me t j l).pid_same);
  below = λ i h a. omega (
    arith,
    v.below i h (after_live me t i h r a),
    (after-Kept me t i h).pid_same,
    (after_same me t).0,
  );
  positive = omega (arith, v.positive, (after_same me t).0);
  init_in = omega (arith, v.init_in, (after_same me t).1);
  init_live = rw (after_same me t).1 (after_init me t v.init_in (λ e. n (sym e)) v.init_live);
  root =
      rw (after_same me t).1
        (ground (arith, (after-Kept me t t.initproc v.init_in).parent_given, v.root));
  no_self = after_no_self me t v;
  awake = after_awake me t v m;
}

-- So does closing the files before it.
pub exit_files-Inv : (me : ℕ) (t : Table) → Inv t → Inv (exit_files me t).0
unfolding exit_files
exit_files-Inv me t v =
    set_proc-Inv t me _
      (record {
        live = λ h. (h, refl);
        asleep = λ h k. (h, k);
        dead = λ x h k. (h, k);
        parent_same = inl refl;
        still_live = λ h. h;
      })
      v
