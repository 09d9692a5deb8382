-- ===== src/Proc/Sched/Inv/Simple.antt =====
-- proc.c: the calls that change one entry, or wake sleepers, keep the invariant.
use osass.Base.{
  ℕ, ◌≡◌, ◌≢◌, sym, subst, refl, inl, inr, arith, Bool-cases, Option-cases, ==→eq, true, ◌==◌,
  if◌then◌else◌, none, some, in_range,
}
use mathlib.Core.Option.{some-injective}
use osass.Log.Blocks.{at}
use osass.Proc.{
  nproc, sleeping, runnable, running, Chan, proc_chan, Proc, Table, is_state, set_proc, find_proc,
}
use osass.Proc.Sched.{woken, wakeup1, yield, sleep, sleep_end, kill, dispatch}
use osass.Proc.Sched.Loops.{wakeup_from_lem}
use osass.Proc.Sched.Inv.{Inv, Keeps, Keeps-self, Keeps-Inv}

Keeps-at :
    (me i : ℕ) (proc : ℕ → Proc) (q : Proc)
    → Keeps me (proc me) q
    → Keeps i (proc i) (at me q proc i)
Keeps-at me i proc q k = elim (Bool-cases (me == i)) [
  | inl e ↦ rw e (subst (λ j. Keeps j (proc j) q) (==→eq me i e) k)
  | inr e ↦ rw e (Keeps-self i (proc i))
]

-- One entry changes.
pub set_proc-Inv :
    (t : Table) (me : ℕ) (q : Proc) → Keeps me (t.proc me) q → Inv t → Inv (set_proc t me q)
set_proc-Inv t me q k v =
    Keeps-Inv t (set_proc t me q) refl refl (λ i h. Keeps-at me i t.proc q k) v

pub woken-Keeps : (chan : Chan) (i : ℕ) (p : Proc) → Keeps i p (woken chan p)
unfolding woken
woken-Keeps chan i p = record {
  live = λ h. ground arith;
  asleep = λ h k. ground arith;
  dead = λ x h k. ground arith;
  parent_same = ground arith;
  still_live = λ h. ground arith;
}

pub wakeup1-Inv : (chan : Chan) (t : Table) → Inv t → Inv (wakeup1 chan t)
unfolding wakeup1
wakeup1-Inv chan t v =
    Keeps-Inv t (wakeup1 chan t) refl refl
      (λ i h.
        subst (Keeps i (t.proc i)) (sym (wakeup_from_lem chan nproc 0 t.proc i))
          (elim (Bool-cases (in_range 0 nproc i)) [
            | inl e ↦ rw e (woken-Keeps chan i (t.proc i))
            | inr e ↦ rw e (Keeps-self i (t.proc i))
          ]))
      v

pub yield-Inv : (me : ℕ) (t : Table) → (t.proc me).state ≡ running → Inv t → Inv (yield me t)
unfolding yield
yield-Inv me t r v =
    set_proc-Inv t me _
      (record {
        live = λ h. ((λ e. ground arith), refl);
        asleep = λ h k. absurd (cc);
        dead = λ x h k. absurd (cc);
        parent_same = inl refl;
        still_live = λ h. ((λ e. cc), (λ e. cc), λ e. cc);
      })
      v

pub sleep-Inv :
    (me : ℕ) (chan : Chan) (t : Table)
    → (t.proc me).state ≡ running
    → chan ≢ proc_chan me
    → Inv t
    → Inv (sleep me chan t)
unfolding sleep
sleep-Inv me chan t r n v =
    set_proc-Inv t me _
      (record {
        live = λ h. ((λ e. ground arith), refl);
        asleep = λ h k. absurd (n (some-injective chan (proc_chan me) k));
        dead = λ x h k. absurd (cc);
        parent_same = inl refl;
        still_live = λ h. ((λ e. cc), (λ e. cc), λ e. cc);
      })
      v

pub sleep_end-Inv : (me : ℕ) (t : Table) → Inv t → Inv (sleep_end me t)
unfolding sleep_end
sleep_end-Inv me t v =
    set_proc-Inv t me _
      (record {
        live = λ h. (h, refl);
        asleep = λ h k. absurd (cc);
        dead = λ x h k. (h, k);
        parent_same = inl refl;
        still_live = λ h. h;
      })
      v

killed-Keeps :
    (i : ℕ) (p : Proc)
    → Keeps i p (record p {
      killed = true;
      state = if is_state p.state sleeping then runnable else p.state;
    })
killed-Keeps i p = record {
  live = λ h. ground arith;
  asleep = λ h k. ground arith;
  dead = λ x h k. ground arith;
  parent_same = inl refl;
  still_live = λ h. ground arith;
}

pub kill-Inv : (pid : ℕ) (t : Table) → Inv t → Inv (kill pid t).1
unfolding kill
kill-Inv pid t v = elim (Option-cases (find_proc (λ p. p.pid == pid) nproc 0 t.proc)) [
  | inl e ↦ rw (e, kill) v
  | inr (i, e) ↦ rw (e, kill) (set_proc-Inv t i _ (killed-Keeps i (t.proc i)) v)
]

dispatch_lem :
    (i : ℕ) (t u : Table)
    → dispatch i t ≡ some u
    → ((t.proc i).state ≡ runnable) × (u ≡ set_proc t i (record (t.proc i) { state = running }))
unfolding dispatch
dispatch_lem i t u h = elim (Bool-cases (is_state (t.proc i).state runnable)) [
  | inl e ↦ (
    ground arith,
    sym (
        some-injective (set_proc t i (record (t.proc i) { state = running })) u (
          subst
            (λ b.
              (if b then some (set_proc t i (record (t.proc i) { state = running })) else none)
              ≡ some u)
            e h)),
  )
  | inr e ↦ absurd (ground arith)
]

pub dispatch-Inv : (i : ℕ) (t u : Table) → dispatch i t ≡ some u → Inv t → Inv u
dispatch-Inv i t u h v =
    let (r, e) = dispatch_lem i t u h in
    subst Inv (sym e) (
      set_proc-Inv t i _
        (record {
          live = λ h. ((λ e. ground arith), refl);
          asleep = λ h k. absurd (cc);
          dead = λ x h k. absurd (cc);
          parent_same = inl refl;
          still_live = λ h. ((λ e. cc), (λ e. cc), λ e. cc);
        })
        v)
