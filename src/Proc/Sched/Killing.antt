-- ===== src/Proc/Sched/Killing.antt =====
-- proc.c: what `kill` does, and what it does to an entry that is not in use.
use osass.Base.{
  ℕ, ◌<◌, ◌≡◌, ◌≢◌, ◌∙◌, sym, ap, refl, inl, inr, arith, Bool, Option-cases, ==→eq, true, false,
  ◌==◌, if◌then◌else◌, some,
}
use osass.Proc.{
  nproc, unused, sleeping, runnable, Proc, Table, is_state, set_proc, find_proc, claim,
}
use osass.Proc.Sched.{kill}
use osass.Proc.Sched.Loops.{find_proc-some, find_proc-none}
use osass.Proc.Sched.Inv.Steps.{claimed, claim_lem}

-- What `kill` may come to: no process has the pid and nothing changes; or an entry with the pid is
-- marked killed and does not sleep, and it changes in nothing else, nor does another entry.
abbrev pub KillEnds : ℕ → Table → Bool × Table → Type 0
KillEnds pid t (false, u) = (u ≡ t) × ((k : ℕ) → k < nproc → (t.proc k).pid ≢ pid)
KillEnds pid t (true, u) =
    (i : ℕ) × (i < nproc)
    × ((t.proc i).pid ≡ pid)
    × ((u.proc i).killed ≡ true)
    × ((u.proc i).state ≢ sleeping)
    × ((t.proc i).state ≢ sleeping → (u.proc i).state ≡ (t.proc i).state)
    × ((j : ℕ) → j ≢ i → u.proc j ≡ t.proc j)

abbrev killed_one : Proc → Proc
killed_one p = record p {
  killed = true;
  state = if is_state p.state sleeping then runnable else p.state;
}

kill_found :
    (pid : ℕ) (t : Table) (i : ℕ)
    → find_proc (λ p. p.pid == pid) nproc 0 t.proc ≡ some i
    → kill pid t ≡ (true, set_proc t i (killed_one (t.proc i)))
unfolding kill
kill_found pid t i e = rw (e, kill) refl

killed_state :
    (p : Proc)
    → ((killed_one p).state ≢ sleeping) × (p.state ≢ sleeping → (killed_one p).state ≡ p.state)
killed_state p = ((λ h. ground arith), λ h. ground arith)

-- `kill` fails, and changes nothing, when no entry has the pid; otherwise it marks an entry that
-- has it, which does not sleep then and keeps its state if it did not sleep before, and changes
-- no other entry.
pub kill-KillEnds : (pid : ℕ) (t : Table) → KillEnds pid t (kill pid t)
unfolding kill
kill-KillEnds pid t = elim (Option-cases (find_proc (λ p. p.pid == pid) nproc 0 t.proc)) [
  | inl e ↦
      rw (e, kill)
        (refl, λ k h q. ground (arith, find_proc-none (λ p. p.pid == pid) nproc 0 t.proc k e))
  | inr (i, e) ↦
      let (a, b, c) = find_proc-some (λ p. p.pid == pid) nproc 0 t.proc i e in
      let (f, g) = killed_state (t.proc i) in
      rw (e, kill)
        (
          i,
          omega arith,
          ==→eq (t.proc i).pid pid c,
          ground arith,
          ground (arith, f),
          (λ h. ground (arith, g h)),
          λ j h. ground arith,
        )
]

-- When `kill` marks an entry that the next `allocproc` then takes, the entry was UNUSED, and the
-- new process is marked killed.
pub kill-claim_killed :
    (pid : ℕ) (t u : Table) (i : ℕ)
    → find_proc (λ p. p.pid == pid) nproc 0 t.proc ≡ some i
    → claim (kill pid t).1 ≡ some (i, u)
    → ((t.proc i).state ≡ unused) × ((u.proc i).killed ≡ true)
kill-claim_killed pid t u i e h =
    let (a, b, c) = claim_lem (kill pid t).1 u i h in
    let w : (kill pid t).1.proc i ≡ killed_one (t.proc i) =
      ap (λ r. r.1.proc i) (kill_found pid t i e) ∙ ground arith in
    let v : u.proc i ≡ (claimed (kill pid t).1 i).proc i = ap (λ x. x.proc i) c in
    (ground (arith, sym (ap (λ p. p.state) w) ∙ b), ground (arith, v, w))
