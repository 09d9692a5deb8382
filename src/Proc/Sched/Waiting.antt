-- ===== src/Proc/Sched/Waiting.antt =====
-- proc.c: the three ways out of a scan of `wait`.
use osass.Base.{
  ℕ, zero, suc, ◌+◌, ◌≤◌, ◌<◌, ◌≡◌, ◌≢◌, refl, sym, subst, ◌⊎◌, inl, inr, arith, Bool, Bool-cases,
  true, false, not, ◌&&◌, ◌||◌, ◌==◌, if◌then◌else◌, ==→eq, eq→==, ne→==_false, none, [], ◌∷◌,
}
use osass.Proc.{nproc, unused, zombie, proc_chan, Proc, Table, is_state, set_proc, kfree, freevm}
use osass.Proc.Sched.{
  sleep, reap, Wait, reaped, childless, waits, has_child, Scan, dead, over, scan_children, wait,
}

-- An entry that is given back; of its name, only the first byte changes.
pub record Freed (p q : Proc) : Type 0 where
  pub now_unused : q.state ≡ unused
  pub no_pid : q.pid ≡ 0
  pub no_parent : q.parent ≡ none
  pub not_killed : q.killed ≡ false
  pub no_stack : q.kstack ≡ none
  pub rest_same : q ≡ record p {
    state = unused;
    pid = 0;
    parent = none;
    killed = false;
    kstack = none;
    name = q.name;
  }

-- What `wait` may come to for the process `me`: it has reaped a zombie child, and returns its pid; it
-- returns -1, without a child or killed; or it sleeps on its own address, with children of which none
-- is a zombie.
abbrev pub WaitEnds : ℕ → Table → Wait → Type 0
WaitEnds me t (reaped pid u calls) =
    (i : ℕ) × (i < nproc)
    × (has_child me (t.proc i) ≡ true)
    × ((t.proc i).state ≡ zombie)
    × (pid ≡ (t.proc i).pid)
    × ((k : ℕ) → k < i → (has_child me (t.proc k) && is_state (t.proc k).state zombie) ≡ false)
    × (u ≡ set_proc t i (reap (t.proc i)))
    × Freed (t.proc i) (u.proc i)
    × ((k : ℕ) → k ≢ i → u.proc k ≡ t.proc k)
    × (calls ≡ kfree (t.proc i).kstack ∷ freevm (t.proc i).pgdir ∷ [])
WaitEnds me t (childless u) =
    (u ≡ t)
    × (((t.proc me).killed ≡ true) ⊎ ((k : ℕ) → k < nproc → has_child me (t.proc k) ≡ false))
    × ((k : ℕ) → k < nproc → (has_child me (t.proc k) && is_state (t.proc k).state zombie) ≡ false)
WaitEnds me t (waits u) =
    (u ≡ sleep me (proc_chan me) t)
    × ((t.proc me).killed ≡ false)
    × ((j : ℕ) × (j < nproc) × (has_child me (t.proc j) ≡ true))
    × ((k : ℕ) → k < nproc → (has_child me (t.proc k) && is_state (t.proc k).state zombie) ≡ false)

abbrev zombie_of : ℕ → Proc → Bool
zombie_of me p = has_child me p && is_state p.state zombie

-- What the scan says of the entries from `i` on.
abbrev ScanEnds : ℕ → ℕ → ℕ → (ℕ → Proc) → Bool → Scan → Type 0
ScanEnds me r i proc havekids (dead k) =
    (i ≤ k)
    × (k < i + r)
    × (zombie_of me (proc k) ≡ true)
    × ((j : ℕ) → i ≤ j → j < k → zombie_of me (proc j) ≡ false)
ScanEnds me r i proc havekids (over seen) =
    ((j : ℕ) → i ≤ j → j < i + r → zombie_of me (proc j) ≡ false)
    × ((seen ≡ false) → (j : ℕ) → i ≤ j → j < i + r → has_child me (proc j) ≡ false)
    × ((seen ≡ true)
        → (havekids ≡ true) ⊎ ((j : ℕ) × (i ≤ j) × (j < i + r) × (has_child me (proc j) ≡ true)))
    × ((seen ≡ false) → havekids ≡ false)

from_next :
    {P : ℕ → Type 0} (i n : ℕ)
    → P i
    → ((j : ℕ) → i + 1 ≤ j → j < n → P j)
    → (j : ℕ) → i ≤ j
    → j < n
    → P j
from_next {P} i n z h j a b = elim (Bool-cases (i == j)) [
  | inl e ↦ subst P (==→eq i j e) z
  | inr e ↦ h j (ground (arith, e)) b
]

ScanEnds-next :
    (me r i : ℕ) (proc : ℕ → Proc) (havekids : Bool) (s : Scan)
    → zombie_of me (proc i) ≡ false
    → ScanEnds me r (i + 1) proc (has_child me (proc i) || havekids) s
    → ScanEnds me (suc r) i proc havekids s
ScanEnds-next me r i proc havekids (dead k) z (a, b, c, d) =
    (omega arith, omega arith, c, from_next {P = λ j. zombie_of me (proc j) ≡ false} i k z d)
ScanEnds-next me r i proc havekids (over seen) z (a, b, c, d) = (
  (λ j l m.
      from_next {P = λ j. zombie_of me (proc j) ≡ false} i (i + suc r) z
        (λ j l m. a j l (omega arith)) j l m),
  (λ e j l m.
      from_next {P = λ j. has_child me (proc j) ≡ false} i (i + suc r) (ground (arith, d e))
        (λ j l m. b e j l (omega arith)) j l m),
  (λ e. elim (c e) [
    | inl k ↦ elim (Bool-cases (has_child me (proc i))) [
      | inl y ↦ inr (i, omega arith, omega arith, y)
      | inr y ↦ inl (ground (arith, y, k))
    ]
    | inr (j, l, m, k) ↦ inr (j, omega arith, omega arith, k)
  ]),
  (λ e. ground (arith, d e)),
)

scan_children-ScanEnds :
    (me r i : ℕ) (proc : ℕ → Proc) (havekids : Bool)
    → ScanEnds me r i proc havekids (scan_children me r i proc havekids)
unfolding scan_children
scan_children-ScanEnds me zero i proc havekids =
    ((λ j l m. absurd (omega arith)), (λ e j l m. absurd (omega arith)), (λ e. inl e), λ e. e)
scan_children-ScanEnds me (suc r) i proc havekids = elim (Bool-cases (zombie_of me (proc i))) [
  | inl e ↦ rw (e, ScanEnds) (omega arith, omega arith, e, λ j l m. absurd (omega arith))
  | inr e ↦ rw e (
      ScanEnds-next me r i proc havekids _ e
        (scan_children-ScanEnds me r (i + 1) proc (has_child me (proc i) || havekids)))
]

reap-Freed : (p : Proc) → Freed p (reap p)
unfolding reap
reap-Freed p = record {
  now_unused = refl;
  no_pid = refl;
  no_parent = refl;
  not_killed = refl;
  no_stack = refl;
  rest_same = refl;
}

scan_ends :
    (me : ℕ) (t : Table) (s : Scan)
    → ScanEnds me nproc 0 t.proc false s
    → WaitEnds me t (elim s [
      | dead i ↦
          reaped
            (t.proc i).pid
            (set_proc t i (reap (t.proc i)))
            (kfree (t.proc i).kstack ∷ freevm (t.proc i).pgdir ∷ [])
      | over havekids ↦
          if not havekids || (t.proc me).killed
          then childless t
          else waits (sleep me (proc_chan me) t)
    ])
scan_ends me t (dead i) (_, l, z, h) = (
  i,
  omega (arith, l),
  ground (arith, z),
  ground (arith, z),
  refl,
  (λ k m. h k (omega arith) m),
  refl,
  rw (eq→== i i refl) (reap-Freed (t.proc i)),
  (λ k n. rw (ne→==_false i k (λ r. n (sym r))) refl),
  refl,
)
scan_ends me t (over false) (a, b, c, d) = (
  refl,
  inr (λ k l. b refl k (omega arith) (omega arith)),
  λ k l. a k (omega arith) (omega arith),
)
scan_ends me t (over true) (a, b, c, d) = elim (Bool-cases (t.proc me).killed) [
  | inl k ↦ rw k (refl, inl k, λ j l. a j (omega arith) (omega arith))
  | inr k ↦ elim (c refl) [
    | inl y ↦ absurd (cc)
    | inr (j, l, m, y) ↦ rw k (refl, k, (j, omega arith, y), λ j l. a j (omega arith) (omega arith))
  ]
]

-- A scan of `wait` reaps the first zombie child and returns its pid if there is one: the entry is unused
-- then, without a pid, a parent, a kernel stack or a kill, all others are as they were, and its stack and
-- its page table are given back. Else it returns -1, without a child or killed; or else it sleeps on its
-- own address, with children of which none is a zombie.
pub wait-WaitEnds : (me : ℕ) (t : Table) → WaitEnds me t (wait me t)
unfolding wait
wait-WaitEnds me t =
    scan_ends me t (scan_children me nproc 0 t.proc false)
      (scan_children-ScanEnds me nproc 0 t.proc false)
