-- ===== src/Proc/Sched/Loops.antt =====
-- proc.c: what the loops over the process table come to, entry by entry.
use osass.Base.{
  ℕ, zero, suc, ◌+◌, ◌≤◌, ◌<◌, ◌≡◌, ◌∙◌, refl, inl, inr, arith, Bool, Bool-cases, true, false, ◌&&◌,
  ◌||◌, ◌==◌, if◌then◌else◌, none, some, in_range,
}
use mathlib.Core.Path.{ap₂}
use osass.Log.Blocks.{at}
use osass.Proc.{nproc, zombie, Chan, proc_chan, Proc, is_state, is_proc, find_proc, each_from}
use osass.Proc.Sched.{woken, wakeup_from, reparent_one, reparent_from}

-- Where the search stops, the test holds, and at no entry before it does it hold.
pub find_proc-some :
    (test : Proc → Bool) (r i : ℕ) (proc : ℕ → Proc) (k : ℕ)
    → find_proc test r i proc ≡ some k
    → (i ≤ k) × (k < i + r) × (test (proc k) ≡ true)
unfolding find_proc
find_proc-some test zero i proc k h = absurd (cc)
find_proc-some test (suc r) i proc k h = ground (arith, find_proc-some test r (i + 1) proc k)

-- Where it finds nothing, the test fails at every entry.
pub find_proc-none :
    (test : Proc → Bool) (r i : ℕ) (proc : ℕ → Proc) (k : ℕ)
    → find_proc test r i proc ≡ none
    → i ≤ k
    → k < i + r
    → test (proc k) ≡ false
unfolding find_proc
find_proc-none test zero i proc k h a b = absurd (omega arith)
find_proc-none test (suc r) i proc k h a b = ground (arith, find_proc-none test r (i + 1) proc k)

each_from_lem {ℓ} :
    {A : Type ℓ} (f : A → A) (r i : ℕ) (proc : ℕ → A) (j : ℕ)
    → each_from f r i proc j ≡ (if in_range i r j then f (proc j) else proc j)
unfolding each_from
each_from_lem f zero i proc j = ground arith
each_from_lem f (suc r) i proc j =
    ground (arith, each_from_lem f r (i + 1) (at i (f (proc i)) proc) j)

-- `wakeup1` makes the processes that sleep on the channel runnable, and changes nothing else.
pub wakeup_from_lem :
    (chan : Chan) (r i : ℕ) (proc : ℕ → Proc) (j : ℕ)
    → wakeup_from chan r i proc j ≡ (if in_range i r j then woken chan (proc j) else proc j)
unfolding wakeup_from
wakeup_from_lem chan r i proc j = each_from_lem (woken chan) r i proc j

-- Whether a child of `me` among the `r` entries from `i` on is a zombie.
abbrev pub zombie_child : ℕ → ℕ → ℕ → (ℕ → Proc) → Bool
zombie_child me zero i proc = false
zombie_child me (suc r) i proc =
    (is_proc (proc i).parent me && is_state (proc i).state zombie) || zombie_child me r (i + 1) proc

-- A process with its parent changed to init if the parent was `me`.
unfoldable pub given : ℕ → ℕ → Proc → Proc
given me init p = if is_proc p.parent me then record p { parent = some init } else p

given_child :
    (me init : ℕ) (p : Proc)
    → is_proc p.parent me ≡ true
    → given me init p ≡ record p { parent = some init }
unfolding given
given_child me init p h = rw h

given_other : (me init : ℕ) (p : Proc) → is_proc p.parent me ≡ false → given me init p ≡ p
unfolding given
given_other me init p h = rw h

woken_twice : (chan : Chan) (p : Proc) → woken chan (woken chan p) ≡ woken chan p
unfolding woken
woken_twice chan p = ground arith

woken-given :
    (chan : Chan) (me init : ℕ) (p : Proc)
    → woken chan (given me init p) ≡ given me init (woken chan p)
unfolding woken given
woken-given chan me init p = ground arith

-- Two tables agree from entry `i` on in parents and in who is a zombie.
abbrev Alike : ℕ → (ℕ → Proc) → (ℕ → Proc) → Type 0
Alike i p q =
    (k : ℕ)
    → i ≤ k
    → ((p k).parent ≡ (q k).parent) × (is_state (p k).state zombie ≡ is_state (q k).state zombie)

zombie_child_ext :
    (me r i : ℕ) (p q : ℕ → Proc) → Alike i p q → zombie_child me r i p ≡ zombie_child me r i q
zombie_child_ext me zero i p q h = refl
zombie_child_ext me (suc r) i p q h =
    ground (arith, h i (omega arith), zombie_child_ext me r (i + 1) p q (λ k a. h k (omega arith)))

woken_alike :
    (chan : Chan) (p : Proc)
    → ((woken chan p).parent ≡ p.parent)
      × (is_state (woken chan p).state zombie ≡ is_state p.state zombie)
unfolding woken
woken_alike chan p = ground arith

reparent_one_lem :
    (me init i : ℕ) (proc : ℕ → Proc)
    → reparent_one me init i proc ≡ (
        if is_proc (proc i).parent me
        then if is_state (proc i).state zombie
          then wakeup_from (proc_chan init) nproc 0 (at i (given me init (proc i)) proc)
          else at i (given me init (proc i)) proc
        else proc)
unfolding reparent_one
reparent_one_lem me init i proc = elim (Bool-cases (is_proc (proc i).parent me)) [
  | inl e ↦ rw (e, given_child me init (proc i) e)
  | inr e ↦ rw e
]

-- What it makes of entry `j`.
reparent_one_entry :
    (me init i : ℕ) (proc : ℕ → Proc) (j : ℕ)
    → j < nproc
    → reparent_one me init i proc j ≡ (
        if i == j
        then given me init (
            if is_proc (proc i).parent me && is_state (proc i).state zombie
            then woken (proc_chan init) (proc j)
            else proc j)
        else (if is_proc (proc i).parent me && is_state (proc i).state zombie
            then woken (proc_chan init) (proc j)
            else proc j))
reparent_one_entry me init i proc j h = rw (reparent_one_lem me init i proc) (
    ground (
      arith,
      wakeup_from_lem (proc_chan init) nproc 0 (at i (given me init (proc i)) proc) j,
      woken-given (proc_chan init) me init (proc i),
      given_other me init (proc i),
    ))

reparent_one-Alike :
    (me init i : ℕ) (proc : ℕ → Proc) → Alike (i + 1) (reparent_one me init i proc) proc
reparent_one-Alike me init i proc k h = rw (reparent_one_lem me init i proc) (
    ground (
      arith,
      wakeup_from_lem (proc_chan init) nproc 0 (at i (given me init (proc i)) proc) k,
      woken_alike (proc_chan init) (proc k),
    ))

-- A round for entry `i` and then the rounds after it, seen at entry `j`, in terms of what waking (`w`)
-- and giving away (`g`) do.
rounds_join {ℓ} :
    {A : Type ℓ} (w g : A → A) (a z : Bool) (i r j : ℕ) (p : A)
    → w (w p) ≡ w p
    → w (g p) ≡ g (w p)
    → w (g (w p)) ≡ g (w (w p))
    → (let one = if i == j then g (if a then w p else p) else (if a then w p else p) in
        let q = if z then w one else one in if in_range (i + 1) r j then g q else q)
      ≡ (let q = if a || z then w p else p in if in_range i (suc r) j then g q else q)
rounds_join w g true true i r j p h k l = ground arith
rounds_join w g true false i r j p h k l = ground arith
rounds_join w g false true i r j p h k l = ground arith
rounds_join w g false false i r j p h k l = ground arith

-- The loop of `exit`: the children of `me` become children of init, and if one of them is a zombie
-- those who sleep on init are woken. Nothing else changes.
pub reparent_from_lem :
    (me init r i : ℕ) (proc : ℕ → Proc) (j : ℕ)
    → j < nproc
    → reparent_from me init r i proc j ≡ (
        let p = if zombie_child me r i proc then woken (proc_chan init) (proc j) else proc j in
        if in_range i r j then given me init p else p)
unfolding reparent_from
reparent_from_lem me init zero i proc j h = ground arith
reparent_from_lem me init (suc r) i proc j h =
    reparent_from_lem me init r (i + 1) (reparent_one me init i proc) j h
    ∙ ap₂
        (λ z p.
          let q = if z then woken (proc_chan init) p else p in
          if in_range (i + 1) r j then given me init q else q)
        (zombie_child_ext me r (i + 1) (reparent_one me init i proc) proc
          (reparent_one-Alike me init i proc))
        (reparent_one_entry me init i proc j h)
    ∙ rounds_join (woken (proc_chan init)) (given me init)
        (is_proc (proc i).parent me && is_state (proc i).state zombie)
        (zombie_child me r (i + 1) proc) i r j (proc j) (woken_twice (proc_chan init) (proc j))
        (woken-given (proc_chan init) me init (proc j))
        (woken-given (proc_chan init) me init (woken (proc_chan init) (proc j)))
