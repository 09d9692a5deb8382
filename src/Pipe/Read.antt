-- ===== src/Pipe/Read.antt =====
-- pipe.c: what `piperead` and `pipeclose` do on each of their ways out.
use osass.Base.{
  ℕ, zero, suc, ◌<◌, ◌≡◌, refl, arith, Bool, true, false, ◌&&◌, not, List, [], ◌∷◌, if◌then◌else◌,
  length, take, drop, Bool-cases, ◌⊎◌, inl, inr, Outcome, ok, panic,
}
use osass.Pipe.{
  Pipe, is_empty, get, readers, writers, Run, returns, fails, sleeps, unlock, copy_loop, piperead,
  pipeclose,
}
use osass.Pipe.Window.{count, contents, length-contents, IsValid, empty_iff, contents-get}

-- What `copy_loop` has copied, and the pipe that it leaves.
pub record Copied (n : ℕ) (p : Pipe) (out : List ℕ × Pipe) : Type 0 where
  pub taken : out.0 ≡ take n (contents p)
  pub rest : contents out.1 ≡ drop n (contents p)
  pub valid : IsValid out.1
  pub lock_same : out.1.lock ≡ p.lock
  pub readopen_same : out.1.readopen ≡ p.readopen
  pub writeopen_same : out.1.writeopen ≡ p.writeopen

-- A pipe with no bytes holds the empty queue.
contents_empty : (p : Pipe) → count p ≡ 0 → contents p ≡ []
contents_empty p h = rw h

Copied-get :
    (n : ℕ) (p : Pipe)
    → IsValid p
    → 0 < count p
    → (out : List ℕ × Pipe) → Copied n (get p).1 out
    → Copied (suc n) p ((get p).0 ∷ out.0, out.1)
unfolding get
Copied-get n p v h out c = record {
  taken = ground (arith, c.taken, contents-get p v h);
  rest = ground (arith, c.rest, contents-get p v h);
  valid = c.valid;
  lock_same = c.lock_same;
  readopen_same = c.readopen_same;
  writeopen_same = c.writeopen_same;
}

copy_loop-Copied : (n : ℕ) (p : Pipe) → IsValid p → Copied n p (copy_loop n p)
unfolding copy_loop
copy_loop-Copied zero p v = record {
  taken = refl;
  rest = refl;
  valid = v;
  lock_same = refl;
  readopen_same = refl;
  writeopen_same = refl;
}
copy_loop-Copied (suc n) p v = elim (Bool-cases (is_empty p)) [
  | inl e ↦ ground (arith, contents_empty p (ground (arith, empty_iff p v)))
  | inr e ↦ rw e (
      Copied-get n p v (ground (arith, empty_iff p v)) (copy_loop n (get p).1)
        (copy_loop-Copied n (get p).1 (contents-get p v (ground (arith, empty_iff p v))).2))
]

-- What a run of `piperead` may come to. It sleeps or fails only on an empty pipe whose writers are
-- open; else it hands over the oldest bytes, as many as there are up to `n`, and wakes the writers.
abbrev pub ReadEnds : ℕ → Bool → Pipe → Outcome (Run (List ℕ) ℕ) → Type 0
ReadEnds n killed p (ok (returns bs q woken)) =
    ((0 < length (contents p)) ⊎ (p.writeopen ≡ false))
    × (woken ≡ writers ∷ [])
    × (q.lock ≡ false)
    × (bs ≡ take n (contents p))
    × (contents q ≡ drop n (contents p))
    × IsValid q
    × (q.readopen ≡ p.readopen)
    × (q.writeopen ≡ p.writeopen)
ReadEnds n killed p (ok (fails q woken)) =
    (killed ≡ true) × (contents p ≡ []) × (p.writeopen ≡ true) × (woken ≡ []) × (q ≡ p)
ReadEnds n killed p (ok (sleeps chan rest q woken)) =
    (killed ≡ false)
    × (contents p ≡ [])
    × (p.writeopen ≡ true)
    × (chan ≡ readers)
    × (rest ≡ n)
    × (woken ≡ [])
    × (q ≡ p)
ReadEnds n killed p (panic s) = ⊥

open_or_data :
    (p : Pipe)
    → IsValid p
    → (is_empty p && p.writeopen) ≡ false
    → (0 < length (contents p)) ⊎ (p.writeopen ≡ false)
open_or_data p v e = elim (Bool-cases p.writeopen) [
  | inl w ↦ inl (rw (length-contents p) (ground (arith, empty_iff p v)))
  | inr w ↦ inr w
]

read_returns :
    (n : ℕ) (killed : Bool) (p : Pipe)
    → IsValid p
    → (is_empty p && p.writeopen) ≡ false
    → let (bs, q) = copy_loop n (record p { lock = true }) in
      ReadEnds n killed p (unlock q (λ r. returns bs r (writers ∷ [])))
unfolding unlock
read_returns n killed p v e =
    let c = copy_loop-Copied n (record p { lock = true }) (omega (arith, v)) in
    simp c.lock_same (
      open_or_data p v e,
      refl,
      refl,
      c.taken,
      c.rest,
      omega (arith, c.valid),
      c.readopen_same,
      c.writeopen_same,
    )

-- A run of `piperead` on a valid pipe, entered with the lock free, does not panic, takes bytes only
-- from the front of the queue, and gives up the lock on every way out.
pub piperead-ReadEnds :
    (n : ℕ) (killed : Bool) (p : Pipe)
    → IsValid p
    → p.lock ≡ false
    → ReadEnds n killed p (piperead n killed p)
unfolding piperead
piperead-ReadEnds n killed p v l = elim (Bool-cases (is_empty p && p.writeopen)) [
  | inl e ↦ elim (Bool-cases killed) [
    | inl k ↦ simp (l, e, k) (ground arith)
    | inr k ↦ simp (l, e, k) (ground arith)
  ]
  | inr e ↦ simp (l, e) (read_returns n killed p v e)
]

-- `pipeclose` closes its end, wakes those who wait for the other, and frees the pipe exactly when
-- both ends are closed. The queue stays.
pub pipeclose_lem :
    (p : Pipe) (writable : Bool)
    → IsValid p
    → p.lock ≡ false
    → (q : Pipe) × (pipeclose p writable
        ≡ ok (not q.readopen && not q.writeopen, q, (if writable then readers else writers) ∷ []))
      × (q.readopen ≡ (if writable then p.readopen else false))
      × (q.writeopen ≡ (if writable then false else p.writeopen))
      × (contents q ≡ contents p)
      × IsValid q
      × (q.lock ≡ false)
unfolding pipeclose
pipeclose_lem p true v l =
    (record p { writeopen = false; lock = false }, simp l, refl, refl, refl, omega (arith, v), refl)
pipeclose_lem p false v l =
    (record p { readopen = false; lock = false }, simp l, refl, refl, refl, omega (arith, v), refl)
