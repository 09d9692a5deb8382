-- ===== src/Pipe/Write.antt =====
-- pipe.c: what `pipewrite` does to the queue of a pipe on each of its ways out.
use osass.Base.{
  ℕ, zero, suc, ◌-◌, ◌≤◌, ◌<◌, ◌≡◌, refl, ap, sym, arith, Bool, true, false, ◌||◌, not, List, [],
  ◌∷◌, ◌++◌, length, take, drop, take-cons, drop-cons, Bool-cases, inl, inr, ◌∙◌, subst, Outcome,
  ok, panic,
}
use mathlib.Core.List.{append-nil, append_assoc}
use osass.Pipe.{
  Pipe, pipe_size, is_full, put, readers, writers, Run, returns, fails, sleeps, write_loop,
  pipewrite,
}
use osass.Pipe.Window.{count, contents, IsValid, full_iff, contents-put}

-- How many bytes still fit.
abbrev pub room : Pipe → ℕ
room p = pipe_size - count p

-- `q` is `p` with `bs` queued behind its bytes, valid, and with the lock given up.
pub record Queued (p q : Pipe) (bs : List ℕ) : Type 0 where
  pub queue : contents q ≡ contents p ++ bs
  pub valid : IsValid q
  pub unlocked : q.lock ≡ false
  pub readopen_same : q.readopen ≡ p.readopen
  pub writeopen_same : q.writeopen ≡ p.writeopen

-- What a run of `pipewrite` may come to: all bytes fit and are queued; or those that fit are queued,
-- and the call fails for want of a reader, or sleeps with exactly the others left.
abbrev pub WriteEnds : ℕ → Bool → Pipe → List ℕ → Outcome (Run ℕ (List ℕ)) → Type 0
WriteEnds n killed p src (ok (returns r q woken)) =
    (r ≡ n) × (length src ≤ room p) × (woken ≡ readers ∷ []) × Queued p q src
WriteEnds n killed p src (ok (fails q woken)) =
    (room p < length src)
    × ((not p.readopen || killed) ≡ true)
    × (woken ≡ [])
    × Queued p q (take (room p) src)
WriteEnds n killed p src (ok (sleeps chan rest q woken)) =
    (room p < length src)
    × ((not p.readopen || killed) ≡ false)
    × (chan ≡ writers)
    × (woken ≡ readers ∷ [])
    × (rest ≡ drop (room p) src)
    × Queued p q (take (room p) src)
WriteEnds n killed p src (panic s) = ⊥

-- Queueing one byte first and then others is queueing them together.
Queued-put :
    (p q : Pipe) (b : ℕ) (bs : List ℕ)
    → IsValid p
    → count p < pipe_size
    → Queued (put p b) q bs
    → Queued p q (b ∷ bs)
unfolding put
Queued-put p q b bs v h w = record {
  queue =
      w.queue ∙ ap (λ l. l ++ bs) (contents-put p b v h).0 ∙ append_assoc (contents p) (b ∷ []) bs;
  valid = w.valid;
  unlocked = w.unlocked;
  readopen_same = w.readopen_same;
  writeopen_same = w.writeopen_same;
}

WriteEnds-put :
    (n : ℕ) (killed : Bool) (p : Pipe) (b : ℕ) (rest : List ℕ) (r : Outcome (Run ℕ (List ℕ)))
    → IsValid p
    → count p < pipe_size
    → WriteEnds n killed (put p b) rest r
    → WriteEnds n killed p (b ∷ rest) r
unfolding put
WriteEnds-put n killed p b rest (ok (returns r q woken)) v h w =
    (w.0, ground (arith, contents-put p b v h), w.2, Queued-put p q b rest v h w.3)
WriteEnds-put n killed p b rest (ok (fails q woken)) v h w = (
  ground (arith, contents-put p b v h),
  w.1,
  w.2,
  rw (take-cons (room p) b rest (omega arith)) (
      Queued-put p q b (take (room p - 1) rest) v h (
        subst (λ k. Queued (put p b) q (take k rest)) (omega (arith, (contents-put p b v h).1))
          w.3)),
)
WriteEnds-put n killed p b rest (ok (sleeps chan more q woken)) v h w = (
  ground (arith, contents-put p b v h),
  w.1,
  w.2,
  w.3,
  ground (arith, drop-cons (room p) b rest, contents-put p b v h),
  rw (take-cons (room p) b rest (omega arith)) (
      Queued-put p q b (take (room p - 1) rest) v h (
        subst (λ k. Queued (put p b) q (take k rest)) (omega (arith, (contents-put p b v h).1))
          w.5)),
)
WriteEnds-put n killed p b rest (panic s) v h w = w

take-eq_nil {ℓ} : {A : Type ℓ} (k : ℕ) (xs : List A) → k ≡ 0 → (take k xs ≡ []) × (drop k xs ≡ xs)
take-eq_nil zero xs h = (refl, refl)
take-eq_nil (suc k) xs h = absurd (omega arith)

-- With no room nothing is queued, and the lock is given up.
Queued-nothing :
    (p : Pipe) (src : List ℕ)
    → IsValid p
    → count p ≡ pipe_size
    → Queued p (record p { lock = false }) (take (room p) src)
Queued-nothing p src v c = rw ((take-eq_nil (room p) src (omega arith)).0) (record {
  queue = sym (append-nil (contents p));
  valid = omega arith;
  unlocked = refl;
  readopen_same = refl;
  writeopen_same = refl;
})

-- On a full pipe the call ends at once.
write_loop_full-WriteEnds :
    (n : ℕ) (killed : Bool) (p : Pipe) (b : ℕ) (rest : List ℕ)
    → IsValid p
    → p.lock ≡ true
    → count p ≡ pipe_size
    → is_full p ≡ true
    → WriteEnds n killed p (b ∷ rest) (write_loop n killed p (b ∷ rest))
unfolding write_loop
write_loop_full-WriteEnds n killed p b rest v l c e = elim (Bool-cases (not p.readopen || killed)) [
  | inl x ↦ rw (e, x) (simp l (omega arith, x, refl, Queued-nothing p (b ∷ rest) v c))
  | inr x ↦
      rw (e, x)
        (simp l (
          omega arith,
          x,
          refl,
          refl,
          sym (take-eq_nil (room p) (b ∷ rest) (omega arith)).1,
          Queued-nothing p (b ∷ rest) v c,
        ))
]

Queued-locked : (p q : Pipe) (bs : List ℕ) → Queued (record p { lock = true }) q bs → Queued p q bs
Queued-locked p q bs h = record {
  queue = h.queue;
  valid = h.valid;
  unlocked = h.unlocked;
  readopen_same = h.readopen_same;
  writeopen_same = h.writeopen_same;
}

-- The outcome does not turn on the lock that the pipe had before.
WriteEnds-locked :
    (n : ℕ) (killed : Bool) (p : Pipe) (src : List ℕ) (r : Outcome (Run ℕ (List ℕ)))
    → WriteEnds n killed (record p { lock = true }) src r
    → WriteEnds n killed p src r
WriteEnds-locked n killed p src (ok (returns x q w)) h = (h.0, h.1, h.2, Queued-locked p q _ h.3)
WriteEnds-locked n killed p src (ok (fails q w)) h = (h.0, h.1, h.2, Queued-locked p q _ h.3)
WriteEnds-locked n killed p src (ok (sleeps c x q w)) h =
    (h.0, h.1, h.2, h.3, h.4, Queued-locked p q _ h.5)
WriteEnds-locked n killed p src (panic s) h = h

write_loop-WriteEnds :
    (n : ℕ) (killed : Bool) (src : List ℕ) (p : Pipe)
    → IsValid p
    → p.lock ≡ true
    → WriteEnds n killed p src (write_loop n killed p src)
unfolding write_loop
write_loop-WriteEnds n killed [] p v l = ground (arith, append-nil (contents p))
write_loop-WriteEnds n killed (b ∷ rest) p v l = elim (Bool-cases (is_full p)) [
  | inl e ↦ write_loop_full-WriteEnds n killed p b rest v l (ground (arith, full_iff p v)) e
  | inr e ↦ rw e (
      WriteEnds-put n killed p b rest (write_loop n killed (put p b) rest) v
        (ground (arith, full_iff p v))
        (write_loop-WriteEnds n killed rest (put p b)
          (contents-put p b v (ground (arith, full_iff p v))).2 (unfold put in l)))
]

-- A run of `pipewrite` on a valid pipe, entered with the lock free, does not panic. It queues the
-- bytes in order, all of them if they fit and else those that fit; wakes the readers wherever a
-- byte may have come; and gives up the lock on every way out.
pub pipewrite-WriteEnds :
    (n : ℕ) (killed : Bool) (p : Pipe) (src : List ℕ)
    → IsValid p
    → p.lock ≡ false
    → WriteEnds n killed p src (pipewrite n killed p src)
unfolding pipewrite
pipewrite-WriteEnds n killed p src v l = simp l (
    WriteEnds-locked n killed p src _
      (write_loop-WriteEnds n killed src (record p { lock = true }) (omega arith) refl))
