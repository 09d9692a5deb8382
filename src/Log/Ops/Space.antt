-- ===== src/Log/Ops/Space.antt =====
-- log.c: the reservation of log space. Any number of operations run at once; each may log up to
-- MAXOPBLOCKS blocks between its `begin_op` and its `end_op`.
use osass.Base.{
  ℕ, suc, ◌+◌, ◌-◌, ◌*◌, ◌≤◌, ◌<◌, ◌≡◌, ◌∙◌, sym, ap, subst, ◌⊎◌, inl, inr, arith, Bool-cases, true,
  false, ◌==◌, some, List, [], ◌∷◌, ◌++◌, Outcome, ok, panic, leb, length, get_elem?, set,
  length-set,
}
use osass.Log.{max_op_blocks, log_size, Fs, commit, write_head, clear, install_trans, write_log}
use osass.Log.Ops.{started, begin_op, commits, leaves, end_op_first, end_op_last, log_write}
use osass.Log.Ops.Budget.{
  sum, Limited, sum-le, sum-set, Limited-set, sum-remove, Limited-remove, length-remove,
  length_zero, sum-ge,
}
use osass.Log.Ops.Write.{n-logged, log_write_ok, log_write_fits, log_write_full}

-- The file system, and for each operation under way the blocks that it may still log.
pub record Ops : Type 0 where
  pub fs : Fs
  pub left : List ℕ

-- A critical section of one operation; the last of all to end leaves the log committing, and commits, and
-- the others can go on in between as far as the log lets them.
pub data Step (o : Ops) : Ops → Type 0 where
  begins :
      (g : Fs)
      → begin_op o.fs ≡ started g
      → Step o (record { fs = g; left = max_op_blocks ∷ o.left })
  logs :
      (i k b : ℕ) (g : Fs)
      → get_elem? o.left i ≡ some (suc k)
      → log_write o.fs b ≡ ok g
      → Step o (record { fs = g; left = set o.left i k })
  ends :
      (xs ys : List ℕ) (k : ℕ) (g : Fs)
      → o.left ≡ xs ++ k ∷ ys
      → end_op_first o.fs ≡ ok (leaves g)
      → Step o (record { fs = g; left = xs ++ ys })
  last :
      (xs ys : List ℕ) (k : ℕ) (g : Fs)
      → o.left ≡ xs ++ k ∷ ys
      → end_op_first o.fs ≡ ok (commits g)
      → Step o (record { fs = g; left = xs ++ ys })
  committed :
      o.fs.log.committing ≡ true → Step o (record { fs = end_op_last (commit o.fs); left = o.left })

pub data Reach (o : Ops) : Ops → Type 0 where
  here : Reach o o
  next : {p q : Ops} → Reach o p → Step p q → Reach o q

-- What is logged and what may still be logged fit LOGSIZE; the count is that of the operations; and nobody
-- is under way while a commit is.
pub record Inv (o : Ops) : Type 0 where
  pub reserved : o.fs.log.lh.n + sum o.left ≤ log_size
  pub limited : Limited o.left
  pub counted : o.fs.log.outstanding ≡ length o.left
  pub quiet : o.fs.log.committing ≡ true → o.left ≡ []

-- A commit leaves no block logged, and the count of operations as it is.
commit_log : (f : Fs) → ((commit f).log.lh.n ≡ 0) × ((commit f).log.outstanding ≡ f.log.outstanding)
unfolding commit write_head clear install_trans write_log
commit_log f = ground arith

begin_op-lem :
    (f g : Fs)
    → begin_op f ≡ started g
    → (g.log.lh.n + g.log.outstanding * max_op_blocks ≤ log_size)
      × (g.log.lh.n ≡ f.log.lh.n)
      × (g.log.outstanding ≡ f.log.outstanding + 1)
      × (g.log.committing ≡ false)
      × (f.log.committing ≡ false)
unfolding begin_op
begin_op-lem f g h = ground arith

end_op_leaves :
    (f g : Fs)
    → end_op_first f ≡ ok (leaves g)
    → (g.log.lh.n ≡ f.log.lh.n)
      × (g.log.outstanding + 1 ≡ f.log.outstanding)
      × (g.log.committing ≡ f.log.committing)
unfolding end_op_first
end_op_leaves f g h = ground arith

end_op_commits :
    (f g : Fs)
    → end_op_first f ≡ ok (commits g)
    → (g.log.outstanding ≡ 0) × (f.log.outstanding ≡ 1) × (g.log.lh.n ≡ f.log.lh.n)
unfolding end_op_first
end_op_commits f g h = ground arith

Step-Inv : {o p : Ops} → Step o p → Inv o → Inv p
unfolding end_op_last
Step-Inv {o} (begins g h) v = record {
  reserved = omega (arith, begin_op-lem o.fs g h, sum-le o.left v.limited);
  limited = (omega arith, v.limited);
  counted = omega (arith, begin_op-lem o.fs g h);
  quiet = λ c. absurd (cc ((begin_op-lem o.fs g h).3, c));
}
Step-Inv {o} (logs i k b g h e) v =
    let (eq, fits, out) = log_write_ok o.fs g b e in
    let same_committing : g.log.committing ≡ true → o.fs.log.committing ≡ true =
      λ c. ground (arith, eq, c) in
    record {
      reserved = ground (arith, n-logged o.fs.log.lh b, sum-set o.left i k h);
      limited = Limited-set o.left i k h v.limited;
      counted = ground (arith, length-set o.left i k);
      quiet = λ c.
          absurd
            (omega (arith, sum-ge o.left i (suc k) h, ap length (v.quiet (same_committing c))));
    }
Step-Inv {o} (ends xs ys k g e h) v = record {
  reserved = omega (arith, end_op_leaves o.fs g h, sum-remove xs ys k, ap sum e);
  limited = Limited-remove xs ys k (subst Limited e v.limited);
  counted = omega (arith, end_op_leaves o.fs g h, length-remove xs ys k, ap length e);
  quiet = λ c. absurd (
      omega (
        arith,
        length-remove xs ys k,
        ap length e,
        ap length (v.quiet (sym (end_op_leaves o.fs g h).2 ∙ c)),
      ));
}
Step-Inv {o} (last xs ys k g e h) v = record {
  reserved = omega (arith, end_op_commits o.fs g h, v.reserved, sum-remove xs ys k, ap sum e);
  limited = Limited-remove xs ys k (subst Limited e v.limited);
  counted = omega (arith, end_op_commits o.fs g h, v.counted, length-remove xs ys k, ap length e);
  quiet = λ c.
      length_zero (xs ++ ys)
        (omega (arith, end_op_commits o.fs g h, v.counted, length-remove xs ys k, ap length e));
}
Step-Inv {o} (committed c) v = record {
  reserved = omega (arith, commit_log o.fs, ap sum (v.quiet c));
  limited = v.limited;
  counted = omega (arith, commit_log o.fs, v.counted);
  quiet = λ d. absurd (cc);
}

not_quiet : (p : Ops) → Inv p → 0 < length p.left → p.fs.log.committing ≡ false
not_quiet p v h = elim (Bool-cases p.fs.log.committing) [
  | inl e ↦ absurd (omega (arith, h, ap length (v.quiet e)))
  | inr e ↦ e
]

Reach-Inv : {o p : Ops} → Inv o → Reach o p → Inv p
Reach-Inv v here = v
Reach-Inv v (next r s) = Step-Inv s (Reach-Inv v r)

-- A log that has been recovered, with no operation under way.
pub record IsIdle (o : Ops) : Type 0 where
  pub nothing_logged : o.fs.log.lh.n ≡ 0
  pub nobody : o.left ≡ []
  pub none_outstanding : o.fs.log.outstanding ≡ 0
  pub not_committing : o.fs.log.committing ≡ false

IsIdle-Inv : (o : Ops) → IsIdle o → Inv o
IsIdle-Inv o v = record {
  reserved = omega (arith, ap sum v.nobody);
  limited = subst Limited (sym v.nobody) tt;
  counted = omega (arith, ap length v.nobody);
  quiet = λ c. v.nobody;
}

-- How a `log_write` by an operation that has logged fewer than MAXOPBLOCKS blocks ends.
abbrev pub LogEnds : Fs → Outcome Fs → Type 0
LogEnds f (panic text) = f.log.size ≤ f.log.lh.n + 1
LogEnds f (ok g) = (f.log.lh.n + 1 < f.log.size) × (g.log.lh.n ≤ f.log.lh.n + 1)

log_write-LogEnds :
    (f : Fs) (b : ℕ) → f.log.lh.n < log_size → 0 < f.log.outstanding → LogEnds f (log_write f b)
log_write-LogEnds f b l o = elim (Bool-cases (leb f.log.size (f.log.lh.n + 1))) [
  | inl e ↦ rw (log_write_full f b (ground (arith, e)), LogEnds) (ground (arith, e))
  | inr e ↦
      let room : f.log.lh.n + 1 < f.log.size = ground (arith, e) in
      rw (log_write_fits f b l room o, LogEnds) (room, (n-logged f.log.lh b).0)
]

-- What `begin_op` reserves: however the critical sections of operations interleave from an idle log on,
-- when one is under way that has logged fewer than MAXOPBLOCKS blocks, no commit is, fewer than LOGSIZE
-- blocks are logged, and its next `log_write` panics exactly when the log on the disk has no room for
-- one more block and its header. So none panics in a log of more than LOGSIZE blocks; in one of just
-- LOGSIZE blocks, the header's included, it does once LOGSIZE - 1 blocks are logged.
pub log_write-reserved :
    {o p : Ops} (i k b : ℕ)
    → IsIdle o
    → Reach o p
    → get_elem? p.left i ≡ some (suc k)
    → (p.fs.log.committing ≡ false) × (p.fs.log.lh.n < log_size) × LogEnds p.fs (log_write p.fs b)
log_write-reserved {o} {p} i k b idle r h =
    let v : Inv p = Reach-Inv (IsIdle-Inv o idle) r in
    let (s, n) = sum-ge p.left i (suc k) h in
    let low : p.fs.log.lh.n < log_size = omega (arith, v.reserved, s) in
    (not_quiet p v n, low, log_write-LogEnds p.fs b low (omega (arith, v.counted, n)))

-- Nor does `end_op` panic, or take the count below 0, for an operation that is under way.
pub end_op_never_panics :
    {o p : Ops}
    → IsIdle o
    → Reach o p
    → 0 < length p.left
    → (g : Fs) × ((end_op_first p.fs ≡ ok (leaves g)) ⊎ (end_op_first p.fs ≡ ok (commits g)))
unfolding end_op_first
end_op_never_panics {o} {p} idle r h =
    let v : Inv p = Reach-Inv (IsIdle-Inv o idle) r in
    let q = not_quiet p v h in
    elim (Bool-cases (p.fs.log.outstanding - 1 == 0)) [
      | inl e ↦ (
        record (p.fs) { log = record (p.fs.log) { outstanding = 0; committing = true } },
        inr (ground (arith, q, v.counted)),
      )
      | inr e ↦ (
        record (p.fs) { log = record (p.fs.log) { outstanding = p.fs.log.outstanding - 1 } },
        inl (ground (arith, q, v.counted)),
      )
    ]
