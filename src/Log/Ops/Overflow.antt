-- ===== src/Log/Ops/Overflow.antt =====
-- log.c: a log of LOGSIZE blocks, as mkfs builds it, is too small for what `begin_op` lets in.
use osass.Base.{
  ℕ, zero, suc, ◌+◌, ◌*◌, ◌≤◌, ◌<◌, ◌≡◌, refl, sym, ap, subst, ◌∙◌, arith, Bool-cases, inl, inr,
  true, false, ltb, some, List, [], ◌∷◌, ok, panic, get_elem?, set,
}
use osass.Log.{max_op_blocks, log_size, Fs}
use osass.Log.Blocks.{at}
use osass.Log.Ops.{begin_op, started, find_from, log_write}
use osass.Log.Ops.Write.{logged, find_from_bounds, find_from_at, log_write_fits, log_write_full}
use osass.Log.Ops.Space.{Ops, Reach, here, next, begins, logs, IsIdle}

-- Blocks 0 to `n` - 1 are logged, and `k` operations are under way.
record Filled (n k : ℕ) (f : Fs) : Type 0 where
  count : f.log.lh.n ≡ n
  blocks : (j : ℕ) → j < n → f.log.lh.block j ≡ j
  running : f.log.outstanding ≡ k
  small : f.log.size ≡ log_size
  open_log : f.log.committing ≡ false

-- One more operation.
abbrev begun : Fs → Fs
begun f = record f { log = record (f.log) { outstanding = f.log.outstanding + 1 } }

begin_lem :
    (k : ℕ) (f : Fs)
    → Filled 0 k f
    → (k + 1) * max_op_blocks ≤ log_size
    → (begin_op f ≡ started (begun f)) × Filled 0 (k + 1) (begun f)
unfolding begin_op
begin_lem k f h l = (
  ground (arith, h.count, h.running, h.open_log),
  record {
    count = h.count;
    blocks = h.blocks;
    running = ap (λ x. x + 1) h.running;
    small = h.small;
    open_log = h.open_log;
  },
)

-- A block that is not there yet takes the next entry.
find_new : (n : ℕ) (block : ℕ → ℕ) → ((j : ℕ) → j < n → block j ≡ j) → find_from n 0 block n ≡ n
find_new n block h = elim (Bool-cases (ltb (find_from n 0 block n) n)) [
  | inl e ↦
      let l : find_from n 0 block n < n = ground (arith, e) in
      absurd
        (omega (arith, l, h (find_from n 0 block n) l, find_from_at n 0 block n (omega (arith, l))))
  | inr e ↦ ground (arith, e, find_from_bounds n 0 block n)
]

-- The file system after block `n` is logged.
abbrev one_more : ℕ → Fs → Fs
one_more n f = record {
  log = record (f.log) { lh = logged f.log.lh n };
  store = record (f.store) { dirty = at n true f.store.dirty };
}

one_more-Filled : (n k : ℕ) (f : Fs) → Filled n k f → Filled (n + 1) k (one_more n f)
one_more-Filled n k f h =
    let new : find_from f.log.lh.n 0 f.log.lh.block n ≡ n =
      subst (λ m. find_from m 0 f.log.lh.block n ≡ n) (sym h.count)
        (find_new n f.log.lh.block h.blocks) in
    record {
      count = ground (arith, new, h.count);
      blocks = λ j l. ground (arith, new, h.blocks j);
      running = h.running;
      small = h.small;
      open_log = h.open_log;
    }

-- The operation that `put` has in the list of what is left logs `r` blocks.
fill :
    {o : Ops} (put : ℕ → List ℕ) (i : ℕ)
    → ((x : ℕ) → get_elem? (put x) i ≡ some x)
    → ((x y : ℕ) → set (put x) i y ≡ put y)
    → (r x n : ℕ) (f : Fs) → Filled n 3 f
    → n + r < log_size
    → Reach o (record { fs = f; left = put (r + x) })
    → (g : Fs) × Filled (n + r) 3 g × Reach o (record { fs = g; left = put x })
fill {o} put i get update zero x n f h l s = (
  f,
  subst (λ m. Filled m 3 f) (omega arith) h,
  subst (λ y. Reach o (record { fs = f; left = put y })) (omega arith) s,
)
fill {o} put i get update (suc r) x n f h l s =
    let left_now : get_elem? (put (suc r + x)) i ≡ some (suc (r + x)) =
      get (suc r + x) ∙ ap some (omega arith) in
    let wrote : log_write f n ≡ ok (one_more n f) =
      log_write_fits f n (omega (arith, h.count, l)) (omega (arith, h.count, h.small, l))
        (omega (arith, h.running)) in
    let t : Reach o (record { fs = one_more n f; left = put (r + x) }) =
      subst (λ y. Reach o (record { fs = one_more n f; left = y })) (update (suc r + x) (r + x))
        (next s (logs i (r + x) n (one_more n f) left_now wrote)) in
    let (g, a, b) =
      fill put i get update r x (n + 1) (one_more n f) (one_more-Filled n 3 f h) (omega arith) t in
    (g, subst (λ m. Filled m 3 g) (omega arith) a, b)

-- From every idle log of LOGSIZE blocks on, calls that all return lead to an operation that has logged
-- fewer than MAXOPBLOCKS blocks and whose next `log_write` panics.
pub log_write_overflows :
    (o : Ops)
    → IsIdle o
    → o.fs.log.size ≡ log_size
    → (p : Ops) × (i k b : ℕ) × Reach o p
      × (get_elem? p.left i ≡ some (suc k))
      × (log_write p.fs b ≡ panic "too big a transaction")
log_write_overflows o v z =
    let f0 = o.fs in
    let h0 : Filled 0 0 f0 = record {
      count = v.nothing_logged;
      blocks = λ j l. absurd (omega arith);
      running = v.none_outstanding;
      small = z;
      open_log = v.not_committing;
    } in
    let (e1, h1) = begin_lem 0 f0 h0 (omega arith) in
    let (e2, h2) = begin_lem 1 (begun f0) h1 (omega arith) in
    let (e3, h3) = begin_lem 2 (begun (begun f0)) h2 (omega arith) in
    let f3 = begun (begun (begun f0)) in
    let s3 = next (next (next here (begins _ e1)) (begins _ e2)) (begins _ e3) in
    let start : Reach o (record { fs = f3; left = 10 ∷ 10 ∷ 10 ∷ [] }) =
      subst (λ l. Reach o (record { fs = f3; left = 10 ∷ 10 ∷ 10 ∷ l })) v.nobody s3 in
    let (f4, h4, s4) =
      fill (λ x. x ∷ 10 ∷ 10 ∷ []) 0 (λ x. refl) (λ x y. refl) 10 0 0 f3 h3 (omega arith) start in
    let (f5, h5, s5) =
      fill (λ x. 0 ∷ x ∷ 10 ∷ []) 1 (λ x. refl) (λ x y. refl) 10 0 10 f4 h4 (omega arith) s4 in
    let (f6, h6, s6) =
      fill (λ x. 0 ∷ 0 ∷ x ∷ []) 2 (λ x. refl) (λ x y. refl) 9 1 20 f5 h5 (omega arith) s5 in
    (
      record { fs = f6; left = 0 ∷ 0 ∷ 1 ∷ [] },
      2,
      0,
      29,
      s6,
      refl,
      log_write_full f6 29 (omega (arith, h6.count, h6.small)),
    )
