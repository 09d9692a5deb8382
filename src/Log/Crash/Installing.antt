-- ===== src/Log/Crash/Installing.antt =====
-- log.c: `install_trans`, after the commit and in recovery: the log and its header stay as they are.
use osass.Base.{
  ℕ, zero, suc, ◌+◌, ◌*◌, ◌≤◌, ◌<◌, ◌≡◌, ◌∙◌, ap, subst, ◌⊎◌, inl, inr, arith, Bool-cases, ◌==◌,
}
use osass.Base.Words.{get32}
use osass.Log.{LogHeader, Log, install_from}
use osass.Log.Blocks.{Block, Disk, Store, at, content, bread, bwrite, content-bread, content-bwrite}
use osass.Log.Crash.{All, IsHome, Logged, Committed, Atomic, committed, Layout}

module _ (start : ℕ) (lh : LogHeader) (old new : Disk) where
  -- While `install_trans` runs, the first `t` blocks are at home.
  pub record Installing (t : ℕ) (s : Store) : Type 0 where
    pub count : get32 (s.disk start) 0 ≡ lh.n
    pub entries : (i : ℕ) → i < lh.n → get32 (s.disk start) (4 * i + 4) ≡ lh.block i
    pub log_disk : (i : ℕ) → i < lh.n → s.disk (start + i + 1) ≡ new (lh.block i)
    pub log_content : (i : ℕ) → i < lh.n → content s (start + i + 1) ≡ new (lh.block i)
    pub home :
        (b : ℕ)
        → IsHome start b
        → (s.disk b ≡ new b) ⊎ ((i : ℕ) × (t ≤ i) × (i < lh.n) × (lh.block i ≡ b))
    pub history : All (Atomic start lh old new) s.past

  pub Installing-bread : (t b : ℕ) (s : Store) → Installing t s → Installing t (bread s b).1
  unfolding bread
  Installing-bread t b s v = record {
    count = v.count;
    entries = v.entries;
    log_disk = v.log_disk;
    log_content = λ i h. content-bread s b (start + i + 1) ∙ v.log_content i h;
    home = v.home;
    history = v.history;
  }

  pub Installing-Committed : (t : ℕ) (s : Store) → Installing t s → Committed start lh new s.disk
  Installing-Committed t s v = record {
    count = v.count;
    entries = v.entries;
    log_disk = v.log_disk;
    home = λ b h. drop_bound b (v.home b h);
  }
    where
      drop_bound :
          (b : ℕ)
          → (s.disk b ≡ new b) ⊎ ((i : ℕ) × (t ≤ i) × (i < lh.n) × (lh.block i ≡ b))
          → (s.disk b ≡ new b) ⊎ Logged lh b
      drop_bound b (inl e) = inl e
      drop_bound b (inr (i, _, h, e)) = inr (i, h, e)

  Installing-bwrite :
      (t k : ℕ) (s : Store) (v : Block)
      → Layout start lh
      → t < lh.n
      → k ≡ lh.block t
      → v ≡ new (lh.block t)
      → Installing t s
      → Installing (t + 1) (bwrite s k v)
  unfolding bwrite
  Installing-bwrite t k s v y h a e l = record {
    count = ground (arith, l.count, y.homes t h);
    entries = λ i j. ground (arith, l.entries i j, y.homes t h);
    log_disk = λ i j. ground (arith, l.log_disk i j, y.homes t h, y.fits.count);
    log_content = λ i j.
        ground (
          arith,
          content-bwrite s k (start + i + 1) v,
          l.log_content i j,
          y.homes t h,
          y.fits.count,
        );
    home = λ b j. home_after b (l.home b j);
    history = (committed (Installing-Committed t s l), l.history);
  }
    where
      home_after :
          (b : ℕ)
          → (s.disk b ≡ new b) ⊎ ((i : ℕ) × (t ≤ i) × (i < lh.n) × (lh.block i ≡ b))
          → (at k v s.disk b ≡ new b) ⊎ ((i : ℕ) × (t + 1 ≤ i) × (i < lh.n) × (lh.block i ≡ b))
      home_after b (inl p) = inl (ground arith)
      home_after b (inr (i, le, lt, p)) = elim (Bool-cases (t == i)) [
        | inl q ↦ inl (ground arith)
        | inr q ↦ inr (i, ground arith, lt, p)
      ]

  -- The loop from `t` on, with `r` rounds to go, by a log that names the same blocks.
  pub install_from-Installing :
      (r t : ℕ) (log : Log) (s : Store)
      → Layout start lh
      → log.start ≡ start
      → ((i : ℕ) → i < lh.n → log.lh.block i ≡ lh.block i)
      → t + r ≡ lh.n
      → Installing t s
      → Installing lh.n (install_from r t log s)
  unfolding install_from bread content
  install_from-Installing zero t log s y e same h l = subst (λ k. Installing k s) (omega arith) l
  install_from-Installing (suc r) t log s y e same h l =
      install_from-Installing r (t + 1) log _ y e same (omega arith) (
        Installing-bwrite t (log.lh.block t) _ _ y (omega arith) (same t (omega arith))
          (ap (content s) (omega arith) ∙ l.log_content t (omega arith))
          (Installing-bread t _ _ (Installing-bread t _ _ l)))

  -- When all are at home, each home block is as after the transaction.
  pub Installing-done :
      (s : Store) → Installing lh.n s → (b : ℕ) → IsHome start b → s.disk b ≡ new b
  Installing-done s l b h = elim (l.home b h) [
    | inl e ↦ e
    | inr (i, le, lt, p) ↦ absurd (omega arith)
  ]
