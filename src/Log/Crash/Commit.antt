-- ===== src/Log/Crash/Commit.antt =====
-- log.c: `commit`, from the last `log_write` of a transaction to the cleared header.
use osass.Base.{ℕ, ◌+◌, ◌≤◌, ◌<◌, ◌≡◌, ◌⊎◌, inl, inr, refl, arith, Bool-cases, ltb, []}
use osass.Base.Words.{get32, put32, get32-put32_self}
use osass.Log.{
  LogHeader, Fs, write_head, install_from, install_trans, write_log_from, write_log, clear, commit,
}
use osass.Log.Blocks.{Block, Disk, Store, at, content, bread, bwrite, content-bwrite}
use osass.Log.Header.{encode, get32-encode_count, get32-encode_entry}
use osass.Log.Crash.{points, All, IsHome, Logged, Clear, Atomic, before, committed, after, Layout}
use osass.Log.Crash.Logging.{Logging, Logging-bread, Logging-Clear, write_log_from-Logging}
use osass.Log.Crash.Installing.{
  Installing, Installing-bread, Installing-Committed, Installing-done, install_from-Installing,
}

module _ (start : ℕ) (lh : LogHeader) (old new : Disk) where
  -- Writing the header commits: nothing is installed yet.
  pub head_commits :
      (s : Store) (buf : Block)
      → Layout start lh
      → ((b : ℕ) → IsHome start b → (old b ≡ new b) ⊎ Logged lh b)
      → Logging start lh old new lh.n s
      → Installing start lh old new 0 (bwrite s start (encode lh.n lh.block buf))
  unfolding bwrite
  head_commits s buf y c l = record {
    count = ground (arith, get32-encode_count lh.n lh.block buf, y.fits.count);
    entries = λ i h. ground (arith, get32-encode_entry lh.n i lh.block buf h (y.fits.entries i h));
    log_disk = λ i h. ground (arith, l.log_disk i h);
    log_content = λ i h. ground (
      arith,
      content-bwrite s start (start + i + 1) (encode lh.n lh.block buf),
      l.log_content i h,
    );
    home = λ b h. home_now b h (c b h);
    history = (before (Logging-Clear start lh old new lh.n s l), l.history);
  }
    where
      home_now :
          (b : ℕ)
          → IsHome start b
          → (old b ≡ new b) ⊎ Logged lh b
          → (at start (encode lh.n lh.block buf) s.disk b ≡ new b)
            ⊎ ((i : ℕ) × (0 ≤ i) × (i < lh.n) × (lh.block i ≡ b))
      home_now b h (inl e) = inl (ground (arith, l.home_disk b h))
      home_now b h (inr (i, lt, e)) = inr (i, omega arith, lt, e)

  -- Writing a header of no blocks ends the transaction.
  pub head_clears :
      (s : Store) (buf : Block)
      → Installing start lh old new lh.n s
      → Clear start new (bwrite s start (put32 buf 0 0)).disk
        × All (Atomic start lh old new) (bwrite s start (put32 buf 0 0)).past
  unfolding bwrite
  head_clears s buf l = (
    record {
      header = ground (arith, get32-put32_self buf 0 0);
      home = λ b h. ground (arith, Installing-done start lh old new s l b h);
    },
    (committed (Installing-Committed start lh old new lh.n s l), l.history),
  )

-- What holds when `end_op` calls `commit`: the header on disk is clear, the blocks named are homes
-- and fit the log, and a home block that differs from the disk is among them.
pub record Ready (f : Fs) : Type 0 where
  pub header : get32 (f.store.disk f.log.start) 0 ≡ 0
  pub layout : Layout f.log.start f.log.lh
  pub pinned :
      (b : ℕ) → IsHome f.log.start b → (f.store.disk b ≡ content f.store b) ⊎ Logged f.log.lh b
  pub fresh : f.store.past ≡ []

Ready-Logging :
    (f : Fs) → Ready f → Logging f.log.start f.log.lh f.store.disk (content f.store) 0 f.store
Ready-Logging f r = record {
  home_content = λ b h. refl;
  home_disk = λ b h. refl;
  header = r.header;
  log_disk = λ i h. absurd (omega arith);
  log_content = λ i h. absurd (omega arith);
  history = rw (r.fresh) tt;
}

-- A transaction of some blocks, run to its end.
commit_some :
    (f : Fs)
    → Ready f
    → let g = write_head (clear (install_trans (write_head (write_log f)))) in
      All (Atomic f.log.start f.log.lh f.store.disk (content f.store)) (points g.store)
      × Clear f.log.start (content f.store) g.store.disk
unfolding write_log write_head install_trans clear bread
commit_some f r =
    let start = f.log.start in
    let lh = f.log.lh in
    let old = f.store.disk in
    let new = content f.store in
    let s1 = write_log_from lh.n 0 f.log f.store in
    let l1 =
      write_log_from-Logging start lh old new lh.n 0 f.log f.store r.layout refl (λ i h. refl)
        (omega arith) (Ready-Logging f r) in
    let l2 =
      head_commits start lh old new (bread s1 start).1 (content s1 start) r.layout r.pinned
        (Logging-bread start lh old new lh.n start s1 l1) in
    let s2 = bwrite (bread s1 start).1 start (encode lh.n lh.block (content s1 start)) in
    let s3 = install_from lh.n 0 f.log s2 in
    let l3 =
      install_from-Installing start lh old new lh.n 0 f.log s2 r.layout refl (λ i h. refl)
        (omega arith) l2 in
    let (c, h) =
      head_clears start lh old new (bread s3 start).1 (content s3 start)
        (Installing-bread start lh old new lh.n start s3 l3) in
    ((after c, h), c)

-- An empty transaction changes nothing.
commit_none :
    (f : Fs)
    → Ready f
    → f.log.lh.n ≡ 0
    → All (Atomic f.log.start f.log.lh f.store.disk (content f.store)) (points f.store)
      × Clear f.log.start (content f.store) f.store.disk
commit_none f r z = (
  (before (record { header = r.header; home = λ b h. refl }), rw (r.fresh) tt),
  record { header = r.header; home = λ b h. same b (r.pinned b h) },
)
  where
    same :
        (b : ℕ)
        → (f.store.disk b ≡ content f.store b) ⊎ Logged f.log.lh b
        → f.store.disk b ≡ content f.store b
    same b (inl e) = e
    same b (inr (i, h, e)) = absurd (omega arith)

-- Each disk that `commit` goes through is one of the transaction, and the last holds all of it.
pub commit-Atomic :
    (f : Fs)
    → Ready f
    → let g = commit f in
      All (Atomic f.log.start f.log.lh f.store.disk (content f.store)) (points g.store)
      × Clear f.log.start (content f.store) g.store.disk
unfolding commit
commit-Atomic f r = elim (Bool-cases (ltb 0 f.log.lh.n)) [
  | inl e ↦ rw e (commit_some f r)
  | inr e ↦ rw e (commit_none f r (ground arith))
]
