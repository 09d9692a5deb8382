-- ===== src/Log/Crash/Logging.antt =====
-- log.c: `write_log`, with the disk as before on every home block.
use osass.Base.{ℕ, zero, suc, ◌+◌, ◌<◌, ◌≡◌, ◌∙◌, sym, ap, subst, arith}
use osass.Base.Words.{get32}
use osass.Log.{log_size, LogHeader, Log, write_log_from}
use osass.Log.Blocks.{
  Block, Disk, Store, content, bread, bwrite, content-bread, content-bwrite, disk-bread, past-bread,
}
use osass.Log.Crash.{All, IsHome, Clear, Atomic, before, Layout}

module _ (start : ℕ) (lh : LogHeader) (old new : Disk) where
  -- While `write_log` runs, `t` blocks are in the log.
  pub record Logging (t : ℕ) (s : Store) : Type 0 where
    pub home_content : (b : ℕ) → IsHome start b → content s b ≡ new b
    pub home_disk : (b : ℕ) → IsHome start b → s.disk b ≡ old b
    pub header : get32 (s.disk start) 0 ≡ 0
    pub log_disk : (i : ℕ) → i < t → s.disk (start + i + 1) ≡ new (lh.block i)
    pub log_content : (i : ℕ) → i < t → content s (start + i + 1) ≡ new (lh.block i)
    pub history : All (Atomic start lh old new) s.past

  pub Logging-bread : (t b : ℕ) (s : Store) → Logging t s → Logging t (bread s b).1
  Logging-bread t b s v = record {
    home_content = λ x h. content-bread s b x ∙ v.home_content x h;
    home_disk = λ x h. ap (λ d. d x) (disk-bread s b) ∙ v.home_disk x h;
    header = ap (λ d. get32 (d start) 0) (disk-bread s b) ∙ v.header;
    log_disk = λ i h. ap (λ d. d (start + i + 1)) (disk-bread s b) ∙ v.log_disk i h;
    log_content = λ i h. content-bread s b (start + i + 1) ∙ v.log_content i h;
    history = subst (All (Atomic start lh old new)) (sym (past-bread s b)) v.history;
  }

  pub Logging-Clear : (t : ℕ) (s : Store) → Logging t s → Clear start old s.disk
  Logging-Clear t s v = record { header = v.header; home = v.home_disk }

  Logging-bwrite :
      (t k : ℕ) (s : Store) (v : Block)
      → t < log_size
      → k ≡ start + t + 1
      → v ≡ new (lh.block t)
      → Logging t s
      → Logging (t + 1) (bwrite s k v)
  unfolding bwrite
  Logging-bwrite t k s v h a e l = record {
    home_content = λ x q. ground (arith, content-bwrite s k x v, l.home_content x q);
    home_disk = λ x q. ground (arith, l.home_disk x q);
    header = ground (arith, l.header);
    log_disk = λ i q. ground (arith, l.log_disk i);
    log_content = λ i q. ground (arith, content-bwrite s k (start + i + 1) v, l.log_content i);
    history = (before (Logging-Clear t s l), l.history);
  }

  -- The loop from `t` on, with `r` rounds to go, by a log that names the same blocks.
  pub write_log_from-Logging :
      (r t : ℕ) (log : Log) (s : Store)
      → Layout start lh
      → log.start ≡ start
      → ((i : ℕ) → i < lh.n → log.lh.block i ≡ lh.block i)
      → t + r ≡ lh.n
      → Logging t s
      → Logging lh.n (write_log_from r t log s)
  unfolding write_log_from bread content
  write_log_from-Logging zero t log s y e same h l = subst (λ k. Logging k s) (omega arith) l
  write_log_from-Logging (suc r) t log s y e same h l =
      write_log_from-Logging r (t + 1) log _ y e same (omega arith) (
        Logging-bwrite t (log.start + t + 1) _ _ (omega (arith, y.fits.count)) (omega arith)
          (content-bread s (log.start + t + 1) (log.lh.block t)
            ∙ ap (content s) (same t (omega arith))
            ∙ l.home_content (lh.block t) (y.homes t (omega arith)))
          (Logging-bread t _ _ (Logging-bread t _ _ l)))
