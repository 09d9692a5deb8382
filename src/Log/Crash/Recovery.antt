-- ===== src/Log/Crash/Recovery.antt =====
-- log.c: `recover_from_log` at boot, also after a power failure in an earlier recovery.
use osass.Base.{
  ℕ, zero, suc, ◌≡◌, ◌∙◌, sym, subst, ◌⊎◌, inl, inr, refl, arith, get_elem?, false, some, List, [],
  ◌∷◌,
}
use osass.Base.Words.{get32, get32-put32_self}
use osass.Log.{
  LogHeader, Log, Fs, read_head, write_head, install_from, install_trans, clear, commit, initlog,
}
use osass.Log.Blocks.{Disk, Store, content, bread, bwrite, boot}
use osass.Log.Header.{read_entries_lem}
use osass.Log.Crash.{points, All, Clear, Committed, Atomic, before, committed, after, Layout}
use osass.Log.Crash.Installing.{Installing, Installing-bread, install_from-Installing}
use osass.Log.Crash.Commit.{Ready, commit-Atomic, head_clears}
use osass.Log.{read_entries}
use mathlib.Core.Option.{some-injective}

-- The disk after recovery from `d`.
abbrev pub recovered : ℕ → ℕ → Disk → Store
recovered start size d = (initlog start size (boot d)).store

-- Every state that the disk goes through is atomic, and the last is one of the two ends.
pub record Recovers (start : ℕ) (lh : LogHeader) (old new : Disk) (s : Store) : Type 0 where
  pub steps : All (Atomic start lh old new) (points s)
  pub ends : Clear start old s.disk ⊎ Clear start new s.disk

module _ (start size : ℕ) (lh : LogHeader) (old new : Disk) where
  -- With a clear header nothing is installed.
  recover-Clear :
      (v d : Disk)
      → Clear start v d
      → Clear start v (recovered start size d).disk × ((recovered start size d).past ≡ d ∷ [])
  unfolding initlog read_head install_trans clear write_head bread bwrite content boot install_from
  recover-Clear v d c = rw (c.header) (
    record {
      header = ground (arith, get32-put32_self (d start) 0 0);
      home = λ b h. ground (arith, c.home b h);
    },
    refl,
  )

  boot-Installing : (d : Disk) → Committed start lh new d → Installing start lh old new 0 (boot d)
  unfolding boot content
  boot-Installing d c = record {
    count = c.count;
    entries = c.entries;
    log_disk = c.log_disk;
    log_content = c.log_disk;
    home =
        λ b h. elim (c.home b h) [ inl e ↦ inl e | inr (i, lt, e) ↦ inr (i, omega arith, lt, e) ];
    history = tt;
  }

  -- With a committed transaction all of it is installed.
  recover-Committed :
      (d : Disk)
      → Layout start lh
      → Committed start lh new d
      → Recovers start lh old new (recovered start size d)
  unfolding initlog read_head install_trans clear write_head bread content boot
  recover-Committed d y c =
      let n = get32 (d start) 0 in
      let log : Log = record {
        start = start;
        size = size;
        outstanding = 0;
        committing = false;
        lh = record { n = n; block = read_entries n 0 (d start) (λ _. 0) };
      } in
      let s2 = (bread (boot d) start).1 in
      let s3 = install_from n 0 log s2 in
      let l3 : Installing start lh old new lh.n s3 =
        install_from-Installing start lh old new n 0 log s2 y refl
          (λ i h.
            read_entries_lem n 0 i (d start) (λ _. 0) (omega arith) (omega (arith, c.count))
            ∙ c.entries i h)
          (omega (arith, c.count))
          (Installing-bread start lh old new 0 start (boot d) (boot-Installing d c)) in
      let (e, h) =
        head_clears start lh old new (bread s3 start).1 (content s3 start)
          (Installing-bread start lh old new lh.n start s3 l3) in
      record { steps = (after e, h); ends = inr e }

  pub recover_Recovers :
      (d : Disk)
      → Layout start lh
      → Atomic start lh old new d
      → Recovers start lh old new (recovered start size d)
  recover_Recovers d y (before c) =
      let (e, p) = recover-Clear old d c in
      record {
        steps = (before e, subst (All (Atomic start lh old new)) (sym p) (before c, tt));
        ends = inl e;
      }
  recover_Recovers d y (committed c) = recover-Committed d y c
  recover_Recovers d y (after c) =
      let (e, p) = recover-Clear new d c in
      record {
        steps = (after e, subst (All (Atomic start lh old new)) (sym p) (after c, tt));
        ends = inr e;
      }

-- `d` is the disk at one of the points of a run that ended in `s`.
abbrev pub CrashedIn : Store → Disk → Type 0
CrashedIn s d = (k : ℕ) × (get_elem? (points s) k ≡ some d)

-- A disk left by a power failure in `commit` of `f`, or in the recovery from such a disk.
pub data Crashed (f : Fs) : Disk → Type 0 where
  in_commit : {d : Disk} → CrashedIn (commit f).store d → Crashed f d
  in_recovery :
      {c d : Disk} → Crashed f c → CrashedIn (recovered f.log.start f.log.size c) d → Crashed f d

All-get_elem? :
    (P : Disk → Type 0) (ds : List Disk) (k : ℕ) {d : Disk}
    → All P ds
    → get_elem? ds k ≡ some d
    → P d
All-get_elem? P [] k a e = absurd (cc)
All-get_elem? P (x ∷ ds) zero a e = subst P (some-injective x _ e) a.0
All-get_elem? P (x ∷ ds) (suc k) a e = All-get_elem? P ds k a.1 e

Crashed-Atomic :
    (f : Fs) {d : Disk}
    → Ready f
    → Crashed f d
    → Atomic f.log.start f.log.lh f.store.disk (content f.store) d
Crashed-Atomic f r (in_commit (k, e)) =
    All-get_elem? (Atomic f.log.start f.log.lh f.store.disk (content f.store))
      (points (commit f).store) k (commit-Atomic f r).0 e
Crashed-Atomic f r (in_recovery {c} c' (k, e)) =
    All-get_elem? (Atomic f.log.start f.log.lh f.store.disk (content f.store))
      (points (recovered f.log.start f.log.size c)) k
      (recover_Recovers f.log.start f.log.size f.log.lh f.store.disk (content f.store) c r.layout
        (Crashed-Atomic f r c')).steps
      e

-- Crash safety: after a power failure at any point of `commit`, and any number of further failures
-- during recovery, the recovery that completes leaves the home blocks all as they were before the
-- transaction or all as the transaction leaves them, and a clear log header.
pub recovery_atomic :
    (f : Fs) {d : Disk}
    → Ready f
    → Crashed f d
    → Clear f.log.start f.store.disk (recovered f.log.start f.log.size d).disk
      ⊎ Clear f.log.start (content f.store) (recovered f.log.start f.log.size d).disk
recovery_atomic f {d} r c =
    (recover_Recovers f.log.start f.log.size f.log.lh f.store.disk (content f.store) d r.layout
      (Crashed-Atomic f r c)).ends

-- Durability: once `commit` has returned, recovery from its disk keeps the transaction.
pub recovery_durable :
    (f : Fs)
    → Ready f
    → Clear f.log.start
        (content f.store)
        (recovered f.log.start f.log.size (commit f).store.disk).disk
recovery_durable f r =
    (recover-Clear f.log.start f.log.size f.log.lh f.store.disk (content f.store) (content f.store)
      (commit f).store.disk (commit-Atomic f r).1).0
