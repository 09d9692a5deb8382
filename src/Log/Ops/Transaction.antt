-- ===== src/Log/Ops/Transaction.antt =====
-- log.c: a transaction from its first `log_write` to its commit, and what a crash makes of it.
use osass.Base.{
  ℕ, ◌+◌, ◌^◌, ◌≤◌, ◌<◌, ◌≡◌, ◌∙◌, sym, ap, subst, ◌⊎◌, inl, inr, refl, arith, Bool-cases, true,
  ◌==◌, some, List, [], ◌∷◌, Outcome, ok, ◌>>=◌, >>=-ok, ok-injective, length,
}
use osass.Log.{log_size, Fs}
use osass.Log.Blocks.{Block, Disk, at, content}
use osass.Log.Crash.{IsHome, Logged, Clear}
use osass.Log.Crash.Commit.{Ready}
use osass.Log.Crash.Recovery.{Crashed, recovered, recovery_atomic}
use osass.Log.Ops.{modify, log_block}
use osass.Log.Ops.Write.{
  logged, log_write_ok, log_write_fits, Logged-logged, logged_self-Logged, n-logged, logged_entry,
}

-- The updates of a transaction, in order.
pub log_blocks : Fs → List (ℕ × Block) → Outcome Fs
log_blocks f [] = ok f
log_blocks f ((b, v) ∷ ws) = log_block f b v >>= λ g. log_blocks g ws

-- The disk with the updates made.
abbrev pub updated : Disk → List (ℕ × Block) → Disk
updated d [] = d
updated d ((b, v) ∷ ws) = updated (at b v d) ws

-- The blocks written are outside of the log, and their numbers fit an `int`.
abbrev pub Homes : ℕ → List (ℕ × Block) → Type 0
Homes start [] = Unit
Homes start ((b, v) ∷ ws) = (IsHome start b × (b < 2 ^ 32)) × Homes start ws

-- What one update does: the disk is as before, and the block is changed and named.
pub record Updated (f : Fs) (b : ℕ) (v : Block) (g : Fs) : Type 0 where
  pub ready : Ready g
  pub disk_same : g.store.disk ≡ f.store.disk
  pub start_same : g.log.start ≡ f.log.start
  pub size_same : g.log.size ≡ f.log.size
  pub outstanding_same : g.log.outstanding ≡ f.log.outstanding
  pub count : g.log.lh.n ≤ f.log.lh.n + 1
  pub contents : (x : ℕ) → content g.store x ≡ at b v (content f.store) x

-- The state after an update that returned.
abbrev after_update : Fs → ℕ → Block → Fs
after_update f b v = record {
  log = record (f.log) { lh = logged f.log.lh b };
  store = record (f.store) { cache = at b (some v) f.store.cache; dirty = at b true f.store.dirty };
}

after_update-Updated :
    (f : Fs) (b : ℕ) (v : Block)
    → Ready f
    → f.log.lh.n < log_size
    → IsHome f.log.start b
    → b < 2 ^ 32
    → Updated f b v (after_update f b v)
unfolding content
after_update-Updated f b v r fits home small = record {
  ready = record {
    header = r.header;
    layout = record {
      fits = record {
        count = omega (arith, n-logged f.log.lh b);
        entries = λ i h. small_entry i (logged_entry f.log.lh b i h);
      };
      homes = λ i h. home_entry i (logged_entry f.log.lh b i h);
    };
    pinned = λ x h. pinned_after x (r.pinned x h);
    fresh = r.fresh;
  };
  disk_same = refl;
  start_same = refl;
  size_same = refl;
  outstanding_same = refl;
  count = omega (arith, n-logged f.log.lh b);
  contents = λ x. ground arith;
}
  where
    small_entry :
        (i : ℕ)
        → ((logged f.log.lh b).block i ≡ b)
          ⊎ ((i < f.log.lh.n) × ((logged f.log.lh b).block i ≡ f.log.lh.block i))
        → (logged f.log.lh b).block i < 2 ^ 32
    small_entry i (inl e) = omega arith
    small_entry i (inr (h, e)) = omega (arith, r.layout.fits.entries i h)

    home_entry :
        (i : ℕ)
        → ((logged f.log.lh b).block i ≡ b)
          ⊎ ((i < f.log.lh.n) × ((logged f.log.lh b).block i ≡ f.log.lh.block i))
        → IsHome f.log.start ((logged f.log.lh b).block i)
    home_entry i (inl e) = omega arith
    home_entry i (inr (h, e)) = omega (arith, r.layout.homes i h)

    pinned_after :
        (x : ℕ)
        → (f.store.disk x ≡ content f.store x) ⊎ Logged f.log.lh x
        → (f.store.disk x ≡ content (after_update f b v).store x) ⊎ Logged (logged f.log.lh b) x
    pinned_after x p = elim (Bool-cases (b == x)) [
      | inl e ↦
          inr (subst (Logged (logged f.log.lh b)) (ground arith) (logged_self-Logged f.log.lh b))
      | inr e ↦ elim p [ inl q ↦ inl (rw e q) | inr q ↦ inr (Logged-logged f.log.lh b x q) ]
    ]

log_block-Updated :
    (f g : Fs) (b : ℕ) (v : Block)
    → Ready f
    → IsHome f.log.start b
    → b < 2 ^ 32
    → log_block f b v ≡ ok g
    → Updated f b v g
unfolding log_block modify
log_block-Updated f g b v r home small h =
    let (e, fits, o) = log_write_ok (modify f b v) g b h in
    subst (Updated f b v) (sym e) (after_update-Updated f b v r fits home small)

-- What a transaction that returned has done.
pub record Transacted (f : Fs) (ws : List (ℕ × Block)) (g : Fs) : Type 0 where
  pub ready : Ready g
  pub disk_same : g.store.disk ≡ f.store.disk
  pub start_same : g.log.start ≡ f.log.start
  pub size_same : g.log.size ≡ f.log.size
  pub contents : (x : ℕ) → content g.store x ≡ updated (content f.store) ws x

updated_ext :
    (c d : Disk) (ws : List (ℕ × Block)) (x : ℕ) → c x ≡ d x → updated c ws x ≡ updated d ws x
updated_ext c d [] x h = h
updated_ext c d ((b, v) ∷ ws) x h = updated_ext (at b v c) (at b v d) ws x (ground arith)

pub log_blocks-Transacted :
    (ws : List (ℕ × Block)) (f g : Fs)
    → Ready f
    → Homes f.log.start ws
    → log_blocks f ws ≡ ok g
    → Transacted f ws g
unfolding log_blocks
log_blocks-Transacted [] f g r hs h = subst (Transacted f []) (ok-injective f g h) (record {
  ready = r;
  disk_same = refl;
  start_same = refl;
  size_same = refl;
  contents = λ x. refl;
})
log_blocks-Transacted ((b, v) ∷ ws) f g r hs h =
    let (m, e, k) = >>=-ok (log_block f b v) (λ m. log_blocks m ws) h in
    let u = log_block-Updated f m b v r hs.0.0 hs.0.1 e in
    let t =
      log_blocks-Transacted ws m g u.ready (subst (λ s. Homes s ws) (sym u.start_same) hs.1) k in
    record {
      ready = t.ready;
      disk_same = t.disk_same ∙ u.disk_same;
      start_same = t.start_same ∙ u.start_same;
      size_same = t.size_same ∙ u.size_same;
      contents = λ x.
          t.contents x
          ∙ updated_ext (content m.store) (at b v (content f.store)) ws x (u.contents x);
    }

-- No update panics while the transaction has room, in the log and in the header, and an operation
-- is outstanding.
pub log_blocks_total :
    (ws : List (ℕ × Block)) (f : Fs)
    → f.log.lh.n + length ws ≤ log_size
    → f.log.lh.n + length ws < f.log.size
    → 0 < f.log.outstanding
    → (g : Fs) × (log_blocks f ws ≡ ok g)
unfolding log_blocks log_block modify
log_blocks_total [] f h k o = (f, refl)
log_blocks_total ((b, v) ∷ ws) f h k o =
    let m = after_update f b v in
    let (g, e) =
      log_blocks_total ws m (omega (arith, n-logged f.log.lh b))
        (omega (arith, n-logged f.log.lh b)) o in
    (g, rw (log_write_fits (modify f b v) b (omega arith) (omega arith) o) e)

Clear-ext :
    (start : ℕ) (v w d : Disk)
    → ((b : ℕ) → IsHome start b → v b ≡ w b)
    → Clear start v d
    → Clear start w d
Clear-ext start v w d h c = record { header = c.header; home = λ b k. c.home b k ∙ h b k }

-- With nothing logged the disk is up to date.
up_to_date :
    (f : Fs)
    → Ready f
    → f.log.lh.n ≡ 0
    → (b : ℕ) → IsHome f.log.start b
    → content f.store b ≡ f.store.disk b
up_to_date f r z b h = elim (r.pinned b h) [ inl e ↦ sym e | inr (i, lt, e) ↦ absurd (omega arith) ]

-- A whole transaction against a crash. Updates are logged on a log that is ready, and `commit` runs;
-- the power fails at any point of it, or again in recoveries. The recovery that completes leaves all
-- home blocks as on the disk before, or all with every update made.
pub transaction_atomic :
    (f g : Fs) (ws : List (ℕ × Block)) {d : Disk}
    → Ready f
    → f.log.lh.n ≡ 0
    → Homes f.log.start ws
    → log_blocks f ws ≡ ok g
    → Crashed g d
    → Clear f.log.start f.store.disk (recovered f.log.start f.log.size d).disk
      ⊎ Clear f.log.start (updated f.store.disk ws) (recovered f.log.start f.log.size d).disk
transaction_atomic f g ws {d} r z hs h c =
    let t = log_blocks-Transacted ws f g r hs h in
    let out = recovered f.log.start f.log.size d in
    let same =
      subst
        (λ s.
          (Clear s g.store.disk (recovered s f.log.size d).disk
            ⊎ Clear s (content g.store) (recovered s f.log.size d).disk))
        t.start_same
        (subst
          (λ n.
            (Clear g.log.start g.store.disk (recovered g.log.start n d).disk
              ⊎ Clear g.log.start (content g.store) (recovered g.log.start n d).disk))
          t.size_same (recovery_atomic g t.ready c)) in
    elim same [
      | inl k ↦ inl (
          Clear-ext f.log.start g.store.disk f.store.disk out.disk
            (λ b q. ap (λ e. e b) t.disk_same) k)
      | inr k ↦ inr (
          Clear-ext f.log.start (content g.store) (updated f.store.disk ws) out.disk
            (λ b q.
              t.contents b ∙ updated_ext (content f.store) f.store.disk ws b (up_to_date f r z b q))
            k)
    ]
