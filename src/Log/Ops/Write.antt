-- ===== src/Log/Ops/Write.antt =====
-- log.c: what `log_write` does to the header, and that it absorbs a block logged before.
use osass.Base.{
  ℕ, zero, suc, ◌+◌, ◌≤◌, ◌<◌, ◌≡◌, ◌≢◌, ◌⊎◌, inl, inr, arith, Bool-cases, true, ◌==◌,
  if◌then◌else◌, ok, panic,
}
use osass.Log.{log_size, LogHeader, Fs}
use osass.Log.Blocks.{at}
use osass.Log.Crash.{Logged}
use osass.Log.Ops.{find_from, log_write}

pub find_from_bounds :
    (r i : ℕ) (block : ℕ → ℕ) (b : ℕ)
    → (i ≤ find_from r i block b) × (find_from r i block b ≤ i + r)
unfolding find_from
find_from_bounds zero i block b = omega arith
find_from_bounds (suc r) i block b = ground (arith, find_from_bounds r (i + 1) block b)

-- No entry before the place where the search stops names the block.
find_from_before :
    (r i j : ℕ) (block : ℕ → ℕ) (b : ℕ) → i ≤ j → j < find_from r i block b → block j ≢ b
unfolding find_from
find_from_before zero i j block b h k = absurd (omega arith)
find_from_before (suc r) i j block b h k = ground (arith, find_from_before r (i + 1) j block b)

-- Where it stops early the entry names the block.
pub find_from_at :
    (r i : ℕ) (block : ℕ → ℕ) (b : ℕ)
    → find_from r i block b < i + r
    → block (find_from r i block b) ≡ b
unfolding find_from
find_from_at zero i block b h = absurd (omega arith)
find_from_at (suc r) i block b h = ground (arith, find_from_at r (i + 1) block b)

-- The header after a `log_write`.
abbrev pub logged : LogHeader → ℕ → LogHeader
logged lh b =
    let i = find_from lh.n 0 lh.block b in
    record { block = at i b lh.block; n = if i == lh.n then lh.n + 1 else lh.n }

-- The block numbers in use are distinct.
abbrev pub Distinct : LogHeader → Type 0
Distinct lh = (i j : ℕ) → i < lh.n → j < lh.n → lh.block i ≡ lh.block j → i ≡ j

pub Logged-logged : (lh : LogHeader) (b x : ℕ) → Logged lh x → Logged (logged lh b) x
Logged-logged lh b x (k, h, e) = (k, ground arith, ground (arith, find_from_at lh.n 0 lh.block b))

pub logged_self-Logged : (lh : LogHeader) (b : ℕ) → Logged (logged lh b) b
logged_self-Logged lh b =
    (find_from lh.n 0 lh.block b, ground (arith, find_from_bounds lh.n 0 lh.block b), ground arith)

-- `log_write` keeps the entries distinct: a block that is logged twice takes one entry.
pub logged-Distinct : (lh : LogHeader) (b : ℕ) → Distinct lh → Distinct (logged lh b)
logged-Distinct lh b d i j h k e = ground (
  arith,
  d i j,
  find_from_at lh.n 0 lh.block b,
  find_from_bounds lh.n 0 lh.block b,
  find_from_before lh.n 0 i lh.block b,
  find_from_before lh.n 0 j lh.block b,
)

-- Where the transaction fits and an operation is outstanding, `log_write` does not panic.
pub log_write_fits :
    (f : Fs) (b : ℕ)
    → f.log.lh.n < log_size
    → f.log.lh.n + 1 < f.log.size
    → 0 < f.log.outstanding
    → log_write f b
      ≡ ok (record {
        log = record (f.log) { lh = logged f.log.lh b };
        store = record (f.store) { dirty = at b true f.store.dirty };
      })
unfolding log_write
log_write_fits f b h k o = ground arith

-- Where the log on the disk is full, `log_write` panics.
pub log_write_full :
    (f : Fs) (b : ℕ) → f.log.size ≤ f.log.lh.n + 1 → log_write f b ≡ panic "too big a transaction"
unfolding log_write
log_write_full f b h = ground arith

-- A `log_write` that returns has done just that.
pub log_write_ok :
    (f g : Fs) (b : ℕ)
    → log_write f b ≡ ok g
    → (g ≡ record {
      log = record (f.log) { lh = logged f.log.lh b };
      store = record (f.store) { dirty = at b true f.store.dirty };
    })
      × (f.log.lh.n < log_size)
      × (0 < f.log.outstanding)
unfolding log_write
log_write_ok f g b h = ground arith

-- What `log_write` does to the size of the header: at most one entry more.
pub n-logged : (lh : LogHeader) (b : ℕ) → ((logged lh b).n ≤ lh.n + 1) × (lh.n ≤ (logged lh b).n)
n-logged lh b = ground arith

-- An entry after `log_write` is the block, or an entry that was there.
pub logged_entry :
    (lh : LogHeader) (b i : ℕ)
    → i < (logged lh b).n
    → ((logged lh b).block i ≡ b) ⊎ ((i < lh.n) × ((logged lh b).block i ≡ lh.block i))
logged_entry lh b i h = elim (Bool-cases (find_from lh.n 0 lh.block b == i)) [
  | inl e ↦ inl (ground arith)
  | inr e ↦ inr (ground (arith, find_from_bounds lh.n 0 lh.block b))
]
