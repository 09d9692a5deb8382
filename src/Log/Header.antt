-- ===== src/Log/Header.antt =====
-- log.c: the header block, as `write_head` lays it out and `read_head` reads it back.
use osass.Base.{ℕ, zero, suc, ◌+◌, ◌*◌, ◌^◌, ◌≤◌, ◌<◌, ◌≡◌, ◌∙◌, inl, refl, arith}
use osass.Base.Words.{get32, put32, get32-put32_self, get32-put32_apart}
use osass.Log.{log_size, LogHeader, Fs, read_entries, read_head, write_entries, write_head}
use osass.Log.Blocks.{Block, at, content, bread, bwrite}

-- The header block that `write_head` makes of the block `b`.
abbrev pub encode : ℕ → (ℕ → ℕ) → Block → Block
encode n block b = write_entries n 0 block (put32 b 0 n)

write_entries_below :
    (r i : ℕ) (block : ℕ → ℕ) (b : Block) (p : ℕ)
    → p ≤ 4 * i
    → get32 (write_entries r i block b) p ≡ get32 b p
unfolding write_entries
write_entries_below zero i block b p h = refl
write_entries_below (suc r) i block b p h =
    write_entries_below r (i + 1) block (put32 b (4 * i + 4) (block i)) p (omega arith)
    ∙ get32-put32_apart b (4 * i + 4) p (block i) (inl (omega arith))

write_entries_hit :
    (r i j : ℕ) (block : ℕ → ℕ) (b : Block)
    → i ≤ j
    → j < i + r
    → block j < 2 ^ 32
    → get32 (write_entries r i block b) (4 * j + 4) ≡ block j
unfolding write_entries
write_entries_hit zero i j block b h k l = absurd (omega arith)
write_entries_hit (suc r) i j block b h k l = ground (
  arith,
  write_entries_hit r (i + 1) j block (put32 b (4 * i + 4) (block i)),
  write_entries_below r (i + 1) block (put32 b (4 * i + 4) (block i)) (4 * j + 4),
  get32-put32_self b (4 * i + 4) (block i),
)

pub get32-encode_count :
    (n : ℕ) (block : ℕ → ℕ) (b : Block) → n < 2 ^ 32 → get32 (encode n block b) 0 ≡ n
get32-encode_count n block b h =
    write_entries_below n 0 block (put32 b 0 n) 0 (omega arith) ∙ get32-put32_self b 0 n h

pub get32-encode_entry :
    (n j : ℕ) (block : ℕ → ℕ) (b : Block)
    → j < n
    → block j < 2 ^ 32
    → get32 (encode n block b) (4 * j + 4) ≡ block j
get32-encode_entry n j block b h l =
    write_entries_hit n 0 j block (put32 b 0 n) (omega arith) (omega arith) l

read_entries_below :
    (r i j : ℕ) (b : Block) (block : ℕ → ℕ) → j < i → read_entries r i b block j ≡ block j
unfolding read_entries
read_entries_below zero i j b block h = refl
read_entries_below (suc r) i j b block h =
    ground (arith, read_entries_below r (i + 1) j b (at i (get32 b (4 * i + 4)) block))

pub read_entries_lem :
    (r i j : ℕ) (b : Block) (block : ℕ → ℕ)
    → i ≤ j
    → j < i + r
    → read_entries r i b block j ≡ get32 b (4 * j + 4)
unfolding read_entries
read_entries_lem zero i j b block h k = absurd (omega arith)
read_entries_lem (suc r) i j b block h k = ground (
  arith,
  read_entries_lem r (i + 1) j b (at i (get32 b (4 * i + 4)) block),
  read_entries_below r (i + 1) j b (at i (get32 b (4 * i + 4)) block),
)

-- Every block number in use fits an `int`.
pub record Fits (lh : LogHeader) : Type 0 where
  pub count : lh.n ≤ log_size
  pub entries : (j : ℕ) → j < lh.n → lh.block j < 2 ^ 32

-- `read_head` after `write_head`, whatever the memory of the log held in between: the same count,
-- and the same block number at each index `j` in use.
pub read_head-write_head :
    (f : Fs) (other : LogHeader) (j : ℕ)
    → Fits f.log.lh
    → j < f.log.lh.n
    → let g = read_head (record (write_head f) { log = record (f.log) { lh = other } }) in
      (g.log.lh.n ≡ f.log.lh.n) × (g.log.lh.block j ≡ f.log.lh.block j)
unfolding read_head write_head bwrite content bread
read_head-write_head f other j v h = ground (
  arith,
  get32-encode_count f.log.lh.n f.log.lh.block (content f.store f.log.start)
      (omega (arith, v.count)),
  get32-encode_entry f.log.lh.n j f.log.lh.block (content f.store f.log.start) h (v.entries j h),
  read_entries_lem f.log.lh.n 0 j (encode f.log.lh.n f.log.lh.block (content f.store f.log.start))
      other.block,
)
