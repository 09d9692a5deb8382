-- ===== src/Log/Blocks.antt =====
-- bio.c and ide.c as log.c uses them, on the one device of the file system: blocks that are cached,
-- and the disk below. `past` is every earlier state of the disk, the last one first: what a power
-- failure may leave. The disk writes one block at a time, whole.
use osass.Base.{
  ℕ, ◌≡◌, refl, arith, Bool, false, ◌==◌, if◌then◌else◌, Option, none, some, List, [], ◌∷◌, Memory,
}

abbrev pub Block : Type 0
Block = Memory

abbrev pub Disk : Type 0
Disk = ℕ → Block

pub record Store : Type 0 where
  pub cache : ℕ → Option Block
  pub dirty : ℕ → Bool
  pub disk : Disk
  pub past : List Disk

abbrev pub at {ℓ} : {A : Type ℓ} → ℕ → A → (ℕ → A) → ℕ → A
at b v f x = if b == x then v else f x

abbrev pub cached : Option Block → Block → Block
cached none d = d
cached (some v) d = v

-- What a read of block `b` gives.
unfoldable pub content : Store → ℕ → Block
content s b = cached (s.cache b) (s.disk b)

-- A block that is not cached is read from the disk.
unfoldable pub bread : Store → ℕ → Block × Store
unfolding content
bread s b = (content s b, record s { cache = at b (some (content s b)) s.cache })

-- `bwrite` of the buffer of block `b`, whose data is now `v`: the disk has it, and B_DIRTY is clear.
unfoldable pub bwrite : Store → ℕ → Block → Store
bwrite s b v = record {
  cache = at b (some v) s.cache;
  dirty = at b false s.dirty;
  disk = at b v s.disk;
  past = s.disk ∷ s.past;
}

-- The store after a power failure that left the disk `d`.
unfoldable pub boot : Disk → Store
boot d = record { cache = λ _. none; dirty = λ _. false; disk = d; past = [] }

pub content-bread : (s : Store) (b x : ℕ) → content (bread s b).1 x ≡ content s x
unfolding content bread
content-bread s b x = ground arith

pub content-bwrite :
    (s : Store) (b x : ℕ) (v : Block)
    → content (bwrite s b v) x ≡ (if b == x then v else content s x)
unfolding content bwrite
content-bwrite s b x v = ground arith

pub disk-bread : (s : Store) (b : ℕ) → (bread s b).1.disk ≡ s.disk
unfolding bread
disk-bread s b = refl

pub past-bread : (s : Store) (b : ℕ) → (bread s b).1.past ≡ s.past
unfolding bread
past-bread s b = refl
