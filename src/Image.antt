-- ===== src/Image.antt =====
-- fs.c: the blocks of the file system as the buffer cache shows them inside of a transaction, and the
-- free map. `logged` is every block that was handed to `log_write`, the last one first. Block numbers
-- and sizes are far below 2 ^ 32, and do not wrap.
pub mod Bits
pub mod Map
pub mod Alloc
pub mod Free
pub mod Update
pub mod Sample
mod Tests
use Prim.Native.Nat.{bit_and, bit_or}
use osass.Base.{
  ℕ, zero, suc, ◌+◌, ◌-◌, ◌*◌, ◌/◌, ◌%◌, ◌^◌, ◌≤◌, ◌<◌, Bool, true, false, not, ◌==◌, ltb,
  if◌then◌else◌, Option, none, some, List, [], ◌∷◌, Memory, write, min, Outcome, ok, panic,
  panic_if, ◌>>=◌, ◌>>◌,
}
use osass.Base.Words.{get32}
use osass.Log.Blocks.{at}
use osass.Str.{memset}

-- BSIZE
abbrev pub bsize : ℕ
bsize = 512

-- BPB
abbrev pub bpb : ℕ
bpb = 4096

-- `struct superblock`
pub record Super : Type 0 where
  pub size : ℕ
  pub nblocks : ℕ
  pub ninodes : ℕ
  pub nlog : ℕ
  pub logstart : ℕ
  pub inodestart : ℕ
  pub bmapstart : ℕ

-- `sb`, and the blocks of the one device.
pub record Image : Type 0 where
  pub sb : Super
  pub block : ℕ → Memory
  pub logged : List ℕ

-- BBLOCK
abbrev pub bblock : ℕ → Super → ℕ
bblock b sb = b / bpb + sb.bmapstart

-- `bread`, a change of the buffer's data, `log_write` and `brelse`.
abbrev pub update_block : ℕ → Memory → Image → Image
update_block b m img = record img { block = at b m img.block; logged = b ∷ img.logged }

-- `readsb`
unfoldable pub readsb : Image → Super
readsb img =
    let m = img.block 1 in
    record {
      size = get32 m 0;
      nblocks = get32 m 4;
      ninodes = get32 m 8;
      nlog = get32 m 12;
      logstart = get32 m 16;
      inodestart = get32 m 20;
      bmapstart = get32 m 24;
    }

pub bzero : ℕ → Image → Image
bzero bno img = update_block bno (memset (img.block bno) 0 0 bsize) img

-- `(data[bi/8] & m) != 0`
unfoldable pub bit_set : Memory → ℕ → Bool
bit_set m bi = not (bit_and (m (bi / 8)) (2 ^ (bi % 8)) == 0)

-- `data[bi/8] |= m`
pub set_bit : Memory → ℕ → Memory
set_bit m bi = write m (bi / 8) (bit_or (m (bi / 8)) (2 ^ (bi % 8)))

-- `data[bi/8] &= ~m`
pub clear_bit : Memory → ℕ → Memory
clear_bit m bi = write m (bi / 8) (bit_and (m (bi / 8)) (255 - 2 ^ (bi % 8)))

-- The inner loop of `balloc`, with `r` rounds to go: the index of a free bit.
pub free_bit : Memory → ℕ → ℕ → Option ℕ
free_bit m zero bi = none
free_bit m (suc r) bi =
    let more = free_bit m r (bi + 1) in if not (bit_set m bi) then some bi else more

-- The outer loop, with fuel: a free block.
pub free_block : Image → ℕ → ℕ → Option ℕ
free_block img zero b = none
free_block img (suc rounds) b =
    let rest = free_block img rounds (b + bpb) in
    if ltb b img.sb.size
    then elim (free_bit (img.block (bblock b img.sb)) (min bpb (img.sb.size - b)) 0) [
      | some bi ↦ some (b + bi)
      | none ↦ rest
    ]
    else none

-- What `balloc` does with the free block `a`.
pub take_block : ℕ → Image → Image
take_block a img =
    let m = img.block (bblock a img.sb) in
    bzero a (update_block (bblock a img.sb) (set_bit m (a % bpb)) img)

pub balloc : Image → Outcome (ℕ × Image)
balloc img = elim (free_block img (img.sb.size / bpb + 1) 0) [
  | none ↦ panic "balloc: out of blocks"
  | some a ↦ ok (a, take_block a img)
]

-- `bfree` after its `readsb`.
pub clear_mark : ℕ → Image → Outcome Image
clear_mark b img =
    let m = img.block (bblock b img.sb) in
    panic_if (not (bit_set m (b % bpb))) "freeing free block"
    >> ok (update_block (bblock b img.sb) (clear_bit m (b % bpb)) img)

pub bfree : ℕ → Image → Outcome Image
bfree b img = clear_mark b (record img { sb = readsb img })
