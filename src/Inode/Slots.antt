-- ===== src/Inode/Slots.antt =====
-- fs.c: the 141 places of an inode that name blocks, and the bytes that it holds. Place `k` below 13 is
-- `addrs[k]`, place 13 + k is entry `k` of the indirect block.
use osass.Base.{
  ℕ, zero, suc, ◌+◌, ◌-◌, ◌*◌, ◌/◌, ◌%◌, ◌≤◌, ◌<◌, ◌≡◌, ◌≢◌, refl, true, ◌==◌, ltb, if◌then◌else◌,
  ne→==_false, arith,
}
use osass.Base.Words.{get32}
use osass.Image.{bsize, Image}
use osass.Image.Map.{in_use, data_start, IsImage}
use osass.Inode.{Inode, ndirect}

-- How many places there are.
abbrev pub places : ℕ
places = 141

unfoldable pub place : Inode → Image → ℕ → ℕ
place ip img k =
    if ltb k 13
    then ip.addrs k
    else if ip.addrs ndirect == 0
    then 0
    else get32 (img.block (ip.addrs ndirect)) (4 * (k - 13))

pub place_low : (ip : Inode) (img : Image) (k : ℕ) → k < 13 → place ip img k ≡ ip.addrs k
unfolding place
place_low ip img k h = ground arith

pub place_none :
    (ip : Inode) (img : Image) (k : ℕ) → 13 ≤ k → ip.addrs ndirect ≡ 0 → place ip img k ≡ 0
unfolding place
place_none ip img k h e = ground arith

pub place_high :
    (ip : Inode) (img : Image) (k : ℕ)
    → 13 ≤ k
    → ip.addrs ndirect ≢ 0
    → place ip img k ≡ get32 (img.block (ip.addrs ndirect)) (4 * (k - 13))
unfolding place
place_high ip img k h e = ground arith

-- The place of block `bn` of the file.
abbrev pub place_of : ℕ → ℕ
place_of bn = if ltb bn ndirect then bn else bn + 1

-- Byte `o` of the file; where it has no block, 0.
unfoldable pub byte_at : Inode → Image → ℕ → ℕ
unfolding place
byte_at ip img o =
    let b = place ip img (place_of (o / bsize)) in if b == 0 then 0 else img.block b (o % bsize)

pub byte_at_mapped :
    (ip : Inode) (img : Image) (o b : ℕ)
    → place ip img (place_of (o / bsize)) ≡ b
    → b ≢ 0
    → byte_at ip img o ≡ img.block b (o % bsize)
unfolding byte_at
byte_at_mapped ip img o b e n = rw (e, ne→==_false b 0 n) refl

-- How many of the first `n` places have no block.
unfoldable pub missing : Inode → Image → ℕ → ℕ
unfolding place
missing ip img zero = 0
missing ip img (suc n) = (if place ip img n == 0 then 1 else 0) + missing ip img n

-- The blocks of the inode are data blocks in use, and no two places share one.
pub record HasBlocks (ip : Inode) (img : Image) : Type 0 where
  pub valid : IsImage img
  pub data_block : (k : ℕ) → k < places → place ip img k ≢ 0 → data_start img.sb ≤ place ip img k
  pub on_disk : (k : ℕ) → k < places → place ip img k ≢ 0 → place ip img k < img.sb.size
  pub taken : (k : ℕ) → k < places → place ip img k ≢ 0 → in_use img (place ip img k) ≡ true
  pub apart :
      (k l : ℕ)
      → k < places
      → l < places
      → place ip img k ≢ 0
      → place ip img k ≡ place ip img l
      → k ≡ l
