-- ===== src/Image/Map.antt =====
-- fs.c: the free map as a set of blocks in use, and what the loops of `balloc` find.
use osass.Base.{
  ℕ, zero, suc, ◌+◌, ◌-◌, ◌*◌, ◌/◌, ◌%◌, ◌≤◌, ◌<◌, ◌≡◌, sym, ap, subst, ◌∙◌, Bool, true, false, ltb,
  Bool-cases, Option-cases, inl, inr, arith, Memory, min, Option, none, some,
}
use osass.Image.{bpb, Super, Image, bblock, readsb, bit_set, free_bit, free_block}

-- Whether the free map marks the block.
unfoldable pub in_use : Image → ℕ → Bool
in_use img b = bit_set (img.block (bblock b img.sb)) (b % bpb)

-- The first block behind the free map.
abbrev pub data_start : Super → ℕ
data_start sb = sb.bmapstart + sb.size / bpb + 1

-- Buffers hold bytes, the super block is the one on the disk, and what lies before the data is in use.
pub record IsImage (img : Image) : Type 0 where
  pub super : readsb img ≡ img.sb
  pub after_super : 1 < img.sb.bmapstart
  pub fits : data_start img.sb ≤ img.sb.size
  pub bytes : (b i : ℕ) → img.block b i < 256
  pub reserved : (b : ℕ) → b < data_start img.sb → in_use img b ≡ true

-- How the search ends: with a block that is free, or when all are in use.
abbrev pub FreeEnds : Image → ℕ → Option ℕ → Type 0
FreeEnds img from none = (b : ℕ) → from ≤ b → b < img.sb.size → in_use img b ≡ true
FreeEnds img from (some a) = (a < img.sb.size) × (in_use img a ≡ false)

abbrev BitEnds : Memory → ℕ → ℕ → Option ℕ → Type 0
BitEnds m r i none = (k : ℕ) → i ≤ k → k < i + r → bit_set m k ≡ true
BitEnds m r i (some k) = (i ≤ k) × (k < i + r) × (bit_set m k ≡ false)

BitEnds-next :
    (m : Memory) (r i : ℕ) (o : Option ℕ)
    → bit_set m i ≡ true
    → BitEnds m r (i + 1) o
    → BitEnds m (suc r) i o
BitEnds-next m r i none e h = λ k a b. ground (arith, e, h k)
BitEnds-next m r i (some k) e (a, b, c) = (omega arith, omega arith, c)

free_bit-BitEnds : (m : Memory) (r i : ℕ) → BitEnds m r i (free_bit m r i)
unfolding free_bit
free_bit-BitEnds m zero i = λ k a b. absurd (omega arith)
free_bit-BitEnds m (suc r) i = elim (Bool-cases (bit_set m i)) [
  | inl e ↦ rw e (BitEnds-next m r i (free_bit m r (i + 1)) e (free_bit-BitEnds m r (i + 1)))
  | inr e ↦ rw e (omega arith, omega arith, e)
]

-- A block of the map covers the blocks from a multiple of its bits on.
in_use_at :
    (img : Image) (b k : ℕ)
    → b % bpb ≡ 0
    → k < bpb
    → in_use img (b + k) ≡ bit_set (img.block (bblock b img.sb)) k
unfolding in_use
in_use_at img b k e h =
    let same : bblock (b + k) img.sb ≡ bblock b img.sb = omega arith in
    let place : (b + k) % bpb ≡ k = omega arith in
    ap (λ x. bit_set (img.block x) ((b + k) % bpb)) same
    ∙ ap (bit_set (img.block (bblock b img.sb))) place

FreeEnds-join :
    (img : Image) (b : ℕ) (o : Option ℕ)
    → ((k : ℕ) → k < bpb → b + k < img.sb.size → in_use img (b + k) ≡ true)
    → FreeEnds img (b + bpb) o
    → FreeEnds img b o
FreeEnds-join img b none h g = λ x p q. elim (Bool-cases (ltb x (b + bpb))) [
  | inl e ↦
      let y : b + (x - b) ≡ x = omega arith in
      sym (ap (in_use img) y) ∙ h (x - b) (ground (arith, e)) (omega arith)
  | inr e ↦ g x (ground (arith, e)) q
]
FreeEnds-join img b (some a) h g = g

free_block-FreeEnds :
    (img : Image) (rounds b : ℕ)
    → b % bpb ≡ 0
    → img.sb.size < b + rounds * bpb
    → FreeEnds img b (free_block img rounds b)
unfolding free_block
free_block-FreeEnds img zero b e h = λ x p q. absurd (omega arith)
free_block-FreeEnds img (suc rounds) b e h = elim (Bool-cases (ltb b img.sb.size)) [
  | inr f ↦ rw f (λ x p q. absurd (ground (arith, f)))
  | inl f ↦
      let m = img.block (bblock b img.sb) in
      let r = min bpb (img.sb.size - b) in
      elim (Option-cases (free_bit m r 0)) [
        | inr (k, g) ↦
            let (_, in_range, free) = subst (BitEnds m r 0) g (free_bit-BitEnds m r 0) in
            rw (f, g, free_block)
              (ground (arith, f, in_range), in_use_at img b k e (omega arith) ∙ free)
        | inl g ↦
            let full = subst (BitEnds m r 0) g (free_bit-BitEnds m r 0) in
            let more = free_block-FreeEnds img rounds (b + bpb) (omega arith) (omega arith) in
            rw (f, g, free_block)
              (FreeEnds-join img b (free_block img rounds (b + bpb))
                (λ k p q. in_use_at img b k e p ∙ full k (omega arith) (omega arith)) more)
      ]
]

pub free_block_lem : (img : Image) → FreeEnds img 0 (free_block img (img.sb.size / bpb + 1) 0)
free_block_lem img = free_block-FreeEnds img (img.sb.size / bpb + 1) 0 (omega arith) (omega arith)
