-- ===== src/Image/Alloc.antt =====
-- fs.c: `balloc` takes a free block and zeroes it, `bfree` gives one back.
use osass.Base.{
  ℕ, zero, suc, ◌+◌, ◌/◌, ◌%◌, ◌≤◌, ◌<◌, ◌≡◌, ◌≢◌, refl, sym, ap, subst, ◌∙◌, true, false, ◌||◌,
  ◌==◌, ltb, if◌then◌else◌, ==→eq, ne→==_false, Bool-cases, Option-cases, inl, inr, arith, Outcome,
  ok, panic,
}
use osass.Str.Move.{memset-filled}
use osass.Image.{
  bsize, bpb, Image, bblock, readsb, bzero, bit_set, set_bit, free_block, take_block, balloc,
}
use osass.Image.Bits.{bit_set-set_bit, set_bit_bytes}
use osass.Image.Map.{in_use, data_start, IsImage, FreeEnds, free_block_lem}

-- The super block does not change with another block.
pub readsb_same : (img j : Image) → j.block 1 ≡ img.block 1 → readsb j ≡ readsb img
unfolding readsb
readsb_same img j e = ap (λ m. readsb (record img { block = λ b. m })) e

-- How many of the first `n` blocks are free.
abbrev pub free_count : Image → ℕ → ℕ
free_count img zero = 0
free_count img (suc n) = (if in_use img n then 0 else 1) + free_count img n

pub free_count_same :
    (img j : Image) (n : ℕ)
    → ((x : ℕ) → x < n → in_use j x ≡ in_use img x)
    → free_count j n ≡ free_count img n
free_count_same img j zero h = refl
free_count_same img j (suc n) h =
    ground (arith, h n (omega arith), free_count_same img j n (λ x l. h x (omega arith)))

pub free_count_take :
    (img j : Image) (n a : ℕ)
    → a < n
    → in_use img a ≡ false
    → ((x : ℕ) → x < n → in_use j x ≡ ((a == x) || in_use img x))
    → free_count img n ≡ suc (free_count j n)
free_count_take img j zero a l f h = absurd (omega arith)
free_count_take img j (suc n) a l f h = elim (Bool-cases (a == n)) [
  | inl e ↦ ground (
    arith,
    e,
    f,
    h n (omega arith),
    free_count_same img j n (λ x k. ground (arith, e, h x (omega arith))),
  )
  | inr e ↦ ground (
    arith,
    e,
    h n (omega arith),
    free_count_take img j n a (ground (arith, e)) f (λ x k. h x (omega arith)),
  )
]

-- `j` is `img` with the block `a` taken, and zeroed.
pub record Took (a : ℕ) (img j : Image) : Type 0 where
  pub sb_same : j.sb ≡ img.sb
  pub marked : (x : ℕ) → x < img.sb.size → in_use j x ≡ ((a == x) || in_use img x)
  pub zeroed : (i : ℕ) → i < bsize → j.block a i ≡ 0
  pub frame : (b : ℕ) → data_start img.sb ≤ b → b ≢ a → j.block b ≡ img.block b
  pub below : (b : ℕ) → b < img.sb.bmapstart → j.block b ≡ img.block b
  pub valid : IsImage j

free_in_data : (img : Image) (a : ℕ) → IsImage img → in_use img a ≡ false → data_start img.sb ≤ a
free_in_data img a v f = ground (arith, v.reserved a, f)

module _ (img : Image) (v : IsImage img) (a : ℕ) (l : a < img.sb.size)
    (f : in_use img a ≡ false) where
  past_map : data_start img.sb ≤ a
  past_map = free_in_data img a v f

  abbrev map_block : ℕ
  map_block = bblock a img.sb

  abbrev after : Image
  after = take_block a img

  after_block :
      (b i : ℕ)
      → after.block b i ≡ (
          if a == b
          then if ltb i bsize then 0 else img.block a i
          else if map_block == b
          then set_bit (img.block map_block) (a % bpb) i
          else img.block b i)
  unfolding take_block bzero
  after_block b i = let p = past_map in ground (arith, memset-filled (img.block a) 0 0 bsize i)

  after_at :
      (b : ℕ)
      → a ≢ b
      → after.block b
        ≡ (if map_block == b then set_bit (img.block map_block) (a % bpb) else img.block b)
  unfolding take_block bzero
  after_at b n = rw (ne→==_false a b n) refl

  after_in_use : (x : ℕ) → x < img.sb.size → in_use after x ≡ ((a == x) || in_use img x)
  unfolding in_use take_block bzero
  after_in_use x k =
      let b = bblock x img.sb in
      elim (Bool-cases (map_block == b)) [
        | inl e ↦
            let here : after.block b ≡ set_bit (img.block map_block) (a % bpb) =
              after_at b (omega (arith, past_map)) ∙ rw e refl in
            let old : img.block map_block ≡ img.block b = ap img.block (==→eq _ _ e) in
            let t : (a % bpb == x % bpb) ≡ (a == x) = ground (arith, e) in
            ap (λ m. bit_set m (x % bpb)) here
            ∙ bit_set-set_bit (img.block map_block) (a % bpb) (x % bpb)
                (v.bytes map_block (a % bpb / 8))
            ∙ rw (old, t) refl
        | inr e ↦
            let here : after.block b ≡ img.block b =
              after_at b (omega (arith, past_map)) ∙ rw e refl in
            let t : (a == x) ≡ false = ground (arith, e) in
            ap (λ m. bit_set m (x % bpb)) here ∙ rw t refl
      ]

  after_bytes : (b i : ℕ) → after.block b i < 256
  after_bytes b i = ground (
    arith,
    after_block b i,
    v.bytes b i,
    v.bytes a i,
    set_bit_bytes (img.block map_block) (a % bpb) i (v.bytes map_block),
  )

  after-IsImage : IsImage after
  unfolding take_block bzero
  after-IsImage = record {
    super =
        readsb_same img after (
          after_at 1 (omega (arith, past_map, v.after_super))
          ∙ rw (ne→==_false map_block 1 (omega (arith, v.after_super))) refl)
        ∙ v.super;
    after_super = v.after_super;
    bytes = after_bytes;
    fits = v.fits;
    reserved = λ b q. ground (arith, after_in_use b (omega (arith, q, v.fits)), v.reserved b q);
  }

  pub take_block-Took : Took a img after
  unfolding take_block bzero
  take_block-Took = record {
    sb_same = refl;
    marked = after_in_use;
    zeroed = λ i k. ground (arith, after_block a i);
    frame =
        λ b p n. after_at b (λ e. n (sym e)) ∙ rw (ne→==_false map_block b (omega (arith, l))) refl;
    below = λ b p.
        after_at b (omega (arith, past_map, p))
        ∙ rw (ne→==_false map_block b (omega (arith, p))) refl;
    valid = after-IsImage;
  }

pub readsb-super : (img : Image) → IsImage img → record img { sb = readsb img } ≡ img
readsb-super img v = ap (λ s. record img { sb = s }) v.super

-- How `balloc` ends: it panics exactly when no block is free.
abbrev pub BallocEnds : Image → Outcome (ℕ × Image) → Type 0
BallocEnds img (panic text) = free_count img img.sb.size ≡ 0
BallocEnds img (ok (a, j)) =
    (a < img.sb.size)
    × (in_use img a ≡ false)
    × (data_start img.sb ≤ a)
    × Took a img j
    × (free_count img img.sb.size ≡ suc (free_count j j.sb.size))

all_used : (img : Image) (n : ℕ) → ((b : ℕ) → b < n → in_use img b ≡ true) → free_count img n ≡ 0
all_used img zero h = refl
all_used img (suc n) h =
    ground (arith, h n (omega arith), all_used img n (λ b l. h b (omega arith)))

-- `balloc` panics only when no block of the disk is free. Otherwise it returns a block behind the map
-- that was free, now marked and zeroed. No other mark changes, and no block of data but that one.
pub balloc-Took : (img : Image) → IsImage img → BallocEnds img (balloc img)
unfolding balloc take_block bzero
balloc-Took img v = elim (Option-cases (free_block img (img.sb.size / bpb + 1) 0)) [
  | inl e ↦
      rw (e, BallocEnds)
        (all_used img img.sb.size
          (λ b l. subst (FreeEnds img 0) e (free_block_lem img) b (omega arith) l))
  | inr (a, e) ↦
      let (l, f) = subst (FreeEnds img 0) e (free_block_lem img) in
      let t = take_block-Took img v a l f in
      rw (e, BallocEnds)
        (
          l,
          f,
          free_in_data img a v f,
          t,
          free_count_take img (take_block a img) img.sb.size a l f t.marked,
        )
]
