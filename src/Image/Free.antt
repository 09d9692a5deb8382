-- ===== src/Image/Free.antt =====
-- fs.c: `bfree` gives a block back.
use osass.Base.{
  ℕ, suc, ◌/◌, ◌%◌, ◌≤◌, ◌<◌, ◌≡◌, refl, sym, ap, subst, ◌∙◌, true, false, not, ◌&&◌, ◌==◌, ==→eq,
  ne→==_false, Bool-cases, inl, inr, arith, Outcome, ok, panic,
}
use osass.Image.{bpb, Image, bblock, update_block, bit_set, clear_bit, clear_mark, bfree}
use osass.Image.Bits.{bit_set-clear_bit, clear_bit_bytes}
use osass.Image.Map.{in_use, data_start, IsImage}
use osass.Image.Alloc.{readsb_same, readsb-super, free_count, free_count_take}

-- `j` is `img` with the block `a` given back.
pub record Gave (a : ℕ) (img j : Image) : Type 0 where
  pub sb_same : j.sb ≡ img.sb
  pub marked : (x : ℕ) → x < img.sb.size → in_use j x ≡ (not (a == x) && in_use img x)
  pub frame : (b : ℕ) → data_start img.sb ≤ b → j.block b ≡ img.block b
  pub valid : IsImage j
  pub count : free_count j j.sb.size ≡ suc (free_count img img.sb.size)

module _ (img : Image) (v : IsImage img) (a : ℕ) (l : a < img.sb.size)
    (d : data_start img.sb ≤ a) where
  abbrev map_block : ℕ
  map_block = bblock a img.sb

  abbrev after : Image
  after = update_block map_block (clear_bit (img.block map_block) (a % bpb)) img

  after_in_use : (x : ℕ) → x < img.sb.size → in_use after x ≡ (not (a == x) && in_use img x)
  unfolding in_use
  after_in_use x k =
      let b = bblock x img.sb in
      elim (Bool-cases (map_block == b)) [
        | inl e ↦
            let here : after.block b ≡ clear_bit (img.block map_block) (a % bpb) = rw e refl in
            let old : img.block map_block ≡ img.block b = ap img.block (==→eq _ _ e) in
            let t : (a % bpb == x % bpb) ≡ (a == x) = ground (arith, e) in
            ap (λ m. bit_set m (x % bpb)) here
            ∙ bit_set-clear_bit (img.block map_block) (a % bpb) (x % bpb)
                (v.bytes map_block (a % bpb / 8))
            ∙ rw (old, t) refl
        | inr e ↦
            let here : after.block b ≡ img.block b = rw e refl in
            let t : (a == x) ≡ false = ground (arith, e) in
            ap (λ m. bit_set m (x % bpb)) here ∙ rw t refl
      ]

  after_bytes : (b i : ℕ) → after.block b i < 256
  after_bytes b i =
      ground
        (arith, v.bytes b i, clear_bit_bytes (img.block map_block) (a % bpb) i (v.bytes map_block))

  after-IsImage : IsImage after
  after-IsImage = record {
    super =
        readsb_same img after (rw (ne→==_false map_block 1 (omega (arith, v.after_super))) refl)
        ∙ v.super;
    after_super = v.after_super;
    fits = v.fits;
    bytes = after_bytes;
    reserved = λ b q. ground (arith, after_in_use b (omega (arith, q, v.fits)), v.reserved b q, d);
  }

  after-Gave : in_use img a ≡ true → Gave a img after
  after-Gave u = record {
    sb_same = refl;
    marked = after_in_use;
    frame = λ b p. rw (ne→==_false map_block b (omega (arith, l, p))) refl;
    valid = after-IsImage;
    count =
        free_count_take after img img.sb.size a l (ground (arith, after_in_use a l))
          (λ x k. ground (arith, u, after_in_use x k));
  }

-- How `bfree` of the block `a` ends: it panics exactly when the block is free.
abbrev pub BfreeEnds : ℕ → Image → Outcome Image → Type 0
BfreeEnds a img (panic text) = in_use img a ≡ false
BfreeEnds a img (ok j) = (in_use img a ≡ true) × Gave a img j

-- `bfree` of a block of data panics exactly when the block is free. Otherwise it becomes free, no other
-- mark and no block of data changes, and one more block is free.
pub bfree-Gave :
    (img : Image) (a : ℕ)
    → IsImage img
    → a < img.sb.size
    → data_start img.sb ≤ a
    → BfreeEnds a img (bfree a img)
unfolding bfree clear_mark in_use
bfree-Gave img a v l d =
    let same : bfree a img ≡ clear_mark a img = ap (clear_mark a) (readsb-super img v) in
    elim (Bool-cases (bit_set (img.block (bblock a img.sb)) (a % bpb))) [
      | inl e ↦
          let there : clear_mark a img ≡ ok (after img v a l d) = rw e refl in
          subst (BfreeEnds a img) (sym (same ∙ there)) (e, after-Gave img v a l d e)
      | inr e ↦
          let there : clear_mark a img ≡ panic "freeing free block" = rw e refl in
          subst (BfreeEnds a img) (sym (same ∙ there)) e
    ]
