-- ===== src/Image/Update.antt =====
-- fs.c: a change of a block of data, or of inodes, leaves the free map and the super block.
use osass.Base.{
  ℕ, ◌%◌, ◌^◌, ◌≤◌, ◌<◌, ◌≡◌, ◌≢◌, refl, ap, subst, ◌∙◌, ne→==_false, inr, ◌⊎◌, arith, Memory,
}
use osass.Base.Words.{get32_bound}
use osass.Image.{bpb, Image, bblock, update_block, readsb, bit_set}
use osass.Image.Map.{in_use, data_start, IsImage}
use osass.Image.Alloc.{readsb_same, free_count, free_count_same}

-- Neither the super block nor a block of the free map.
abbrev pub Clear : Image → ℕ → Type 0
Clear img b = (b ≢ 1) × ((b < img.sb.bmapstart) ⊎ (data_start img.sb ≤ b))

pub data-Clear : (img : Image) (b : ℕ) → IsImage img → data_start img.sb ≤ b → Clear img b
data-Clear img b v d = (ground (arith, v.after_super), inr d)

module _ (img : Image) (v : IsImage img) (b : ℕ) (m : Memory) where
  abbrev changed : Image
  changed = update_block b m img

  block_at : (c : ℕ) → b ≢ c → changed.block c ≡ img.block c
  block_at c n = rw (ne→==_false b c n) refl

  pub update-in_use : Clear img b → (x : ℕ) → x ≤ img.sb.size → in_use changed x ≡ in_use img x
  unfolding in_use
  update-in_use d x l =
      ap (λ m. bit_set m (x % bpb)) (block_at (bblock x img.sb) (ground (arith, d)))

  pub update-free_count : Clear img b → free_count changed img.sb.size ≡ free_count img img.sb.size
  update-free_count d =
      free_count_same img changed img.sb.size (λ x l. update-in_use d x (omega arith))

  pub update-IsImage : Clear img b → ((i : ℕ) → m i < 256) → IsImage changed
  update-IsImage d h = record {
    super = readsb_same img changed (block_at 1 d.0) ∙ v.super;
    after_super = v.after_super;
    fits = v.fits;
    bytes = λ c i. ground (arith, h i, v.bytes c i);
    reserved = λ c q. update-in_use d c (omega (arith, v.fits)) ∙ v.reserved c q;
  }

pub size_bound : (img : Image) → IsImage img → img.sb.size < 2 ^ 32
unfolding readsb
size_bound img v = subst (λ s. s.size < 2 ^ 32) v.super (get32_bound (img.block 1) 0 (v.bytes 1))
