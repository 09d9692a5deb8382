-- ===== src/Inode/Sample.antt =====
-- An inode with one block for the tests.
use osass.Base.{ℕ, ◌≡◌, ◌≢◌, refl, ap, ◌∙◌, true, ◌==◌, if◌then◌else◌, arith}
use osass.Image.{bit_set}
use osass.Image.Map.{in_use}
use osass.Image.Sample.{sample, sample-IsImage}
use osass.Inode.{Inode}
use osass.Inode.Slots.{place, HasBlocks}

abbrev pub sample_addrs : ℕ → ℕ
sample_addrs k = if k == 0 then 4 else 0

abbrev pub sample_inode : ℕ → Inode
sample_inode type = record {
  dev = 1;
  inum = 3;
  valid = true;
  type = type;
  major = 0;
  minor = 0;
  nlink = 0;
  size = 32;
  addrs = sample_addrs;
}

place_four :
    (type k : ℕ)
    → place (sample_inode type) sample k ≢ 0
    → (place (sample_inode type) sample k ≡ 4) × (k ≡ 0)
unfolding place
place_four type k n = ground (arith, n)

four_in_use : in_use sample 4 ≡ true
unfolding in_use bit_set
four_in_use = refl

pub sample-HasBlocks : (type : ℕ) → HasBlocks (sample_inode type) sample
sample-HasBlocks type = record {
  valid = sample-IsImage;
  data_block = λ k l n. omega (arith, place_four type k n);
  on_disk = λ k l n. omega (arith, place_four type k n);
  taken = λ k l n. ap (in_use sample) (place_four type k n).0 ∙ four_in_use;
  apart = λ k i l m n e. omega (arith, place_four type k n, place_four type i (λ z. n (e ∙ z)));
}
