-- ===== src/Image/Sample.antt =====
-- A disk of 20 blocks for the tests: its map is block 3, and block 4 is in use.
use osass.Base.{[], ℕ, zero, suc, ◌<◌, ◌≡◌, refl, true, ◌==◌, if◌then◌else◌, arith}
use osass.Base.Words.{get32}
use osass.Image.{Super, Image, readsb, bit_set}
use osass.Image.Map.{in_use, IsImage}

abbrev pub sample_sb : Super
sample_sb = record {
  size = 20;
  nblocks = 16;
  ninodes = 8;
  nlog = 0;
  logstart = 2;
  inodestart = 2;
  bmapstart = 3;
}

abbrev pub super_byte : ℕ → ℕ
super_byte i =
    if i == 0
    then 20
    else if i == 4
    then 16
    else if i == 8
    then 8
    else if i == 16
    then 2
    else if i == 20
    then 2
    else if i == 24
    then 3
    else 0

-- Block 4 starts with a directory entry "ab" of inode 5.
abbrev pub entry_byte : ℕ → ℕ
entry_byte i = if i == 0 then 5 else if i == 2 then 97 else if i == 3 then 98 else 0

abbrev pub sample : Image
sample = record {
  sb = sample_sb;
  block = λ b i.
      if b == 1
      then super_byte i
      else if b == 3
      then (if i == 0 then 31 else 0)
      else if b == 4
      then entry_byte i
      else 0;
  logged = [];
}

reserved : (b : ℕ) → b < 4 → in_use sample b ≡ true
unfolding in_use bit_set
reserved zero h = refl
reserved (suc zero) h = refl
reserved (suc (suc zero)) h = refl
reserved (suc (suc (suc zero))) h = refl
reserved (suc (suc (suc (suc b)))) h = absurd (omega arith)

pub sample-IsImage : IsImage sample
unfolding readsb get32
sample-IsImage = record {
  super = refl;
  after_super = omega arith;
  fits = omega arith;
  bytes = λ b i. ground arith;
  reserved = λ b l. reserved b (omega arith);
}
