-- ===== src/Icache/Tests.antt =====
-- Runs of the inode cache.
use osass.Base.{◌≡◌, refl, false, ◌==◌, if◌then◌else◌, arith, ok}
use osass.Image.{Image}
use osass.Image.Sample.{sample}
use osass.Inode.Sample.{sample_inode, sample-HasBlocks}
use osass.Icache.{Icache, done, iget, iput}
use osass.Icache.Get.{IsCache, IgetEnds, iget-IgetEnds}
use osass.Icache.Put.{Released, iput-Released}

-- Entry 0 is for inode 3, and the others are free.
abbrev cache : Icache
cache = record {
  lk = false;
  slot = λ k. record {
    ref = if k == 0 then 1 else 0;
    lock = record { lk = false; locked = false; pid = 0 };
    inode = sample_inode 2;
  };
}

cache-IsCache : IsCache cache
cache-IsCache = record { unlocked = refl; one = λ i k l m p q e f. ground (arith, p, q) }

iget-IgetEnds_example : IgetEnds 1 7 cache (iget 1 7 cache)
iget-IgetEnds_example = iget-IgetEnds 1 7 cache cache-IsCache

-- The last reference to an inode with no links.
iput-Released_example :
    (d : Icache) × (j : Image) × (iput 4 0 cache sample ≡ ok (done (d, j)))
    × Released 0 cache sample d j
iput-Released_example =
    iput-Released 4 0 cache sample refl refl refl (sample-HasBlocks 2) (omega arith, omega arith)
