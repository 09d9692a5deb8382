-- ===== src/Dir/Tests.antt =====
-- Runs of `dirlookup` and `dirlink`.
use osass.Base.{refl, false, ◌==◌, if◌then◌else◌, inl, arith, Memory}
use osass.Image.Sample.{sample}
use osass.Inode.Sample.{sample_inode, sample-HasBlocks}
use osass.Icache.{Icache}
use osass.Icache.Get.{IsCache}
use osass.Str.Compare.{text}
use osass.Dir.{Place, dirlookup}
use osass.Dir.Entries.{IsDir}
use osass.Dir.Find.{FindEnds, dirlookup-FindEnds}

abbrev cache : Icache
cache = record {
  lk = false;
  slot = λ k. record {
    ref = 0;
    lock = record { lk = false; locked = false; pid = 0 };
    inode = sample_inode 2;
  };
}

cache-IsCache : IsCache cache
cache-IsCache = record { unlocked = refl; one = λ i k l m p q e f. absurd (omega arith) }

-- The name "ab" at 0.
abbrev names : Memory
names x = if x == 0 then 97 else if x == 1 then 98 else 0

abbrev dir : Place
dir = record { mem = names; dp = sample_inode 1; img = sample }

dir-IsDir : IsDir dir
dir-IsDir = record {
  has = sample-HasBlocks 1;
  type_dir = refl;
  whole = refl;
  in_file = omega arith;
}

dirlookup-FindEnds_example :
    FindEnds 100 (text names 0 14) cache dir (dirlookup (λ d. false) 100 0 cache dir)
dirlookup-FindEnds_example =
    dirlookup-FindEnds (λ d. false) 100 0 cache dir dir-IsDir (inl (omega arith)) cache-IsCache
