-- ===== src/Dir/Linking.antt =====
-- fs.c: `dirlink` as a whole.
use osass.Base.{List, ℕ, zero, suc, ◌+◌, ◌*◌, ◌%◌, ◌^◌, ◌<◌, ◌≡◌, Bool, ◌⊎◌, Outcome, ok, panic}
use osass.Base.Int.{ℤ, pos, negsuc}
use osass.Str.Compare.{text}
use osass.Image.{bsize, Image}
use osass.Image.Alloc.{free_count}
use osass.Inode.{maxfile}
use osass.Inode.Slots.{places, missing}
use osass.Inode.Size.{InTable}
use osass.Icache.{Icache, ninode, Run, done, asleep}
use osass.Path.{dirsiz}
use osass.Dir.{de_size, Place}
use osass.Dir.Entries.{IsDir, Reads}
use osass.Dir.Lookup.{IsNamed, NameApart}
use osass.Dir.Added.{Linked}

-- The directory has an entry in use with the name.
abbrev pub HasName : List ℕ → Place → Type 0
HasName name p = (off : ℕ) × (off < p.dp.size) × (off % de_size ≡ 0) × IsNamed name off p

-- How `dirlink` ends. An entry for a name that is there is given back to the cache, which may sleep.
abbrev pub LinkEnds : ℕ → List ℕ → ℕ → Icache → Place → Outcome (Run (ℤ × Icache × Place)) → Type 0
LinkEnds de name inum c p (panic text) =
    (free_count p.img p.img.sb.size < missing p.dp p.img places)
    ⊎ ((maxfile * bsize < p.dp.size + de_size)
        ⊎ (((k : ℕ) → k < ninode → 0 < (c.slot k).ref) ⊎ HasName name p))
LinkEnds de name inum c p (ok (asleep d)) = HasName name p
LinkEnds de name inum c p (ok (done (pos zero, d, q))) =
    ¬ HasName name p × (d ≡ c) × (off : ℕ) × Linked name inum off p q
LinkEnds de name inum c p (ok (done (pos (suc n), d, q))) = ⊥
LinkEnds de name inum c p (ok (done (negsuc n, d, q))) =
    HasName name p × (n ≡ 0) × (j : Image) × Reads de p (record q { img = j })

module _ (me : ℕ) (devices : ℕ → Bool) (de name inum : ℕ) (c : Icache) (p : Place) (d : IsDir p)
    (a : NameApart name de) (t : InTable p.dp.inum p.img) (l : inum < 2 ^ 16)
    (b : (x : ℕ) → p.mem x < 256) where
  abbrev wanted : List ℕ
  wanted = text p.mem name dirsiz
