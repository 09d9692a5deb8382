-- ===== src/Dir/Find.antt =====
-- fs.c: what `dirlookup` returns.
use osass.Base.{
  List, ℕ, ◌+◌, ◌/◌, ◌%◌, ◌<◌, ◌≡◌, ◌≢◌, refl, sym, ap, ◌∙◌, Bool, true, eq→==, inl, inr, ◌⊎◌,
  arith, Option, none, some, Outcome, ok, panic, ◌>>=◌,
}
use osass.Str.Compare.{text}
use osass.Image.Alloc.{free_count}
use osass.Inode.Slots.{places, missing}
use osass.Icache.{Icache, ninode, is_entry, iget}
use osass.Icache.Get.{IsCache, GivenOut, IgetEnds, iget-IgetEnds}
use osass.Path.{dirsiz}
use osass.Dir.{t_dir, de_size, Place, Looked, lookup_loop, get_found, dirlookup}
use osass.Dir.Entries.{entry_inum, IsDir, Reads}
use osass.Dir.Lookup.{IsNamed, LookupEnds, NameApart, lookup_loop-LookupEnds}

-- How `dirlookup` of the name ends.
abbrev pub FindEnds : ℕ → List ℕ → Icache → Place → Outcome (Looked × Icache × Place) → Type 0
FindEnds de name c p (panic text) =
    (free_count p.img p.img.sb.size < missing p.dp p.img places)
    ⊎ ((k : ℕ) → k < ninode → 0 < (c.slot k).ref)
FindEnds de name c p (ok (none, d, q)) =
    Reads de p q × (d ≡ c) × ((k : ℕ) → k < p.dp.size → k % de_size ≡ 0 → ¬ IsNamed name k p)
FindEnds de name c p (ok (some (i, off), d, q)) =
    Reads de p q
    × (off < p.dp.size)
    × (off % de_size ≡ 0)
    × IsNamed name off p
    × ((k : ℕ) → k < off → k % de_size ≡ 0 → ¬ IsNamed name k p)
    × IsCache d
    × (i < ninode)
    × (is_entry p.dp.dev (entry_inum p off) (d.slot i) ≡ true)
    × ((d.slot i).ref ≡ (c.slot i).ref + 1)
    × ((k : ℕ) → k ≢ i → d.slot k ≡ c.slot k)
    × GivenOut (c.slot i) (d.slot i)

found_ends :
    (de : ℕ) (name : List ℕ) (off inum : ℕ) (c : Icache) (p q : Place) (r : Outcome (ℕ × Icache))
    → LookupEnds de name 0 p (ok (some (off, inum), q))
    → IgetEnds q.dp.dev inum c r
    → FindEnds de name c p (r >>= λ (i, c). ok (some (i, off), c, q))
found_ends de name off inum c p q (panic text) l g = inr (λ k b. (g k b).1)
found_ends de name off inum c p q (ok (i, d)) (r, _, l, z, n, e, h) (b, v, x, f, o, u) =
    let same : q.dp.dev ≡ p.dp.dev = ap (λ i. i.dev) r.keeps.fields in
    (
      r,
      l,
      z,
      n,
      (λ k m y. h k (omega arith) m y),
      v,
      b,
      ap (λ k. is_entry k (entry_inum p off) (d.slot i)) (sym same)
          ∙ ap (λ n. is_entry q.dp.dev n (d.slot i)) (sym e)
          ∙ x,
      f,
      o,
      u,
    )

get_ends :
    (de : ℕ) (name : List ℕ) (c : Icache) (p : Place) (r : Outcome (Option (ℕ × ℕ) × Place))
    → IsCache c
    → LookupEnds de name 0 p r
    → FindEnds de name c p (r >>= λ (f, p). get_found f c p)
unfolding get_found
get_ends de name c p (panic text) v l = inl l
get_ends de name c p (ok (none, q)) v (r, h) = (r, refl, λ k m y. h k (omega arith) m y)
get_ends de name c p (ok (some (off, inum), q)) v l =
    found_ends de name off inum c p q (iget q.dp.dev inum c) l (iget-IgetEnds q.dp.dev inum c v)

-- `dirlookup` in a directory panics only when the disk has fewer free blocks than the directory has
-- places without one, or every entry of the inode cache is referenced. Otherwise it finds the first
-- entry in use that has the name, up to 14 bytes of it, and returns a cache entry for its inode,
-- referenced once more; or there is no such entry, and the cache is as it was. No file reads differently.
pub dirlookup-FindEnds :
    (devices : ℕ → Bool) (de name : ℕ) (c : Icache) (p : Place)
    → IsDir p
    → NameApart name de
    → IsCache c
    → FindEnds de (text p.mem name dirsiz) c p (dirlookup devices de name c p)
unfolding dirlookup
dirlookup-FindEnds devices de name c p d a v =
    let f = p.dp.size / de_size + 1 in
    rw (eq→== p.dp.type t_dir d.type_dir) (
      get_ends de (text p.mem name dirsiz) c p (lookup_loop f devices de name 0 p) v
        (lookup_loop-LookupEnds f devices de name 0 p d a (omega arith) (omega arith)))
