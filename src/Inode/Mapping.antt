-- ===== src/Inode/Mapping.antt =====
-- fs.c: `bmap` finds the block of a part of the file, or makes one, and the file reads the same.
use osass.Base.{
  ℕ, zero, suc, ◌+◌, ◌-◌, ◌*◌, ◌≤◌, ◌<◌, ◌≡◌, ◌≢◌, refl, sym, ap, subst, ◌∙◌, true, ◌==◌, ltb,
  ==→eq, ==_false→ne, lt→ltb, Bool-cases, inl, inr, ◌⊎◌, ◌%◌, arith, Outcome, ok, panic, ◌>>=◌,
}
use osass.Base.Words.{get32, put32}
use osass.Image.{bsize, Image, update_block, balloc}
use osass.Image.Map.{in_use, data_start}
use osass.Image.Alloc.{free_count, BallocEnds, balloc-Took}
use osass.Inode.{Inode, ipb, iblock, set_addr, ndirect, nindirect, maxfile, direct, indirect, bmap}
use osass.Inode.Slots.{places, place, place_low, place_high, place_of, byte_at, missing, HasBlocks}
use osass.Inode.Grow.{Grown, missing-Grown, Grown-HasBlocks, byte_at-Grown}
use osass.Inode.Fresh.{direct-Grown, indirect-Grown}

-- A block of data that is in use, and not by this inode.
pub record Foreign (b : ℕ) (ip : Inode) (img : Image) : Type 0 where
  pub in_data : data_start img.sb ≤ b
  pub on_disk : b < img.sb.size
  pub taken : in_use img b ≡ true
  pub other : (k : ℕ) → k < places → place ip img k ≢ b

-- Byte `i` of the block `b` of the table of inodes is not in the inode's own place.
abbrev pub OtherSlot : Inode → Image → ℕ → ℕ → Type 0
OtherSlot ip img b i =
    (b ≢ iblock ip.inum img.sb) ⊎ ((i < ip.inum % ipb * 64) ⊎ (ip.inum % ipb * 64 + 64 ≤ i))

-- What the operations on the content of an inode leave: its other fields, the blocks of others, all that
-- the disk has before the free map but the inode itself, and the sum of the free blocks and its own.
pub record Keeps (ip : Inode) (img : Image) (ip2 : Inode) (j : Image) : Type 0 where
  pub sb_same : j.sb ≡ img.sb
  pub fields : ip2 ≡ record ip { addrs = ip2.addrs; size = ip2.size }
  pub has : HasBlocks ip2 j
  pub foreign : (b : ℕ) → Foreign b ip img → Foreign b ip2 j
  pub frame : (b : ℕ) → Foreign b ip img → j.block b ≡ img.block b
  pub table : (b i : ℕ) → b < img.sb.bmapstart → OtherSlot ip img b i → j.block b i ≡ img.block b i
  pub balance :
      free_count img img.sb.size + missing ip2 j places
      ≡ free_count j j.sb.size + missing ip img places

pub Keeps-refl : (ip : Inode) (img : Image) → HasBlocks ip img → Keeps ip img ip img
Keeps-refl ip img w = record {
  sb_same = refl;
  fields = refl;
  has = w;
  foreign = λ b f. f;
  frame = λ b f. refl;
  table = λ b i l o. refl;
  balance = refl;
}

pub Keeps-trans :
    {ip ip2 ip3 : Inode} {img j h : Image}
    → Keeps ip img ip2 j
    → Keeps ip2 j ip3 h
    → Keeps ip img ip3 h
Keeps-trans {ip} {ip2} {ip3} {img} {j} {h} p q = record {
  sb_same = q.sb_same ∙ p.sb_same;
  fields =
      q.fields
      ∙ ap {A = Inode} {B = Inode} (λ i. record i { addrs = ip3.addrs; size = ip3.size }) p.fields;
  has = q.has;
  foreign = λ b f. q.foreign b (p.foreign b f);
  frame = λ b f. q.frame b (p.foreign b f) ∙ p.frame b f;
  table = λ b i l o.
      let same : ip2.inum ≡ ip.inum = ap (λ i. i.inum) p.fields in
      let other : OtherSlot ip2 j b i = rw (same, p.sb_same) o in
      q.table b i (rw p.sb_same l) other ∙ p.table b i l o;
  balance = omega (arith, p.balance, q.balance);
}

-- The file holds the same bytes.
abbrev pub SameBytes : Inode → Image → Inode → Image → Type 0
SameBytes ip img ip2 j = (o : ℕ) → o < maxfile * bsize → byte_at ip2 j o ≡ byte_at ip img o

Grown-Keeps :
    {s a : ℕ} {ip : Inode} {img : Image} {ip2 : Inode} {j : Image}
    → HasBlocks ip img
    → ip2 ≡ record ip { addrs = ip2.addrs; size = ip2.size }
    → Grown s a ip img ip2 j
    → Keeps ip img ip2 j
Grown-Keeps {s} {a} {ip} {img} {ip2} {j} w e g = record {
  sb_same = g.sb_same;
  fields = e;
  has = Grown-HasBlocks w g;
  foreign = λ b f. record {
    in_data = rw g.sb_same f.in_data;
    on_disk = rw g.sb_same f.on_disk;
    taken = ground (arith, g.marked b f.on_disk, f.taken);
    other = λ k l. elim (Bool-cases (s == k)) [
      | inl y ↦
          let p : place ip2 j k ≡ a = g.placed k l ∙ rw y refl in
          (λ r. absurd (cc (f.taken, ap (in_use img) (sym p ∙ r), g.was_free)))
      | inr y ↦
          let p : place ip2 j k ≡ place ip img k = g.placed k l ∙ rw y refl in
          (λ r. f.other k l (sym p ∙ r))
    ];
  };
  frame = λ b f.
      g.frame b f.in_data f.taken
        (λ r. f.other ndirect (omega arith) (place_low ip img ndirect (omega arith) ∙ sym r));
  table = λ b i l o. ap (λ m. m i) (g.below b l);
  balance = omega (arith, missing-Grown w g, g.count);
}

missing_pos :
    (ip : Inode) (img : Image) (n k : ℕ) → k < n → place ip img k ≡ 0 → 0 < missing ip img n
unfolding missing
missing_pos ip img zero k l e = absurd (omega arith)
missing_pos ip img (suc n) k l e = elim (Bool-cases (k == n)) [
  | inl y ↦ ground (arith, ap (place ip img) (==→eq k n y), e)
  | inr y ↦ ground (arith, missing_pos ip img n k (ground (arith, y)) e)
]

-- How a search for the block at place `k` ends.
abbrev pub MapEnds : ℕ → Inode → Image → Outcome (ℕ × Inode × Image) → Type 0
MapEnds k ip img (panic text) = free_count img img.sb.size < missing ip img places
MapEnds k ip img (ok (b, ip2, j)) =
    Keeps ip img ip2 j
    × SameBytes ip img ip2 j
    × (ip2.size ≡ ip.size)
    × (place ip2 j k ≡ b)
    × (b ≢ 0)

Grown-ends :
    {k a : ℕ} {ip : Inode} {img : Image} {ip2 : Inode} {j : Image}
    → HasBlocks ip img
    → ip2 ≡ record ip { addrs = ip2.addrs; size = ip2.size }
    → ip2.size ≡ ip.size
    → Grown k a ip img ip2 j
    → MapEnds k ip img (ok (a, ip2, j))
Grown-ends {k} {a} w e z g = (
  Grown-Keeps w e g,
  byte_at-Grown w g,
  z,
  ground (arith, g.placed k g.in_range),
  omega (arith, g.in_data),
)

direct_fresh :
    (k : ℕ) (ip : Inode) (img : Image) (r : Outcome (ℕ × Image))
    → HasBlocks ip img
    → k < 13
    → ip.addrs k ≡ 0
    → BallocEnds img r
    → MapEnds k ip img (r >>= λ (a, j). ok (a, set_addr k a ip, j))
direct_fresh k ip img (panic text) w h z b =
    omega (arith, b, missing_pos ip img places k (omega arith) (place_low ip img k h ∙ z))
direct_fresh k ip img (ok (a, j)) w h z (l, f, d, t, c) =
    Grown-ends w refl refl (direct-Grown w l f d t c k h z)

direct-MapEnds :
    (k : ℕ) (ip : Inode) (img : Image)
    → HasBlocks ip img
    → k < 13
    → MapEnds k ip img (direct k ip img)
unfolding direct
direct-MapEnds k ip img w h = elim (Bool-cases (ip.addrs k == 0)) [
  | inr e ↦
      rw (e, MapEnds)
        (Keeps-refl ip img w, (λ o l. refl), refl, place_low ip img k h, ==_false→ne _ _ e)
  | inl e ↦
      rw (e, MapEnds)
        (direct_fresh k ip img (balloc img) w h (==→eq _ _ e) (balloc-Took img w.valid))
]

indirect_fresh :
    (k : ℕ) (ip : Inode) (img : Image) (r : Outcome (ℕ × Image))
    → HasBlocks ip img
    → k < nindirect
    → ip.addrs ndirect ≢ 0
    → place ip img (13 + k) ≡ 0
    → BallocEnds img r
    → MapEnds (13 + k) ip img (
        r >>= λ (a, j).
        ok
          (a, ip, update_block (ip.addrs ndirect) (put32 (j.block (ip.addrs ndirect)) (4 * k) a) j))
indirect_fresh k ip img (panic text) w h n z b =
    omega (arith, b, missing_pos ip img places (13 + k) (omega arith) z)
indirect_fresh k ip img (ok (a, j)) w h n z (l, f, d, t, c) = Grown-ends w refl refl (
    indirect-Grown w l f d t c n k h (
      sym (
        place_high ip img (13 + k) (omega arith) n
        ∙ ap (λ i. get32 (img.block (ip.addrs ndirect)) (4 * i)) (omega arith))
      ∙ z))

indirect-MapEnds :
    (k : ℕ) (ip : Inode) (img : Image)
    → HasBlocks ip img
    → k < nindirect
    → ip.addrs ndirect ≢ 0
    → MapEnds (13 + k) ip img (indirect (ip.addrs ndirect) k ip img)
unfolding indirect
indirect-MapEnds k ip img w h n =
    let p : place ip img (13 + k) ≡ get32 (img.block (ip.addrs ndirect)) (4 * k) =
      place_high ip img (13 + k) (omega arith) n
      ∙ ap (λ i. get32 (img.block (ip.addrs ndirect)) (4 * i)) (omega arith) in
    elim (Bool-cases (get32 (img.block (ip.addrs ndirect)) (4 * k) == 0)) [
      | inr e ↦ rw (e, MapEnds) (Keeps-refl ip img w, (λ o l. refl), refl, p, ==_false→ne _ _ e)
      | inl e ↦
          rw (e, MapEnds)
            (indirect_fresh k ip img (balloc img) w h n (p ∙ ==→eq _ _ e) (balloc-Took img w.valid))
    ]

MapEnds-after :
    (k : ℕ) {ip ip2 : Inode} {img j : Image} (r : Outcome (ℕ × Inode × Image))
    → Keeps ip img ip2 j
    → SameBytes ip img ip2 j
    → ip2.size ≡ ip.size
    → MapEnds k ip2 j r
    → MapEnds k ip img r
MapEnds-after k (panic text) p s z q = omega (arith, p.balance, q)
MapEnds-after k (ok (b, ip3, h)) p s z (q, t, y, e, n) =
    (Keeps-trans p q, (λ o l. t o l ∙ s o l), y ∙ z, e, n)

through :
    (k : ℕ) (ip : Inode) (img : Image) (r : Outcome (ℕ × Inode × Image))
    → k < nindirect
    → MapEnds ndirect ip img r
    → MapEnds (13 + k) ip img (r >>= λ (b, ip, img). indirect b k ip img)
through k ip img (panic text) h m = m
through k ip img (ok (b, ip2, j)) h (p, s, z, e, n) =
    let here : ip2.addrs ndirect ≡ b = sym (place_low ip2 j ndirect (omega arith)) ∙ e in
    let q : MapEnds (13 + k) ip2 j (indirect (ip2.addrs ndirect) k ip2 j) =
      indirect-MapEnds k ip2 j p.has h (λ r. n (sym here ∙ r)) in
    MapEnds-after (13 + k) (indirect b k ip2 j) p s z
      (subst (λ b. MapEnds (13 + k) ip2 j (indirect b k ip2 j)) here q)

-- `bmap` of a block that a file can have panics only when the disk has fewer free blocks than the file
-- has places without one. Otherwise it returns the block that is at the place now, and it is none of
-- another file's. The file reads the same, and so do the other files.
pub bmap-MapEnds :
    (bn : ℕ) (ip : Inode) (img : Image)
    → HasBlocks ip img
    → bn < maxfile
    → MapEnds (place_of bn) ip img (bmap bn ip img)
unfolding bmap
bmap-MapEnds bn ip img w h = elim (Bool-cases (ltb bn ndirect)) [
  | inl e ↦ rw e (direct-MapEnds bn ip img w (ground (arith, e)))
  | inr e ↦
      let q : bn - ndirect < nindirect = ground (arith, e) in
      let p : 13 + (bn - ndirect) ≡ bn + 1 = ground (arith, e) in
      let t =
        through (bn - ndirect) ip img (direct ndirect ip img) q
          (direct-MapEnds ndirect ip img w (omega arith)) in
      rw (e, lt→ltb (bn - ndirect) nindirect q)
        (subst
          (λ k.
            MapEnds k ip img
              (direct ndirect ip img >>= λ (b, ip, img). indirect b (bn - ndirect) ip img))
          p t)
]
