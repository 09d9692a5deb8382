-- ===== src/Inode/Size.antt =====
-- fs.c: `writei` of a file, and the size that it leaves.
use osass.Base.{
  ℕ, ◌+◌, ◌*◌, ◌%◌, ◌^◌, ◌≤◌, ◌<◌, ◌≡◌, ◌≢◌, refl, ap, subst, ◌∙◌, Bool, ◌&&◌, ◌||◌, ltb,
  if◌then◌else◌, ◌==◌, sym, ==→eq, ne→==_false, eq→==, Bool-cases, inl, inr, ◌⊎◌, arith, Memory,
  max, Outcome, ok, panic, ◌>>=◌,
}
use osass.Image.{bsize, Image, update_block}
use osass.Image.Map.{in_use, data_start}
use osass.Image.Alloc.{free_count}
use osass.Image.Update.{Clear, update-in_use, update-free_count}
use osass.Inode.{
  Inode, ndirect, maxfile, t_dev, iblock, ipb, put_dinode, iupdate, Result, fails, device, count,
  grow_size, write_loop, writei,
}
use osass.Inode.Slots.{places, place, place_low, byte_at, missing, HasBlocks}
use osass.Inode.Mapping.{OtherSlot, Keeps, Keeps-refl, Keeps-trans}
use osass.Inode.Store.{missing_same, update-Keeps, update-byte_at}
use osass.Inode.Dinode.{put_dinode_bytes, put_dinode_outside}
use osass.Inode.Write.{Stored, WriteEnds, write_loop-WriteEnds}

-- The inode's own block is one of inodes.
abbrev pub InTable : ℕ → Image → Type 0
InTable inum img = (1 < iblock inum img.sb) × (iblock inum img.sb < img.sb.bmapstart)

resized-Keeps :
    (ip : Inode) (img : Image) (s : ℕ)
    → HasBlocks ip img
    → Keeps ip img (record ip { size = s }) img
unfolding place missing
resized-Keeps ip img s w = record {
  sb_same = refl;
  fields = refl;
  has = record {
    valid = w.valid;
    data_block = w.data_block;
    on_disk = w.on_disk;
    taken = w.taken;
    apart = w.apart;
  };
  foreign =
      λ b f. record { in_data = f.in_data; on_disk = f.on_disk; taken = f.taken; other = f.other };
  frame = λ b f. refl;
  table = λ b i l o. refl;
  balance =
      ap (λ m. free_count img img.sb.size + m)
        (missing_same ip (record ip { size = s }) img img places (λ k l. refl));
}

resized-byte_at :
    (ip : Inode) (img : Image) (s o : ℕ) → byte_at (record ip { size = s }) img o ≡ byte_at ip img o
unfolding byte_at place
resized-byte_at ip img s o = refl

module _ (ip : Inode) (img : Image) (w : HasBlocks ip img) (t : InTable ip.inum img) where
  abbrev ib : ℕ
  ib = iblock ip.inum img.sb

  own-Clear : Clear img ib
  own-Clear = (omega (arith, t), inl t.1)

  not_indirect : ib ≢ ip.addrs ndirect
  not_indirect e =
      let p = place_low ip img ndirect (omega arith) in
      let d = w.data_block ndirect (omega arith) (omega (arith, p, e, t)) in
      omega (arith, d, p, e, t)

  bytes : (i : ℕ) → put_dinode (img.block ib) (ip.inum % ipb * 64) ip i < 256
  bytes i = put_dinode_bytes (img.block ib) (ip.inum % ipb * 64) i ip (w.valid.bytes ib i)

  own_slot :
      (x i : ℕ)
      → x < img.sb.bmapstart
      → OtherSlot ip img x i
      → (update_block ib (put_dinode (img.block ib) (ip.inum % ipb * 64) ip) img).block x i
        ≡ img.block x i
  own_slot x i l o = elim (Bool-cases (ib == x)) [
    | inr e ↦ rw e refl
    | inl e ↦ elim o [
      | inl n ↦ absurd (n (sym (==→eq ib x e)))
      | inr s ↦
          rw e (put_dinode_outside (img.block ib) (ip.inum % ipb * 64) i ip s)
          ∙ ap (λ b. img.block b i) (==→eq ib x e)
    ]
  ]

  pub iupdate-Keeps : Keeps ip img ip (iupdate ip img)
  unfolding iupdate
  iupdate-Keeps =
      update-Keeps ip img w ib _ own-Clear bytes not_indirect (λ x f. omega (arith, f.in_data, t))
        own_slot

  pub iupdate-byte_at :
      (o : ℕ) → o < maxfile * bsize → byte_at ip (iupdate ip img) o ≡ byte_at ip img o
  unfolding iupdate
  iupdate-byte_at o l =
      update-byte_at ip img w ib _ own-Clear bytes not_indirect o l
        (λ k q z. omega (arith, w.data_block k q z, t))

  pub iupdate-in_use : (x : ℕ) → x < img.sb.size → in_use (iupdate ip img) x ≡ in_use img x
  unfolding iupdate
  iupdate-in_use x l = update-in_use img w.valid ib _ own-Clear x (omega arith)

  pub iupdate-free_count :
      free_count (iupdate ip img) (iupdate ip img).sb.size ≡ free_count img img.sb.size
  unfolding iupdate
  iupdate-free_count = update-free_count img w.valid ib _ own-Clear

  pub iupdate-own :
      (iupdate ip img).block (iblock ip.inum img.sb)
      ≡ put_dinode (img.block ib) (ip.inum % ipb * 64) ip
  unfolding iupdate
  iupdate-own = rw (eq→== ib ib refl) refl

  pub iupdate-block : (b : ℕ) → data_start img.sb ≤ b → (iupdate ip img).block b ≡ img.block b
  unfolding iupdate
  iupdate-block b d = rw (ne→==_false ib b (omega (arith, t, d))) refl

-- The disk has the fields of the inode at its place.
abbrev pub OnDisk : Inode → Image → Type 0
OnDisk ip img =
    (m : Memory) × (img.block (iblock ip.inum img.sb) ≡ put_dinode m (ip.inum % ipb * 64) ip)

-- What `grow_size` leaves after the loop.
record Sized (n off : ℕ) (ip : Inode) (img : Image) (r : Inode × Image) : Type 0 where
  keeps : Keeps ip img r.0 r.1
  same_bytes : (o : ℕ) → o < maxfile * bsize → byte_at r.0 r.1 o ≡ byte_at ip img o
  new_size : r.0.size ≡ (if ltb 0 n then max ip.size off else ip.size)
  saved : 0 < n → ip.size < off → OnDisk r.0 r.1

grow_size-Sized :
    (n off : ℕ) (ip : Inode) (img : Image)
    → HasBlocks ip img
    → InTable ip.inum img
    → Sized n off ip img (grow_size n off ip img)
unfolding grow_size iupdate
grow_size-Sized n off ip img w t = elim (Bool-cases (ltb 0 n && ltb ip.size off)) [
  | inr e ↦ rw e (record {
    keeps = Keeps-refl ip img w;
    same_bytes = λ o l. refl;
    new_size = ground (arith, e);
    saved = λ a b. absurd (ground (arith, e, a, b));
  })
  | inl e ↦
      let big : Inode = record ip { size = off } in
      let k = resized-Keeps ip img off w in
      rw e (record {
        keeps = Keeps-trans k (iupdate-Keeps big img k.has t);
        same_bytes = λ o l. iupdate-byte_at big img k.has t o l ∙ resized-byte_at ip img off o;
        new_size = ground (arith, e);
        saved = λ a b. (img.block (iblock ip.inum img.sb), iupdate-own big img k.has t);
      })
]

-- How `writei` of a file ends.
abbrev pub WriteiEnds :
    ℕ → ℕ → ℕ → Memory → Inode → Image → Outcome (Result × Inode × Image) → Type 0
WriteiEnds src off n mem ip img (panic text) = free_count img img.sb.size < missing ip img places
WriteiEnds src off n mem ip img (ok (fails, ip2, j)) =
    ((ip.size < off) ⊎ (maxfile * bsize < off + n)) × (ip2 ≡ ip) × (j ≡ img)
WriteiEnds src off n mem ip img (ok (device, ip2, j)) = ip.type ≡ t_dev
WriteiEnds src off n mem ip img (ok (count c, ip2, j)) =
    (off ≤ ip.size)
    × (off + n ≤ maxfile * bsize)
    × (c ≡ n)
    × Keeps ip img ip2 j
    × (ip2.size ≡ max ip.size (off + n))
    × Stored n off src mem ip img ip2 j
    × (0 < n → ip.size < off + n → OnDisk ip2 j)

finish :
    (src off n : ℕ) (mem : Memory) (ip : Inode) (img : Image) (r : Outcome (ℕ × Inode × Image))
    → InTable ip.inum img
    → off ≤ ip.size
    → off + n ≤ maxfile * bsize
    → WriteEnds n off src mem ip img r
    → WriteiEnds src off n mem ip img
        (r >>= λ (o, ip, img). (let (ip, img) = grow_size n o ip img in ok (count n, ip, img)))
finish src off n mem ip img (panic text) t a b q = q
finish src off n mem ip img (ok (o, ip2, j)) t a b (e, p, z, s) =
    let same : ip2.inum ≡ ip.inum = ap (λ i. i.inum) p.fields in
    let in_table : InTable ip2.inum j = rw (same, p.sb_same) t in
    let g = grow_size-Sized n o ip2 j p.has in_table in
    (
      a,
      b,
      refl,
      Keeps-trans p g.keeps,
      ground (arith, g.new_size, z, e, a),
      (λ x l. g.same_bytes x l ∙ s x l),
      λ y l. g.saved y (omega (arith, z, e, l)),
    )

-- `writei` of `n` bytes to a file panics only when the disk has fewer free blocks than the file has
-- places without one. It fails exactly when it would start past the end or go past the largest file, and
-- changes nothing then. Otherwise it returns `n`; the file has the bytes of `mem` at `off`, its others
-- and the blocks of other files are as before, and its size is the larger of the old and of `off + n`;
-- where it has grown, its place on the disk has all of its fields. No other inode on the disk changes.
pub writei-WriteiEnds :
    (devices : ℕ → Bool) (src off n : ℕ) (mem : Memory) (ip : Inode) (img : Image)
    → HasBlocks ip img
    → InTable ip.inum img
    → ip.type ≢ t_dev
    → off < 2 ^ 32
    → n < 2 ^ 32
    → ((i : ℕ) → mem i < 256)
    → WriteiEnds src off n mem ip img (writei devices src off n mem ip img)
unfolding writei
writei-WriteiEnds devices src off n mem ip img w t d lo ln h =
    let guard =
      ltb ip.size off
      || ltb ((off + n) % 2 ^ 32) off
      || ltb (maxfile * bsize) ((off + n) % 2 ^ 32) in
    elim (Bool-cases guard) [
      | inl e ↦ rw (ne→==_false ip.type t_dev d, e, WriteiEnds) (ground (arith, e), refl, refl)
      | inr e ↦
          let a : off ≤ ip.size = ground (arith, e) in
          let b : off + n ≤ maxfile * bsize = ground (arith, e) in
          rw (ne→==_false ip.type t_dev d, e)
            (finish src off n mem ip img (write_loop n 0 n off src mem ip img) t a b (
              subst (λ k. WriteEnds k off src mem ip img (write_loop n 0 n off src mem ip img))
                (omega arith)
                (write_loop-WriteEnds n 0 n off src mem ip img (omega arith) (omega arith) h w)))
    ]
