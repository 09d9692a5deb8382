-- ===== src/Icache/Put.antt =====
-- fs.c: `iput` gives up one reference, and with the last one a file that has no name.
use osass.Base.{
  [], ◌∷◌, ℕ, ◌+◌, ◌-◌, ◌*◌, ◌%◌, ◌≤◌, ◌<◌, ◌≡◌, ◌≢◌, refl, sym, ap, ◌∙◌, Bool, true, false, ◌&&◌,
  ◌==◌, ne→==_false, eq→==, Bool-cases, inl, inr, arith, ok,
}
use osass.Base.Words.{get16}
use osass.Log.Blocks.{at}
use osass.Sleeplock.{Sleeplock, initsleeplock, wakeup_lk, taken, acquiresleep, releasesleep}
use osass.Sleeplock.Waiters.{acquiresleep_lem, releasesleep_lem}
use osass.Image.{Image}
use osass.Image.Map.{in_use, data_start, IsImage}
use osass.Image.Alloc.{free_count}
use osass.Inode.{Inode, ipb, iblock, iupdate}
use osass.Inode.Slots.{places, place, HasBlocks, missing}
use osass.Inode.Dinode.{type-put_dinode}
use osass.Inode.Mapping.{Foreign}
use osass.Inode.Size.{
  InTable, iupdate-Keeps, iupdate-in_use, iupdate-free_count, iupdate-block, iupdate-own,
}
use osass.Inode.Truncated.{no_places-HasBlocks, Truncated, itrunc-Truncated}
use osass.Icache.{Entry, Icache, free_inode, done, iput}

-- The inode is free on the disk `j`, and so are its blocks.
pub record Gone (ip : Inode) (img j : Image) : Type 0 where
  pub no_type : get16 (j.block (iblock ip.inum img.sb)) (ip.inum % ipb * 64) ≡ 0
  pub freed : (k : ℕ) → k < places → place ip img k ≢ 0 → in_use j (place ip img k) ≡ false
  pub kept : (b : ℕ) → Foreign b ip img → in_use j b ≡ true
  pub frame : (b : ℕ) → data_start img.sb ≤ b → j.block b ≡ img.block b
  pub gained : free_count j j.sb.size + missing ip img places ≡ free_count img img.sb.size + places
  pub valid : IsImage j

-- Whether the inode goes with this reference.
abbrev pub last_of : Entry → Bool
last_of e = e.inode.valid && (e.inode.nlink == 0) && (e.ref == 1)

-- What `iput` of the entry `i` leaves.
pub record Released (i : ℕ) (c : Icache) (img : Image) (d : Icache) (j : Image) : Type 0 where
  pub unlocked : d.lk ≡ false
  pub others : (k : ℕ) → k ≢ i → d.slot k ≡ c.slot k
  pub ref_less : (d.slot i).ref ≡ (c.slot i).ref - 1
  pub lock_free : (d.slot i).lock ≡ initsleeplock
  pub remains : last_of (c.slot i) ≡ false → ((d.slot i).inode ≡ (c.slot i).inode) × (j ≡ img)
  pub goes :
      last_of (c.slot i) ≡ true → ((d.slot i).inode.valid ≡ false) × Gone (c.slot i).inode img j

gone_lem :
    (ip ip2 : Inode) (img j : Image)
    → HasBlocks ip img
    → InTable ip.inum img
    → Truncated ip img ip2 j
    → Gone ip img (iupdate (record ip2 { type = 0 }) j)
unfolding place
gone_lem ip ip2 img j w t h =
    let gone : Inode = record ip2 { type = 0 } in
    let same : ip2.inum ≡ ip.inum = ap (λ i. i.inum) h.fields in
    let in_table : InTable ip2.inum j = rw (same, h.sb_same) t in
    let g : HasBlocks gone j = no_places-HasBlocks gone j h.has.valid h.no_blocks in
    let u = iupdate-Keeps gone j g in_table in
    let m = j.block (iblock ip2.inum j.sb) in
    record {
      no_type =
          rw (← same, ← h.sb_same)
            (ap (λ b. get16 b (ip2.inum % ipb * 64)) (iupdate-own gone j g in_table)
              ∙ type-put_dinode m (ip2.inum % ipb * 64) gone (omega arith));
      freed = λ k l n.
          iupdate-in_use gone j g in_table (place ip img k) (rw h.sb_same (w.on_disk k l n))
          ∙ h.freed k l n;
      kept = λ b o. iupdate-in_use gone j g in_table b (rw h.sb_same o.on_disk) ∙ h.kept b o;
      frame = λ b d. iupdate-block gone j g in_table b (rw h.sb_same d) ∙ h.frame b d;
      gained =
          ap (λ x. x + missing ip img places) (iupdate-free_count gone j g in_table) ∙ h.gained;
      valid = u.has.valid;
    }

free_inode-Gone :
    (e : Entry) (img : Image)
    → HasBlocks e.inode img
    → InTable e.inode.inum img
    → last_of e ≡ true
    → (ip : Inode) × (j : Image) × (free_inode e img ≡ ok (ip, j))
      × (ip.valid ≡ false)
      × Gone e.inode img j
unfolding free_inode
free_inode-Gone e img w t l =
    let (ip2, j, r, h) = itrunc-Truncated e.inode img w t in
    (
      record ip2 { type = 0; valid = false },
      iupdate (record ip2 { type = 0 }) j,
      rw (l, r) refl,
      refl,
      gone_lem e.inode ip2 img j w t h,
    )

free_inode_none :
    (e : Entry) (img : Image) → last_of e ≡ false → free_inode e img ≡ ok (e.inode, img)
unfolding free_inode
free_inode_none e img l = rw l refl

-- The entry that `iput` leaves.
abbrev put_entry : Entry → Inode → Entry
put_entry e ip = record { ref = e.ref - 1; lock = initsleeplock; inode = ip }

put_ok :
    (me i : ℕ) (c : Icache) (img : Image) (ip : Inode) (j : Image)
    → c.lk ≡ false
    → (c.slot i).lock.lk ≡ false
    → (c.slot i).lock.locked ≡ false
    → free_inode (c.slot i) img ≡ ok (ip, j)
    → iput me i c img
      ≡ ok (done (record { lk = false; slot = at i (put_entry (c.slot i) ip) c.slot }, j))
unfolding iput
put_ok me i c img ip j u k l f =
    let mine : Sleeplock = record { lk = false; locked = true; pid = me } in
    let got : acquiresleep me (c.slot i).lock ≡ ok (taken mine) =
      acquiresleep_lem me (c.slot i).lock k ∙ rw l refl in
    let gives : releasesleep mine ≡ ok (wakeup_lk ∷ [], initsleeplock) =
      releasesleep_lem mine refl in
    elim (Bool-cases ((c.slot i).inode.valid && ((c.slot i).inode.nlink == 0))) [
      | inl b ↦ rw (got, b, u, f, gives) refl
      | inr b ↦ rw (got, b, f, gives, u) refl
    ]

-- `iput` by a process that gets the lock of the inode at once returns. It gives up one reference and
-- leaves the other entries. It frees the inode, its blocks included, on the disk if the inode is valid,
-- has no links and this was the last reference; otherwise the disk and the inode are as they were.
pub iput-Released :
    (me i : ℕ) (c : Icache) (img : Image)
    → c.lk ≡ false
    → (c.slot i).lock.lk ≡ false
    → (c.slot i).lock.locked ≡ false
    → HasBlocks (c.slot i).inode img
    → InTable (c.slot i).inode.inum img
    → (d : Icache) × (j : Image) × (iput me i c img ≡ ok (done (d, j))) × Released i c img d j
iput-Released me i c img u k l w t = elim (Bool-cases (last_of (c.slot i))) [
  | inl b ↦
      let (ip, j, f, v, g) = free_inode-Gone (c.slot i) img w t b in
      let e = put_entry (c.slot i) ip in
      (
        _,
        j,
        put_ok me i c img ip j u k l f,
        record {
          unlocked = refl;
          others = λ k n. rw (ne→==_false i k (λ r. n (sym r))) refl;
          ref_less = rw (eq→== i i refl) refl;
          lock_free = rw (eq→== i i refl) refl;
          remains = λ z. absurd (cc (b, z));
          goes = λ z. (rw (eq→== i i refl) v, g);
        },
      )
  | inr b ↦
      let f = free_inode_none (c.slot i) img b in
      (
        _,
        img,
        put_ok me i c img (c.slot i).inode img u k l f,
        record {
          unlocked = refl;
          others = λ k n. rw (ne→==_false i k (λ r. n (sym r))) refl;
          ref_less = rw (eq→== i i refl) refl;
          lock_free = rw (eq→== i i refl) refl;
          remains = λ z. (rw (eq→== i i refl) refl, refl);
          goes = λ z. absurd (cc (b, z));
        },
      )
]
