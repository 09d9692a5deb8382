-- ===== src/Inode/Truncated.antt =====
-- fs.c: `itrunc` empties a file.
use osass.Base.{
  ℕ, zero, suc, ◌+◌, ◌≤◌, ◌<◌, ◌≡◌, ◌≢◌, refl, ap, ◌∙◌, true, false, ◌==◌, ltb, if◌then◌else◌,
  Bool-cases, inl, inr, arith, ok, ◌>>=◌, >>=-ok,
}
use osass.Image.{Image}
use osass.Image.Map.{in_use, data_start, IsImage}
use osass.Image.Alloc.{free_count}
use osass.Inode.{Inode, ndirect, free_direct, itrunc, iupdate}
use osass.Inode.Slots.{places, place, place_low, place_none, HasBlocks, missing}
use osass.Inode.Mapping.{Foreign}
use osass.Inode.Size.{InTable, iupdate-Keeps, iupdate-in_use, iupdate-free_count, iupdate-block}
use osass.Inode.Owns.{Shrinks, holes}
use osass.Inode.Emptied.{emptied, rest}

-- What `itrunc` leaves.
pub record Truncated (ip : Inode) (img : Image) (ip2 : Inode) (j : Image) : Type 0 where
  pub fields : ip2 ≡ record ip { addrs = ip2.addrs; size = ip2.size }
  pub sb_same : j.sb ≡ img.sb
  pub no_size : ip2.size ≡ 0
  pub no_blocks : (k : ℕ) → k < places → place ip2 j k ≡ 0
  pub has : HasBlocks ip2 j
  pub freed : (k : ℕ) → k < places → place ip img k ≢ 0 → in_use j (place ip img k) ≡ false
  pub kept : (b : ℕ) → Foreign b ip img → in_use j b ≡ true
  pub frame : (b : ℕ) → data_start img.sb ≤ b → j.block b ≡ img.block b
  pub gained : free_count j j.sb.size + missing ip img places ≡ free_count img img.sb.size + places

no_places :
    (ip : Inode) (j : Image)
    → ((k : ℕ) → k < 13 → ip.addrs k ≡ 0)
    → (k : ℕ) → k < places
    → place ip j k ≡ 0
no_places ip j h k l = elim (Bool-cases (ltb k 13)) [
  | inl e ↦ place_low ip j k (ground (arith, e)) ∙ h k (ground (arith, e))
  | inr e ↦ place_none ip j k (ground (arith, e)) (h ndirect (omega arith))
]

pub no_places-HasBlocks :
    (ip : Inode) (j : Image)
    → IsImage j
    → ((k : ℕ) → k < places → place ip j k ≡ 0)
    → HasBlocks ip j
no_places-HasBlocks ip j v h = record {
  valid = v;
  data_block = λ k l n. absurd (n (h k l));
  on_disk = λ k l n. absurd (n (h k l));
  taken = λ k l n. absurd (n (h k l));
  apart = λ k i l y n e. absurd (n (h k l));
}

holes-missing : (ip : Inode) (img : Image) (n : ℕ) → holes (place ip img) n ≡ missing ip img n
unfolding missing
holes-missing ip img zero = refl
holes-missing ip img (suc n) =
    ap (λ m. (if place ip img n == 0 then 1 else 0) + m) (holes-missing ip img n)

holes_all : (q : ℕ → ℕ) (n : ℕ) → ((k : ℕ) → k < n → q k ≡ 0) → holes q n ≡ n
holes_all q zero h = refl
holes_all q (suc n) h = ground (arith, h n (omega arith), holes_all q n (λ k l. h k (omega arith)))

itrunc_returns :
    (ip : Inode) (img : Image) (ip1 : Inode) (j : Image)
    → (free_direct ndirect 0 ip img >>= λ (ip, img). rest ip img) ≡ ok (ip1, j)
    → itrunc ip img ≡ ok (record ip1 { size = 0 }, iupdate (record ip1 { size = 0 }) j)
unfolding itrunc
itrunc_returns ip img ip1 j e =
    let (a, p, q) = >>=-ok (free_direct ndirect 0 ip img) (λ (ip, img). rest ip img) e in
    rw (p, q) refl

gained_sum :
    (after_all after before q p m : ℕ)
    → after_all ≡ after
    → before + q ≡ after + p
    → q ≡ places
    → p ≡ m
    → after_all + m ≡ before + places
gained_sum after_all after before q p m a b c d = omega arith

after_Truncated :
    (ip : Inode) (img : Image)
    → HasBlocks ip img
    → InTable ip.inum img
    → (ip2 : Inode) (j : Image) (q : ℕ → ℕ) → ip2 ≡ record ip { addrs = ip2.addrs; size = ip2.size }
    → ip2.size ≡ 0
    → ((k : ℕ) → k < 13 → ip2.addrs k ≡ 0)
    → ((k : ℕ) → k < places → q k ≡ 0)
    → Shrinks (place ip img) img q j
    → Truncated ip img ip2 (iupdate ip2 j)
after_Truncated ip img w t ip2 j q f y a z g =
    let h : HasBlocks ip2 j = no_places-HasBlocks ip2 j g.owns.valid (no_places ip2 j a) in
    let same : ip2.inum ≡ ip.inum = ap (λ i. i.inum) f in
    let in_table : InTable ip2.inum j = rw (same, g.sb_same) t in
    let u = iupdate-Keeps ip2 j h in_table in
    record {
      fields = f;
      sb_same = u.sb_same ∙ g.sb_same;
      no_size = y;
      no_blocks = no_places ip2 (iupdate ip2 j) a;
      has = u.has;
      freed = λ k l n.
          iupdate-in_use ip2 j h in_table (place ip img k) (rw g.sb_same (w.on_disk k l n))
          ∙ g.freed k l n (z k l);
      kept = λ b o.
          iupdate-in_use ip2 j h in_table b (rw g.sb_same o.on_disk)
          ∙ g.kept b o.in_data o.on_disk o.taken o.other;
      frame = λ b d. iupdate-block ip2 j h in_table b (rw g.sb_same d) ∙ g.frame b d;
      gained =
          gained_sum _ _ _ _ _ _ (iupdate-free_count ip2 j h in_table) g.count
            (holes_all q places z) (holes-missing ip img places);
    }

-- `itrunc` returns, with no blocks and no size: the blocks that the inode had are free, and as many more
-- are free as it had; those of other files are as they were.
pub itrunc-Truncated :
    (ip : Inode) (img : Image)
    → HasBlocks ip img
    → InTable ip.inum img
    → (ip2 : Inode) × (j : Image) × (itrunc ip img ≡ ok (ip2, j)) × Truncated ip img ip2 j
unfolding itrunc
itrunc-Truncated ip img w t =
    let (ip1, j, q, e, f, a, z, g) = emptied ip img w in
    let ip2 : Inode = record ip1 { size = 0 } in
    let same : ip2 ≡ record ip { addrs = ip2.addrs; size = ip2.size } =
      ap {A = Inode} {B = Inode} (λ i. record i { size = 0 }) f in
    (
      ip2,
      iupdate ip2 j,
      itrunc_returns ip img ip1 j e,
      after_Truncated ip img w t ip2 j q same refl a z g,
    )
