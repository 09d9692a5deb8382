-- ===== src/Inode/Emptied.antt =====
-- fs.c: the loops of `itrunc`, one after the other.
use osass.Base.{
  ℕ, ◌+◌, ◌*◌, ◌≤◌, ◌<◌, ◌≡◌, ◌≢◌, refl, sym, ap, subst, ◌∙◌, ◌==◌, if◌then◌else◌, ==→eq,
  ==_false→ne, ne→==_false, Bool-cases, inl, inr, arith, Outcome, ok, ◌>>=◌,
}
use osass.Base.Words.{get32}
use osass.Log.Blocks.{at}
use osass.Image.{Image, bfree}
use osass.Image.Map.{data_start}
use osass.Inode.{Inode, ndirect, nindirect, set_addr, free_direct, free_indirect}
use osass.Inode.Slots.{places, place, place_low, place_none, place_high, HasBlocks}
use osass.Inode.Owns.{Owns, Shrinks, Shrinks-trans}
use osass.Inode.Trunc.{without, cleared, given_back, free_indirect-Frees, free_direct-Frees}

-- The places of an inode are what it owns.
HasBlocks-Owns : (ip : Inode) (img : Image) → HasBlocks ip img → Owns (place ip img) img
HasBlocks-Owns ip img w = record {
  valid = w.valid;
  data_block = w.data_block;
  on_disk = w.on_disk;
  taken = w.taken;
  apart = w.apart;
}

-- Every place is cleared.
abbrev pub Emptied : Inode → Image → Outcome (Inode × Image) → Type 0
Emptied ip img e =
    (ip2 : Inode) × (j : Image) × (q : ℕ → ℕ) × (e ≡ ok (ip2, j))
    × (ip2 ≡ record ip { addrs = ip2.addrs })
    × ((k : ℕ) → k < 13 → ip2.addrs k ≡ 0)
    × ((k : ℕ) → k < places → q k ≡ 0)
    × Shrinks (place ip img) img q j

-- The part of `itrunc` behind its first loop.
abbrev pub rest : Inode → Image → Outcome (Inode × Image)
rest ip img =
    if ip.addrs ndirect == 0
    then ok (ip, img)
    else (free_indirect (ip.addrs ndirect) nindirect 0 img >>= λ img.
        bfree (ip.addrs ndirect) img >>= λ img. ok (set_addr ndirect 0 ip, img))

rest_returns :
    (ip : Inode) (j j2 j3 : Image) (b : ℕ)
    → ip.addrs ndirect ≡ b
    → b ≢ 0
    → free_indirect b nindirect 0 j ≡ ok j2
    → bfree b j2 ≡ ok j3
    → rest ip j ≡ ok (set_addr ndirect 0 ip, j3)
rest_returns ip j j2 j3 b z n e f = rw (z, ne→==_false b 0 n, e, f) refl

all_cleared :
    (p : ℕ → ℕ) (k : ℕ)
    → k < places
    → without ndirect (cleared (13 + 0) nindirect (cleared 0 ndirect p)) k ≡ 0
all_cleared p k l = ground arith

addrs_cleared : (p q : ℕ → ℕ) (k : ℕ) → q k ≡ cleared 0 ndirect p k → k < 13 → at ndirect 0 q k ≡ 0
addrs_cleared p q k e l = ground arith

entry_kept : (p : ℕ → ℕ) (k : ℕ) → cleared 0 ndirect p (13 + k) ≡ p (13 + k)
entry_kept p k = ground arith

module _ (ip : Inode) (img : Image) (w : HasBlocks ip img) (ip1 : Inode) (j : Image)
    (f : ip1 ≡ record ip { addrs = ip1.addrs })
    (h : (k : ℕ) → ip1.addrs k ≡ cleared 0 ndirect ip.addrs k)
    (g : Shrinks (place ip img) img (cleared 0 ndirect (place ip img)) j) where
  abbrev p : ℕ → ℕ
  p = place ip img

  low : p ndirect ≡ ip.addrs ndirect
  low = place_low ip img ndirect (omega arith)

  rest_none : ip.addrs ndirect ≡ 0 → Emptied ip img (rest ip1 j)
  rest_none e =
      let z : ip1.addrs ndirect ≡ 0 = h ndirect ∙ e in
      (
        ip1,
        j,
        cleared 0 ndirect p,
        rw z refl,
        f,
        (λ k l. ground (arith, h k, z)),
        (λ k l. ground (arith, low, e, place_none ip img k)),
        g,
      )

  rest_some : ip.addrs ndirect ≢ 0 → Emptied ip img (rest ip1 j)
  rest_some n =
      let b = ip.addrs ndirect in
      let z : ip1.addrs ndirect ≡ b = h ndirect in
      let d : data_start img.sb ≤ b =
        subst (λ x. data_start img.sb ≤ x) low
          (w.data_block ndirect (omega arith) (λ e. n (sym low ∙ e))) in
      let same : j.block b ≡ img.block b = g.frame b d in
      let words : (k : ℕ)
          → 0 ≤ k
          → k < nindirect
          → cleared 0 ndirect p (13 + k) ≡ get32 (j.block b) (4 * k) =
        λ k y l.
          entry_kept p k
          ∙ place_high ip img (13 + k) (omega arith) n
          ∙ ap (λ i. get32 (img.block b) (4 * i)) (omega arith)
          ∙ sym (ap (λ m. get32 m (4 * k)) same) in
      let (j2, e2, g2) =
        free_indirect-Frees b nindirect 0 (cleared 0 ndirect p) j g.owns (omega arith)
          (rw g.sb_same d) words in
      let q2 = cleared (13 + 0) nindirect (cleared 0 ndirect p) in
      let there : q2 ndirect ≡ b = low in
      let (j3, e3, g3) = given_back q2 j2 ndirect g2.owns (omega arith) (λ e. n (sym there ∙ e)) in
      let returns : bfree b j2 ≡ ok j3 = ap (λ x. bfree x j2) (sym there) ∙ e3 in
      (
        set_addr ndirect 0 ip1,
        j3,
        without ndirect q2,
        rest_returns ip1 j j2 j3 b z n e2 returns,
        ap (set_addr ndirect 0) f,
        (λ k l. addrs_cleared ip.addrs ip1.addrs k (h k) l),
        (λ k l. all_cleared p k l),
        Shrinks-trans (HasBlocks-Owns ip img w) g (Shrinks-trans g.owns g2 g3),
      )

  rest-Emptied : Emptied ip img (rest ip1 j)
  rest-Emptied = elim (Bool-cases (ip.addrs ndirect == 0)) [
    | inl e ↦ rest_none (==→eq _ _ e)
    | inr e ↦ rest_some (==_false→ne _ _ e)
  ]

pub emptied :
    (ip : Inode) (img : Image)
    → HasBlocks ip img
    → Emptied ip img (free_direct ndirect 0 ip img >>= λ (ip, img). rest ip img)
emptied ip img w =
    let (ip1, j, e, f, h, g) =
      free_direct-Frees ndirect 0 (place ip img) ip img (HasBlocks-Owns ip img w) (omega arith)
        (λ k l. place_low ip img k l) in
    rw e (rest-Emptied ip img w ip1 j f h g)
