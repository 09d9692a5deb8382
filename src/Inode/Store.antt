-- ===== src/Inode/Store.antt =====
-- fs.c: new data in one block of a file.
use osass.Base.{
  ℕ, zero, suc, ◌*◌, ◌/◌, ◌%◌, ◌≤◌, ◌<◌, ◌≡◌, ◌≢◌, refl, sym, ap, subst, ◌∙◌, ◌==◌, if◌then◌else◌,
  ==→eq, ==_false→ne, ne→==_false, eq→==, Bool-cases, inl, inr, arith, Memory,
}
use osass.Image.{bsize, Image, update_block}
use osass.Image.Map.{in_use, data_start}
use osass.Image.Update.{Clear, data-Clear, update-in_use, update-free_count, update-IsImage}
use osass.Inode.{Inode, ndirect, maxfile}
use osass.Inode.Slots.{places, place, place_low, place_of, byte_at, missing, HasBlocks}
use osass.Inode.Mapping.{Foreign, OtherSlot, Keeps}

pub missing_same :
    (ip ip2 : Inode) (img j : Image) (n : ℕ)
    → ((k : ℕ) → k < n → place ip2 j k ≡ place ip img k)
    → missing ip2 j n ≡ missing ip img n
unfolding missing
missing_same ip ip2 img j zero h = refl
missing_same ip ip2 img j (suc n) h =
    ground (arith, h n (omega arith), missing_same ip ip2 img j n (λ k p. h k (omega arith)))

same_place : (a b : ℕ) → place_of a ≡ place_of b → a ≡ b
same_place a b e = ground arith

-- A block `b` whose change leaves the places of the inode.
module _ (ip : Inode) (img : Image) (w : HasBlocks ip img) (b : ℕ) (m : Memory) (c : Clear img b)
    (bytes : (i : ℕ) → m i < 256) (n : b ≢ ip.addrs ndirect) where
  abbrev after : Image
  after = update_block b m img

  others : (x : ℕ) → b ≢ x → after.block x ≡ img.block x
  others x r = rw (ne→==_false b x r) refl

  pub update-place : (k : ℕ) → k < places → place ip after k ≡ place ip img k
  unfolding place
  update-place k l = rw (others (ip.addrs ndirect) n) refl

  same_use : (x : ℕ) → x < img.sb.size → in_use after x ≡ in_use img x
  same_use x l = update-in_use img w.valid b m c x (omega arith)

  pub update-HasBlocks : HasBlocks ip after
  update-HasBlocks = record {
    valid = update-IsImage img w.valid b m c bytes;
    data_block = λ k l z. ground (arith, update-place k l, w.data_block k l, z);
    on_disk = λ k l z. ground (arith, update-place k l, w.on_disk k l, z);
    taken = λ k l z.
        let e = update-place k l in
        let y : place ip img k ≢ 0 = λ r. z (e ∙ r) in
        ap (in_use after) e ∙ same_use (place ip img k) (w.on_disk k l y) ∙ w.taken k l y;
    apart =
        λ k l p q z e. ground (arith, update-place k p, update-place l q, w.apart k l p q, e, z);
  }

  pub update-Keeps :
      ((x : ℕ) → Foreign x ip img → b ≢ x)
      → ((x i : ℕ) → x < img.sb.bmapstart → OtherSlot ip img x i → after.block x i ≡ img.block x i)
      → Keeps ip img ip after
  update-Keeps h t = record {
    sb_same = refl;
    fields = refl;
    has = update-HasBlocks;
    foreign = λ x f. record {
      in_data = f.in_data;
      on_disk = f.on_disk;
      taken = same_use x f.on_disk ∙ f.taken;
      other = λ k l e. f.other k l (sym (update-place k l) ∙ e);
    };
    frame = λ x f. others x (h x f);
    table = t;
    balance = omega (
      arith,
      missing_same ip ip img after places update-place,
      update-free_count img w.valid b m c,
    );
  }

  pub update-byte_at :
      (o : ℕ)
      → o < maxfile * bsize
      → ((k : ℕ) → k < places → place ip img k ≢ 0 → b ≢ place ip img k)
      → byte_at ip after o ≡ byte_at ip img o
  unfolding byte_at
  update-byte_at o l h =
      let k = place_of (o / bsize) in
      let kl : k < places = ground arith in
      rw (update-place k kl) (elim (Bool-cases (place ip img k == 0)) [
        | inl z ↦ rw z refl
        | inr z ↦ rw (z, ne→==_false b (place ip img k) (h k kl (==_false→ne _ _ z))) refl
      ])

module _ (ip : Inode) (img : Image) (w : HasBlocks ip img) (bn b : ℕ) (l : bn < maxfile)
    (e : place ip img (place_of bn) ≡ b) (n : b ≢ 0) (m : Memory)
    (bytes : (i : ℕ) → m i < 256) where
  k_lt : place_of bn < places
  k_lt = ground arith

  k_ne : place_of bn ≢ ndirect
  k_ne = ground arith

  in_data : data_start img.sb ≤ b
  in_data =
      subst (λ b. data_start img.sb ≤ b) e (w.data_block (place_of bn) k_lt (λ r. n (sym e ∙ r)))

  b-Clear : Clear img b
  b-Clear = data-Clear img b w.valid in_data

  not_indirect : b ≢ ip.addrs ndirect
  not_indirect r = k_ne (
      w.apart (place_of bn) ndirect k_lt (omega arith) (λ y. n (sym e ∙ y))
        (e ∙ r ∙ sym (place_low ip img ndirect (omega arith))))

  pub store-Keeps : Keeps ip img ip (update_block b m img)
  store-Keeps =
      update-Keeps ip img w b m b-Clear bytes not_indirect
        (λ x f r. f.other (place_of bn) k_lt (e ∙ r))
        (λ x i q o. rw (ne→==_false b x (λ y. omega (arith, in_data, y, q))) refl)

  pub store-byte_at :
      (o : ℕ)
      → o < maxfile * bsize
      → byte_at ip (update_block b m img) o
        ≡ (if o / bsize == bn then m (o % bsize) else byte_at ip img o)
  unfolding byte_at
  store-byte_at o p =
      let k = place_of (o / bsize) in
      let kl : k < places = ground arith in
      let same : place ip (update_block b m img) k ≡ place ip img k =
        update-place ip img w b m b-Clear bytes not_indirect k kl in
      elim (Bool-cases (o / bsize == bn)) [
        | inl y ↦
            let here : place ip img k ≡ b = ap (λ i. place ip img (place_of i)) (==→eq _ _ y) ∙ e in
            rw (same, here, y) (rw (ne→==_false b 0 n, eq→== b b refl) refl)
        | inr y ↦
            rw (same, y)
              (elim (Bool-cases (place ip img k == 0)) [
                | inl z ↦ rw z refl
                | inr z ↦
                    let there : b ≢ place ip img k = λ r. ==_false→ne _ _ y (
                      same_place (o / bsize) bn
                        (w.apart k (place_of bn) kl k_lt (==_false→ne _ _ z) (sym r ∙ sym e))) in
                    rw (z, ne→==_false b (place ip img k) there) refl
              ])
      ]
