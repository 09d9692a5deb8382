-- ===== src/Inode/Grow.antt =====
-- fs.c: an inode with one more block, and what is left as it was.
use osass.Base.{
  ℕ, zero, suc, ◌*◌, ◌/◌, ◌%◌, ◌≤◌, ◌<◌, ◌≡◌, ◌≢◌, refl, sym, ap, ◌∙◌, true, false, ◌||◌, ◌==◌,
  if◌then◌else◌, ==→eq, ==_false→ne, Bool-cases, inl, inr, arith,
}
use osass.Image.{bsize, Image}
use osass.Image.Map.{in_use, data_start, IsImage}
use osass.Image.Alloc.{free_count}
use osass.Inode.{Inode, ndirect, maxfile}
use osass.Inode.Slots.{places, place, place_of, byte_at, missing, HasBlocks}

-- The inode `ip2` on `j` is `ip` on `img` with the zeroed block `a` at place `s`.
pub record Grown (s a : ℕ) (ip : Inode) (img : Image) (ip2 : Inode) (j : Image) : Type 0 where
  pub in_range : s < places
  pub was_empty : place ip img s ≡ 0
  pub was_free : in_use img a ≡ false
  pub in_data : data_start img.sb ≤ a
  pub on_disk : a < img.sb.size
  pub sb_same : j.sb ≡ img.sb
  pub marked : (x : ℕ) → x < img.sb.size → in_use j x ≡ ((a == x) || in_use img x)
  pub zeroed : (i : ℕ) → i < bsize → j.block a i ≡ 0
  pub frame :
      (b : ℕ)
      → data_start img.sb ≤ b
      → in_use img b ≡ true
      → b ≢ ip.addrs ndirect
      → j.block b ≡ img.block b
  pub below : (b : ℕ) → b < img.sb.bmapstart → j.block b ≡ img.block b
  pub placed : (k : ℕ) → k < places → place ip2 j k ≡ (if s == k then a else place ip img k)
  pub valid : IsImage j
  pub count : free_count img img.sb.size ≡ suc (free_count j j.sb.size)

missing_same :
    (ip ip2 : Inode) (img j : Image) (n : ℕ)
    → ((k : ℕ) → k < n → place ip2 j k ≡ place ip img k)
    → missing ip img n ≡ missing ip2 j n
unfolding missing
missing_same ip ip2 img j zero h = refl
missing_same ip ip2 img j (suc n) h =
    ground (arith, h n (omega arith), missing_same ip ip2 img j n (λ k p. h k (omega arith)))

missing_put :
    (ip ip2 : Inode) (img j : Image) (n s a : ℕ)
    → s < n
    → place ip img s ≡ 0
    → 0 < a
    → ((k : ℕ) → k < n → place ip2 j k ≡ (if s == k then a else place ip img k))
    → missing ip img n ≡ suc (missing ip2 j n)
unfolding missing
missing_put ip ip2 img j zero s a l e z h = absurd (omega arith)
missing_put ip ip2 img j (suc n) s a l e z h = elim (Bool-cases (s == n)) [
  | inl q ↦ ground (
    arith,
    q,
    e,
    h n (omega arith),
    missing_same ip ip2 img j n (λ k p. ground (arith, q, h k (omega arith))),
  )
  | inr q ↦ ground (
    arith,
    q,
    h n (omega arith),
    missing_put ip ip2 img j n s a (ground (arith, q)) e z (λ k p. h k (omega arith)),
  )
]

module _ {s a : ℕ} {ip : Inode} {img : Image} {ip2 : Inode} {j : Image} (w : HasBlocks ip img)
    (g : Grown s a ip img ip2 j) where
  a_pos : 0 < a
  a_pos = omega (arith, g.in_data)

  pub missing-Grown : missing ip img places ≡ suc (missing ip2 j places)
  missing-Grown = missing_put ip ip2 img j places s a g.in_range g.was_empty a_pos g.placed

  ne_a : (k : ℕ) → k < places → place ip img k ≢ 0 → place ip img k ≢ a
  ne_a k l n e = absurd (cc (w.taken k l n, ap (in_use img) e, g.was_free))

  pub Grown-HasBlocks : HasBlocks ip2 j
  Grown-HasBlocks = record {
    valid = g.valid;
    data_block =
        λ k l n. rw g.sb_same (ground (arith, g.placed k l, g.in_data, w.data_block k l, n));
    on_disk = λ k l n. rw g.sb_same (ground (arith, g.placed k l, g.on_disk, w.on_disk k l, n));
    taken = λ k l n. elim (Bool-cases (s == k)) [
      | inl e ↦
          let p : place ip2 j k ≡ a = g.placed k l ∙ rw e refl in
          ap (in_use j) p ∙ ground (arith, g.marked a g.on_disk)
      | inr e ↦
          let p : place ip2 j k ≡ place ip img k = g.placed k l ∙ rw e refl in
          let z : place ip img k ≢ 0 = λ q. n (p ∙ q) in
          ap (in_use j) p
          ∙ ground (arith, g.marked (place ip img k) (w.on_disk k l z), w.taken k l z)
    ];
    apart = λ k l p q n e.
        ground (arith, g.placed k p, g.placed l q, ne_a k p, ne_a l q, w.apart k l p q, e, n);
  }

  kept_block :
      (k : ℕ)
      → k < places
      → k ≢ ndirect
      → place ip img k ≢ 0
      → j.block (place ip img k) ≡ img.block (place ip img k)
  unfolding place
  kept_block k l q n =
      g.frame (place ip img k) (w.data_block k l n) (w.taken k l n)
        (λ e. q (w.apart k ndirect l (omega arith) n e))

  pub byte_at-Grown : (o : ℕ) → o < maxfile * bsize → byte_at ip2 j o ≡ byte_at ip img o
  unfolding byte_at
  byte_at-Grown o l =
      let k = place_of (o / bsize) in
      let lk : k < places = ground arith in
      let d : k ≢ ndirect = ground arith in
      elim (Bool-cases (s == k)) [
        | inl e ↦
            let p : place ip2 j k ≡ a = g.placed k lk ∙ rw e refl in
            let q : place ip img k ≡ 0 = ap (place ip img) (sym (==→eq s k e)) ∙ g.was_empty in
            rw (p, q) (ground (arith, a_pos, g.zeroed (o % bsize)))
        | inr e ↦
            let p : place ip2 j k ≡ place ip img k = g.placed k lk ∙ rw e refl in
            elim (Bool-cases (place ip img k == 0)) [
              | inl z ↦ rw (p, z) refl
              | inr z ↦ rw (p, z) (ap (λ m. m (o % bsize)) (kept_block k lk d (==_false→ne _ _ z)))
            ]
      ]
