-- ===== src/Inode/Fresh.antt =====
-- fs.c: a block that `balloc` gave, put at a place of the inode that has none.
use osass.Base.{
  ℕ, suc, ◌+◌, ◌-◌, ◌*◌, ◌^◌, ◌≤◌, ◌<◌, ◌≡◌, ◌≢◌, refl, sym, ap, subst, ◌∙◌, true, false, ◌==◌, ltb,
  if◌then◌else◌, ==→eq, ==_false→ne, ne→==_false, eq→==, lt→ltb, Bool-cases, inl, inr, arith,
}
use osass.Base.Words.{get32, put32, get32-put32_self, get32-put32_apart, put32_bytes}
use osass.Image.{bsize, Image, update_block}
use osass.Image.Map.{in_use, data_start}
use osass.Image.Alloc.{free_count, Took}
use osass.Image.Update.{
  Clear, data-Clear, update-in_use, update-free_count, update-IsImage, size_bound,
}
use osass.Inode.{Inode, set_addr, ndirect}
use osass.Inode.Slots.{places, place, place_low, place_none, place_high, HasBlocks}
use osass.Inode.Grow.{Grown}

module _ {a : ℕ} {ip : Inode} {img j : Image} (w : HasBlocks ip img) (l : a < img.sb.size)
    (f : in_use img a ≡ false) (d : data_start img.sb ≤ a) (t : Took a img j)
    (c : free_count img img.sb.size ≡ suc (free_count j j.sb.size)) where
  not_a : (b : ℕ) → in_use img b ≡ true → b ≢ a
  not_a b u e = absurd (cc (u, ap (in_use img) e, f))

  zero_word : (o : ℕ) → o + 4 ≤ bsize → get32 (j.block a) o ≡ 0
  unfolding get32
  zero_word o h = omega (
    arith,
    t.zeroed o (omega arith),
    t.zeroed (o + 1) (omega arith),
    t.zeroed (o + 2) (omega arith),
    t.zeroed (o + 3) (omega arith),
  )

  indirect_kept : ip.addrs ndirect ≢ 0 → j.block (ip.addrs ndirect) ≡ img.block (ip.addrs ndirect)
  unfolding place
  indirect_kept n =
      t.frame (ip.addrs ndirect) (w.data_block ndirect (omega arith) n)
        (not_a (ip.addrs ndirect) (w.taken ndirect (omega arith) n))

  high_placed :
      (s : ℕ)
      → s < 13
      → ip.addrs s ≡ 0
      → (k : ℕ) → 13 ≤ k
      → k < places
      → place (set_addr s a ip) j k ≡ place ip img k
  high_placed s h e k o q = elim (Bool-cases (s == ndirect)) [
    | inl z ↦
        let none_yet : ip.addrs ndirect ≡ 0 = ap ip.addrs (sym (==→eq s ndirect z)) ∙ e in
        let here : (set_addr s a ip).addrs ndirect ≡ a = rw z refl in
        place_high (set_addr s a ip) j k o (λ r. absurd (omega (arith, here, r, d)))
        ∙ ap (λ b. get32 (j.block b) (4 * (k - 13))) here
        ∙ zero_word (4 * (k - 13)) (omega arith)
        ∙ sym (place_none ip img k o none_yet)
    | inr z ↦
        let here : (set_addr s a ip).addrs ndirect ≡ ip.addrs ndirect = rw z refl in
        elim (Bool-cases (ip.addrs ndirect == 0)) [
          | inl y ↦
              place_none (set_addr s a ip) j k o (here ∙ ==→eq _ _ y)
              ∙ sym (place_none ip img k o (==→eq _ _ y))
          | inr y ↦
              let n : ip.addrs ndirect ≢ 0 = ==_false→ne _ _ y in
              place_high (set_addr s a ip) j k o (λ r. n (sym here ∙ r))
              ∙ ap (λ b. get32 (j.block b) (4 * (k - 13))) here
              ∙ ap (λ m. get32 m (4 * (k - 13))) (indirect_kept n)
              ∙ sym (place_high ip img k o n)
        ]
  ]

  direct_placed :
      (s : ℕ)
      → s < 13
      → ip.addrs s ≡ 0
      → (k : ℕ) → k < places
      → place (set_addr s a ip) j k ≡ (if s == k then a else place ip img k)
  direct_placed s h e k q = elim (Bool-cases (ltb k 13)) [
    | inl b ↦ ground (arith, b, place_low (set_addr s a ip) j k, place_low ip img k)
    | inr b ↦ high_placed s h e k (ground (arith, b)) q ∙ ground (arith, b)
  ]

  pub direct-Grown : (s : ℕ) → s < 13 → ip.addrs s ≡ 0 → Grown s a ip img (set_addr s a ip) j
  unfolding place
  direct-Grown s h e = record {
    in_range = omega arith;
    was_empty = rw (lt→ltb s 13 h) e;
    was_free = f;
    in_data = d;
    on_disk = l;
    sb_same = t.sb_same;
    marked = t.marked;
    zeroed = t.zeroed;
    frame = λ b p u n. t.frame b p (not_a b u);
    below = t.below;
    placed = direct_placed s h e;
    valid = t.valid;
    count = c;
  }

  module _ (n : ip.addrs ndirect ≢ 0) (k : ℕ) (h : k < 128)
      (e : get32 (img.block (ip.addrs ndirect)) (4 * k) ≡ 0) where
    abbrev b : ℕ
    b = ip.addrs ndirect

    abbrev after : Image
    after = update_block b (put32 (j.block b) (4 * k) a) j

    b_data : data_start j.sb ≤ b
    unfolding place
    b_data = rw t.sb_same (w.data_block ndirect (omega arith) n)

    b-Clear : Clear j b
    b-Clear = data-Clear j b t.valid b_data

    others : (c : ℕ) → b ≢ c → after.block c ≡ j.block c
    others c r = rw (ne→==_false b c r) refl

    here : after.block b ≡ put32 (j.block b) (4 * k) a
    here = rw (eq→== b b refl) refl

    word_at :
        (i : ℕ)
        → get32 (after.block b) (4 * i) ≡ (if k == i then a else get32 (img.block b) (4 * i))
    word_at i =
        let narrow : a < 2 ^ 32 = omega (arith, l, size_bound img w.valid) in
        ap (λ m. get32 m (4 * i)) here ∙ elim (Bool-cases (k == i)) [
          | inl y ↦ rw y (
              subst (λ i. get32 (put32 (j.block b) (4 * k) a) (4 * i) ≡ a) (==→eq k i y)
                (get32-put32_self (j.block b) (4 * k) a narrow))
          | inr y ↦ rw y (
              get32-put32_apart (j.block b) (4 * k) (4 * i) a (ground (arith, y))
              ∙ ap (λ m. get32 m (4 * i)) (indirect_kept n))
        ]

    indirect_placed :
        (i : ℕ) → i < places → place ip after i ≡ (if 13 + k == i then a else place ip img i)
    indirect_placed i q = elim (Bool-cases (ltb i 13)) [
      | inl y ↦ ground (arith, y, place_low ip after i, place_low ip img i)
      | inr y ↦
          let o : 13 ≤ i = ground (arith, y) in
          place_high ip after i o n ∙ ground (arith, y, word_at (i - 13), place_high ip img i o n)
    ]

    pub indirect-Grown : Grown (13 + k) a ip img ip after
    unfolding place
    indirect-Grown = record {
      in_range = omega arith;
      was_empty =
          place_high ip img (13 + k) (omega arith) n
          ∙ ap (λ i. get32 (img.block b) (4 * i)) (omega arith)
          ∙ e;
      was_free = f;
      in_data = d;
      on_disk = l;
      sb_same = t.sb_same;
      marked = λ x p.
          update-in_use j t.valid b (put32 (j.block b) (4 * k) a) b-Clear x
            (rw t.sb_same (omega arith))
          ∙ t.marked x p;
      zeroed = λ i q.
          ap (λ m. m i) (others a (λ r. not_a b (w.taken ndirect (omega arith) n) r))
          ∙ t.zeroed i q;
      frame = λ c p u r. others c (λ y. r (sym y)) ∙ t.frame c p (not_a c u);
      below = λ c p.
          others c (λ y. omega (arith, y, w.data_block ndirect (omega arith) n, p)) ∙ t.below c p;
      placed = indirect_placed;
      valid =
          update-IsImage j t.valid b (put32 (j.block b) (4 * k) a) b-Clear
            (λ i. put32_bytes (j.block b) (4 * k) a i (t.valid.bytes b i));
      count =
          c ∙ ap suc (sym (update-free_count j t.valid b (put32 (j.block b) (4 * k) a) b-Clear));
    }
