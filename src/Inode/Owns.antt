-- ===== src/Inode/Owns.antt =====
-- fs.c: the blocks that a list of places names, and giving them back one by one.
use osass.Base.{
  ℕ, zero, suc, ◌+◌, ◌≤◌, ◌<◌, ◌≡◌, ◌≢◌, refl, sym, ap, subst, ◌∙◌, true, false, ◌==◌,
  if◌then◌else◌, ==→eq, ==_false→ne, Bool-cases, inl, inr, arith,
}
use osass.Image.{Image}
use osass.Image.Map.{in_use, data_start, IsImage}
use osass.Image.Alloc.{free_count}
use osass.Image.Free.{Gave}
use osass.Inode.Slots.{places}

-- How many of the first `n` places name no block.
abbrev pub holes : (ℕ → ℕ) → ℕ → ℕ
holes p zero = 0
holes p (suc n) = (if p n == 0 then 1 else 0) + holes p n

-- The places name data blocks in use, and no two the same.
pub record Owns (p : ℕ → ℕ) (img : Image) : Type 0 where
  pub valid : IsImage img
  pub data_block : (k : ℕ) → k < places → p k ≢ 0 → data_start img.sb ≤ p k
  pub on_disk : (k : ℕ) → k < places → p k ≢ 0 → p k < img.sb.size
  pub taken : (k : ℕ) → k < places → p k ≢ 0 → in_use img (p k) ≡ true
  pub apart : (k l : ℕ) → k < places → l < places → p k ≢ 0 → p k ≡ p l → k ≡ l

-- The places `q` are those of `p`, less some whose blocks are free on `j`.
pub record Shrinks (p : ℕ → ℕ) (img : Image) (q : ℕ → ℕ) (j : Image) : Type 0 where
  pub sb_same : j.sb ≡ img.sb
  pub owns : Owns q j
  pub sub : (k : ℕ) → k < places → q k ≢ 0 → q k ≡ p k
  pub frame : (b : ℕ) → data_start img.sb ≤ b → j.block b ≡ img.block b
  pub kept :
      (x : ℕ)
      → data_start img.sb ≤ x
      → x < img.sb.size
      → in_use img x ≡ true
      → ((k : ℕ) → k < places → p k ≢ x)
      → in_use j x ≡ true
  pub no_new : (x : ℕ) → x < img.sb.size → in_use img x ≡ false → in_use j x ≡ false
  pub freed : (k : ℕ) → k < places → p k ≢ 0 → q k ≡ 0 → in_use j (p k) ≡ false
  pub count : free_count img img.sb.size + holes q places ≡ free_count j j.sb.size + holes p places

holes_same : (p q : ℕ → ℕ) (n : ℕ) → ((k : ℕ) → k < n → q k ≡ p k) → holes q n ≡ holes p n
holes_same p q zero h = refl
holes_same p q (suc n) h =
    ground (arith, h n (omega arith), holes_same p q n (λ k l. h k (omega arith)))

holes_put :
    (p q : ℕ → ℕ) (n s : ℕ)
    → s < n
    → p s ≢ 0
    → ((k : ℕ) → k < n → q k ≡ (if s == k then 0 else p k))
    → holes q n ≡ suc (holes p n)
holes_put p q zero s l z h = absurd (omega arith)
holes_put p q (suc n) s l z h = elim (Bool-cases (s == n)) [
  | inl e ↦
      let y : p n ≢ 0 = subst (λ k. p k ≢ 0) (==→eq s n e) z in
      ground (
        arith,
        e,
        y,
        h n (omega arith),
        holes_same p q n (λ k b. ground (arith, e, h k (omega arith))),
      )
  | inr e ↦ ground (
    arith,
    e,
    h n (omega arith),
    holes_put p q n s (ground (arith, e)) z (λ k b. h k (omega arith)),
  )
]

pub Shrinks-same :
    (p q : ℕ → ℕ) (img : Image)
    → Owns p img
    → ((k : ℕ) → k < places → q k ≡ p k)
    → Shrinks p img q img
Shrinks-same p q img w h = record {
  sb_same = refl;
  owns = record {
    valid = w.valid;
    data_block = λ k l n. ground (arith, h k l, w.data_block k l, n);
    on_disk = λ k l n. ground (arith, h k l, w.on_disk k l, n);
    taken = λ k l n. ap (in_use img) (h k l) ∙ w.taken k l (λ e. n (h k l ∙ e));
    apart = λ k i l y n e. ground (arith, h k l, h i y, w.apart k i l y, n, e);
  };
  sub = λ k l n. h k l;
  frame = λ b d. refl;
  kept = λ x d l u n. u;
  no_new = λ x l f. f;
  freed = λ k l n z. absurd (n (sym (h k l) ∙ z));
  count = ap (λ m. free_count img img.sb.size + m) (holes_same p q places h);
}

sum_trans : (a b c x y z : ℕ) → a + y ≡ b + x → b + z ≡ c + y → a + z ≡ c + x
sum_trans a b c x y z e f = omega arith

pub Shrinks-trans :
    {p q r : ℕ → ℕ} {img j h : Image}
    → Owns p img
    → Shrinks p img q j
    → Shrinks q j r h
    → Shrinks p img r h
Shrinks-trans {p} {q} {r} {img} {j} {h} w a b = record {
  sb_same = b.sb_same ∙ a.sb_same;
  owns = b.owns;
  sub = λ k l n. b.sub k l n ∙ a.sub k l (λ e. n (b.sub k l n ∙ e));
  frame = λ x d. b.frame x (rw a.sb_same d) ∙ a.frame x d;
  kept = λ x d l u n.
      b.kept x (rw a.sb_same d) (rw a.sb_same l) (a.kept x d l u n)
        (λ k y e. n k y (sym (a.sub k y (omega (arith, e, d))) ∙ e));
  no_new = λ x l f. b.no_new x (rw a.sb_same l) (a.no_new x l f);
  freed = λ k l n z. elim (Bool-cases (q k == 0)) [
    | inl e ↦ b.no_new (p k) (rw a.sb_same (w.on_disk k l n)) (a.freed k l n (==→eq _ _ e))
    | inr e ↦
        let y : q k ≢ 0 = ==_false→ne _ _ e in ap (in_use h) (sym (a.sub k l y)) ∙ b.freed k l y z
  ];
  count = sum_trans _ _ _ _ _ _ a.count b.count;
}

-- One block given back, and its place cleared.
pub Gave-Shrinks :
    (p q : ℕ → ℕ) (img j : Image) (s : ℕ)
    → Owns p img
    → s < places
    → p s ≢ 0
    → Gave (p s) img j
    → ((k : ℕ) → k < places → q k ≡ (if s == k then 0 else p k))
    → Shrinks p img q j
Gave-Shrinks p q img j s w ls n g h =
    let other : (k : ℕ) → k < places → q k ≢ 0 → (q k ≡ p k) × (p s ≢ p k) =
      λ k l z. ground (arith, h k l, z, w.apart s k ls l n) in
    record {
      sb_same = g.sb_same;
      owns = record {
        valid = g.valid;
        data_block = λ k l z. rw g.sb_same (ground (arith, other k l z, w.data_block k l, z));
        on_disk = λ k l z. rw g.sb_same (ground (arith, other k l z, w.on_disk k l, z));
        taken = λ k l z.
            let (e, d) = other k l z in
            let y : p k ≢ 0 = λ r. z (e ∙ r) in
            ap (in_use j) e ∙ ground (arith, g.marked (p k) (w.on_disk k l y), w.taken k l y, d);
        apart = λ k i l y z e. ground (arith, h k l, h i y, w.apart k i l y, z, e);
      };
      sub = λ k l z. (other k l z).0;
      frame = g.frame;
      kept = λ x d l u z. ground (arith, g.marked x l, u, z s ls);
      no_new = λ x l f. ground (arith, g.marked x l, f);
      freed = λ k l z e.
          let same : p k ≡ p s = ground (arith, h k l, z, e) in
          ap (in_use j) same ∙ ground (arith, g.marked (p s) (w.on_disk s ls n));
      count = omega (arith, g.count, holes_put p q places s ls n h);
    }
