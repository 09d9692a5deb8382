-- ===== src/Inode/Trunc.antt =====
-- fs.c: the loops of `itrunc` give back every block of the inode.
use osass.Base.{
  ℕ, zero, suc, ◌+◌, ◌*◌, ◌≤◌, ◌<◌, ◌≡◌, ◌≢◌, refl, sym, ap, subst, ◌∙◌, ◌==◌, in_range,
  if◌then◌else◌, ==→eq, ==_false→ne, ne→==_false, Bool-cases, inl, inr, arith, Outcome, ok, panic,
  ◌>>=◌,
}
use osass.Base.Words.{get32}
use osass.Image.{Image, bfree}
use osass.Image.Map.{data_start}
use osass.Image.Free.{BfreeEnds, bfree-Gave}
use osass.Inode.{Inode, ndirect, nindirect, set_addr, free_direct, free_indirect}
use osass.Inode.Slots.{places}
use osass.Inode.Owns.{Owns, Shrinks, Shrinks-same, Shrinks-trans, Gave-Shrinks}

abbrev pub without : ℕ → (ℕ → ℕ) → ℕ → ℕ
without s p k = if s == k then 0 else p k

-- With `r` places from `i` on cleared.
abbrev pub cleared : ℕ → ℕ → (ℕ → ℕ) → ℕ → ℕ
cleared i r p k = if in_range i r k then 0 else p k

-- `e` returns an image on which the places are `q`.
abbrev pub Frees : (ℕ → ℕ) → Image → (ℕ → ℕ) → Outcome Image → Type 0
Frees p img q e = (j : Image) × (e ≡ ok j) × Shrinks p img q j

given :
    (p : ℕ → ℕ) (img : Image) (s : ℕ) (r : Outcome Image)
    → Owns p img
    → s < places
    → p s ≢ 0
    → BfreeEnds (p s) img r
    → Frees p img (without s p) r
given p img s (panic text) w l n e = absurd (cc (e, w.taken s l n))
given p img s (ok j) w l n (u, g) =
    (j, refl, Gave-Shrinks p (without s p) img j s w l n g (λ k y. refl))

pub given_back :
    (p : ℕ → ℕ) (img : Image) (s : ℕ)
    → Owns p img
    → s < places
    → p s ≢ 0
    → Frees p img (without s p) (bfree (p s) img)
given_back p img s w l n =
    given p img s (bfree (p s) img) w l n
      (bfree-Gave img (p s) w.valid (w.on_disk s l n) (w.data_block s l n))

without_none : (p : ℕ → ℕ) (s k : ℕ) → p s ≡ 0 → without s p k ≡ p k
without_none p s k e = elim (Bool-cases (s == k)) [
  | inl z ↦ rw z (sym e ∙ ap p (==→eq s k z))
  | inr z ↦ rw z refl
]

none_there :
    (p : ℕ → ℕ) (img : Image) (s : ℕ) → Owns p img → p s ≡ 0 → Shrinks p img (without s p) img
none_there p img s w e = Shrinks-same p (without s p) img w (λ k y. without_none p s k e)

if_given :
    (p : ℕ → ℕ) (img : Image) (s : ℕ)
    → Owns p img
    → s < places
    → Frees p img (without s p) (if p s == 0 then ok img else bfree (p s) img)
if_given p img s w l = elim (Bool-cases (p s == 0)) [
  | inl e ↦ (img, rw e refl, none_there p img s w (==→eq _ _ e))
  | inr e ↦ let (j, a, g) = given_back p img s w l (==_false→ne _ _ e) in (j, rw e a, g)
]

cleared_step :
    (s r : ℕ) (p : ℕ → ℕ) (k : ℕ) → cleared s (suc r) p k ≡ cleared (s + 1) r (without s p) k
cleared_step s r p k = elim (Bool-cases (s == k)) [
  | inl e ↦ ground (arith, e)
  | inr e ↦ rw e (ap (λ b. if b then 0 else p k) (ground (arith, e)))
]

-- Clearing one place, then those behind it.
then_cleared :
    (s r : ℕ) (p : ℕ → ℕ) {img j h : Image}
    → Owns p img
    → Shrinks p img (without s p) j
    → Shrinks (without s p) j (cleared (s + 1) r (without s p)) h
    → Shrinks p img (cleared s (suc r) p) h
then_cleared s r p w g g2 = Shrinks-trans w (Shrinks-trans w g g2) (
    Shrinks-same (cleared (s + 1) r (without s p)) (cleared s (suc r) p) _ g2.owns
      (λ k l. cleared_step s r p k))

pub free_indirect-Frees :
    (b r i : ℕ) (p : ℕ → ℕ) (img : Image)
    → Owns p img
    → i + r ≡ nindirect
    → data_start img.sb ≤ b
    → ((k : ℕ) → i ≤ k → k < nindirect → p (13 + k) ≡ get32 (img.block b) (4 * k))
    → Frees p img (cleared (13 + i) r p) (free_indirect b r i img)
unfolding free_indirect
free_indirect-Frees b zero i p img w l d h =
    (img, refl, Shrinks-same p (cleared (13 + i) 0 p) img w (λ k y. ground arith))
free_indirect-Frees b (suc r) i p img w l d h =
    let (j, e, g) = if_given p img (13 + i) w (omega arith) in
    let step : (if get32 (img.block b) (4 * i) == 0
          then ok img
          else bfree (get32 (img.block b) (4 * i)) img)
        ≡ ok j =
      rw (← h i (omega arith) (omega arith)) e in
    let (j2, f, g2) =
      free_indirect-Frees b r (i + 1) (without (13 + i) p) j g.owns (omega arith) (rw g.sb_same d)
        (λ k y z.
          rw (ne→==_false (13 + i) (13 + k) (omega (arith, y)), g.frame b d)
            (h k (omega (arith, y)) z)) in
    (
      j2,
      rw step f,
      then_cleared (13 + i) r p w g (
          subst (λ s. Shrinks (without (13 + i) p) j (cleared s r (without (13 + i) p)) j2)
            (omega arith) g2),
    )

-- `free_direct` clears `addrs`, and gives the blocks back.
abbrev pub FreesDirect : ℕ → ℕ → (ℕ → ℕ) → Inode → Image → Outcome (Inode × Image) → Type 0
FreesDirect i r p ip img e =
    (ip2 : Inode) × (j : Image) × (e ≡ ok (ip2, j))
    × (ip2 ≡ record ip { addrs = ip2.addrs })
    × ((k : ℕ) → ip2.addrs k ≡ cleared i r ip.addrs k)
    × Shrinks p img (cleared i r p) j

then_direct :
    (r i : ℕ) (p : ℕ → ℕ) (ip ip1 : Inode) (img j : Image) (first : Outcome (Inode × Image))
    → Owns p img
    → first ≡ ok (ip1, j)
    → ip1 ≡ record ip { addrs = ip1.addrs }
    → ((k : ℕ) → ip1.addrs k ≡ without i ip.addrs k)
    → Shrinks p img (without i p) j
    → FreesDirect (i + 1) r (without i p) ip1 j (free_direct r (i + 1) ip1 j)
    → FreesDirect i (suc r) p ip img (first >>= λ (ip, img). free_direct r (i + 1) ip img)
then_direct r i p ip ip1 img j first w e f h g (ip2, j2, e2, f2, h2, g2) = (
  ip2,
  j2,
  rw (e, e2) refl,
  f2 ∙ ap {A = Inode} {B = Inode} (λ x. record x { addrs = ip2.addrs }) f,
  (λ k.
      h2 k
      ∙ ap (λ a. if in_range (i + 1) r k then 0 else a) (h k)
      ∙ sym (cleared_step i r ip.addrs k)),
  then_cleared i r p w g g2,
)

pub free_direct-Frees :
    (r i : ℕ) (p : ℕ → ℕ) (ip : Inode) (img : Image)
    → Owns p img
    → i + r ≡ ndirect
    → ((k : ℕ) → k < 13 → p k ≡ ip.addrs k)
    → FreesDirect i r p ip img (free_direct r i ip img)
unfolding free_direct
free_direct-Frees zero i p ip img w l h = (
  ip,
  img,
  refl,
  refl,
  (λ k. ground arith),
  Shrinks-same p (cleared i 0 p) img w (λ k y. ground arith),
)
free_direct-Frees (suc r) i p ip img w l h = elim (Bool-cases (ip.addrs i == 0)) [
  | inl e ↦
      let here : p i ≡ 0 = h i (omega (arith, l)) ∙ ==→eq _ _ e in
      let g = none_there p img i w here in
      let still : (k : ℕ) → ip.addrs k ≡ without i ip.addrs k =
        λ k. sym (without_none ip.addrs i k (==→eq _ _ e)) in
      then_direct r i p ip ip img img _ w (rw e refl) refl still g (
        free_direct-Frees r (i + 1) (without i p) ip img g.owns (omega (arith, l))
          (λ k y. rw (h k y) (sym (still k))))
  | inr e ↦
      let here : p i ≡ ip.addrs i = h i (omega (arith, l)) in
      let (j, a, g) =
        given_back p img i w (omega (arith, l)) (λ z. ==_false→ne _ _ e (sym here ∙ z)) in
      let b : bfree (ip.addrs i) img ≡ ok j = rw (← here) a in
      then_direct r i p ip (set_addr i 0 ip) img j _ w (rw (e, b) refl) refl (λ k. refl) g
        (free_direct-Frees r (i + 1) (without i p) (set_addr i 0 ip) j g.owns (omega (arith, l))
          (λ k y. rw (h k y) refl))
]
