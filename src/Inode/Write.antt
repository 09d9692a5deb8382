-- ===== src/Inode/Write.antt =====
-- fs.c: the loop of `writei` puts its bytes into the file, and changes nothing else.
use osass.Base.{
  ℕ, zero, suc, ◌+◌, ◌-◌, ◌*◌, ◌/◌, ◌%◌, ◌≤◌, ◌<◌, ◌≡◌, ◌≢◌, refl, ap, subst, ◌∙◌, ◌==◌, ltb,
  in_range, if◌then◌else◌, ==→eq, ltb→lt, Bool-cases, inl, inr, arith, Memory, min, Outcome, ok,
  panic, ◌>>=◌,
}
use osass.Image.{bsize, Image, update_block}
use osass.Image.Alloc.{free_count}
use osass.Inode.{Inode, maxfile, bmap, copy_between, write_loop}
use osass.Inode.Slots.{places, place_of, place, byte_at, byte_at_mapped, missing, HasBlocks}
use osass.Inode.Mapping.{Keeps, Keeps-refl, Keeps-trans, MapEnds, bmap-MapEnds}
use osass.Inode.Store.{store-Keeps, store-byte_at}

-- The `n` bytes from `off` on are those of `mem` from `src` on, and the others are as before.
abbrev pub Stored : ℕ → ℕ → ℕ → Memory → Inode → Image → Inode → Image → Type 0
Stored n off src mem ip img ip2 j =
    (x : ℕ)
    → x < maxfile * bsize
    → byte_at ip2 j x ≡ (if in_range off n x then mem (src + (x - off)) else byte_at ip img x)

-- How the loop ends with `n` bytes to go.
abbrev pub WriteEnds : ℕ → ℕ → ℕ → Memory → Inode → Image → Outcome (ℕ × Inode × Image) → Type 0
WriteEnds n off src mem ip img (panic text) = free_count img img.sb.size < missing ip img places
WriteEnds n off src mem ip img (ok (o, ip2, j)) =
    (o ≡ off + n) × Keeps ip img ip2 j × (ip2.size ≡ ip.size) × Stored n off src mem ip img ip2 j

WriteEnds-done :
    (n off src : ℕ) (mem : Memory) (ip : Inode) (img : Image)
    → HasBlocks ip img
    → n ≡ 0
    → WriteEnds n off src mem ip img (ok (off, ip, img))
WriteEnds-done n off src mem ip img w z =
    (omega (arith, z), Keeps-refl ip img w, refl, λ x l. ground (arith, z))

WriteEnds-after :
    (n m off src : ℕ) (mem : Memory) {ip ip2 : Inode} {img j : Image}
    (r : Outcome (ℕ × Inode × Image))
    → m ≤ n
    → Keeps ip img ip2 j
    → ip2.size ≡ ip.size
    → Stored m off src mem ip img ip2 j
    → WriteEnds (n - m) (off + m) (src + m) mem ip2 j r
    → WriteEnds n off src mem ip img r
WriteEnds-after n m off src mem (panic text) l p z s q = omega (arith, p.balance, q)
WriteEnds-after n m off src mem (ok (o, ip3, h)) l p z s (e, q, y, t) =
    (omega (arith, e, l), Keeps-trans p q, y ∙ z, λ x b. ground (arith, t x b, s x b, l))

-- The part that one round stores, in the block `b` at its place.
module _ (m off src : ℕ) (mem : Memory) (ip : Inode) (img : Image) (b : ℕ) (w : HasBlocks ip img)
    (l : off < maxfile * bsize) (f : off % bsize + m ≤ bsize)
    (e : place ip img (place_of (off / bsize)) ≡ b) (n : b ≢ 0) (h : (i : ℕ) → mem i < 256) where
  abbrev filling : Memory
  filling = copy_between (img.block b) (off % bsize) mem src m

  filling_bytes : (i : ℕ) → filling i < 256
  filling_bytes i = ground (arith, h (src + (i - off % bsize)), w.valid.bytes b i)

  part-Stored : Stored m off src mem ip img ip (update_block b filling img)
  part-Stored x q =
      store-byte_at ip img w (off / bsize) b (omega arith) e n filling filling_bytes x q
      ∙ elim (Bool-cases (x / bsize == off / bsize)) [
        | inl y ↦
            let there : byte_at ip img x ≡ img.block b (x % bsize) =
              byte_at_mapped ip img x b (ap (λ i. place ip img (place_of i)) (==→eq _ _ y) ∙ e) n in
            ground (arith, y, there)
        | inr y ↦ ground (arith, y, f)
      ]

  part-Keeps : Keeps ip img ip (update_block b filling img)
  part-Keeps = store-Keeps ip img w (off / bsize) b (omega arith) e n filling filling_bytes

-- `n` bytes at `off` are within the largest file.
abbrev pub Fits : ℕ → ℕ → Type 0
Fits n off = off + n ≤ maxfile * bsize

one_round :
    (fuel tot n off src : ℕ) (mem : Memory) (ip : Inode) (img : Image)
    (r : Outcome (ℕ × Inode × Image))
    → tot < n
    → Fits (n - tot) off
    → ((i : ℕ) → mem i < 256)
    → ((m : ℕ) (ip : Inode) (img : Image)
        → 0 < m
        → m ≤ n - tot
        → HasBlocks ip img
        → WriteEnds
            (n - tot - m)
            (off + m)
            (src + m)
            mem
            ip
            img
            (write_loop fuel (tot + m) n (off + m) (src + m) mem ip img))
    → MapEnds (place_of (off / bsize)) ip img r
    → WriteEnds (n - tot) off src mem ip img (
        r >>= λ (b, ip, img).
        (let m = min (n - tot) (bsize - off % bsize) in
          write_loop fuel
            (tot + m)
            n
            (off + m)
            (src + m)
            mem
            ip
            (update_block b (copy_between (img.block b) (off % bsize) mem src m) img)))
one_round fuel tot n off src mem ip img (panic text) l f h rest q = q
one_round fuel tot n off src mem ip img (ok (b, ip2, j)) l f h rest (p, s, z, e, x) =
    let m = min (n - tot) (bsize - off % bsize) in
    let k = part-Keeps m off src mem ip2 j b p.has (omega arith) (omega arith) e x h in
    let t = part-Stored m off src mem ip2 j b p.has (omega arith) (omega arith) e x h in
    WriteEnds-after (n - tot) m off src mem _ (omega arith) (Keeps-trans p k) z
      (λ y q. t y q ∙ ap (λ v. if in_range off m y then mem (src + (y - off)) else v) (s y q))
      (rest m ip2 _ (omega arith) (omega arith) k.has)

pub write_loop-WriteEnds :
    (fuel tot n off src : ℕ) (mem : Memory) (ip : Inode) (img : Image)
    → n - tot ≤ fuel
    → Fits (n - tot) off
    → ((i : ℕ) → mem i < 256)
    → HasBlocks ip img
    → WriteEnds (n - tot) off src mem ip img (write_loop fuel tot n off src mem ip img)
unfolding write_loop
write_loop-WriteEnds zero tot n off src mem ip img q f h w =
    WriteEnds-done (n - tot) off src mem ip img w (omega arith)
write_loop-WriteEnds (suc fuel) tot n off src mem ip img q f h w = elim (Bool-cases (ltb tot n)) [
  | inr e ↦ rw e (WriteEnds-done (n - tot) off src mem ip img w (ground (arith, e)))
  | inl e ↦
      let l : tot < n = ltb→lt tot n e in
      rw e (
        one_round fuel tot n off src mem ip img (bmap (off / bsize) ip img) l f h
          (λ m ip img z y w.
            subst
              (λ k.
                WriteEnds k (off + m) (src + m) mem ip img
                  (write_loop fuel (tot + m) n (off + m) (src + m) mem ip img))
              (omega arith)
              (write_loop-WriteEnds fuel (tot + m) n (off + m) (src + m) mem ip img (omega arith)
                (omega arith) h w))
          (bmap-MapEnds (off / bsize) ip img w (omega arith)))
]
