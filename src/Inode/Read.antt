-- ===== src/Inode/Read.antt =====
-- fs.c: `readi` reads the bytes of a file.
use osass.Base.{
  ℕ, zero, suc, ◌+◌, ◌-◌, ◌*◌, ◌/◌, ◌%◌, ◌^◌, ◌≤◌, ◌<◌, ◌≡◌, ◌≢◌, refl, sym, ap, subst, ◌∙◌, Bool,
  true, ◌||◌, ltb, in_range, if◌then◌else◌, ne→==_false, ltb→lt, Bool-cases, inl, inr, ◌⊎◌, arith,
  Memory, min, Outcome, ok, panic, ◌>>=◌,
}
use osass.Image.{bsize, Image}
use osass.Image.Alloc.{free_count}
use osass.Inode.{
  Inode, maxfile, t_dev, bmap, copy_between, Result, fails, device, count, read_loop, readi,
}
use osass.Inode.Slots.{places, place, place_of, byte_at, byte_at_mapped, missing, HasBlocks}
use osass.Inode.Mapping.{Keeps, Keeps-refl, Keeps-trans, SameBytes, MapEnds, bmap-MapEnds}

-- The `n` bytes from `dst` on are those of the file from `off` on, and the others are as before.
abbrev pub Fetched : ℕ → ℕ → ℕ → Inode → Image → Memory → Memory → Type 0
Fetched n off dst ip img mem mem2 =
    (x : ℕ) → mem2 x ≡ (if in_range dst n x then byte_at ip img (off + (x - dst)) else mem x)

abbrev pub ReadEnds : ℕ → ℕ → ℕ → Memory → Inode → Image → Outcome (Memory × Inode × Image) → Type 0
ReadEnds n off dst mem ip img (panic text) = free_count img img.sb.size < missing ip img places
ReadEnds n off dst mem ip img (ok (mem2, ip2, j)) =
    Keeps ip img ip2 j
    × SameBytes ip img ip2 j
    × (ip2.size ≡ ip.size)
    × Fetched n off dst ip img mem mem2

ReadEnds-done :
    (n off dst : ℕ) (mem : Memory) (ip : Inode) (img : Image)
    → HasBlocks ip img
    → n ≡ 0
    → ReadEnds n off dst mem ip img (ok (mem, ip, img))
ReadEnds-done n off dst mem ip img w z =
    (Keeps-refl ip img w, (λ x l. refl), refl, λ x. ground (arith, z))

-- `n` bytes at `off` are within the largest file.
abbrev pub Fits : ℕ → ℕ → Type 0
Fits n off = off + n ≤ maxfile * bsize

-- The first `m` bytes, then the others.
Fetched_join :
    (n m off dst : ℕ) (mem mem2 mem3 file file2 : ℕ → ℕ)
    → m ≤ n
    → ((i : ℕ) → i < off + n → file2 i ≡ file i)
    → ((x : ℕ) → mem2 x ≡ (if in_range dst m x then file (off + (x - dst)) else mem x))
    → ((x : ℕ)
        → mem3 x
          ≡ (if in_range (dst + m) (n - m) x then file2 (off + m + (x - (dst + m))) else mem2 x))
    → (x : ℕ) → mem3 x ≡ (if in_range dst n x then file (off + (x - dst)) else mem x)
Fetched_join n m off dst mem mem2 mem3 file file2 l s t u x =
    elim (Bool-cases (in_range (dst + m) (n - m) x)) [
      | inl e ↦
          let q : off + m + (x - (dst + m)) ≡ off + (x - dst) = ground (arith, e) in
          let y : in_range dst n x ≡ true = ground (arith, e, l) in
          u x ∙ rw (e, y, q) (s (off + (x - dst)) (ground (arith, e, l)))
      | inr e ↦
          let y : in_range dst n x ≡ in_range dst m x = ground (arith, e, l) in
          u x ∙ rw (e, y) (t x)
    ]

ReadEnds-after :
    (n m off dst : ℕ) (mem mem2 : Memory) {ip ip2 : Inode} {img j : Image}
    (r : Outcome (Memory × Inode × Image))
    → m ≤ n
    → Fits n off
    → Keeps ip img ip2 j
    → SameBytes ip img ip2 j
    → ip2.size ≡ ip.size
    → Fetched m off dst ip img mem mem2
    → ReadEnds (n - m) (off + m) (dst + m) mem2 ip2 j r
    → ReadEnds n off dst mem ip img r
ReadEnds-after n m off dst mem mem2 (panic text) l f p s z t q = omega (arith, p.balance, q)
ReadEnds-after n m off dst mem mem2 (ok (mem3, ip3, h)) l f p s z t (q, y, e, u) = (
  Keeps-trans p q,
  (λ o b. y o b ∙ s o b),
  e ∙ z,
  Fetched_join n m off dst mem mem2 mem3 _ _ l (λ i b. s i (omega (arith, f, b))) t u,
)

-- The part that one round reads, from the block `b` at its place.
part-Fetched :
    (m off dst : ℕ) (mem : Memory) (ip : Inode) (img : Image) (b : ℕ)
    → off % bsize + m ≤ bsize
    → place ip img (place_of (off / bsize)) ≡ b
    → b ≢ 0
    → Fetched m off dst ip img mem (copy_between mem dst (img.block b) (off % bsize) m)
part-Fetched m off dst mem ip img b f e n x = elim (Bool-cases (in_range dst m x)) [
  | inr y ↦ rw y refl
  | inl y ↦
      let i = x - dst in
      let q : (off + i) / bsize ≡ off / bsize = ground (arith, y, f) in
      let there : byte_at ip img (off + i) ≡ img.block b ((off + i) % bsize) =
        byte_at_mapped ip img (off + i) b (ap (λ k. place ip img (place_of k)) q ∙ e) n in
      rw y (ap (img.block b) (ground (arith, y, f)) ∙ sym there)
]

one_round :
    (fuel tot n off dst : ℕ) (mem : Memory) (ip : Inode) (img : Image)
    (r : Outcome (ℕ × Inode × Image))
    → tot < n
    → Fits (n - tot) off
    → ((m : ℕ) (mem : Memory) (ip : Inode) (img : Image)
        → 0 < m
        → m ≤ n - tot
        → HasBlocks ip img
        → ReadEnds
            (n - tot - m)
            (off + m)
            (dst + m)
            mem
            ip
            img
            (read_loop fuel (tot + m) n (off + m) (dst + m) mem ip img))
    → MapEnds (place_of (off / bsize)) ip img r
    → ReadEnds (n - tot) off dst mem ip img (
        r >>= λ (b, ip, img).
        (let m = min (n - tot) (bsize - off % bsize) in
          read_loop fuel
            (tot + m)
            n
            (off + m)
            (dst + m)
            (copy_between mem dst (img.block b) (off % bsize) m)
            ip
            img))
one_round fuel tot n off dst mem ip img (panic text) l f rest q = q
one_round fuel tot n off dst mem ip img (ok (b, ip2, j)) l f rest (p, s, z, e, x) =
    let m = min (n - tot) (bsize - off % bsize) in
    let t = part-Fetched m off dst mem ip2 j b (omega arith) e x in
    ReadEnds-after (n - tot) m off dst mem _ _ (omega arith) f p s z
      (λ y. t y ∙ ground (arith, s (off + (y - dst))))
      (rest m _ ip2 j (omega arith) (omega arith) p.has)

pub read_loop-ReadEnds :
    (fuel tot n off dst : ℕ) (mem : Memory) (ip : Inode) (img : Image)
    → n - tot ≤ fuel
    → Fits (n - tot) off
    → HasBlocks ip img
    → ReadEnds (n - tot) off dst mem ip img (read_loop fuel tot n off dst mem ip img)
unfolding read_loop
read_loop-ReadEnds zero tot n off dst mem ip img q f w =
    ReadEnds-done (n - tot) off dst mem ip img w (omega arith)
read_loop-ReadEnds (suc fuel) tot n off dst mem ip img q f w = elim (Bool-cases (ltb tot n)) [
  | inr e ↦ rw e (ReadEnds-done (n - tot) off dst mem ip img w (ground (arith, e)))
  | inl e ↦ rw e (
      one_round fuel tot n off dst mem ip img (bmap (off / bsize) ip img) (ltb→lt tot n e) f
        (λ m mem ip img z y w.
          subst
            (λ k.
              ReadEnds k (off + m) (dst + m) mem ip img
                (read_loop fuel (tot + m) n (off + m) (dst + m) mem ip img))
            (omega arith)
            (read_loop-ReadEnds fuel (tot + m) n (off + m) (dst + m) mem ip img (omega arith)
              (omega arith) w))
        (bmap-MapEnds (off / bsize) ip img w (ground (arith, e))))
]

-- How `readi` of a file ends.
abbrev pub ReadiEnds :
    ℕ → ℕ → ℕ → Memory → Inode → Image → Outcome (Result × Memory × Inode × Image) → Type 0
ReadiEnds dst off n mem ip img (panic text) = free_count img img.sb.size < missing ip img places
ReadiEnds dst off n mem ip img (ok (fails, mem2, ip2, j)) =
    ((ip.size < off) ⊎ (2 ^ 32 ≤ off + n)) × (mem2 ≡ mem) × (ip2 ≡ ip) × (j ≡ img)
ReadiEnds dst off n mem ip img (ok (device, mem2, ip2, j)) = ip.type ≡ t_dev
ReadiEnds dst off n mem ip img (ok (count c, mem2, ip2, j)) =
    (c ≡ min n (ip.size - off))
    × Keeps ip img ip2 j
    × SameBytes ip img ip2 j
    × (ip2.size ≡ ip.size)
    × Fetched c off dst ip img mem mem2

finish :
    (dst off n c : ℕ) (mem : Memory) (ip : Inode) (img : Image)
    (r : Outcome (Memory × Inode × Image))
    → c ≡ min n (ip.size - off)
    → ReadEnds c off dst mem ip img r
    → ReadiEnds dst off n mem ip img (r >>= λ (mem, ip, img). ok (count c, mem, ip, img))
finish dst off n c mem ip img (panic text) e q = q
finish dst off n c mem ip img (ok (mem2, ip2, j)) e (p, s, z, t) = (e, p, s, z, t)

-- `readi` of `n` bytes of a file no longer than the largest panics only when the disk has fewer free
-- blocks than the file has places without one. It fails exactly when it would start past the end or
-- `off + n` is no `uint`, and changes nothing then. Otherwise it returns how many of the `n` bytes the
-- file has from `off` on, and puts those at `dst`, and nothing else; no file reads differently.
pub readi-ReadiEnds :
    (devices : ℕ → Bool) (dst off n : ℕ) (mem : Memory) (ip : Inode) (img : Image)
    → HasBlocks ip img
    → ip.type ≢ t_dev
    → ip.size ≤ maxfile * bsize
    → off < 2 ^ 32
    → n < 2 ^ 32
    → ReadiEnds dst off n mem ip img (readi devices dst off n mem ip img)
unfolding readi
readi-ReadiEnds devices dst off n mem ip img w d z lo ln =
    let guard = ltb ip.size off || ltb ((off + n) % 2 ^ 32) off in
    elim (Bool-cases guard) [
      | inl e ↦ rw (ne→==_false ip.type t_dev d, e, ReadiEnds) (ground (arith, e), refl, refl, refl)
      | inr e ↦
          let c = if ltb ip.size ((off + n) % 2 ^ 32) then ip.size - off else n in
          let a : off ≤ ip.size = ground (arith, e) in
          let q : c ≡ min n (ip.size - off) = ground (arith, e) in
          rw (ne→==_false ip.type t_dev d, e)
            (finish dst off n c mem ip img (read_loop c 0 c off dst mem ip img) q (
              subst (λ k. ReadEnds k off dst mem ip img (read_loop c 0 c off dst mem ip img))
                (omega arith)
                (read_loop-ReadEnds c 0 c off dst mem ip img (omega arith) (omega (arith, q, a, z))
                  w)))
    ]
