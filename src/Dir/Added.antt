-- ===== src/Dir/Added.antt =====
-- fs.c: `dirlink` puts an entry into a directory.
use osass.Base.{
  List, ℕ, ◌+◌, ◌*◌, ◌/◌, ◌%◌, ◌^◌, ◌≤◌, ◌<◌, ◌≡◌, ◌≢◌, sym, ap, subst, ◌∙◌, Bool, not, ◌==◌, ==→eq,
  ==_false→ne, eq→==, Bool-cases, inl, inr, ◌⊎◌, arith, max, Memory, Outcome, ok, panic, panic_if,
  ◌>>=◌, ◌>>◌,
}
use osass.Str.Compare.{text}
use osass.Image.{bsize, Image}
use osass.Image.Alloc.{free_count}
use osass.Inode.{Inode, maxfile, Result, fails, device, count, writei}
use osass.Inode.Slots.{places, missing}
use osass.Inode.Mapping.{Keeps, Keeps-trans}
use osass.Inode.Size.{InTable, WriteiEnds, writei-WriteiEnds}
use osass.Path.{dirsiz}
use osass.Dir.{de_size, is_count, Place, empty_loop, write_link, add_link}
use osass.Dir.Entries.{entry_inum, entry_name, IsDir, Reads, Reads-IsDir}
use osass.Dir.Lookup.{NameApart, entry_same, name_kept}
use osass.Dir.Link.{EmptyEnds, empty_loop-EmptyEnds}
use osass.Dir.Stored.{entry_mem, entry_mem_bytes, stored_inum, stored_name, stored_others}

-- The directory `q` is `p` with one more entry, at `off`.
pub record Linked (name : List ℕ) (inum off : ℕ) (p q : Place) : Type 0 where
  pub keeps : Keeps p.dp p.img q.dp q.img
  pub aligned : off % de_size ≡ 0
  pub was_empty : (off ≡ p.dp.size) ⊎ ((off < p.dp.size) × (entry_inum p off ≡ 0))
  pub new_inum : entry_inum q off ≡ inum
  pub new_name : entry_name q off ≡ name
  pub others :
      (k : ℕ)
      → k % de_size ≡ 0
      → k ≢ off
      → k + de_size ≤ maxfile * bsize
      → (entry_inum q k ≡ entry_inum p k) × (entry_name q k ≡ entry_name p k)
  pub new_size : q.dp.size ≡ max p.dp.size (off + de_size)

-- How `add_link` ends for a directory `p`.
abbrev pub AddEnds : List ℕ → ℕ → Place → Outcome Place → Type 0
AddEnds name inum p (panic text) =
    (free_count p.img p.img.sb.size < missing p.dp p.img places)
    ⊎ (maxfile * bsize < p.dp.size + de_size)
AddEnds name inum p (ok q) = (off : ℕ) × Linked name inum off p q

write_ends :
    (de name inum off : ℕ) (m : Memory) (p : Place) (r : Outcome (Result × Inode × Image))
    → IsDir p
    → NameApart name de
    → inum < 2 ^ 16
    → off % de_size ≡ 0
    → off ≤ p.dp.size
    → (off ≡ p.dp.size) ⊎ (entry_inum p off ≡ 0)
    → WriteiEnds de off de_size (entry_mem de name inum m) p.dp p.img r
    → AddEnds (text m name dirsiz) inum p (
        r >>= λ (r, dp, img).
        panic_if (not (is_count de_size r)) "dirlink"
        >> ok (record { mem = entry_mem de name inum m; dp = dp; img = img }))
write_ends de name inum off m p (panic text) d a l z b e w = inl w
write_ends de name inum off m p (ok (fails, dp, img)) d a l z b e (w, _, _) =
    inr (omega (arith, w, b))
write_ends de name inum off m p (ok (device, dp, img)) d a l z b e w =
    absurd (omega (arith, w, d.type_dir))
write_ends de name inum off m p (ok (count c, dp, img)) d a l z b e (w, f, x, k, n, s, _) =
    let q : Place = record { mem = entry_mem de name inum m; dp = dp; img = img } in
    let at_end : (off ≡ p.dp.size) ⊎ ((off < p.dp.size) × (entry_inum p off ≡ 0)) =
      elim (Bool-cases (off == p.dp.size)) [
        | inl y ↦ inl (==→eq _ _ y)
        | inr y ↦ elim e [
          | inl g ↦ absurd (==_false→ne _ _ y g)
          | inr g ↦ inr (ground (arith, y, b), g)
        ]
      ] in
    rw (eq→== c de_size x, AddEnds)
      (
        off,
        record {
          keeps = k;
          aligned = z;
          was_empty = at_end;
          new_inum = stored_inum de name inum off m p q a f s l;
          new_name = stored_name de name inum off m p q a f s;
          others = λ i y g h. stored_others de name inum off m p q a f s i y z g h;
          new_size = n;
        },
      )

-- `add_link` after it has read.
Linked-after :
    (de : ℕ) (name : List ℕ) (inum off : ℕ) (p p2 q : Place)
    → IsDir p
    → Reads de p p2
    → Linked name inum off p2 q
    → Linked name inum off p q
Linked-after de name inum off p p2 q d r h = record {
  keeps = Keeps-trans r.keeps h.keeps;
  aligned = h.aligned;
  was_empty = elim h.was_empty [
    | inl e ↦ inl (e ∙ r.same_size)
    | inr (l, e) ↦
        let m : off < p.dp.size = omega (arith, l, r.same_size) in
        inr (
          m,
          sym (entry_same de off p p2 r (omega (arith, d.in_file, d.whole, h.aligned, m))).0 ∙ e,
        )
  ];
  new_inum = h.new_inum;
  new_name = h.new_name;
  others = λ k y n l.
      let (a, b) = h.others k y n l in let (a2, b2) = entry_same de k p p2 r l in (a ∙ a2, b ∙ b2);
  new_size = h.new_size ∙ ap (λ n. max n (off + de_size)) r.same_size;
}

pub AddEnds-after :
    (de : ℕ) (name : List ℕ) (inum : ℕ) (p p2 : Place) (r : Outcome Place)
    → IsDir p
    → Reads de p p2
    → AddEnds name inum p2 r
    → AddEnds name inum p r
AddEnds-after de name inum p p2 (panic text) d r (inl e) = inl (omega (arith, r.keeps.balance, e))
AddEnds-after de name inum p p2 (panic text) d r (inr e) = inr (omega (arith, r.same_size, e))
AddEnds-after de name inum p p2 (ok q) d r (off, h) =
    (off, Linked-after de name inum off p p2 q d r h)

link_ends :
    (devices : ℕ → Bool) (de name inum : ℕ) (p : Place) (r : Outcome (ℕ × Place))
    → IsDir p
    → NameApart name de
    → InTable p.dp.inum p.img
    → inum < 2 ^ 16
    → ((x : ℕ) → p.mem x < 256)
    → EmptyEnds de 0 p r
    → AddEnds
        (text p.mem name dirsiz)
        inum
        p
        (r >>= λ (off, p). write_link devices de name inum off p)
unfolding write_link
link_ends devices de name inum p (panic text) d a t l b e = inl e
link_ends devices de name inum p (ok (off, q)) d a t l b (r, _, y, z, e) =
    let d2 = Reads-IsDir d r in
    let same : q.dp.inum ≡ p.dp.inum = ap (λ i. i.inum) r.keeps.fields in
    let in_table : InTable q.dp.inum q.img = rw (same, r.keeps.sb_same) t in
    let y2 : off ≤ q.dp.size = omega (arith, r.same_size, y) in
    let empty : (off ≡ q.dp.size) ⊎ (entry_inum q off ≡ 0) = elim e [
      | inl g ↦ inl (g ∙ sym r.same_size)
      | inr g ↦ elim (Bool-cases (off == p.dp.size)) [
        | inl h ↦ inl (==→eq _ _ h ∙ sym r.same_size)
        | inr h ↦ inr (
            (entry_same de off p q r (omega (arith, d.in_file, d.whole, z, y, ==_false→ne _ _ h))).0
            ∙ g)
      ]
    ] in
    let w =
      writei-WriteiEnds devices de off de_size (entry_mem de name inum q.mem) q.dp q.img d2.has
        in_table (omega (arith, d2.type_dir)) (omega (arith, y2, d2.in_file)) (omega arith)
        (λ x. entry_mem_bytes de name inum x q.mem a (r.byte_mem b)) in
    AddEnds-after de (text p.mem name dirsiz) inum p q _ d r (
      subst (λ t. AddEnds t inum q (write_link devices de name inum off q))
        (name_kept de name p q a r)
        (write_ends de name inum off q.mem q
          (writei devices de off de_size (entry_mem de name inum q.mem) q.dp q.img) d2 a l z y2
          empty w))

-- The part of `dirlink` for a name that is not there panics only when the disk has fewer free blocks
-- than the directory has places without one, or the directory is full. Otherwise the directory has an
-- entry with the name, up to 14 bytes of it, and the inode number, where it had none in use; its other
-- entries are as they were, and its size grows only if the entry is behind the last.
pub add_link-Linked :
    (devices : ℕ → Bool) (de name inum : ℕ) (p : Place)
    → IsDir p
    → NameApart name de
    → InTable p.dp.inum p.img
    → inum < 2 ^ 16
    → ((x : ℕ) → p.mem x < 256)
    → AddEnds (text p.mem name dirsiz) inum p (add_link devices de name inum p)
unfolding add_link
add_link-Linked devices de name inum p d a t l b =
    link_ends devices de name inum p (empty_loop (p.dp.size / de_size + 1) devices de 0 p) d a t l b
      (empty_loop-EmptyEnds (p.dp.size / de_size + 1) devices de 0 p d (omega arith) (omega arith)
        (omega arith))
