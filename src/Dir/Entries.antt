-- ===== src/Dir/Entries.antt =====
-- fs.c: the entries of a directory, as the bytes of its file give them, and reading one.
use osass.Base.{
  String, List, ℕ, ◌+◌, ◌-◌, ◌*◌, ◌/◌, ◌%◌, ◌≤◌, ◌<◌, ◌≡◌, refl, sym, ap, subst, ◌∙◌, Bool, false,
  not, in_range, eq→==, arith, Memory, Outcome, ok, panic, panic_if, ◌>>=◌, ◌>>◌,
}
use osass.Base.Words.{get16}
use osass.Str.Compare.{text}
use osass.Image.{bsize, Image}
use osass.Image.Map.{IsImage}
use osass.Image.Alloc.{free_count}
use osass.Inode.{Inode, maxfile, Result, fails, device, count, readi}
use osass.Inode.Slots.{places, place, place_of, byte_at, missing, HasBlocks}
use osass.Inode.Mapping.{Keeps, Keeps-refl, Keeps-trans, SameBytes}
use osass.Inode.Read.{ReadiEnds, readi-ReadiEnds}
use osass.Path.{dirsiz}
use osass.Dir.{t_dir, de_size, is_count, Place, read_entry}

-- The inode number and the name of the entry at `off`.
abbrev pub entry_inum : Place → ℕ → ℕ
entry_inum p off = get16 (byte_at p.dp p.img) off

abbrev pub entry_name : Place → ℕ → List ℕ
entry_name p off = text (byte_at p.dp p.img) (off + 2) dirsiz

-- A directory, whose size is a number of entries.
pub record IsDir (p : Place) : Type 0 where
  pub has : HasBlocks p.dp p.img
  pub type_dir : p.dp.type ≡ t_dir
  pub whole : p.dp.size % de_size ≡ 0
  pub in_file : p.dp.size ≤ maxfile * bsize

-- What reading an entry leaves: the directory and what it holds, and the memory outside of the entry.
pub record Reads (de : ℕ) (p q : Place) : Type 0 where
  pub keeps : Keeps p.dp p.img q.dp q.img
  pub bytes : SameBytes p.dp p.img q.dp q.img
  pub same_size : q.dp.size ≡ p.dp.size
  pub outside : (x : ℕ) → in_range de de_size x ≡ false → q.mem x ≡ p.mem x
  pub byte_mem : ((x : ℕ) → p.mem x < 256) → (x : ℕ) → q.mem x < 256

pub Reads-refl : (de : ℕ) (p : Place) → HasBlocks p.dp p.img → Reads de p p
Reads-refl de p w = record {
  keeps = Keeps-refl p.dp p.img w;
  bytes = λ o l. refl;
  same_size = refl;
  outside = λ x l. refl;
  byte_mem = λ h. h;
}

pub Reads-trans : {de : ℕ} {p q r : Place} → Reads de p q → Reads de q r → Reads de p r
Reads-trans a b = record {
  keeps = Keeps-trans a.keeps b.keeps;
  bytes = λ o l. b.bytes o l ∙ a.bytes o l;
  same_size = b.same_size ∙ a.same_size;
  outside = λ x l. b.outside x l ∙ a.outside x l;
  byte_mem = λ h. b.byte_mem (a.byte_mem h);
}

pub Reads-IsDir : {de : ℕ} {p q : Place} → IsDir p → Reads de p q → IsDir q
Reads-IsDir d r = record {
  has = r.keeps.has;
  type_dir = ap (λ i. i.type) r.keeps.fields ∙ d.type_dir;
  whole = ap (λ n. n % de_size) r.same_size ∙ d.whole;
  in_file = subst (λ n. n ≤ maxfile * bsize) (sym r.same_size) d.in_file;
}

-- The memory has the entry at `off` of the directory.
abbrev pub HasEntry : ℕ → ℕ → Place → Type 0
HasEntry de off p = (i : ℕ) → i < de_size → p.mem (de + i) ≡ byte_at p.dp p.img (off + i)

-- How the reading of an entry ends.
abbrev pub EntryEnds : ℕ → ℕ → Place → Outcome Place → Type 0
EntryEnds de off p (panic text) = free_count p.img p.img.sb.size < missing p.dp p.img places
EntryEnds de off p (ok q) = Reads de p q × HasEntry de off q

byte_at_bytes : (ip : Inode) (img : Image) (o : ℕ) → IsImage img → byte_at ip img o < 256
unfolding byte_at
byte_at_bytes ip img o v = ground (arith, v.bytes (place ip img (place_of (o / bsize))) (o % bsize))

entry_ends :
    (panics : String) (de off : ℕ) (p : Place) (r : Outcome (Result × Memory × Inode × Image))
    → IsDir p
    → off + de_size ≤ p.dp.size
    → ReadiEnds de off de_size p.mem p.dp p.img r
    → EntryEnds de off p (
        r >>= λ (r, mem, dp, img).
        panic_if (not (is_count de_size r)) panics >> ok (record { mem = mem; dp = dp; img = img }))
entry_ends panics de off p (panic text) d l e = e
entry_ends panics de off p (ok (fails, mem, dp, img)) d l (e, x, y, z) =
    absurd (omega (arith, e, l, d.in_file))
entry_ends panics de off p (ok (device, mem, dp, img)) d l e = absurd (omega (arith, e, d.type_dir))
entry_ends panics de off p (ok (count c, mem, dp, img)) d l (e, k, s, z, f) =
    let q : c ≡ de_size = omega (arith, e, l) in
    let same : (i : ℕ) → i < de_size → byte_at dp img (off + i) ≡ byte_at p.dp p.img (off + i) =
      λ i b. s (off + i) (omega (arith, b, l, d.in_file)) in
    rw (eq→== c de_size q) (
      record {
        keeps = k;
        bytes = s;
        same_size = z;
        outside = λ x y. f x ∙ rw (q, y) refl;
        byte_mem =
            λ h x. ground (arith, f x, h x, byte_at_bytes p.dp p.img (off + (x - de)) d.has.valid);
      },
      (λ i b. f (de + i) ∙ ground (arith, q, b, same i b)),
    )

-- Reading the entry at `off` of a directory.
pub read_entry-EntryEnds :
    (panics : String) (devices : ℕ → Bool) (de off : ℕ) (p : Place)
    → IsDir p
    → off + de_size ≤ p.dp.size
    → EntryEnds de off p (read_entry panics devices de off p)
unfolding read_entry
read_entry-EntryEnds panics devices de off p d l =
    entry_ends panics de off p (readi devices de off de_size p.mem p.dp p.img) d l (
      readi-ReadiEnds devices de off de_size p.mem p.dp p.img d.has (omega (arith, d.type_dir))
        d.in_file (omega (arith, l, d.in_file)) (omega arith))
