-- ===== src/Dir/Lookup.antt =====
-- fs.c: `dirlookup` finds the first entry that has the name.
use osass.Base.{
  List, ℕ, zero, suc, ◌+◌, ◌*◌, ◌%◌, ◌≤◌, ◌<◌, ◌≡◌, ◌≢◌, ◌↔◌, refl, sym, ap, subst, ◌∙◌, Bool, true,
  ◌==◌, ltb, if◌then◌else◌, ==→eq, ==_false→ne, Bool-cases, inl, inr, ◌⊎◌, arith, Option, none,
  some, Memory, Outcome, ok, panic, ◌>>=◌,
}
use osass.Base.Int.{ℤ, pos, negsuc}
use osass.Base.Words.{get16}
use osass.Str.{strncmp}
use osass.Str.Compare.{text, strncmp_iff}
use osass.Image.{bsize}
use osass.Image.Alloc.{free_count}
use osass.Inode.{maxfile}
use osass.Inode.Slots.{places, byte_at, missing}
use osass.Path.{dirsiz}
use osass.Dir.{de_size, is_zero, namecmp, Place, read_entry, lookup_loop}
use osass.Dir.Entries.{
  entry_inum, entry_name, IsDir, Reads, Reads-refl, Reads-trans, Reads-IsDir, HasEntry, EntryEnds,
  read_entry-EntryEnds,
}

-- Whether the entry at `off` is one of the name.
abbrev pub IsNamed : List ℕ → ℕ → Place → Type 0
IsNamed name off p = (entry_inum p off ≢ 0) × (entry_name p off ≡ name)

pub text_same :
    (n : ℕ) (m m2 : Memory) (a b : ℕ)
    → ((i : ℕ) → i < n → m (a + i) ≡ m2 (b + i))
    → text m a n ≡ text m2 b n
text_same zero m m2 a b h = refl
text_same (suc n) m m2 a b h =
    let first : m a ≡ m2 b = ap m (omega arith) ∙ h 0 (omega arith) ∙ ap m2 (omega arith) in
    let rest : text m (a + 1) n ≡ text m2 (b + 1) n =
      text_same n m m2 (a + 1) (b + 1)
        (λ i l. ap m (omega arith) ∙ h (i + 1) (omega arith) ∙ ap m2 (omega arith)) in
    rw (first, rest) refl

-- An entry reads the same after the directory was read.
pub entry_same :
    (de off : ℕ) (p q : Place)
    → Reads de p q
    → off + de_size ≤ maxfile * bsize
    → (entry_inum q off ≡ entry_inum p off) × (entry_name q off ≡ entry_name p off)
unfolding get16
entry_same de off p q r l = (
  omega (arith, r.bytes off (omega (arith, l)), r.bytes (off + 1) (omega (arith, l))),
  text_same dirsiz (byte_at q.dp q.img) (byte_at p.dp p.img) (off + 2) (off + 2)
      (λ i k. r.bytes (off + 2 + i) (omega (arith, k, l))),
)

-- What the memory has of the entry.
pub inum_read : (de off : ℕ) (p : Place) → HasEntry de off p → get16 p.mem de ≡ entry_inum p off
unfolding get16
inum_read de off p h =
    let a : p.mem de ≡ byte_at p.dp p.img off =
      ap p.mem (omega arith) ∙ h 0 (omega arith) ∙ ap (byte_at p.dp p.img) (omega arith) in
    omega (arith, a, h 1 (omega arith))

name_read :
    (de off : ℕ) (p : Place) → HasEntry de off p → text p.mem (de + 2) dirsiz ≡ entry_name p off
name_read de off p h = text_same dirsiz p.mem (byte_at p.dp p.img) (de + 2) (off + 2) (λ i l.
    ap p.mem (omega arith) ∙ h (2 + i) (omega arith) ∙ ap (byte_at p.dp p.img) (omega arith))

is_zero_iff : (z : ℤ) → (is_zero z ≡ true) ↔ (z ≡ pos 0)
is_zero_iff (pos n) = (λ h. ap pos (==→eq n 0 h), λ h. ground (arith, h))
is_zero_iff (negsuc n) = (λ h. absurd (cc), λ h. absurd (cc))

namecmp_iff :
    (m : Memory) (s t : ℕ) → (is_zero (namecmp m s t) ≡ true) ↔ (text m s dirsiz ≡ text m t dirsiz)
unfolding namecmp
namecmp_iff m s t = (
  λ h. (strncmp_iff m s t dirsiz).0 ((is_zero_iff (strncmp m s t dirsiz)).0 h),
  λ h. (is_zero_iff (strncmp m s t dirsiz)).1 ((strncmp_iff m s t dirsiz).1 h),
)

-- How the loop of `dirlookup` ends from `off` on.
abbrev pub LookupEnds : ℕ → List ℕ → ℕ → Place → Outcome (Option (ℕ × ℕ) × Place) → Type 0
LookupEnds de name off p (panic text) = free_count p.img p.img.sb.size < missing p.dp p.img places
LookupEnds de name off p (ok (none, q)) =
    Reads de p q × ((k : ℕ) → off ≤ k → k < p.dp.size → k % de_size ≡ 0 → ¬ IsNamed name k p)
LookupEnds de name off p (ok (some (o, inum), q)) =
    Reads de p q
    × (off ≤ o)
    × (o < p.dp.size)
    × (o % de_size ≡ 0)
    × IsNamed name o p
    × (inum ≡ entry_inum p o)
    × ((k : ℕ) → off ≤ k → k < o → k % de_size ≡ 0 → ¬ IsNamed name k p)

same-IsNamed :
    (de : ℕ) (name : List ℕ) (off : ℕ) (p q : Place)
    → Reads de p q
    → off + de_size ≤ maxfile * bsize
    → IsNamed name off q ↔ IsNamed name off p
same-IsNamed de name off p q r l =
    let (a, b) = entry_same de off p q r l in
    (λ (n, e). ((λ z. n (a ∙ z)), sym b ∙ e), λ (n, e). ((λ z. n (sym a ∙ z)), b ∙ e))

-- The entry at `off` is not it, and the search goes on.
LookupEnds-next :
    (de : ℕ) (name : List ℕ) (off : ℕ) (p q : Place) (r : Outcome (Option (ℕ × ℕ) × Place))
    → IsDir p
    → Reads de p q
    → off % de_size ≡ 0
    → ¬ IsNamed name off p
    → LookupEnds de name (off + de_size) q r
    → LookupEnds de name off p r
LookupEnds-next de name off p q (panic text) d a z n e = omega (arith, a.keeps.balance, e)
LookupEnds-next de name off p q (ok (none, t)) d a z n (b, h) = (
  Reads-trans a b,
  λ k l m y. elim (Bool-cases (off == k)) [
    | inl x ↦ (λ i. n (subst (λ k. IsNamed name k p) (sym (==→eq off k x)) i))
    | inr x ↦ (λ i.
        h k (ground (arith, x, z)) (subst (λ s. k < s) (sym a.same_size) m) y
          ((same-IsNamed de name k p q a (omega (arith, d.in_file, d.whole, y, m))).1 i))
  ],
)
LookupEnds-next de name off p q (ok (some (o, inum), t)) d a z n (b, l, m, y, i, e, h) =
    let m2 : o < p.dp.size = subst (λ s. o < s) a.same_size m in
    let f : o + de_size ≤ maxfile * bsize = omega (arith, d.in_file, d.whole, y, m2) in
    (
      Reads-trans a b,
      omega (arith, l),
      m2,
      y,
      (same-IsNamed de name o p q a f).0 i,
      e ∙ (entry_same de o p q a f).0,
      λ k l2 m3 y2. elim (Bool-cases (off == k)) [
        | inl x ↦ (λ i. n (subst (λ k. IsNamed name k p) (sym (==→eq off k x)) i))
        | inr x ↦ (λ i.
            h k (ground (arith, x, z)) m3 y2
              ((same-IsNamed de name k p q a (omega (arith, f, m3))).1 i))
      ],
    )

-- The name lies outside of the entry.
abbrev pub NameApart : ℕ → ℕ → Type 0
NameApart name de = (name + dirsiz ≤ de) ⊎ (de + de_size ≤ name)

pub name_kept :
    (de name : ℕ) (p q : Place)
    → NameApart name de
    → Reads de p q
    → text q.mem name dirsiz ≡ text p.mem name dirsiz
name_kept de name p q a r =
    text_same dirsiz q.mem p.mem name name (λ i l. r.outside (name + i) (ground arith))

one_entry :
    (fuel : ℕ) (devices : ℕ → Bool) (de name off : ℕ) (p : Place) (r : Outcome Place)
    → IsDir p
    → NameApart name de
    → off % de_size ≡ 0
    → off < p.dp.size
    → EntryEnds de off p r
    → ((q : Place)
        → Reads de p q
        → LookupEnds de
            (text p.mem name dirsiz)
            (off + de_size)
            q
            (lookup_loop fuel devices de name (off + de_size) q))
    → LookupEnds de (text p.mem name dirsiz) off p (
        r >>= λ p.
        (let more = lookup_loop fuel devices de name (off + de_size) p in
          if get16 p.mem de == 0
          then more
          else if is_zero (namecmp p.mem name (de + 2))
          then ok (some (off, get16 p.mem de), p)
          else more))
one_entry fuel devices de name off p (panic text) d a z l e h = e
one_entry fuel devices de name off p (ok q) d a z l (r, f) h =
    let fits : off + de_size ≤ maxfile * bsize = omega (arith, d.in_file, d.whole, z, l) in
    let (i, n) = entry_same de off p q r fits in
    let inum : get16 q.mem de ≡ entry_inum p off = inum_read de off q f ∙ i in
    let key = text p.mem name dirsiz in
    let named = namecmp_iff q.mem name (de + 2) in
    let here : text q.mem name dirsiz ≡ key = name_kept de name p q a r in
    let there : text q.mem (de + 2) dirsiz ≡ entry_name p off = name_read de off q f ∙ n in
    elim (Bool-cases (get16 q.mem de == 0)) [
      | inl x ↦
          rw x
            (LookupEnds-next de key off p q _ d r z (λ (y, _). y (sym inum ∙ ==→eq _ _ x)) (h q r))
      | inr x ↦ elim (Bool-cases (is_zero (namecmp q.mem name (de + 2)))) [
        | inl y ↦
            rw (x, y, LookupEnds)
              (
                r,
                omega arith,
                l,
                z,
                ((λ w. ==_false→ne _ _ x (inum ∙ w)), sym there ∙ sym (named.0 y) ∙ here),
                inum,
                λ k u w _. absurd (omega arith),
              )
        | inr y ↦
            rw (x, y)
              (LookupEnds-next de key off p q _ d r z
                (λ (_, w). absurd (cc (y, named.1 (here ∙ sym w ∙ sym there)))) (h q r))
      ]
    ]

pub lookup_loop-LookupEnds :
    (fuel : ℕ) (devices : ℕ → Bool) (de name off : ℕ) (p : Place)
    → IsDir p
    → NameApart name de
    → off % de_size ≡ 0
    → p.dp.size ≤ off + de_size * fuel
    → LookupEnds de (text p.mem name dirsiz) off p (lookup_loop fuel devices de name off p)
unfolding lookup_loop
lookup_loop-LookupEnds zero devices de name off p d a z l =
    (Reads-refl de p d.has, λ k b c _. absurd (omega arith))
lookup_loop-LookupEnds (suc fuel) devices de name off p d a z l =
    elim (Bool-cases (ltb off p.dp.size)) [
      | inr e ↦
          rw (e, LookupEnds) (Reads-refl de p d.has, λ k b c _. absurd (ground (arith, e, b, c)))
      | inl e ↦
          let m : off < p.dp.size = ground (arith, e) in
          let rest : (q : Place)
              → Reads de p q
              → LookupEnds de (text p.mem name dirsiz) (off + de_size) q
                  (lookup_loop fuel devices de name (off + de_size) q) =
            λ q r.
              subst
                (λ t.
                  LookupEnds de t (off + de_size) q
                    (lookup_loop fuel devices de name (off + de_size) q))
                (name_kept de name p q a r)
                (lookup_loop-LookupEnds fuel devices de name (off + de_size) q (Reads-IsDir d r) a
                  (omega (arith, z)) (omega (arith, r.same_size, l))) in
          rw e (
            one_entry fuel devices de name off p (read_entry "dirlookup read" devices de off p) d a
              z m
              (read_entry-EntryEnds "dirlookup read" devices de off p d
                (omega (arith, m, z, d.whole)))
              rest)
    ]
