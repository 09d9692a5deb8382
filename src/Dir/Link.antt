-- ===== src/Dir/Link.antt =====
-- fs.c: where `dirlink` puts its entry.
use osass.Base.{
  ℕ, zero, suc, ◌+◌, ◌*◌, ◌%◌, ◌≤◌, ◌<◌, ◌≡◌, sym, ◌∙◌, Bool, ◌==◌, ltb, if◌then◌else◌, ==→eq,
  ==_false→ne, Bool-cases, inl, inr, ◌⊎◌, arith, Outcome, ok, panic, ◌>>=◌,
}
use osass.Base.Words.{get16}
use osass.Str.Compare.{text}
use osass.Image.Alloc.{free_count}
use osass.Inode.Slots.{places, missing}
use osass.Dir.{de_size, Place, read_entry, empty_loop}
use osass.Dir.Entries.{
  entry_inum, IsDir, Reads, Reads-refl, Reads-trans, Reads-IsDir, EntryEnds, read_entry-EntryEnds,
}
use osass.Dir.Lookup.{entry_same, inum_read}

-- Where the loop of `dirlink` ends.
abbrev pub EmptyEnds : ℕ → ℕ → Place → Outcome (ℕ × Place) → Type 0
EmptyEnds de off p (panic text) = free_count p.img p.img.sb.size < missing p.dp p.img places
EmptyEnds de off p (ok (o, q)) =
    Reads de p q
    × (off ≤ o)
    × (o ≤ p.dp.size)
    × (o % de_size ≡ 0)
    × ((o ≡ p.dp.size) ⊎ (entry_inum p o ≡ 0))

EmptyEnds-next :
    (de off : ℕ) (p q : Place) (r : Outcome (ℕ × Place))
    → IsDir p
    → Reads de p q
    → EmptyEnds de (off + de_size) q r
    → EmptyEnds de off p r
EmptyEnds-next de off p q (panic text) d a e = omega (arith, a.keeps.balance, e)
EmptyEnds-next de off p q (ok (o, t)) d a (b, l, m, z, e) = (
  Reads-trans a b,
  omega (arith, l),
  omega (arith, a.same_size, m),
  z,
  elim e [
    | inl x ↦ inl (x ∙ a.same_size)
    | inr x ↦ elim (Bool-cases (o == p.dp.size)) [
      | inl y ↦ inl (==→eq _ _ y)
      | inr y ↦ inr (
          sym
            (entry_same de o p q a
              (omega (arith, d.in_file, d.whole, z, m, a.same_size, ==_false→ne _ _ y))).0
          ∙ x)
    ]
  ],
)

one_entry :
    (fuel : ℕ) (devices : ℕ → Bool) (de off : ℕ) (p : Place) (r : Outcome Place)
    → IsDir p
    → off % de_size ≡ 0
    → off < p.dp.size
    → EntryEnds de off p r
    → ((q : Place)
        → Reads de p q
        → EmptyEnds de (off + de_size) q (empty_loop fuel devices de (off + de_size) q))
    → EmptyEnds de off p (
        r >>= λ p.
        (let more = empty_loop fuel devices de (off + de_size) p in
          if get16 p.mem de == 0 then ok (off, p) else more))
one_entry fuel devices de off p (panic text) d z l e h = e
one_entry fuel devices de off p (ok q) d z l (r, f) h = elim (Bool-cases (get16 q.mem de == 0)) [
  | inl x ↦
      let inum : get16 q.mem de ≡ entry_inum p off =
        inum_read de off q f
        ∙ (entry_same de off p q r (omega (arith, d.in_file, d.whole, z, l))).0 in
      rw (x, EmptyEnds) (r, omega arith, omega (arith, l), z, inr (sym inum ∙ ==→eq _ _ x))
  | inr x ↦ rw x (EmptyEnds-next de off p q _ d r (h q r))
]

pub empty_loop-EmptyEnds :
    (fuel : ℕ) (devices : ℕ → Bool) (de off : ℕ) (p : Place)
    → IsDir p
    → off % de_size ≡ 0
    → off ≤ p.dp.size
    → p.dp.size < off + de_size * fuel
    → EmptyEnds de off p (empty_loop fuel devices de off p)
unfolding empty_loop
empty_loop-EmptyEnds zero devices de off p d z b l = absurd (omega arith)
empty_loop-EmptyEnds (suc fuel) devices de off p d z b l = elim (Bool-cases (ltb off p.dp.size)) [
  | inr e ↦ rw (e, EmptyEnds) (Reads-refl de p d.has, omega arith, b, z, inl (ground (arith, e, b)))
  | inl e ↦
      let m : off < p.dp.size = ground (arith, e) in
      rw e (
        one_entry fuel devices de off p (read_entry "dirlink read" devices de off p) d z m
          (read_entry-EntryEnds "dirlink read" devices de off p d (omega (arith, m, z, d.whole)))
          (λ q r.
            empty_loop-EmptyEnds fuel devices de (off + de_size) q (Reads-IsDir d r)
              (omega (arith, z)) (omega (arith, m, z, d.whole, r.same_size))
              (omega (arith, r.same_size, l))))
]
