-- ===== src/Icache/Get.antt =====
-- fs.c: `iget` gives one entry for one inode.
use osass.Base.{
  ℕ, zero, suc, ◌+◌, ◌≤◌, ◌<◌, ◌≡◌, ◌≢◌, ◌↔◌, refl, sym, subst, ◌∙◌, Bool, true, false, ◌==◌, ==→eq,
  ne→==_false, eq→==, Bool-cases, inl, inr, ◌⊎◌, arith, Option, none, some, Outcome, ok, panic,
  ◌>>=◌,
}
use osass.Lock.Held.{take_lock}
use osass.Icache.{
  Entry, Icache, ninode, set_entry, Search, found, absent, keep_first, is_entry, search, recycle,
  settle, iget,
}

-- The lock is free, and no two entries that are referenced are for one inode.
pub record IsCache (c : Icache) : Type 0 where
  pub unlocked : c.lk ≡ false
  pub one :
      (i k : ℕ)
      → i < ninode
      → k < ninode
      → 0 < (c.slot i).ref
      → 0 < (c.slot k).ref
      → (c.slot i).inode.dev ≡ (c.slot k).inode.dev
      → (c.slot i).inode.inum ≡ (c.slot k).inode.inum
      → i ≡ k

is_entry_iff :
    (dev inum : ℕ) (e : Entry)
    → (is_entry dev inum e ≡ true) ↔ ((0 < e.ref) × (e.inode.dev ≡ dev) × (e.inode.inum ≡ inum))
is_entry_iff dev inum e = (λ h. ground (arith, h), λ (a, b, d). ground (arith, a, b, d))

-- What the search found, having started at `i`.
abbrev SearchEnds : Icache → ℕ → ℕ → ℕ → ℕ → Option ℕ → Search → Type 0
SearchEnds c dev inum r i empty (found k) = (k < i + r) × (is_entry dev inum (c.slot k) ≡ true)
SearchEnds c dev inum r i empty (absent none) =
    (empty ≡ none)
    × ((k : ℕ) → i ≤ k → k < i + r → (is_entry dev inum (c.slot k) ≡ false) × (0 < (c.slot k).ref))
SearchEnds c dev inum r i empty (absent (some e)) =
    ((k : ℕ) → i ≤ k → k < i + r → is_entry dev inum (c.slot k) ≡ false)
    × ((empty ≡ some e) ⊎ ((empty ≡ none) × (i ≤ e) × (e < i + r) × ((c.slot e).ref ≡ 0)))

keep_first-none :
    (o : Option ℕ) (i : ℕ) (b : Bool) → keep_first o i b ≡ none → (o ≡ none) × (b ≡ false)
keep_first-none (some e) i b h = absurd (cc)
keep_first-none none i true h = absurd (cc)
keep_first-none none i false h = (refl, refl)

keep_first-some :
    (o : Option ℕ) (i x : ℕ) (b : Bool)
    → keep_first o i b ≡ some x
    → (o ≡ some x) ⊎ ((o ≡ none) × (b ≡ true) × (i ≡ x))
keep_first-some (some e) i x b h = inl h
keep_first-some none i x true h = inr (refl, refl, cc)
keep_first-some none i x false h = absurd (cc)

from_next {ℓ} :
    {P : ℕ → Type ℓ} (i r : ℕ)
    → P i
    → ((k : ℕ) → i + 1 ≤ k → k < i + 1 + r → P k)
    → (k : ℕ) → i ≤ k
    → k < i + suc r
    → P k
from_next {P = P} i r z h k a b = elim (Bool-cases (i == k)) [
  | inl e ↦ subst P (==→eq i k e) z
  | inr e ↦ h k (ground (arith, e)) (omega arith)
]

SearchEnds-next :
    (c : Icache) (dev inum r i : ℕ) (empty : Option ℕ) (s : Search)
    → is_entry dev inum (c.slot i) ≡ false
    → SearchEnds c dev inum r (i + 1) (keep_first empty i ((c.slot i).ref == 0)) s
    → SearchEnds c dev inum (suc r) i empty s
SearchEnds-next c dev inum r i empty (found k) e (l, f) = (omega (arith, l), f)
SearchEnds-next c dev inum r i empty (absent none) e (z, h) =
    let (a, b) = keep_first-none empty i ((c.slot i).ref == 0) z in
    (a, from_next i r (e, ground (arith, b)) h)
SearchEnds-next c dev inum r i empty (absent (some x)) e (h, z) = (
  from_next i r e h,
  elim z [
    | inr (y, b, l, f) ↦
        inr ((keep_first-none empty i ((c.slot i).ref == 0) y).0, omega arith, omega arith, f)
    | inl y ↦ elim (keep_first-some empty i x ((c.slot i).ref == 0) y) [
      | inl q ↦ inl q
      | inr (q, b, f) ↦
          inr
            (q, omega (arith, f), omega (arith, f), subst (λ k. (c.slot k).ref ≡ 0) f (==→eq _ _ b))
    ]
  ],
)

search-SearchEnds :
    (c : Icache) (dev inum r i : ℕ) (empty : Option ℕ)
    → SearchEnds c dev inum r i empty (search c dev inum r i empty)
unfolding search
search-SearchEnds c dev inum zero i none = (refl, λ k a b. absurd (omega arith))
search-SearchEnds c dev inum zero i (some e) = ((λ k a b. absurd (omega arith)), inl refl)
search-SearchEnds c dev inum (suc r) i empty = elim (Bool-cases (is_entry dev inum (c.slot i))) [
  | inl e ↦ rw (e, SearchEnds) (omega arith, e)
  | inr e ↦ rw e (
      SearchEnds-next c dev inum r i empty _ e
        (search-SearchEnds c dev inum r (i + 1) (keep_first empty i ((c.slot i).ref == 0))))
]

-- An entry that was in use is the same but for its count; one that was free does not pass for read.
abbrev pub GivenOut : Entry → Entry → Type 0
GivenOut e x = (0 < e.ref → x ≡ record e { ref = e.ref + 1 }) × (e.ref ≡ 0 → x.inode.valid ≡ false)

-- How `iget` ends.
abbrev pub IgetEnds : ℕ → ℕ → Icache → Outcome (ℕ × Icache) → Type 0
IgetEnds dev inum c (panic text) =
    (k : ℕ) → k < ninode → (is_entry dev inum (c.slot k) ≡ false) × (0 < (c.slot k).ref)
IgetEnds dev inum c (ok (i, d)) =
    (i < ninode)
    × IsCache d
    × (is_entry dev inum (d.slot i) ≡ true)
    × ((d.slot i).ref ≡ (c.slot i).ref + 1)
    × ((k : ℕ) → k ≢ i → d.slot k ≡ c.slot k)
    × GivenOut (c.slot i) (d.slot i)

-- A cache with one entry changed, which is for an inode that no other entry is for.
changed-IsCache :
    (c : Icache) (i : ℕ) (e : Entry)
    → IsCache c
    → ((k : ℕ)
        → k < ninode
        → k ≢ i
        → 0 < (c.slot k).ref
        → e.inode.dev ≡ (c.slot k).inode.dev
        → e.inode.inum ≢ (c.slot k).inode.inum)
    → IsCache (set_entry i e (record c { lk = false }))
changed-IsCache c i e v h = record {
  unlocked = refl;
  one = λ a b l m. elim (Bool-cases (i == a)) [
    | inl x ↦ elim (Bool-cases (i == b)) [
      | inl y ↦ (λ p q f g. sym (==→eq i a x) ∙ ==→eq i b y)
      | inr y ↦ rw (x, y) (λ p q f g. absurd (h b m (ground (arith, y)) q f g))
    ]
    | inr x ↦ elim (Bool-cases (i == b)) [
      | inl y ↦ rw (x, y) (λ p q f g. absurd (h a l (ground (arith, x)) p (sym f) (sym g)))
      | inr y ↦ rw (x, y) (v.one a b l m)
    ]
  ];
}

others_same :
    (c : Icache) (i : ℕ) (e : Entry) (k : ℕ)
    → k ≢ i
    → (set_entry i e (record c { lk = false })).slot k ≡ c.slot k
others_same c i e k n = rw (ne→==_false i k (λ r. n (sym r))) refl

here : (c : Icache) (i : ℕ) (e : Entry) → (set_entry i e (record c { lk = false })).slot i ≡ e
here c i e = rw (eq→== i i refl) refl

settle-IgetEnds :
    (dev inum : ℕ) (c : Icache) (s : Search)
    → IsCache c
    → SearchEnds c dev inum ninode 0 none s
    → IgetEnds dev inum c (settle dev inum c true s)
unfolding settle recycle
settle-IgetEnds dev inum c (found i) v (l, e) =
    let x : Entry = record (c.slot i) { ref = (c.slot i).ref + 1 } in
    let (p, q, r) = (is_entry_iff dev inum (c.slot i)).0 e in
    (
      l,
      changed-IsCache c i x v (λ k m n y f g. n (v.one k i m l y p (sym f) (sym g))),
      rw (here c i x) ((is_entry_iff dev inum x).1 (omega arith, q, r)),
      rw (here c i x) refl,
      others_same c i x,
      rw (here c i x) ((λ l. refl), λ z. absurd (omega (arith, p, z))),
    )
settle-IgetEnds dev inum c (absent none) v (_, h) = λ k l. h k (omega arith) l
settle-IgetEnds dev inum c (absent (some i)) v (h, inl z) = absurd (cc)
settle-IgetEnds dev inum c (absent (some i)) v (h, inr (_, _, l, f)) =
    let x = recycle dev inum (c.slot i) in
    let fresh : (k : ℕ)
        → k < ninode
        → k ≢ i
        → 0 < (c.slot k).ref
        → dev ≡ (c.slot k).inode.dev
        → inum ≢ (c.slot k).inode.inum =
      λ k m n y f g.
        absurd (cc (h k (omega arith) m, (is_entry_iff dev inum (c.slot k)).1 (y, sym f, sym g))) in
    (
      l,
      changed-IsCache c i x v fresh,
      rw (here c i x) ((is_entry_iff dev inum x).1 (omega arith, refl, refl)),
      rw (here c i x) (omega (arith, f)),
      others_same c i x,
      rw (here c i x) ((λ l. absurd (omega (arith, l, f))), λ z. refl),
    )

-- `iget` panics only when every entry is referenced and none is for the inode. Otherwise it returns an
-- entry for the inode, referenced once more than before: one that was in use, which is otherwise as it was,
-- or one that was free, which has to be read from the disk. The other entries are as they were, and still
-- no two entries in use are for one inode.
pub iget-IgetEnds : (dev inum : ℕ) (c : Icache) → IsCache c → IgetEnds dev inum c (iget dev inum c)
unfolding iget
iget-IgetEnds dev inum c v =
    let s = search c dev inum ninode 0 none in
    subst (λ l. IgetEnds dev inum c (take_lock l >>= λ h. settle dev inum c h s)) (sym v.unlocked)
      (settle-IgetEnds dev inum c s v (search-SearchEnds c dev inum ninode 0 none))
