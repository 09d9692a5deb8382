-- ===== src/Vm/Mapped.antt =====
-- vm.c: `mappages` maps the pages of a range.
use osass.Base.{
  List, [], ℕ, zero, suc, ◌+◌, ◌-◌, ◌*◌, ◌/◌, ◌%◌, ◌≤◌, ◌<◌, ◌≡◌, refl, sym, ap, subst, ◌∙◌, Bool,
  true, false, ◌&&◌, ◌==◌, ltb, leb, if◌then◌else◌, ==→eq, ==_false→ne, Bool-cases, inl, inr, arith,
  Memory, Outcome, ok, panic, ◌>>=◌,
}
use osass.Base.Int.{ℤ, pos, negsuc}
use osass.Pipe.{u32}
use osass.Kalloc.{pgsize, Kmem}
use osass.Vm.{pdx, ptx, pgrounddown, is_present, map_page, map_pages, mappages}
use osass.Vm.Bits.{entry_bound}
use osass.Vm.Space.{lookup, IsSpace}
use osass.Vm.Page.{entry_of, PageEnds, map_page-PageEnds}

-- Whether the page of `x` is one of the `n` pages from `a` on.
abbrev pub is_in : ℕ → ℕ → ℕ → Bool
is_in a n x = leb (a / pgsize) (x / pgsize) && ltb (x / pgsize) (a / pgsize + n)

-- The entry for `x` of a range from `a` on that is mapped to `pa`.
abbrev pub entry_at : ℕ → ℕ → ℕ → ℕ → ℕ
entry_at a pa perm x = entry_of (pa + (x / pgsize - a / pgsize) * pgsize) perm

-- How the mapping of `n` pages ends.
abbrev pub MapsEnds : ℕ → ℕ → ℕ → ℕ → ℕ → ℕ → Kmem → Outcome (ℤ × Kmem) → Type 0
MapsEnds kernel_end pgdir n a pa perm k (panic text) =
    (x : ℕ) × (x < u32) × (is_in a n x ≡ true) × (is_present (lookup k.mem pgdir x) ≡ true)
MapsEnds kernel_end pgdir n a pa perm k (ok (negsuc e, l)) =
    IsSpace kernel_end pgdir l []
    × ((x : ℕ) → x < u32 → is_in a n x ≡ false → lookup l.mem pgdir x ≡ lookup k.mem pgdir x)
MapsEnds kernel_end pgdir n a pa perm k (ok (pos e, l)) =
    ((qs : List ℕ) × IsSpace kernel_end pgdir l qs)
    × ((x : ℕ)
        → x < u32
        → lookup l.mem pgdir x
          ≡ (if is_in a n x then entry_at a pa perm x else lookup k.mem pgdir x))
    × ((x : ℕ) → x < u32 → is_in a n x ≡ true → is_present (lookup k.mem pgdir x) ≡ false)

later :
    (n a x : ℕ)
    → a % pgsize ≡ 0
    → is_in (a + pgsize) n x ≡ true
    → (x / pgsize == a / pgsize) ≡ false
later n a x z i = ground (arith, i, z)

not_first :
    (n a x : ℕ) → a % pgsize ≡ 0 → is_in a (suc n) x ≡ false → (x / pgsize == a / pgsize) ≡ false
not_first n a x z i = ground (arith, i, z)

joined :
    (n a pa perm x old : ℕ)
    → a % pgsize ≡ 0
    → (if is_in (a + pgsize) n x
        then entry_at (a + pgsize) (pa + pgsize) perm x
        else if x / pgsize == a / pgsize
        then entry_of pa perm
        else old)
      ≡ (if is_in a (suc n) x then entry_at a pa perm x else old)
joined n a pa perm x old z = elim (Bool-cases (is_in (a + pgsize) n x)) [
  | inl e ↦
      let y : is_in a (suc n) x ≡ true = ground (arith, e, z) in
      rw (e, y) (ap (λ p. entry_of p perm) (ground (arith, e, z)))
  | inr e ↦ elim (Bool-cases (x / pgsize == a / pgsize)) [
    | inl f ↦
        let y : is_in a (suc n) x ≡ true = ground (arith, f) in
        rw (e, f, y) (ap (λ p. entry_of p perm) (ground (arith, f)))
    | inr f ↦ let y : is_in a (suc n) x ≡ false = ground (arith, e, f, z) in rw (e, f, y) refl
  ]
]

lookup_page :
    (m : Memory) (pgdir x a : ℕ)
    → x < u32
    → a < u32
    → x / pgsize ≡ a / pgsize
    → lookup m pgdir x ≡ lookup m pgdir a
unfolding lookup
lookup_page m pgdir x a b c e =
    let d : pdx x ≡ pdx a = omega (arith, e) in
    let t : ptx x ≡ ptx a = omega (arith, e) in rw (d, t) refl

in_rest :
    (n a x : ℕ)
    → a % pgsize ≡ 0
    → is_in a (suc n) x ≡ true
    → (x / pgsize == a / pgsize) ≡ false
    → is_in (a + pgsize) n x ≡ true
in_rest n a x z i e = ground (arith, z, i, e)

MapsEnds-next :
    (kernel_end pgdir n a pa perm : ℕ) (k l : Kmem) (r : Outcome (ℤ × Kmem))
    → a % pgsize ≡ 0
    → a < u32
    → PageEnds kernel_end pgdir a pa perm k (ok (pos 0, l))
    → MapsEnds kernel_end pgdir n (a + pgsize) (pa + pgsize) perm l r
    → MapsEnds kernel_end pgdir (suc n) a pa perm k r
MapsEnds-next kernel_end pgdir n a pa perm k l (panic text) z c (_, _, h) (x, b, i, y) = (
  x,
  b,
  ground (arith, i, z),
  ap (λ e. is_present e) (sym (h x b ∙ rw (later n a x z i) refl)) ∙ y,
)
MapsEnds-next kernel_end pgdir n a pa perm k l (ok (negsuc e, m)) z c (_, _, h) (s, g) =
    (s, λ x b i. g x b (ground (arith, i, z)) ∙ h x b ∙ rw (not_first n a x z i) refl)
MapsEnds-next kernel_end pgdir n a pa perm k l (ok (pos e, m)) z c (f, _, h) (s, g, o) = (
  s,
  (λ x b.
      g x b
      ∙ ap (λ w. if is_in (a + pgsize) n x then entry_at (a + pgsize) (pa + pgsize) perm x else w)
          (h x b)
      ∙ joined n a pa perm x (lookup k.mem pgdir x) z),
  λ x b i. elim (Bool-cases (x / pgsize == a / pgsize)) [
    | inl y ↦ ap (λ e. is_present e) (lookup_page k.mem pgdir x a b c (==→eq _ _ y)) ∙ f
    | inr y ↦ ap (λ e. is_present e) (sym (h x b ∙ rw y refl)) ∙ o x b (in_rest n a x z i y)
  ],
)

MapsEnds-none :
    (kernel_end pgdir n a pa perm : ℕ) (l : Kmem) (qs : List ℕ)
    → n ≡ 0
    → IsSpace kernel_end pgdir l qs
    → MapsEnds kernel_end pgdir n a pa perm l (ok (pos 0, l))
MapsEnds-none kernel_end pgdir n a pa perm l qs e s =
    ((qs, s), (λ x b. ground (arith, e)), λ x b i. absurd (ground (arith, e, i)))

round_ends :
    (fuel n kernel_end pgdir a last pa perm : ℕ) (k : Kmem) (r : Outcome (ℤ × Kmem))
    → last ≡ a + n * pgsize
    → a % pgsize ≡ 0
    → a < u32
    → PageEnds kernel_end pgdir a pa perm k r
    → ((l : Kmem) (qs : List ℕ)
        → IsSpace kernel_end pgdir l qs
        → 0 < n
        → MapsEnds kernel_end pgdir n
            (a + pgsize)
            (pa + pgsize)
            perm
            l
            (map_pages fuel pgdir ((a + pgsize) % u32) last ((pa + pgsize) % u32) perm l))
    → MapsEnds kernel_end pgdir (suc n) a pa perm k (
        r >>= λ (r, k). elim r [
          | negsuc n ↦ ok (negsuc n, k)
          | pos n ↦
              if a == last
              then ok (pos 0, k)
              else map_pages fuel pgdir ((a + pgsize) % u32) last ((pa + pgsize) % u32) perm k
        ])
round_ends fuel n kernel_end pgdir a last pa perm k (panic text) q z l e h = (a, l, ground arith, e)
round_ends fuel n kernel_end pgdir a last pa perm k (ok (negsuc x, j)) q z l (s, g) h =
    (s, λ x b i. g x)
round_ends fuel n kernel_end pgdir a last pa perm k (ok (pos x, j)) q z l (f, (qs, s), g) h =
    elim (Bool-cases (a == last)) [
      | inl y ↦ rw y (
          MapsEnds-next kernel_end pgdir n a pa perm k j (ok (pos 0, j)) z l (f, (qs, s), g)
            (MapsEnds-none kernel_end pgdir n (a + pgsize) (pa + pgsize) perm j qs
              (omega (arith, q, ==→eq _ _ y)) s))
      | inr y ↦ rw y (
          MapsEnds-next kernel_end pgdir n a pa perm k j _ z l (f, (qs, s), g)
            (h j qs s (omega (arith, q, ==_false→ne _ _ y))))
    ]

map_pages-MapsEnds :
    (n kernel_end pgdir a last pa perm : ℕ) (k : Kmem) (ps : List ℕ)
    → IsSpace kernel_end pgdir k ps
    → last ≡ a + n * pgsize
    → a % pgsize ≡ 0
    → pa % pgsize ≡ 0
    → perm < pgsize
    → last + pgsize ≤ u32
    → pa + suc n * pgsize ≤ u32
    → MapsEnds kernel_end pgdir (suc n) a pa perm k (map_pages (suc n) pgdir a last pa perm k)
unfolding map_pages
map_pages-MapsEnds zero kernel_end pgdir a last pa perm k ps s q z y p l m =
    round_ends zero zero kernel_end pgdir a last pa perm k (map_page pgdir a pa perm k) q z
      (omega (arith, q, l))
      (map_page-PageEnds kernel_end pgdir a pa perm k ps s (omega (arith, q, l))
        (entry_bound pa perm y p (omega (arith, m))))
      (λ l qs t o. absurd (omega arith))
map_pages-MapsEnds (suc n) kernel_end pgdir a last pa perm k ps s q z y p l m =
    let wrap : (a + pgsize) % u32 ≡ a + pgsize = omega (arith, q, l) in
    let wrap_pa : (pa + pgsize) % u32 ≡ pa + pgsize = omega (arith, m) in
    round_ends (suc n) (suc n) kernel_end pgdir a last pa perm k (map_page pgdir a pa perm k) q z
      (omega (arith, q, l))
      (map_page-PageEnds kernel_end pgdir a pa perm k ps s (omega (arith, q, l))
        (entry_bound pa perm y p (omega (arith, m))))
      (λ j qs t o.
        subst
          (λ b.
            MapsEnds kernel_end pgdir (suc n) (a + pgsize) (pa + pgsize) perm j
              (map_pages (suc n) pgdir b last ((pa + pgsize) % u32) perm j))
          (sym wrap)
          (subst
            (λ b.
              MapsEnds kernel_end pgdir (suc n) (a + pgsize) (pa + pgsize) perm j
                (map_pages (suc n) pgdir (a + pgsize) last b perm j))
            (sym wrap_pa)
            (map_pages-MapsEnds n kernel_end pgdir (a + pgsize) last (pa + pgsize) perm j qs t
              (omega (arith, q)) (omega (arith, z)) (omega (arith, y)) p l (omega (arith, m)))))

-- `mappages` of a range that does not wrap, in an address space whose page tables and free pages are
-- apart, panics only when a page of the range is mapped already. Where it returns 0, exactly the pages of
-- the range have changed, each to the next page from `pa` on, and none of them was mapped before. Where
-- it returns -1, no page is free any more, and the pages outside of the range are as they were. It leaves
-- page tables and free pages apart.
pub mappages-MapsEnds :
    (n kernel_end pgdir va size pa perm : ℕ) (k : Kmem) (ps : List ℕ)
    → IsSpace kernel_end pgdir k ps
    → 0 < size
    → va + size ≤ u32
    → n ≡ (va + size - 1) / pgsize - va / pgsize
    → pa % pgsize ≡ 0
    → pa + suc n * pgsize ≤ u32
    → perm < pgsize
    → MapsEnds kernel_end pgdir
        (suc n)
        (pgrounddown va)
        pa
        perm
        k
        (mappages pgdir va size pa perm k)
unfolding mappages
mappages-MapsEnds n kernel_end pgdir va size pa perm k ps s z l e y m p =
    let a = pgrounddown va in
    let last = pgrounddown ((va + size + (u32 - 1)) % u32) in
    let rounds : (last + u32 - a) % u32 / pgsize + 1 ≡ suc n = omega (arith, z, l, e) in
    subst (λ f. MapsEnds kernel_end pgdir (suc n) a pa perm k (map_pages f pgdir a last pa perm k))
      (sym rounds)
      (map_pages-MapsEnds n kernel_end pgdir a last pa perm k ps s (omega (arith, z, l, e))
        (omega arith) y p (omega (arith, z, l)) m)
