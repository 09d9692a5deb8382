-- ===== src/Vm/Table.antt =====
-- vm.c: a new page table.
use Prim.Native.Nat.{bit_or}
use osass.Base.{
  List, ◌∷◌, ℕ, ◌+◌, ◌*◌, ◌%◌, ◌<◌, ◌≡◌, ◌≢◌, refl, sym, ap, subst, ◌∙◌, true, false, ◌==◌,
  in_range, if◌then◌else◌, ==→eq, ==_false→ne, eq→==, Bool-cases, inl, inr, arith, Memory,
}
use osass.Base.Words.{get32, put32, get32-put32_self, get32-put32_apart}
use osass.Pipe.{u32}
use osass.Str.{memset}
use osass.Str.Move.{memset-filled}
use osass.Kalloc.{pgsize, v2p, Kmem}
use osass.Kalloc.Chain.{IsPage, NotIn, Free}
use osass.Vm.{pdx, ptx, pte_addr, is_present, p2v}
use osass.Vm.Bits.{table_flags}
use osass.Vm.Space.{pde, table, lookup, Tables, IsSpace, Tables-same, Chain-outside, table_aligned}

-- The memory with an empty page table at `t` for entry `i`.
abbrev tabled : Memory → ℕ → ℕ → ℕ → Memory
tabled m pgdir i t =
    put32 (memset m t 0 pgsize) (pgdir + 4 * i) (bit_or (bit_or (bit_or (v2p t) 1) 2) 4)

not_inside :
    (t q o h : ℕ)
    → t % pgsize ≡ 0
    → q % pgsize ≡ 0
    → o < 1024
    → h < 4
    → t ≢ q
    → in_range t pgsize (q + 4 * o + h) ≡ false
not_inside t q o h a b c l n = ground arith

is_inside : (t o h : ℕ) → o < 1024 → h < 4 → in_range t pgsize (t + 4 * o + h) ≡ true
is_inside t o h c l = ground arith

cleared_byte :
    (m : Memory) (t a : ℕ) → memset m t 0 pgsize a ≡ (if in_range t pgsize a then 0 else m a)
cleared_byte m t a = memset-filled m t 0 pgsize a

cleared_outside :
    (m : Memory) (t q o : ℕ)
    → t % pgsize ≡ 0
    → q % pgsize ≡ 0
    → o < 1024
    → t ≢ q
    → get32 (memset m t 0 pgsize) (q + 4 * o) ≡ get32 m (q + 4 * o)
unfolding get32
cleared_outside m t q o a b c n =
    let at_byte : (h : ℕ) → h < 4 → memset m t 0 pgsize (q + 4 * o + h) ≡ m (q + 4 * o + h) =
      λ h l. cleared_byte m t (q + 4 * o + h) ∙ rw (not_inside t q o h a b c l n) refl in
    let first : memset m t 0 pgsize (q + 4 * o) ≡ m (q + 4 * o) =
      ap (memset m t 0 pgsize) (omega arith) ∙ at_byte 0 (omega arith) ∙ ap m (omega arith) in
    omega (arith, first, at_byte 1 (omega arith), at_byte 2 (omega arith), at_byte 3 (omega arith))

cleared_inside : (m : Memory) (t o : ℕ) → o < 1024 → get32 (memset m t 0 pgsize) (t + 4 * o) ≡ 0
unfolding get32
cleared_inside m t o c =
    let at_byte : (h : ℕ) → h < 4 → memset m t 0 pgsize (t + 4 * o + h) ≡ 0 =
      λ h l. cleared_byte m t (t + 4 * o + h) ∙ rw (is_inside t o h c l) refl in
    let first : memset m t 0 pgsize (t + 4 * o) ≡ 0 =
      ap (memset m t 0 pgsize) (omega arith) ∙ at_byte 0 (omega arith) in
    omega (arith, first, at_byte 1 (omega arith), at_byte 2 (omega arith), at_byte 3 (omega arith))

module _ (kernel_end pgdir : ℕ) (k l : Kmem) (t : ℕ) (ps : List ℕ)
    (s : IsSpace kernel_end pgdir k (t ∷ ps)) (f : Free kernel_end l ps) (same : l.mem ≡ k.mem)
    (g : IsPage kernel_end t) (d : NotIn t ps) (i : ℕ) (b : i < 1024)
    (e : is_present (pde k.mem pgdir i) ≡ false) where
  abbrev after : Memory
  after = tabled l.mem pgdir i t

  abbrev entry_value : ℕ
  entry_value = bit_or (bit_or (bit_or (v2p t) 1) 2) 4

  value : entry_value ≡ v2p t + 7
  value = table_flags (v2p t) (omega (arith, g.aligned))

  -- A word of a page that is neither the new one nor the directory.
  other_page :
      (q o : ℕ)
      → q % pgsize ≡ 0
      → o < 1024
      → t ≢ q
      → pgdir ≢ q
      → get32 after (q + 4 * o) ≡ get32 k.mem (q + 4 * o)
  other_page q o a c n r =
      get32-put32_apart (memset l.mem t 0 pgsize) (pgdir + 4 * i) (q + 4 * o) entry_value
        (omega (arith, a, c, r, s.aligned, b))
      ∙ cleared_outside l.mem t q o g.aligned a c n
      ∙ ap (λ m. get32 m (q + 4 * o)) same

  apart_dir : t ≢ pgdir
  apart_dir r = s.dir_taken.0 (sym r)

  fits : v2p t + 7 < u32
  fits = omega (arith, g.aligned)

  new_pde :
      (j : ℕ) → j < 1024 → pde after pgdir j ≡ (if i == j then v2p t + 7 else pde k.mem pgdir j)
  new_pde j c = elim (Bool-cases (i == j)) [
    | inl x ↦
        let here : pgdir + 4 * j ≡ pgdir + 4 * i = omega (arith, ==→eq _ _ x) in
        rw x (
          ap (get32 after) here
          ∙ get32-put32_self (memset l.mem t 0 pgsize) (pgdir + 4 * i) entry_value
              (omega (arith, value, fits))
          ∙ value)
    | inr x ↦ rw x (
        get32-put32_apart (memset l.mem t 0 pgsize) (pgdir + 4 * i) (pgdir + 4 * j) entry_value
          (omega (arith, ==_false→ne _ _ x))
        ∙ cleared_outside l.mem t pgdir j g.aligned s.aligned c apart_dir
        ∙ ap (λ m. get32 m (pgdir + 4 * j)) same)
  ]

  new_word : (o : ℕ) → o < 1024 → get32 after (t + 4 * o) ≡ 0
  new_word o c =
      get32-put32_apart (memset l.mem t 0 pgsize) (pgdir + 4 * i) (t + 4 * o) entry_value
        (omega (arith, c, s.aligned, g.aligned, b, apart_dir))
      ∙ cleared_inside l.mem t o c

  new_table_at : p2v (pte_addr (v2p t + 7)) ≡ t
  new_table_at = omega (arith, g.aligned, g.fits)

  new_present : is_present (v2p t + 7) ≡ true
  new_present = ground (arith, g.aligned)

  others_lem : (j : ℕ) → j < 1024 → is_present (pde k.mem pgdir j) ≡ true → i ≢ j
  others_lem j c p r = absurd (cc (e, subst (λ n. is_present (pde k.mem pgdir n) ≡ true) (sym r) p))

  tabled-Tables : Tables pgdir (pde after pgdir) ps
  tabled-Tables =
      Tables-same pgdir (λ j. if i == j then v2p t + 7 else pde k.mem pgdir j) (pde after pgdir) ps
        new_pde
        (record {
          not_null = λ j c. elim (Bool-cases (i == j)) [
            | inl x ↦ rw x (λ p. omega (arith, new_table_at, g.not_null))
            | inr x ↦ rw x (s.tables.not_null j c)
          ];
          not_dir = λ j c. elim (Bool-cases (i == j)) [
            | inl x ↦ rw x (λ p r. apart_dir (sym new_table_at ∙ r))
            | inr x ↦ rw x (s.tables.not_dir j c)
          ];
          taken = λ j c. elim (Bool-cases (i == j)) [
            | inl x ↦ rw x (λ p. subst (λ q. NotIn q ps) (sym new_table_at) d)
            | inr x ↦ rw x (λ p. (s.tables.taken j c p).1)
          ];
          apart = λ j h c m. elim (Bool-cases (i == j)) [
            | inl x ↦ elim (Bool-cases (i == h)) [
              | inl y ↦ (λ p q r. sym (==→eq _ _ x) ∙ ==→eq _ _ y)
              | inr y ↦
                  rw (x, y) (λ p q r. absurd ((s.tables.taken h m q).0 (sym r ∙ new_table_at)))
            ]
            | inr x ↦ elim (Bool-cases (i == h)) [
              | inl y ↦ rw (x, y) (λ p q r. absurd ((s.tables.taken j c p).0 (r ∙ new_table_at)))
              | inr y ↦ rw (x, y) (s.tables.apart j h c m)
            ]
          ];
        })

  pub tabled-IsSpace : IsSpace kernel_end pgdir (record l { mem = after }) ps
  tabled-IsSpace = record {
    free = record {
      unlocked = f.unlocked;
      chain =
          Chain-outside kernel_end l.mem after t pgdir l.freelist ps d s.dir_taken.1
            (λ q a n r.
              ap (get32 after) (omega arith)
              ∙ other_page q 0 a (omega arith) n r
              ∙ ap (get32 k.mem) (omega arith)
              ∙ ap (λ m. get32 m q) (sym same))
            f.chain;
    };
    aligned = s.aligned;
    dir_taken = s.dir_taken.1;
    tables = tabled-Tables;
  }

  -- The new table has no entries, as its place had before.
  pub lookup-tabled : (va : ℕ) → lookup after pgdir va ≡ lookup k.mem pgdir va
  unfolding lookup
  lookup-tabled va =
      let q : pde after pgdir (pdx va)
          ≡ (if i == pdx va then v2p t + 7 else pde k.mem pgdir (pdx va)) =
        new_pde (pdx va) (omega arith) in
      elim (Bool-cases (i == pdx va)) [
        | inl x ↦
            let z : pde after pgdir (pdx va) ≡ v2p t + 7 = q ∙ rw x refl in
            let none_yet : is_present (pde k.mem pgdir (pdx va)) ≡ false =
              subst (λ n. is_present (pde k.mem pgdir n) ≡ false) (==→eq _ _ x) e in
            rw (z, new_present, none_yet)
              (ap (λ w. get32 after (w + 4 * ptx va)) new_table_at
                ∙ new_word (ptx va) (omega arith))
        | inr x ↦
            let z : pde after pgdir (pdx va) ≡ pde k.mem pgdir (pdx va) = q ∙ rw x refl in
            elim (Bool-cases (is_present (pde k.mem pgdir (pdx va)))) [
              | inr y ↦ rw (z, y) refl
              | inl y ↦
                  rw (z, y)
                    (other_page (table k.mem pgdir (pdx va)) (ptx va)
                      (table_aligned k.mem pgdir (pdx va)) (omega arith)
                      (λ r. (s.tables.taken (pdx va) (omega arith) y).0 (sym r))
                      (λ r. s.tables.not_dir (pdx va) (omega arith) y (sym r)))
            ]
      ]

  own_pde : pde after pgdir i ≡ v2p t + 7
  own_pde = new_pde i b ∙ rw (eq→== i i refl) refl

  pub own_table : table after pgdir i ≡ t
  own_table = ap (λ d. p2v (pte_addr d)) own_pde ∙ new_table_at

  pub own_present : is_present (pde after pgdir i) ≡ true
  own_present = ap (λ d. is_present d) own_pde ∙ new_present
