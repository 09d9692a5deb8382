-- ===== src/Vm/Space.antt =====
-- vm.c: an address space as the entries that the processor finds for its pages.
use osass.Base.{
  List, [], ◌∷◌, ℕ, ◌+◌, ◌*◌, ◌%◌, ◌<◌, ◌≡◌, ◌≢◌, refl, sym, ap, subst, ◌∙◌, true, false, ◌&&◌,
  ◌==◌, if◌then◌else◌, ==→eq, ==_false→ne, ne→==_false, Bool-cases, inl, inr, arith, Memory,
}
use osass.Base.Words.{get32, put32, get32-put32_self, get32-put32_apart}
use osass.Pipe.{u32}
use osass.Kalloc.{pgsize, Kmem}
use osass.Kalloc.Chain.{NotIn, Chain, Free}
use osass.Vm.{pdx, ptx, pte_addr, is_present, p2v, store}

-- Entry `i` of the directory, and the page table that it names.
abbrev pub pde : Memory → ℕ → ℕ → ℕ
pde m pgdir i = get32 m (pgdir + 4 * i)

abbrev pub table : Memory → ℕ → ℕ → ℕ
table m pgdir i = p2v (pte_addr (pde m pgdir i))

-- The entry for the page of `va`, 0 where there is no page table.
unfoldable pub lookup : Memory → ℕ → ℕ → ℕ
lookup m pgdir va =
    if is_present (pde m pgdir (pdx va)) then get32 m (table m pgdir (pdx va) + 4 * ptx va) else 0

-- The page tables that the entries `d` name, each in a page of its own that is not free.
pub record Tables (pgdir : ℕ) (d : ℕ → ℕ) (ps : List ℕ) : Type 0 where
  pub not_null : (i : ℕ) → i < 1024 → is_present (d i) ≡ true → 0 < p2v (pte_addr (d i))
  pub not_dir : (i : ℕ) → i < 1024 → is_present (d i) ≡ true → p2v (pte_addr (d i)) ≢ pgdir
  pub taken : (i : ℕ) → i < 1024 → is_present (d i) ≡ true → NotIn (p2v (pte_addr (d i))) ps
  pub apart :
      (i j : ℕ)
      → i < 1024
      → j < 1024
      → is_present (d i) ≡ true
      → is_present (d j) ≡ true
      → p2v (pte_addr (d i)) ≡ p2v (pte_addr (d j))
      → i ≡ j

-- A directory and its page tables, beside the free pages.
pub record IsSpace (kernel_end pgdir : ℕ) (k : Kmem) (ps : List ℕ) : Type 0 where
  pub free : Free kernel_end k ps
  pub aligned : pgdir % pgsize ≡ 0
  pub dir_taken : NotIn pgdir ps
  pub tables : Tables pgdir (pde k.mem pgdir) ps

pub Tables-same :
    (pgdir : ℕ) (d d2 : ℕ → ℕ) (ps : List ℕ)
    → ((i : ℕ) → i < 1024 → d2 i ≡ d i)
    → Tables pgdir d ps
    → Tables pgdir d2 ps
Tables-same pgdir d d2 ps h t =
    let c : (i : ℕ) → i < 1024 → is_present (d2 i) ≡ true → is_present (d i) ≡ true =
      λ i l e. subst (λ x. is_present x ≡ true) (h i l) e in
    let n : (i : ℕ) → i < 1024 → p2v (pte_addr (d2 i)) ≡ p2v (pte_addr (d i)) =
      λ i l. ap (λ x. p2v (pte_addr x)) (h i l) in
    record {
      not_null = λ i l e. subst (λ x. 0 < x) (sym (n i l)) (t.not_null i l (c i l e));
      not_dir = λ i l e r. t.not_dir i l (c i l e) (sym (n i l) ∙ r);
      taken = λ i l e. subst (λ x. NotIn x ps) (sym (n i l)) (t.taken i l (c i l e));
      apart = λ i j l m e f r. t.apart i j l m (c i l e) (c j m f) (sym (n i l) ∙ r ∙ n j m);
    }

-- A page table begins at a page.
pub table_aligned : (m : Memory) (pgdir i : ℕ) → table m pgdir i % pgsize ≡ 0
table_aligned m pgdir i = omega arith

-- Two pages that are not in the list.
pub Chain-outside :
    (kernel_end : ℕ) (m m2 : Memory) (a b head : ℕ) (ps : List ℕ)
    → NotIn a ps
    → NotIn b ps
    → ((q : ℕ) → q % pgsize ≡ 0 → a ≢ q → b ≢ q → get32 m2 q ≡ get32 m q)
    → Chain kernel_end m head ps
    → Chain kernel_end m2 head ps
Chain-outside kernel_end m m2 a b head [] x y h c = c
Chain-outside kernel_end m m2 a b head (p ∷ ps) (x, xs) (y, ys) h (e, g, d, c) =
    (e, g, d, rw (h p g.aligned x y) (Chain-outside kernel_end m m2 a b (get32 m p) ps xs ys h c))

module _ (kernel_end pgdir : ℕ) (k : Kmem) (ps : List ℕ) (s : IsSpace kernel_end pgdir k ps)
    (i t v : ℕ) (l : i < 1024) (u : t < 1024) (p : is_present (pde k.mem pgdir i) ≡ true) where
  abbrev place : ℕ
  place = table k.mem pgdir i + 4 * t

  abbrev after : Memory
  after = put32 k.mem place v

  -- A word of another page.
  other_page :
      (q o : ℕ)
      → q % pgsize ≡ 0
      → o < 1024
      → table k.mem pgdir i ≢ q
      → get32 after (q + 4 * o) ≡ get32 k.mem (q + 4 * o)
  other_page q o a b n =
      get32-put32_apart k.mem place (q + 4 * o) v
        (omega (arith, a, b, n, table_aligned k.mem pgdir i))

  same_pde : (j : ℕ) → j < 1024 → pde after pgdir j ≡ pde k.mem pgdir j
  same_pde j m = other_page pgdir j s.aligned m (s.tables.not_dir i l p)

  pub store-IsSpace : IsSpace kernel_end pgdir (store place v k) ps
  store-IsSpace = record {
    free = record {
      unlocked = s.free.unlocked;
      chain =
          Chain-outside kernel_end k.mem after (table k.mem pgdir i) (table k.mem pgdir i)
            k.freelist ps (s.tables.taken i l p) (s.tables.taken i l p)
            (λ q a n _.
              ap (get32 after) (omega arith)
              ∙ other_page q 0 a (omega arith) n
              ∙ ap (get32 k.mem) (omega arith))
            s.free.chain;
    };
    aligned = s.aligned;
    dir_taken = s.dir_taken;
    tables = Tables-same pgdir (pde k.mem pgdir) (pde after pgdir) ps same_pde s.tables;
  }

  word_at :
      (va : ℕ)
      → v < u32
      → (q : ℕ) → q ≡ table k.mem pgdir i
      → get32 after (q + 4 * ptx va) ≡ (if ptx va == t then v else get32 k.mem (q + 4 * ptx va))
  word_at va b q e = elim (Bool-cases (ptx va == t)) [
    | inl x ↦
        let here : q + 4 * ptx va ≡ place = omega (arith, e, ==→eq _ _ x) in
        rw x (ap (get32 after) here ∙ get32-put32_self k.mem place v b)
    | inr x ↦ rw x (get32-put32_apart k.mem place (q + 4 * ptx va) v (ground (arith, x, e)))
  ]

  pub lookup-store :
      v < u32
      → (va : ℕ)
      → lookup after pgdir va
        ≡ (if (pdx va == i) && (ptx va == t) then v else lookup k.mem pgdir va)
  unfolding lookup
  lookup-store b va = elim (Bool-cases (is_present (pde k.mem pgdir (pdx va)))) [
    | inr e ↦
        let q : (pdx va == i) ≡ false =
          ne→==_false _ _
            (λ r. absurd (cc (e, subst (λ n. is_present (pde k.mem pgdir n) ≡ true) (sym r) p))) in
        rw (same_pde (pdx va) (omega arith), e, q) refl
    | inl e ↦ elim (Bool-cases (pdx va == i)) [
      | inl x ↦
          let q : table k.mem pgdir (pdx va) ≡ table k.mem pgdir i =
            ap (table k.mem pgdir) (==→eq _ _ x) in
          rw (same_pde (pdx va) (omega arith), e, x) (word_at va b (table k.mem pgdir (pdx va)) q)
      | inr x ↦
          rw (same_pde (pdx va) (omega arith), e, x)
            (other_page (table k.mem pgdir (pdx va)) (ptx va) (table_aligned k.mem pgdir (pdx va))
              (omega arith)
              (λ r. ==_false→ne _ _ x (s.tables.apart (pdx va) i (omega arith) l e p (sym r))))
    ]
  ]
