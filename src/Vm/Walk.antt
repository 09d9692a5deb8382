-- ===== src/Vm/Walk.antt =====
-- vm.c: `walkpgdir` finds the entry for an address, and makes a page table where there is none.
use osass.Base.{
  List, [], ◌∷◌, ℕ, ◌+◌, ◌*◌, ◌<◌, ◌≡◌, refl, sym, ap, subst, true, false, ne→==_false, Bool-cases,
  inl, inr, ◌⊎◌, arith, Outcome, ok, panic,
}
use osass.Kalloc.{Kmem}
use osass.Kalloc.Chain.{kalloc-Free}
use osass.Vm.{pdx, ptx, is_present, new_table, walkpgdir}
use osass.Vm.Space.{pde, table, lookup, Tables, IsSpace}
use osass.Vm.Table.{own_table, own_present, tabled-IsSpace, lookup-tabled}

-- How `walkpgdir` with `alloc` ends: without memory, or at the entry of the address.
abbrev pub WalkEnds : ℕ → ℕ → ℕ → Kmem → List ℕ → Outcome (ℕ × Kmem) → Type 0
WalkEnds kernel_end pgdir va k ps (panic text) = ⊥
WalkEnds kernel_end pgdir va k ps (ok (pte, l)) =
    ((pte ≡ 0) × (ps ≡ []) × (l.mem ≡ k.mem) × IsSpace kernel_end pgdir l [])
    ⊎ ((qs : List ℕ) × (0 < pte)
        × (pte ≡ table l.mem pgdir (pdx va) + 4 * ptx va)
        × (is_present (pde l.mem pgdir (pdx va)) ≡ true)
        × IsSpace kernel_end pgdir l qs
        × ((x : ℕ) → lookup l.mem pgdir x ≡ lookup k.mem pgdir x))

new_table-WalkEnds :
    (kernel_end pgdir va : ℕ) (k : Kmem) (ps : List ℕ)
    → IsSpace kernel_end pgdir k ps
    → is_present (pde k.mem pgdir (pdx va)) ≡ false
    → WalkEnds kernel_end pgdir va k ps (new_table pgdir va k)
unfolding new_table
new_table-WalkEnds kernel_end pgdir va k [] s e =
    let (l, r, f, _, m) = kalloc-Free kernel_end k [] s.free in
    rw (r, WalkEnds)
      (inl (
        refl,
        refl,
        m,
        record {
          free = f;
          aligned = s.aligned;
          dir_taken = s.dir_taken;
          tables = subst (λ m. Tables pgdir (pde m pgdir) []) (sym m) s.tables;
        },
      ))
new_table-WalkEnds kernel_end pgdir va k (t ∷ ps) s e =
    let (l, r, f, _, m) = kalloc-Free kernel_end k (t ∷ ps) s.free in
    let (_, g, d, _) = s.free.chain in
    rw (r, ne→==_false t 0 (omega (arith, g.not_null)), WalkEnds)
      (inr (
        ps,
        omega (arith, g.not_null),
        ap (λ q. q + 4 * ptx va)
            (sym (own_table kernel_end pgdir k l t ps s f m g d (pdx va) (omega arith) e)),
        own_present kernel_end pgdir k l t ps s f m g d (pdx va) (omega arith) e,
        tabled-IsSpace kernel_end pgdir k l t ps s f m g d (pdx va) (omega arith) e,
        lookup-tabled kernel_end pgdir k l t ps s f m g d (pdx va) (omega arith) e,
      ))

pub walkpgdir-WalkEnds :
    (kernel_end pgdir va : ℕ) (k : Kmem) (ps : List ℕ)
    → IsSpace kernel_end pgdir k ps
    → WalkEnds kernel_end pgdir va k ps (walkpgdir pgdir va true k)
unfolding walkpgdir
walkpgdir-WalkEnds kernel_end pgdir va k ps s =
    elim (Bool-cases (is_present (pde k.mem pgdir (pdx va)))) [
      | inl e ↦
          rw (e, WalkEnds)
            (inr (
              ps,
              omega (arith, s.tables.not_null (pdx va) (omega arith) e),
              refl,
              e,
              s,
              λ x. refl,
            ))
      | inr e ↦ rw e (new_table-WalkEnds kernel_end pgdir va k ps s e)
    ]
