-- ===== src/Vm/Page.antt =====
-- vm.c: `mappages` maps one page.
use Prim.Native.Nat.{bit_or}
use osass.Base.{
  List, [], ℕ, ◌+◌, ◌*◌, ◌/◌, ◌<◌, ◌≡◌, refl, sym, ap, subst, ◌∙◌, true, false, ◌&&◌, ◌==◌,
  if◌then◌else◌, ne→==_false, eq→==, Bool-cases, inl, inr, arith, Memory, Outcome, ok, panic,
  panic_if, ◌>>=◌, ◌>>◌,
}
use osass.Base.Int.{ℤ, pos, negsuc}
use osass.Base.Words.{get32}
use osass.Pipe.{u32}
use osass.Kalloc.{pgsize, Kmem}
use osass.Vm.{pdx, ptx, is_present, store, walkpgdir, map_page}
use osass.Vm.Space.{pde, table, lookup, IsSpace, store-IsSpace, lookup-store}
use osass.Vm.Walk.{WalkEnds, walkpgdir-WalkEnds}

-- The entry that `mappages` makes.
abbrev pub entry_of : ℕ → ℕ → ℕ
entry_of pa perm = bit_or (bit_or pa perm) 1

-- How the mapping of one page ends.
abbrev pub PageEnds : ℕ → ℕ → ℕ → ℕ → ℕ → Kmem → Outcome (ℤ × Kmem) → Type 0
PageEnds kernel_end pgdir a pa perm k (panic text) = is_present (lookup k.mem pgdir a) ≡ true
PageEnds kernel_end pgdir a pa perm k (ok (negsuc n, l)) =
    IsSpace kernel_end pgdir l [] × ((x : ℕ) → lookup l.mem pgdir x ≡ lookup k.mem pgdir x)
PageEnds kernel_end pgdir a pa perm k (ok (pos n, l)) =
    (is_present (lookup k.mem pgdir a) ≡ false)
    × ((qs : List ℕ) × IsSpace kernel_end pgdir l qs)
    × ((x : ℕ)
        → x < u32
        → lookup l.mem pgdir x
          ≡ (if x / pgsize == a / pgsize then entry_of pa perm else lookup k.mem pgdir x))

-- Two addresses of one page have one entry.
same_page :
    (x a : ℕ)
    → x < u32
    → a < u32
    → ((pdx x == pdx a) && (ptx x == ptx a)) ≡ (x / pgsize == a / pgsize)
same_page x a l m = ground arith

lookup_there :
    (m : Memory) (pgdir va : ℕ)
    → is_present (pde m pgdir (pdx va)) ≡ true
    → lookup m pgdir va ≡ get32 m (table m pgdir (pdx va) + 4 * ptx va)
unfolding lookup
lookup_there m pgdir va e = rw e refl

page_ends :
    (kernel_end pgdir a pa perm : ℕ) (k : Kmem) (ps : List ℕ) (r : Outcome (ℕ × Kmem))
    → a < u32
    → entry_of pa perm < u32
    → WalkEnds kernel_end pgdir a k ps r
    → PageEnds kernel_end pgdir a pa perm k (
        r >>= λ (pte, k).
        if pte == 0
        then ok (negsuc 0, k)
        else (panic_if (is_present (get32 k.mem pte)) "remap"
            >> ok (pos 0, store pte (bit_or (bit_or pa perm) 1) k)))
page_ends kernel_end pgdir a pa perm k ps (panic text) l v w = absurd w
page_ends kernel_end pgdir a pa perm k ps (ok (pte, j)) l v (inl (z, _, m, t)) =
    rw (eq→== pte 0 z, PageEnds) (t, λ x. ap (λ m. lookup m pgdir x) m)
page_ends kernel_end pgdir a pa perm k ps (ok (pte, j)) l v (inr (qs, n, p, e, t, same)) =
    let w : get32 j.mem pte ≡ lookup k.mem pgdir a =
      ap (get32 j.mem) p ∙ sym (lookup_there j.mem pgdir a e) ∙ same a in
    let nz : (pte == 0) ≡ false = ne→==_false pte 0 (omega (arith, n)) in
    elim (Bool-cases (is_present (lookup k.mem pgdir a))) [
      | inl y ↦ rw (nz, w, y, PageEnds) y
      | inr y ↦
          rw (nz, w, y, PageEnds)
            (
              y,
              (
                qs,
                subst (λ q. IsSpace kernel_end pgdir (store q (entry_of pa perm) j) qs) (sym p)
                    (store-IsSpace kernel_end pgdir j qs t (pdx a) (ptx a) (entry_of pa perm)
                      (omega arith) (omega arith) e),
              ),
              (λ x b.
                  ap (λ q. lookup (store q (entry_of pa perm) j).mem pgdir x) p
                  ∙ lookup-store kernel_end pgdir j qs t (pdx a) (ptx a) (entry_of pa perm)
                      (omega arith) (omega arith) e v x
                  ∙ ap (λ c. if c then entry_of pa perm else lookup j.mem pgdir x)
                      (same_page x a b l)
                  ∙ ap (λ w. if x / pgsize == a / pgsize then entry_of pa perm else w) (same x)),
            )
    ]

pub map_page-PageEnds :
    (kernel_end pgdir a pa perm : ℕ) (k : Kmem) (ps : List ℕ)
    → IsSpace kernel_end pgdir k ps
    → a < u32
    → entry_of pa perm < u32
    → PageEnds kernel_end pgdir a pa perm k (map_page pgdir a pa perm k)
unfolding map_page
map_page-PageEnds kernel_end pgdir a pa perm k ps s l v =
    page_ends kernel_end pgdir a pa perm k ps (walkpgdir pgdir a true k) l v
      (walkpgdir-WalkEnds kernel_end pgdir a k ps s)
