-- ===== src/Kalloc/Pages.antt =====
-- kalloc.c: the pages of a range, freed one after the other at start-up.
use osass.Base.{
  ℕ, zero, suc, ◌+◌, ◌-◌, ◌*◌, ◌/◌, ◌%◌, ◌≤◌, ◌<◌, ◌≡◌, refl, ap, ◌∙◌, arith, true, false, leb, ok,
  ◌>>=◌, List, [], ◌∷◌,
}
use osass.Pipe.{u32}
use osass.Kalloc.{pgsize, pgroundup, Kmem, free_pages, freerange, kinit1, kinit2}
use osass.Kalloc.Chain.{IsPage, NotIn, Free, kfree-Free}

-- `n` pages from `p` on, put on a list in that order.
abbrev pub stack : ℕ → ℕ → List ℕ → List ℕ
stack zero p ps = ps
stack (suc n) p ps = stack n (p + pgsize) (p ∷ ps)

-- Every page from `p` up to `vend` is one that `kfree` takes, and is not in the list.
abbrev pub Fresh : ℕ → ℕ → ℕ → List ℕ → Type 0
Fresh kernel_end p vend ps =
    (q : ℕ) → p ≤ q → q % pgsize ≡ 0 → q + pgsize ≤ vend → IsPage kernel_end q × NotIn q ps

Fresh-next :
    (kernel_end p vend : ℕ) (ps : List ℕ)
    → Fresh kernel_end p vend ps
    → Fresh kernel_end (p + pgsize) vend (p ∷ ps)
Fresh-next kernel_end p vend ps f q h a b =
    let (g, n) = f q (omega arith) a b in (g, ((λ e. omega arith), n))

free_pages-Free :
    (n fuel kernel_end p vend : ℕ) (k : Kmem) (ps : List ℕ)
    → n < fuel
    → p % pgsize ≡ 0
    → p + pgsize < u32
    → vend + pgsize < u32
    → n ≡ (vend - p) / pgsize
    → Fresh kernel_end p vend ps
    → Free kernel_end k ps
    → (l : Kmem) × (free_pages kernel_end fuel p vend k ≡ ok l)
      × Free kernel_end l (stack n p ps)
      × (l.use_lock ≡ k.use_lock)
unfolding free_pages
free_pages-Free n zero kernel_end p vend k ps a b c d e f g = absurd (omega arith)
free_pages-Free zero (suc fuel) kernel_end p vend k ps a b c d e f g = (k, ground arith, g, refl)
free_pages-Free (suc n) (suc fuel) kernel_end p vend k ps a b c d e f g =
    let (page, apart) = f p (omega arith) b (omega arith) in
    let (m, run, after, same, _) = kfree-Free kernel_end p k ps page apart g in
    let next : (p + pgsize) % u32 ≡ p + pgsize = omega arith in
    let more : leb ((p + pgsize) % u32) vend ≡ true = ground arith in
    let (l, rest, end, same_too) =
      free_pages-Free n fuel kernel_end (p + pgsize) vend m (p ∷ ps) (omega arith) (omega arith)
        (omega arith) d (omega arith) (Fresh-next kernel_end p vend ps f) after in
    (
      l,
      rw (more, run) (ap (λ x. free_pages kernel_end fuel x vend m) next ∙ rest),
      end,
      same_too ∙ same,
    )

-- `freerange` frees exactly the pages that lie whole in the range.
pub freerange-Free :
    (kernel_end vstart vend : ℕ) (k : Kmem) (ps : List ℕ)
    → vstart + 2 * pgsize ≤ u32
    → vend + pgsize < u32
    → Fresh kernel_end (pgroundup vstart) vend ps
    → Free kernel_end k ps
    → (l : Kmem) × (freerange kernel_end vstart vend k ≡ ok l)
      × Free kernel_end l (stack ((vend - pgroundup vstart) / pgsize) (pgroundup vstart) ps)
      × (l.use_lock ≡ k.use_lock)
unfolding freerange
freerange-Free kernel_end vstart vend k ps a b f g =
    free_pages-Free ((vend - pgroundup vstart) / pgsize) (vend / pgsize + 1) kernel_end
      (pgroundup vstart) vend k ps (omega arith) (omega arith) (omega arith) b refl f g

-- With no page free at first, ranges below the end of the address space, and pages in them that
-- `kfree` takes and that do not overlap, the two initialisers do not panic; they leave on the
-- free list exactly the pages that lie whole in the ranges, each once, and locking on.
pub kinit2-kinit1 :
    (kernel_end vstart vmid vend : ℕ) (k : Kmem)
    → vstart + 2 * pgsize ≤ u32
    → vmid + 2 * pgsize ≤ u32
    → vend + pgsize < u32
    → k.freelist ≡ 0
    → Fresh kernel_end (pgroundup vstart) vmid []
    → Fresh kernel_end
        (pgroundup vmid)
        vend
        (stack ((vmid - pgroundup vstart) / pgsize) (pgroundup vstart) [])
    → (l : Kmem) × ((kinit1 kernel_end vstart vmid k >>= λ m. kinit2 kernel_end vmid vend m) ≡ ok l)
      × Free kernel_end l (
          stack
            ((vend - pgroundup vmid) / pgsize)
            (pgroundup vmid)
            (stack ((vmid - pgroundup vstart) / pgsize) (pgroundup vstart) []))
      × (l.use_lock ≡ true)
unfolding kinit1 kinit2
kinit2-kinit1 kernel_end vstart vmid vend k a b c e f g =
    let (m, run, one, _) =
      freerange-Free kernel_end vstart vmid (record k { lock = false; use_lock = false }) [] a
        (omega arith) f (record { unlocked = refl; chain = e }) in
    let (l, go, two, _) = freerange-Free kernel_end vmid vend m _ b c g one in
    (
      record l { use_lock = true },
      rw (run, go) refl,
      record { unlocked = two.unlocked; chain = two.chain },
      refl,
    )
