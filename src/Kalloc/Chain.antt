-- ===== src/Kalloc/Chain.antt =====
-- kalloc.c: the list of the free pages that the memory holds.
use osass.Base.{ℕ, ◌+◌, ◌%◌, ◌<◌, ◌≡◌, ◌≢◌, refl, arith, false, Memory, in_range, ok, List, [], ◌∷◌}
use osass.Base.Words.{get32, put32, get32-put32_self}
use osass.Pipe.{u32}
use osass.Str.{memset}
use osass.Str.Move.{memset-filled}
use osass.Kalloc.{pgsize, Kmem, bad_page, kfree, kalloc}

-- A page that `kfree` takes, of an address that fits a `uint`.
pub record IsPage (kernel_end v : ℕ) : Type 0 where
  pub good : bad_page kernel_end v ≡ false
  pub fits : v < u32
  pub aligned : v % pgsize ≡ 0
  pub not_null : 0 < v

abbrev pub NotIn : ℕ → List ℕ → Type 0
NotIn v [] = Unit
NotIn v (p ∷ ps) = (v ≢ p) × NotIn v ps

-- From `head` the links go through exactly the pages of the list, which are distinct.
abbrev pub Chain : ℕ → Memory → ℕ → List ℕ → Type 0
Chain kernel_end m head [] = head ≡ 0
Chain kernel_end m head (p ∷ ps) =
    (head ≡ p) × IsPage kernel_end p × NotIn p ps × Chain kernel_end m (get32 m p) ps

-- The free list holds these pages, and the lock is free.
pub record Free (kernel_end : ℕ) (k : Kmem) (ps : List ℕ) : Type 0 where
  pub unlocked : k.lock ≡ false
  pub chain : Chain kernel_end k.mem k.freelist ps

-- What `kfree` writes is inside of the page.
abbrev junked : Memory → ℕ → ℕ → Memory
junked m v next = put32 (memset m v 1 pgsize) v next

junked_outside : (m : Memory) (v next a : ℕ) → in_range v pgsize a ≡ false → junked m v next a ≡ m a
unfolding put32
junked_outside m v next a h = ground (arith, memset-filled m v 1 pgsize a, h)

link_outside :
    (m : Memory) (v next p : ℕ)
    → v % pgsize ≡ 0
    → p % pgsize ≡ 0
    → v ≢ p
    → get32 (junked m v next) p ≡ get32 m p
unfolding get32
link_outside m v next p a b n = ground (
  arith,
  junked_outside m v next p (ground arith),
  junked_outside m v next (p + 1) (ground arith),
  junked_outside m v next (p + 2) (ground arith),
  junked_outside m v next (p + 3) (ground arith),
)

Chain-junked :
    (kernel_end : ℕ) (m : Memory) (v next head : ℕ) (ps : List ℕ)
    → v % pgsize ≡ 0
    → NotIn v ps
    → Chain kernel_end m head ps
    → Chain kernel_end (junked m v next) head ps
Chain-junked kernel_end m v next head [] a n c = c
Chain-junked kernel_end m v next head (p ∷ ps) a (n, ns) (e, g, d, c) = (
  e,
  g,
  d,
  rw (link_outside m v next p a g.aligned n)
      (Chain-junked kernel_end m v next (get32 m p) ps a ns c),
)

Chain-fits :
    (kernel_end : ℕ) (m : Memory) (head : ℕ) (ps : List ℕ) → Chain kernel_end m head ps → head < u32
Chain-fits kernel_end m head [] c = omega (arith, c)
Chain-fits kernel_end m head (p ∷ ps) (e, g, n, c) = omega (arith, e, g.fits)

-- A page that `kfree` takes and that is not in the free list is put in front of it, without a
-- panic, and no memory outside of the page changes.
pub kfree-Free :
    (kernel_end v : ℕ) (k : Kmem) (ps : List ℕ)
    → IsPage kernel_end v
    → NotIn v ps
    → Free kernel_end k ps
    → (l : Kmem) × (kfree kernel_end v k ≡ ok l)
      × Free kernel_end l (v ∷ ps)
      × (l.use_lock ≡ k.use_lock)
      × ((a : ℕ) → in_range v pgsize a ≡ false → l.mem a ≡ k.mem a)
unfolding kfree
kfree-Free kernel_end v k ps g n f = (
  record k { lock = false; mem = junked k.mem v k.freelist; freelist = v },
  ground (arith, g.good, f.unlocked),
  record {
    unlocked = refl;
    chain = (
      refl,
      g,
      n,
      rw
          (get32-put32_self (memset k.mem v 1 pgsize) v k.freelist
            (Chain-fits kernel_end k.mem k.freelist ps f.chain))
          (Chain-junked kernel_end k.mem v k.freelist k.freelist ps g.aligned n f.chain),
    );
  },
  refl,
  junked_outside k.mem v k.freelist,
)

-- The first page, or 0, and the others.
abbrev pub first : List ℕ → ℕ
first [] = 0
first (p ∷ ps) = p

abbrev pub others : List ℕ → List ℕ
others [] = []
others (p ∷ ps) = ps

-- `kalloc` does not panic; it returns the first page of the free list, or 0 if there is none,
-- and leaves the others on the list and the memory as it was.
pub kalloc-Free :
    (kernel_end : ℕ) (k : Kmem) (ps : List ℕ)
    → Free kernel_end k ps
    → (l : Kmem) × (kalloc k ≡ ok (first ps, l))
      × Free kernel_end l (others ps)
      × (l.use_lock ≡ k.use_lock)
      × (l.mem ≡ k.mem)
unfolding kalloc
kalloc-Free kernel_end k [] f = (
  record k { lock = false },
  ground (arith, f.unlocked, f.chain),
  record { unlocked = refl; chain = f.chain },
  refl,
  refl,
)
kalloc-Free kernel_end k (p ∷ ps) f =
    let (e, g, n, c) = f.chain in
    (
      record k { lock = false; freelist = get32 k.mem p },
      ground (arith, f.unlocked, e, g.not_null),
      record { unlocked = refl; chain = c },
      refl,
      refl,
    )
