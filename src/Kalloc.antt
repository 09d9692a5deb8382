-- ===== src/Kalloc.antt =====
-- kalloc.c: the free list of physical pages, linked through the pages themselves. Memory is by kernel
-- address, and words are little-endian. `kernel_end` is the linker's symbol `end`.
pub mod Chain
pub mod Pages
mod Tests
use osass.Base.{
  ℕ, zero, suc, ◌+◌, ◌-◌, ◌*◌, ◌/◌, ◌%◌, ◌^◌, ◌≤◌, ◌<◌, Bool, true, false, ◌&&◌, ◌||◌, not, ◌==◌,
  ltb, leb, if◌then◌else◌, Memory, Outcome, ok, panic, panic_if, ◌>>=◌, ◌>>◌,
}
use osass.Base.Words.{get32, put32}
use osass.Pipe.{u32}
use osass.Str.{memset}
use osass.Lock.Held.{take_lock, drop_lock}

-- PGSIZE
abbrev pub pgsize : ℕ
pgsize = 4096

-- KERNBASE
abbrev pub kernbase : ℕ
kernbase = 0x80000000

-- PHYSTOP
abbrev pub phystop : ℕ
phystop = 0xE000000

-- V2P, on a `uint`
abbrev pub v2p : ℕ → ℕ
v2p v = (v + u32 - kernbase) % u32

-- PGROUNDUP
abbrev pub pgroundup : ℕ → ℕ
pgroundup sz = (sz + pgsize - 1) % u32 / pgsize * pgsize

-- `kmem`, whose lock is whether this CPU has it, and the memory.
pub record Kmem : Type 0 where
  pub lock : Bool
  pub use_lock : Bool
  pub freelist : ℕ
  pub mem : Memory

-- `if(kmem.use_lock) acquire(&kmem.lock);`
abbrev pub lock_kmem : Kmem → Outcome Kmem
lock_kmem k = if k.use_lock then (take_lock k.lock >>= λ l. ok (record k { lock = l })) else ok k

-- `if(kmem.use_lock) release(&kmem.lock);`
abbrev pub unlock_kmem : Kmem → Outcome Kmem
unlock_kmem k = if k.use_lock then (drop_lock k.lock >>= λ l. ok (record k { lock = l })) else ok k

unfoldable pub bad_page : ℕ → ℕ → Bool
bad_page kernel_end v = not (v % pgsize == 0) || (ltb v kernel_end || leb phystop (v2p v))

pub kfree : ℕ → ℕ → Kmem → Outcome Kmem
kfree kernel_end v k =
    panic_if (bad_page kernel_end v) "kfree"
    >> lock_kmem (record k { mem = memset k.mem v 1 pgsize })
    >>= λ l. unlock_kmem (record l { mem = put32 l.mem v l.freelist; freelist = v })

-- The page, 0 if there is none, and the rest.
pub kalloc : Kmem → Outcome (ℕ × Kmem)
kalloc k = lock_kmem k >>= λ l.
    let r = l.freelist in
    unlock_kmem (if r == 0 then l else record l { freelist = get32 l.mem r }) >>= λ u. ok (r, u)

-- The loop of `freerange`, with fuel.
pub free_pages : ℕ → ℕ → ℕ → ℕ → Kmem → Outcome Kmem
free_pages kernel_end zero p vend k = ok k
free_pages kernel_end (suc fuel) p vend k =
    if leb ((p + pgsize) % u32) vend
    then (kfree kernel_end p k >>= λ l. free_pages kernel_end fuel ((p + pgsize) % u32) vend l)
    else ok k

-- A range of the 32-bit space has at most 2 ^ 20 pages.
pub freerange : ℕ → ℕ → ℕ → Kmem → Outcome Kmem
freerange kernel_end vstart vend k =
    free_pages kernel_end (vend / pgsize + 1) (pgroundup vstart) vend k

-- `initlock` leaves the lock free.
pub kinit1 : ℕ → ℕ → ℕ → Kmem → Outcome Kmem
kinit1 kernel_end vstart vend k =
    freerange kernel_end vstart vend (record k { lock = false; use_lock = false })

pub kinit2 : ℕ → ℕ → ℕ → Kmem → Outcome Kmem
kinit2 kernel_end vstart vend k =
    freerange kernel_end vstart vend k >>= λ l. ok (record l { use_lock = true })
