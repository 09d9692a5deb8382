-- ===== src/Vm.antt =====
-- vm.c: page tables in the kernel's memory, which Kalloc hands out by pages. An address of a page table
-- entry that is 0 is the null pointer; `kernel_end` is the linker's symbol `end`.
pub mod Bits
pub mod Space
pub mod Table
pub mod Walk
pub mod Page
pub mod Mapped
mod Tests
use Prim.Native.Nat.{bit_and, bit_or}
use osass.Base.{
  String, ℕ, zero, suc, ◌+◌, ◌-◌, ◌*◌, ◌/◌, ◌%◌, ◌^◌, ◌≤◌, ◌<◌, Bool, true, false, not, ◌&&◌, ◌||◌,
  ◌==◌, ltb, leb, min, if◌then◌else◌, List, [], ◌∷◌, Memory, Outcome, ok, panic, panic_if, ◌>>=◌,
  ◌>>◌,
}
use osass.Base.Int.{ℤ, pos, negsuc}
use osass.Base.Words.{get32, put32}
use osass.Pipe.{u32}
use osass.Str.{memset, memmove}
use osass.Kalloc.{pgsize, kernbase, phystop, v2p, pgroundup, Kmem, kalloc, kfree}

-- PDX and PTX
abbrev pub pdx : ℕ → ℕ
pdx va = va / 2 ^ 22 % 1024

abbrev pub ptx : ℕ → ℕ
ptx va = va / 2 ^ 12 % 1024

-- PGROUNDDOWN, PTE_ADDR and PTE_FLAGS
abbrev pub pgrounddown : ℕ → ℕ
pgrounddown a = a / pgsize * pgsize

abbrev pub pte_addr : ℕ → ℕ
pte_addr pte = pte / pgsize * pgsize

abbrev pub pte_flags : ℕ → ℕ
pte_flags pte = pte % pgsize

-- Whether PTE_P and PTE_U are set.
abbrev pub is_present : ℕ → Bool
is_present pte = pte % 2 == 1

abbrev pub is_user : ℕ → Bool
is_user pte = pte / 4 % 2 == 1

-- P2V
abbrev pub p2v : ℕ → ℕ
p2v a = (a + kernbase) % u32

-- The entry of the page directory for `va`.
abbrev pub pde_place : ℕ → ℕ → ℕ
pde_place pgdir va = pgdir + 4 * pdx va

-- `walkpgdir` where the page table is missing: a new one.
pub new_table : ℕ → ℕ → Kmem → Outcome (ℕ × Kmem)
new_table pgdir va k = kalloc k >>= λ (tab, k).
    if tab == 0
    then ok (0, k)
    else (let m = memset k.mem tab 0 pgsize in
        let pde = bit_or (bit_or (bit_or (v2p tab) 1) 2) 4 in
        ok (tab + 4 * ptx va, record k { mem = put32 m (pde_place pgdir va) pde }))

pub walkpgdir : ℕ → ℕ → Bool → Kmem → Outcome (ℕ × Kmem)
walkpgdir pgdir va alloc k =
    let pde = get32 k.mem (pde_place pgdir va) in
    if is_present pde
    then ok (p2v (pte_addr pde) + 4 * ptx va, k)
    else if not alloc
    then ok (0, k)
    else new_table pgdir va k

abbrev pub store : ℕ → ℕ → Kmem → Kmem
store a v k = record k { mem = put32 k.mem a v }

-- One round of `mappages`: -1 if there is no memory.
pub map_page : ℕ → ℕ → ℕ → ℕ → Kmem → Outcome (ℤ × Kmem)
map_page pgdir a pa perm k = walkpgdir pgdir a true k >>= λ (pte, k).
    if pte == 0
    then ok (negsuc 0, k)
    else (panic_if (is_present (get32 k.mem pte)) "remap"
        >> ok (pos 0, store pte (bit_or (bit_or pa perm) 1) k))

-- The loop of `mappages`, with fuel.
pub map_pages : ℕ → ℕ → ℕ → ℕ → ℕ → ℕ → Kmem → Outcome (ℤ × Kmem)
map_pages zero pgdir a last pa perm k = ok (pos 0, k)
map_pages (suc fuel) pgdir a last pa perm k = map_page pgdir a pa perm k >>= λ (r, k). elim r [
  | negsuc n ↦ ok (negsuc n, k)
  | pos n ↦
      if a == last
      then ok (pos 0, k)
      else map_pages fuel pgdir ((a + pgsize) % u32) last ((pa + pgsize) % u32) perm k
]

pub mappages : ℕ → ℕ → ℕ → ℕ → ℕ → Kmem → Outcome (ℤ × Kmem)
mappages pgdir va size pa perm k =
    let a = pgrounddown va in
    let last = pgrounddown ((va + size + (u32 - 1)) % u32) in
    map_pages ((last + u32 - a) % u32 / pgsize + 1) pgdir a last pa perm k

-- The loop of `deallocuvm`, with fuel.
pub unmap_pages : ℕ → ℕ → ℕ → ℕ → ℕ → Kmem → Outcome Kmem
unmap_pages zero kernel_end pgdir a oldsz k = ok k
unmap_pages (suc fuel) kernel_end pgdir a oldsz k =
    if ltb a oldsz
    then (walkpgdir pgdir a false k >>= λ (pte, k).
        if pte == 0
        then unmap_pages fuel kernel_end pgdir ((pdx a + 1) * 2 ^ 22 % u32) oldsz k
        else if is_present (get32 k.mem pte)
        then (let pa = pte_addr (get32 k.mem pte) in
            panic_if (pa == 0) "kfree" >> kfree kernel_end (p2v pa) k >>= λ k.
            unmap_pages fuel kernel_end pgdir ((a + pgsize) % u32) oldsz (store pte 0 k))
        else unmap_pages fuel kernel_end pgdir ((a + pgsize) % u32) oldsz k)
    else ok k

pub deallocuvm : ℕ → ℕ → ℕ → ℕ → Kmem → Outcome (ℕ × Kmem)
deallocuvm kernel_end pgdir oldsz newsz k =
    if leb oldsz newsz
    then ok (oldsz, k)
    else (unmap_pages (oldsz / pgsize + 1) kernel_end pgdir (pgroundup newsz) oldsz k >>= λ k.
        ok (newsz, k))

-- The loop of `allocuvm`, with fuel: 0 where there is no memory.
pub grow_pages : ℕ → ℕ → ℕ → ℕ → ℕ → ℕ → Kmem → Outcome (ℕ × Kmem)
grow_pages zero kernel_end pgdir a oldsz newsz k = ok (newsz, k)
grow_pages (suc fuel) kernel_end pgdir a oldsz newsz k =
    if ltb a newsz
    then (kalloc k >>= λ (page, k).
        if page == 0
        then (deallocuvm kernel_end pgdir newsz oldsz k >>= λ (s, k). ok (0, k))
        else (mappages pgdir a pgsize (v2p page) 6 (record k { mem = memset k.mem page 0 pgsize })
            >>= λ (r, k). elim r [
              | negsuc n ↦ deallocuvm kernel_end pgdir newsz oldsz k >>= λ (s, k).
                  kfree kernel_end page k >>= λ k. ok (0, k)
              | pos n ↦ grow_pages fuel kernel_end pgdir ((a + pgsize) % u32) oldsz newsz k
            ]))
    else ok (newsz, k)

pub allocuvm : ℕ → ℕ → ℕ → ℕ → Kmem → Outcome (ℕ × Kmem)
allocuvm kernel_end pgdir oldsz newsz k =
    if leb kernbase newsz
    then ok (0, k)
    else if ltb newsz oldsz
    then ok (oldsz, k)
    else grow_pages (newsz / pgsize + 1) kernel_end pgdir (pgroundup oldsz) oldsz newsz k

-- The loop of `freevm`, with `n` entries of the directory to go.
pub free_tables : ℕ → ℕ → ℕ → ℕ → Kmem → Outcome Kmem
free_tables kernel_end pgdir zero i k = ok k
free_tables kernel_end pgdir (suc n) i k =
    let pde = get32 k.mem (pgdir + 4 * i) in
    (if is_present pde then kfree kernel_end (p2v (pte_addr pde)) k else ok k) >>= λ k.
    free_tables kernel_end pgdir n (i + 1) k

pub freevm : ℕ → ℕ → Kmem → Outcome Kmem
freevm kernel_end pgdir k =
    panic_if (pgdir == 0) "freevm: no pgdir"
    >> deallocuvm kernel_end pgdir kernbase 0 k
    >>= λ (s, k). free_tables kernel_end pgdir 1024 0 k >>= λ k. kfree kernel_end pgdir k

-- `struct kmap`
pub record Kmap : Type 0 where
  pub virt : ℕ
  pub phys_start : ℕ
  pub phys_end : ℕ
  pub perm : ℕ

-- `kmap`; `data` of the linker is `data_start`.
abbrev pub kmap : ℕ → List Kmap
kmap data_start =
    record { virt = kernbase; phys_start = 0; phys_end = 0x100000; perm = 2 }
    ∷ record { virt = 0x80100000; phys_start = 0x100000; phys_end = v2p data_start; perm = 0 }
    ∷ record { virt = data_start; phys_start = v2p data_start; phys_end = phystop; perm = 2 }
    ∷ record { virt = 0xFE000000; phys_start = 0xFE000000; phys_end = 0; perm = 2 }
    ∷ []

-- The loop of `setupkvm`: whether all was mapped.
pub map_all : ℕ → List Kmap → Kmem → Outcome (ℤ × Kmem)
map_all pgdir [] k = ok (pos 0, k)
map_all pgdir (m ∷ ms) k =
    mappages pgdir m.virt ((m.phys_end + u32 - m.phys_start) % u32) m.phys_start m.perm k
    >>= λ (r, k). elim r [ negsuc n ↦ ok (negsuc n, k) | pos n ↦ map_all pgdir ms k ]

pub setupkvm : ℕ → ℕ → Kmem → Outcome (ℕ × Kmem)
setupkvm kernel_end data_start k = kalloc k >>= λ (pgdir, k).
    if pgdir == 0
    then ok (0, k)
    else (panic_if (ltb 0xFE000000 (p2v phystop)) "PHYSTOP too high"
        >> map_all pgdir (kmap data_start) (record k { mem = memset k.mem pgdir 0 pgsize })
        >>= λ (r, k). elim r [
          | negsuc n ↦ freevm kernel_end pgdir k >>= λ k. ok (0, k)
          | pos n ↦ ok (pgdir, k)
        ])

-- `*pte &= ~PTE_U;`
pub clearpteu : ℕ → ℕ → Kmem → Outcome Kmem
clearpteu pgdir uva k = walkpgdir pgdir uva false k >>= λ (pte, k).
    panic_if (pte == 0) "clearpteu" >> ok (store pte (bit_and (get32 k.mem pte) (u32 - 1 - 4)) k)

-- The loop of `copyuvm`, with fuel: -1 where there is no memory.
pub copy_pages : ℕ → ℕ → ℕ → ℕ → ℕ → ℕ → Kmem → Outcome (ℤ × Kmem)
copy_pages zero kernel_end pgdir d i sz k = ok (pos 0, k)
copy_pages (suc fuel) kernel_end pgdir d i sz k =
    if ltb i sz
    then (walkpgdir pgdir i false k >>= λ (pte, k).
        panic_if (pte == 0) "copyuvm: pte should exist"
        >> panic_if (not (is_present (get32 k.mem pte))) "copyuvm: page not present"
        >> (let e = get32 k.mem pte in
            kalloc k >>= λ (page, k).
            if page == 0
            then ok (negsuc 0, k)
            else (mappages d i pgsize (v2p page) (pte_flags e)
                  (record k { mem = memmove k.mem page (p2v (pte_addr e)) pgsize })
                >>= λ (r, k). elim r [
                  | negsuc n ↦ kfree kernel_end page k >>= λ k. ok (negsuc 0, k)
                  | pos n ↦ copy_pages fuel kernel_end pgdir d ((i + pgsize) % u32) sz k
                ])))
    else ok (pos 0, k)

pub copyuvm : ℕ → ℕ → ℕ → ℕ → Kmem → Outcome (ℕ × Kmem)
copyuvm kernel_end data_start pgdir sz k = setupkvm kernel_end data_start k >>= λ (d, k).
    if d == 0
    then ok (0, k)
    else (copy_pages (sz / pgsize + 1) kernel_end pgdir d 0 sz k >>= λ (r, k). elim r [
      | negsuc n ↦ freevm kernel_end d k >>= λ k. ok (0, k)
      | pos n ↦ ok (d, k)
    ])

-- Where `walkpgdir` returns the null pointer, the word at 0 is read.
pub uva2ka : ℕ → ℕ → Kmem → Outcome (ℕ × Kmem)
uva2ka pgdir uva k = walkpgdir pgdir uva false k >>= λ (pte, k).
    let e = get32 k.mem pte in
    ok ((if not (is_present e) || not (is_user e) then 0 else p2v (pte_addr e)), k)

-- The loop of `copyout`, with fuel.
pub copy_out : ℕ → ℕ → ℕ → ℕ → ℕ → Kmem → Outcome (ℤ × Kmem)
copy_out zero pgdir va buf len k = ok (pos 0, k)
copy_out (suc fuel) pgdir va buf len k =
    if ltb 0 len
    then (let va0 = pgrounddown va in
        uva2ka pgdir va0 k >>= λ (pa0, k).
        if pa0 == 0
        then ok (negsuc 0, k)
        else (let n = min (pgsize - (va - va0)) len in
            copy_out fuel pgdir ((va0 + pgsize) % u32) (buf + n) (len - n)
              (record k { mem = memmove k.mem (pa0 + (va - va0)) buf n })))
    else ok (pos 0, k)

pub copyout : ℕ → ℕ → ℕ → ℕ → Kmem → Outcome (ℤ × Kmem)
copyout pgdir va p len k = copy_out len pgdir va p len k

pub inituvm : ℕ → ℕ → ℕ → Kmem → Outcome Kmem
inituvm pgdir init sz k =
    panic_if (leb pgsize sz) "inituvm: more than a page" >> kalloc k >>= λ (page, k).
    mappages pgdir 0 pgsize (v2p page) 6 (record k { mem = memset k.mem page 0 pgsize })
    >>= λ (r, k). ok (record k { mem = memmove k.mem page init sz })
