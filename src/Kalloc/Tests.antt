-- ===== src/Kalloc/Tests.antt =====
-- Runs of kalloc.c, and its theorems at a concrete memory.
use osass.Base.{ℕ, ◌≡◌, refl, arith, false, true, [], ◌∷◌, ◌>>=◌, ok}
use osass.Kalloc.{pgroundup, Kmem, bad_page, kinit1, kinit2}
use osass.Kalloc.Chain.{IsPage, Free}
use osass.Kalloc.Pages.{Fresh, kinit2-kinit1}

abbrev kernel_end : ℕ
kernel_end = 0x80115000

-- Nothing is free.
abbrev full : Kmem
full = record { lock = false; use_lock = true; freelist = 0; mem = λ a. 0 }

abbrev high_page : ℕ
high_page = 0x80400000

high_page-IsPage : IsPage kernel_end high_page
unfolding bad_page
high_page-IsPage = record {
  good = refl;
  fits = omega arith;
  aligned = refl;
  not_null = omega arith;
}

full-Free : Free kernel_end full []
full-Free = record { unlocked = refl; chain = refl }

-- Two pages in the first range, one in the second.
first-Fresh : Fresh kernel_end (pgroundup 0x80115001) 0x80118000 []
unfolding bad_page
first-Fresh q a b c =
    (record { good = ground arith; fits = omega arith; aligned = b; not_null = omega arith }, tt)

second-Fresh : Fresh kernel_end (pgroundup 0x80118000) 0x80119000 (0x80117000 ∷ 0x80116000 ∷ [])
unfolding bad_page
second-Fresh q a b c = (
  record { good = ground arith; fits = omega arith; aligned = b; not_null = omega arith },
  ((λ e. omega arith), ((λ e. omega arith), tt)),
)

kinit2-kinit1_example :
    (l : Kmem) × ((kinit1 kernel_end 0x80115001 0x80118000 full >>= λ m.
    kinit2 kernel_end 0x80118000 0x80119000 m)
      ≡ ok l)
    × Free kernel_end l (0x80118000 ∷ 0x80117000 ∷ 0x80116000 ∷ [])
    × (l.use_lock ≡ true)
kinit2-kinit1_example =
    kinit2-kinit1 kernel_end 0x80115001 0x80118000 0x80119000 full (omega arith) (omega arith)
      (omega arith) refl first-Fresh second-Fresh
