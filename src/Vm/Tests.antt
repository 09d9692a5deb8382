-- ===== src/Vm/Tests.antt =====
-- A run of `mappages`.
use osass.Base.{[], ◌∷◌, ℕ, ◌≡◌, refl, true, false, arith}
use osass.Base.Words.{get32}
use osass.Kalloc.{Kmem, bad_page}
use osass.Kalloc.Chain.{Chain}
use osass.Vm.{is_present, pgrounddown, mappages}
use osass.Vm.Space.{pde, IsSpace}
use osass.Vm.Mapped.{MapsEnds, mappages-MapsEnds}

-- One free page, in a memory of zeros.
abbrev one_page : Kmem
one_page = record { lock = false; use_lock = true; freelist = 0x80401000; mem = λ a. 0 }

no_pde : (i : ℕ) → is_present (pde (λ a. 0) 0x80400000 i) ≡ false
unfolding get32
no_pde i = refl

end_of_list : Chain 0x80100000 one_page.mem (get32 one_page.mem 0x80401000) []
unfolding get32
end_of_list = refl

one_page-IsSpace : IsSpace 0x80100000 0x80400000 one_page (0x80401000 ∷ [])
unfolding bad_page
one_page-IsSpace = record {
  free = record {
    unlocked = refl;
    chain = (
      refl,
      record { good = refl; fits = omega arith; aligned = refl; not_null = omega arith },
      tt,
      end_of_list,
    );
  };
  aligned = refl;
  dir_taken = (omega arith, tt);
  tables = record {
    not_null = λ i l e. absurd (cc (e, no_pde i));
    not_dir = λ i l e. absurd (cc (e, no_pde i));
    taken = λ i l e. absurd (cc (e, no_pde i));
    apart = λ i j l m e f r. absurd (cc (e, no_pde i));
  };
}

mappages-MapsEnds_example :
    MapsEnds 0x80100000 0x80400000 1
      (pgrounddown 100)
      0x402000
      6
      one_page
      (mappages 0x80400000 100 200 0x402000 6 one_page)
mappages-MapsEnds_example =
    mappages-MapsEnds 0 0x80100000 0x80400000 100 200 0x402000 6 one_page (0x80401000 ∷ [])
      one_page-IsSpace (omega arith) (omega arith) (omega arith) refl (omega arith) (omega arith)
