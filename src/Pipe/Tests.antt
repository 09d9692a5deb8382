-- ===== src/Pipe/Tests.antt =====
-- Runs of pipe.c, and its theorems at concrete pipes.
use osass.Base.{◌≡◌, refl, arith, true, false, ◌==◌, if◌then◌else◌, ok, List, [], ◌∷◌}
use osass.Pipe.{Pipe, fresh, pipewrite, piperead}
use osass.Pipe.Window.{contents, IsValid}
use osass.Pipe.Write.{WriteEnds, pipewrite-WriteEnds}
use osass.Pipe.Read.{ReadEnds, piperead-ReadEnds}
use osass.Pipe.Stream.{Call, writes, reads, closes, Effect, Conserves, calls, calls-Conserves}

-- A pipe whose write counter is about to wrap: it holds the byte 7.
abbrev wrapping : Pipe
wrapping = record {
  lock = false;
  bytes = λ i. if i == 511 then 7 else 0;
  nread = 0xffffffff;
  nwrite = 0;
  readopen = true;
  writeopen = true;
}

wrapping-IsValid : IsValid wrapping
wrapping-IsValid = omega arith

contents-wrapping : contents wrapping ≡ 7 ∷ []
contents-wrapping = refl

abbrev script : List Call
script = writes 2 false (8 ∷ 9 ∷ []) ∷ reads 2 false ∷ closes true ∷ reads 5 false ∷ []

-- A pipe is fresh from `pipealloc` in any page.
fresh-IsValid : IsValid (fresh (λ _. 0))
unfolding fresh
fresh-IsValid = omega arith

pipewrite-WriteEnds_example :
    WriteEnds 2 false wrapping (8 ∷ 9 ∷ []) (pipewrite 2 false wrapping (8 ∷ 9 ∷ []))
pipewrite-WriteEnds_example =
    pipewrite-WriteEnds 2 false wrapping (8 ∷ 9 ∷ []) wrapping-IsValid refl

piperead-ReadEnds_example : ReadEnds 3 false wrapping (piperead 3 false wrapping)
piperead-ReadEnds_example = piperead-ReadEnds 3 false wrapping wrapping-IsValid refl

calls-Conserves_example : (e : Effect) × (calls wrapping script ≡ ok e) × Conserves wrapping e
calls-Conserves_example = calls-Conserves script wrapping wrapping-IsValid refl
