-- ===== src/Syscall/Tests.antt =====
-- Runs of syscall.c, and its theorems at a concrete process.
use osass.Base.{◌+◌, ◌≤◌, ◌<◌, ◌≡◌, refl, arith, none, some, ◌==◌, if◌then◌else◌}
use osass.Base.Words.{get32}
use osass.Syscall.{User, fetchint, find_nul, fetchstr, argint, argptr, argstr}
use osass.Syscall.Bounds.{argptr_inside, StringEnds, fetchstr-StringEnds}

-- At 104 the word 8, and at 8 the string "ab".
abbrev user : User
user = record {
  sz = 4096;
  esp = 100;
  mem = λ a. if a == 104 then 8 else if a == 8 then 97 else if a == 9 then 98 else 0;
}

argstr_8 : argstr user 0 ≡ some (8, 2)
unfolding argstr argint fetchint fetchstr find_nul get32
argstr_8 = refl

argptr_edge : argptr user 0 4089 ≡ none
unfolding argptr argint fetchint get32
argptr_edge = refl

argptr_inside_example : (argint user 0 ≡ some 8) × (8 < 4096) × (8 + 4088 ≤ 4096)
unfolding argptr argint fetchint get32
argptr_inside_example = argptr_inside user 0 4088 8 (omega arith) refl

fetchstr-StringEnds_example : StringEnds user 8 (fetchstr user 8)
fetchstr-StringEnds_example = fetchstr-StringEnds user 8
