-- ===== src/Console/Tests.antt =====
-- Runs of console.c, and its theorems at a concrete buffer.
use osass.Base.{ℕ, ◌≡◌, refl, arith, false, List, [], ◌∷◌}
use osass.Console.{Input, kill_line, erase, enter, key, keys, consoleintr, read_loop, consoleread}
use osass.Console.Ring.{ready}
use osass.Console.Edit.{IsValid}
use osass.Console.Line.{text, Has}
use osass.Console.Keys.{edits, AllBytes, consoleintr_refines, Took, take_line, consoleread_refines}

-- Empty, with indices that are about to wrap.
abbrev empty : Input
empty = record { buf = λ x. 0; r = 4294967295; w = 4294967295; e = 4294967295 }

-- The keys a, b, backspace, c and return.
abbrev typing : List ℕ
typing = 97 ∷ 98 ∷ 8 ∷ 99 ∷ 13 ∷ []

empty-IsValid : IsValid empty
empty-IsValid = record {
  r_in = omega arith;
  w_in = omega arith;
  e_in = omega arith;
  ordered = omega arith;
  open_line = refl;
}

typing-AllBytes : AllBytes typing
typing-AllBytes = (omega arith, (omega arith, (omega arith, (omega arith, (omega arith, tt)))))

abbrev typed : Input
typed = (consoleintr typing empty).0

typed_read : (consoleread false 10 typed).bytes ≡ 97 ∷ 99 ∷ 10 ∷ []
unfolding consoleintr keys key kill_line erase enter consoleread read_loop
typed_read = refl

consoleintr_refines_example : Has typed (edits typing (text empty))
consoleintr_refines_example = consoleintr_refines typing empty empty-IsValid typing-AllBytes

consoleread_refines_example :
    Took typed (consoleread false 10 typed) (take_line false 10 10 (ready typed))
consoleread_refines_example =
    consoleread_refines false 10 typed
      (consoleintr_refines typing empty empty-IsValid typing-AllBytes).valid
