-- ===== src/Kbd/Tests.antt =====
-- Runs of kbd.c, and its theorem at concrete scan codes.
use osass.Base.{ℕ, ◌≡◌, refl, arith, false, List, [], ◌∷◌}
use osass.Console.{Input}
use osass.Console.Edit.{IsValid}
use osass.Console.Line.{text, Has}
use osass.Console.Keys.{AllBytes, edits}
use osass.Kbd.{
  Shift, entry, map_of, press, lift, toggle, charcode, recase, pressed, kbdgetc, scan, kbdintr,
}
use osass.Kbd.Typed.{events, typed}
use osass.Kbd.Codes.{kbdintr_refines}

abbrev no_keys : Shift
no_keys = record {
  shift = false;
  ctl = false;
  alt = false;
  capslock = false;
  numlock = false;
  scrolllock = false;
  e0esc = false;
}

-- Shift down, a down, a up, shift up, a down, Enter of the keypad.
abbrev codes : List ℕ
codes = 42 ∷ 30 ∷ 158 ∷ 170 ∷ 30 ∷ 224 ∷ 28 ∷ []

scan_run : (scan codes no_keys).0 ≡ 0 ∷ 65 ∷ 0 ∷ 0 ∷ 97 ∷ 0 ∷ 10 ∷ []
unfolding scan kbdgetc pressed press lift toggle charcode map_of entry recase
scan_run = refl

abbrev blank : Input
blank = record { buf = λ x. 0; r = 0; w = 0; e = 0 }

blank-IsValid : IsValid blank
blank-IsValid = record {
  r_in = omega arith;
  w_in = omega arith;
  e_in = omega arith;
  ordered = omega arith;
  open_line = refl;
}

codes-AllBytes : AllBytes codes
codes-AllBytes = (
  omega arith,
  (omega arith, (omega arith, (omega arith, (omega arith, (omega arith, (omega arith, tt)))))),
)

kbdintr_refines_example :
    Has
      (kbdintr codes no_keys blank).0
      (edits (typed false false false (events false codes)) (text blank))
kbdintr_refines_example = kbdintr_refines codes no_keys blank codes-AllBytes blank-IsValid
