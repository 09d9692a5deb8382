-- ===== src/Kbd/Codes.antt =====
-- kbd.c: a keyboard interrupt edits the console's buffer; its characters are bytes, as that needs them.
use osass.Base.{
  ℕ, zero, suc, ◌+◌, ◌<◌, ◌≡◌, refl, subst, arith, Bool, Bool-cases, inl, inr, true, ◌&&◌, List, [],
  ◌∷◌, ◌==◌, ltb, leb, Option, none, some,
}
use osass.Console.{Input}
use osass.Console.Edit.{IsValid}
use osass.Console.Line.{text, Has}
use osass.Console.Keys.{edits, AllBytes, consoleintr_refines}
use osass.Kbd.Typed.{events, typed, scan-typed}
use osass.Kbd.{
  Shift, entry, keypad, map_of, normalmap_row, shiftmap_row, ctlmap_row, charcode, recase, pressed,
  kbdgetc, scan, kbdintr,
}

all_bytes : List ℕ → Bool
all_bytes [] = true
all_bytes (c ∷ cs) = ltb c 256 && all_bytes cs

entry_byte : (l : List ℕ) (i : ℕ) → all_bytes l ≡ true → entry l i < 256
unfolding entry all_bytes
entry_byte [] i h = omega arith
entry_byte (c ∷ cs) zero h = ground arith
entry_byte (c ∷ cs) (suc i) h = entry_byte cs i (ground arith)

map_byte :
    (l : List ℕ) (enter div data_in : ℕ)
    → all_bytes l ≡ true
    → enter < 256
    → div < 256
    → map_of l enter div data_in < 256
unfolding map_of keypad
map_byte l enter div data_in h a b = ground (arith, entry_byte l data_in h)

charcode_byte : (s : Shift) (data_in : ℕ) → charcode s data_in < 256
unfolding charcode all_bytes
charcode_byte s data_in = ground (
  arith,
  map_byte normalmap_row 10 47 data_in refl (omega arith) (omega arith),
  map_byte shiftmap_row 10 47 data_in refl (omega arith) (omega arith),
  map_byte ctlmap_row 13 239 data_in refl (omega arith) (omega arith),
)

recase_byte : (lock : Bool) (c : ℕ) → c < 256 → recase lock c < 256
unfolding recase
recase_byte lock c h = ground arith

-- Bytes are the only characters that a key press gives.
abbrev ByteOption : Option ℕ → Type 0
ByteOption none = Unit
ByteOption (some c) = c < 256

pressed_byte : (data_in : ℕ) (s : Shift) → ByteOption (pressed data_in s).0
unfolding pressed
pressed_byte data_in s = recase_byte _ _ (charcode_byte _ data_in)

kbdgetc_byte : (b : Option ℕ) (s : Shift) → ByteOption (kbdgetc b s).0
unfolding kbdgetc
kbdgetc_byte none s = tt
kbdgetc_byte (some b) s = elim (Bool-cases (b == 224)) [
  | inl e ↦ rw e (omega arith)
  | inr e ↦ elim (Bool-cases (leb 128 b)) [
    | inl f ↦ rw (e, f) (omega arith)
    | inr f ↦ elim (Bool-cases s.e0esc) [
      | inl g ↦ rw (e, f, g) (pressed_byte (b + 128) _)
      | inr g ↦ rw (e, f, g) (pressed_byte b _)
    ]
  ]
]

AllBytes-add :
    (o : Option ℕ) (cs : List ℕ)
    → ByteOption o
    → AllBytes cs
    → AllBytes (elim o [ none ↦ cs | some x ↦ x ∷ cs ])
AllBytes-add none cs h k = k
AllBytes-add (some c) cs h k = (h, k)

scan-AllBytes : (bs : List ℕ) (s : Shift) → AllBytes (scan bs s).0
unfolding scan
scan-AllBytes [] s = tt
scan-AllBytes (b ∷ bs) s =
    AllBytes-add (kbdgetc (some b) s).0 (scan bs (kbdgetc (some b) s).1).0 (kbdgetc_byte (some b) s)
      (scan-AllBytes bs (kbdgetc (some b) s).1)

-- On a valid buffer, a keyboard interrupt with any bytes from the controller leaves a valid buffer, edited
-- by the characters that are typed: the bytes stand for keys that go down and up, those behind a 0xE0 for
-- the keys of the second set; a letter key gives the letter, its capital under exactly one of shift and
-- caps lock, or under ctl its control character, and every other key what stands in the map for the shifts.
pub kbdintr_refines :
    (bs : List ℕ) (s : Shift) (input : Input)
    → AllBytes bs
    → IsValid input
    → Has
        (kbdintr bs s input).0
        (edits (typed s.ctl s.shift s.capslock (events s.e0esc bs)) (text input))
unfolding kbdintr
kbdintr_refines bs s input h v =
    subst (λ cs. Has (kbdintr bs s input).0 (edits cs (text input))) (scan-typed bs s h)
      (consoleintr_refines (scan bs s).0 input v (scan-AllBytes bs s))
