-- ===== src/Kbd.antt =====
-- kbd.c and kbd.h: scan codes into characters. What the controller's ports give is an argument. The
-- bits of `shift` are a record of Booleans.
pub mod Codes
pub mod Typed
mod Tests
use osass.Base.{
  ℕ, zero, suc, ◌+◌, ◌-◌, ◌≤◌, ◌<◌, Bool, true, false, ◌&&◌, ◌||◌, not, List, [], ◌∷◌, ◌==◌, ltb,
  leb, if◌then◌else◌, Option, none, some,
}
use osass.Console.{Input, Output, consoleintr}

-- `shift`
pub record Shift : Type 0 where
  pub shift : Bool
  pub ctl : Bool
  pub alt : Bool
  pub capslock : Bool
  pub numlock : Bool
  pub scrolllock : Bool
  pub e0esc : Bool

-- Entry `i` of an initialiser, 0 past its end.
pub entry : List ℕ → ℕ → ℕ
entry [] i = 0
entry (c ∷ cs) zero = c
entry (c ∷ cs) (suc i) = entry cs i

-- The entries with designators that the three maps share.
pub keypad : ℕ → ℕ
keypad data_in =
    if data_in == 200
    then 226
    else if data_in == 208
    then 227
    else if data_in == 201
    then 230
    else if data_in == 209
    then 231
    else if data_in == 203
    then 228
    else if data_in == 205
    then 229
    else if data_in == 151
    then 224
    else if data_in == 207
    then 225
    else if data_in == 210
    then 232
    else if data_in == 211
    then 233
    else 0

-- A map: its first entries, then those for the keypad's Enter and Div, and the rest.
pub map_of : List ℕ → ℕ → ℕ → ℕ → ℕ
map_of firsts enter div data_in =
    if ltb data_in 128
    then entry firsts data_in
    else if data_in == 156
    then enter
    else if data_in == 181
    then div
    else keypad data_in

abbrev pub normalmap_row : List ℕ
normalmap_row =
    0 ∷ 27 ∷ 49 ∷ 50 ∷ 51 ∷ 52 ∷ 53 ∷ 54 ∷ 55 ∷ 56 ∷ 57 ∷ 48 ∷ 45 ∷ 61 ∷ 8 ∷ 9 ∷ 113 ∷ 119 ∷ 101
    ∷ 114 ∷ 116 ∷ 121 ∷ 117 ∷ 105 ∷ 111 ∷ 112 ∷ 91 ∷ 93 ∷ 10 ∷ 0 ∷ 97 ∷ 115 ∷ 100 ∷ 102 ∷ 103 ∷ 104
    ∷ 106 ∷ 107 ∷ 108 ∷ 59 ∷ 39 ∷ 96 ∷ 0 ∷ 92 ∷ 122 ∷ 120 ∷ 99 ∷ 118 ∷ 98 ∷ 110 ∷ 109 ∷ 44 ∷ 46 ∷ 47
    ∷ 0 ∷ 42 ∷ 0 ∷ 32 ∷ 0 ∷ 0 ∷ 0 ∷ 0 ∷ 0 ∷ 0 ∷ 0 ∷ 0 ∷ 0 ∷ 0 ∷ 0 ∷ 0 ∷ 0 ∷ 55 ∷ 56 ∷ 57 ∷ 45 ∷ 52
    ∷ 53 ∷ 54 ∷ 43 ∷ 49 ∷ 50 ∷ 51 ∷ 48 ∷ 46 ∷ 0 ∷ 0 ∷ 0 ∷ 0 ∷ []

abbrev pub normalmap : ℕ → ℕ
normalmap data_in = map_of normalmap_row 10 47 data_in

abbrev pub shiftmap_row : List ℕ
shiftmap_row =
    0 ∷ 27 ∷ 33 ∷ 64 ∷ 35 ∷ 36 ∷ 37 ∷ 94 ∷ 38 ∷ 42 ∷ 40 ∷ 41 ∷ 95 ∷ 43 ∷ 8 ∷ 9 ∷ 81 ∷ 87 ∷ 69 ∷ 82
    ∷ 84 ∷ 89 ∷ 85 ∷ 73 ∷ 79 ∷ 80 ∷ 123 ∷ 125 ∷ 10 ∷ 0 ∷ 65 ∷ 83 ∷ 68 ∷ 70 ∷ 71 ∷ 72 ∷ 74 ∷ 75 ∷ 76
    ∷ 58 ∷ 34 ∷ 126 ∷ 0 ∷ 124 ∷ 90 ∷ 88 ∷ 67 ∷ 86 ∷ 66 ∷ 78 ∷ 77 ∷ 60 ∷ 62 ∷ 63 ∷ 0 ∷ 42 ∷ 0 ∷ 32
    ∷ 0 ∷ 0 ∷ 0 ∷ 0 ∷ 0 ∷ 0 ∷ 0 ∷ 0 ∷ 0 ∷ 0 ∷ 0 ∷ 0 ∷ 0 ∷ 55 ∷ 56 ∷ 57 ∷ 45 ∷ 52 ∷ 53 ∷ 54 ∷ 43 ∷ 49
    ∷ 50 ∷ 51 ∷ 48 ∷ 46 ∷ 0 ∷ 0 ∷ 0 ∷ 0 ∷ []

abbrev pub shiftmap : ℕ → ℕ
shiftmap data_in = map_of shiftmap_row 10 47 data_in

abbrev pub ctlmap_row : List ℕ
ctlmap_row =
    0 ∷ 0 ∷ 0 ∷ 0 ∷ 0 ∷ 0 ∷ 0 ∷ 0 ∷ 0 ∷ 0 ∷ 0 ∷ 0 ∷ 0 ∷ 0 ∷ 0 ∷ 0 ∷ 17 ∷ 23 ∷ 5 ∷ 18 ∷ 20 ∷ 25 ∷ 21
    ∷ 9 ∷ 15 ∷ 16 ∷ 0 ∷ 0 ∷ 13 ∷ 0 ∷ 1 ∷ 19 ∷ 4 ∷ 6 ∷ 7 ∷ 8 ∷ 10 ∷ 11 ∷ 12 ∷ 0 ∷ 0 ∷ 0 ∷ 0 ∷ 28 ∷ 26
    ∷ 24 ∷ 3 ∷ 22 ∷ 2 ∷ 14 ∷ 13 ∷ 0 ∷ 0 ∷ 239 ∷ 0 ∷ 0 ∷ []

abbrev pub ctlmap : ℕ → ℕ
ctlmap data_in = map_of ctlmap_row 13 239 data_in

-- `shift |= shiftcode[data]`
pub press : ℕ → Shift → Shift
press data_in s =
    if (data_in == 29) || (data_in == 157)
    then record s { ctl = true }
    else if (data_in == 42) || (data_in == 54)
    then record s { shift = true }
    else if (data_in == 56) || (data_in == 184)
    then record s { alt = true }
    else s

-- `shift &= ~(shiftcode[data] | E0ESC)`
pub lift : ℕ → Shift → Shift
lift data_in s =
    let t = record s { e0esc = false } in
    if (data_in == 29) || (data_in == 157)
    then record t { ctl = false }
    else if (data_in == 42) || (data_in == 54)
    then record t { shift = false }
    else if (data_in == 56) || (data_in == 184)
    then record t { alt = false }
    else t

-- `shift ^= togglecode[data]`
pub toggle : ℕ → Shift → Shift
toggle data_in s =
    if data_in == 58
    then record s { capslock = not s.capslock }
    else if data_in == 69
    then record s { numlock = not s.numlock }
    else if data_in == 70
    then record s { scrolllock = not s.scrolllock }
    else s

-- `charcode[shift & (CTL | SHIFT)][data]`
pub charcode : Shift → ℕ → ℕ
charcode s data_in =
    if s.ctl then ctlmap data_in else if s.shift then shiftmap data_in else normalmap data_in

-- The change of case under CAPSLOCK.
pub recase : Bool → ℕ → ℕ
recase lock c =
    if lock && (leb 97 c && leb c 122)
    then c - 32
    else if lock && (leb 65 c && leb c 90)
    then c + 32
    else c

-- The end of `kbdgetc`, for a key that is pressed.
pub pressed : ℕ → Shift → Option ℕ × Shift
pressed data_in s =
    let t = toggle data_in (press data_in s) in (some (recase t.capslock (charcode t data_in)), t)

-- `kbdgetc`, with the byte that the controller has, if it has one; `none` is -1.
pub kbdgetc : Option ℕ → Shift → Option ℕ × Shift
kbdgetc none s = (none, s)
kbdgetc (some data_in) s =
    if data_in == 224
    then (some 0, record s { e0esc = true })
    else if leb 128 data_in
    then (some 0, lift (if s.e0esc then data_in else data_in - 128) s)
    else if s.e0esc
    then pressed (data_in + 128) (record s { e0esc = false })
    else pressed data_in s

-- The characters that `kbdgetc` returns for the bytes that the controller has.
pub scan : List ℕ → Shift → List ℕ × Shift
scan [] s = ([], s)
scan (b ∷ bs) s =
    let (c, t) = kbdgetc (some b) s in
    let (cs, u) = scan bs t in (elim c [ none ↦ cs | some x ↦ x ∷ cs ], u)

-- `kbdintr`
pub kbdintr : List ℕ → Shift → Input → Input × List Output × Shift
kbdintr bs s input = let (cs, t) = scan bs s in let (i, out) = consoleintr cs input in (i, out, t)
