-- ===== src/Programs.antt =====
-- The user programs and their library: printf.c, parts of ulib.c, wc.c and the matcher of grep.c. A
-- string is the list of its bytes before the NUL; what a program writes to a descriptor is a list.
pub mod Digits
pub mod Printing
pub mod Counting
pub mod Matching
mod Tests
use osass.Base.{
  ℕ, zero, suc, ◌+◌, ◌-◌, ◌*◌, ◌/◌, ◌%◌, ◌^◌, ◌≤◌, ◌<◌, Bool, true, false, not, ◌&&◌, ◌||◌, ◌==◌,
  ltb, leb, if◌then◌else◌, List, [], ◌∷◌, ◌++◌,
}
use osass.Pipe.{u32}

-- `digits` of printf.c
abbrev pub digit : ℕ → ℕ
digit d = if ltb d 10 then 48 + d else 55 + d

-- The do loop of `printint`, with fuel, onto what `buf` has; the first element is the last that is
-- stored, since `buf` is written from its end.
pub digits_of : ℕ → ℕ → ℕ → List ℕ → List ℕ
digits_of zero base x buf = buf
digits_of (suc fuel) base x buf =
    let stored = digit (x % base) ∷ buf in
    let more = digits_of fuel base (x / base) stored in if x / base == 0 then stored else more

-- `printint`; an `int` is negative from 2 ^ 31 on. A word has at most 32 digits in any base from 2 on.
pub printint : ℕ → ℕ → Bool → List ℕ
printint xx base sgn =
    if sgn && leb (2 ^ 31) xx
    then 45 ∷ digits_of 32 base ((u32 - xx) % u32) []
    else digits_of 32 base xx []

abbrev null_text : List ℕ
null_text = 40 ∷ 110 ∷ 117 ∷ 108 ∷ 108 ∷ 41 ∷ []

-- What a conversion prints, and how many arguments it takes, of which the first is `arg`. `string_at`
-- is the string at an address.
pub convert : (ℕ → List ℕ) → ℕ → ℕ → List ℕ × ℕ
convert string_at c arg =
    if c == 100
    then (printint arg 10 true, 1)
    else if (c == 120) || (c == 112)
    then (printint arg 16 false, 1)
    else if c == 115
    then ((if arg == 0 then null_text else string_at arg), 1)
    else if c == 99
    then (arg % 256 ∷ [], 1)
    else if c == 37
    then (c ∷ [], 0)
    else (37 ∷ c ∷ [], 0)

-- The loop of `printf`: whether `state` is '%', and the index of the next argument word. It ends with
-- what is printed, the state and the index.
pub print_from : (ℕ → List ℕ) → (ℕ → ℕ) → Bool → ℕ → List ℕ → List ℕ × Bool × ℕ
print_from string_at args state ap [] = ([], state, ap)
print_from string_at args false ap (c ∷ fmt) =
    let opened = print_from string_at args true ap fmt in
    let (out, state, end) = print_from string_at args false ap fmt in
    if c == 37 then opened else (c ∷ out, state, end)
print_from string_at args true ap (c ∷ fmt) =
    let (text, used) = convert string_at c (args ap) in
    let (out, state, end) = print_from string_at args false (ap + used) fmt in
    (text ++ out, state, end)

pub printf : (ℕ → List ℕ) → (ℕ → ℕ) → List ℕ → List ℕ
printf string_at args fmt = (print_from string_at args false 0 fmt).0

-- The loop of `atoi`.
pub atoi_from : ℕ → List ℕ → ℕ
atoi_from n [] = n
atoi_from n (c ∷ s) =
    let rest = atoi_from (n * 10 + c - 48) s in if leb 48 c && leb c 57 then rest else n

pub atoi : List ℕ → ℕ
atoi s = atoi_from 0 s

-- Whether `strchr` finds the character.
unfoldable pub strchr : List ℕ → ℕ → Bool
strchr [] c = false
strchr (x ∷ s) c = (x == c) || strchr s c

-- The counters of `wc`, with 32 bits each.
pub record Counts : Type 0 where
  pub l : ℕ
  pub w : ℕ
  pub c : ℕ
  pub inword : Bool

-- " \\r\\t\\n\\v"
abbrev pub blanks : List ℕ
blanks = 32 ∷ 13 ∷ 9 ∷ 10 ∷ 11 ∷ []

pub count_byte : ℕ → Counts → Counts
count_byte b k =
    let m = record k { c = (k.c + 1) % 2 ^ 32; l = if b == 10 then (k.l + 1) % 2 ^ 32 else k.l } in
    if strchr blanks b
    then record m { inword = false }
    else if not m.inword
    then record m { w = (m.w + 1) % 2 ^ 32; inword = true }
    else m

pub count_buffer : List ℕ → Counts → Counts
count_buffer [] k = k
count_buffer (b ∷ bs) k = count_buffer bs (count_byte b k)

-- The reads that `wc` makes and that return more than 0.
pub count_reads : List (List ℕ) → Counts → Counts
count_reads [] k = k
count_reads (buf ∷ bufs) k = count_reads bufs (count_buffer buf k)

-- How `wc` ends: it prints the three counts, or that there is a read error, and the program exits.
pub data WcEnds : Type 0 where
  prints : ℕ → ℕ → ℕ → WcEnds
  read_error : WcEnds

-- `failed` is whether the last read has returned less than 0 instead of 0.
pub wc : List (List ℕ) → Bool → WcEnds
wc bufs failed =
    let k = count_reads bufs (record { l = 0; w = 0; c = 0; inword = false }) in
    if failed then read_error else prints k.l k.w k.c

-- `matchstar`, with what `matchhere` does for the rest of the expression.
pub star : (List ℕ → Bool) → ℕ → List ℕ → Bool
star here c [] = here []
star here c (x ∷ text) = here (x ∷ text) || (((x == c) || (c == 46)) && star here c text)

-- The last test of `matchhere`.
pub single : (List ℕ → Bool) → ℕ → List ℕ → Bool
single here c [] = false
single here c (x ∷ text) = ((c == 46) || (c == x)) && here text

abbrev is_empty_text : List ℕ → Bool
is_empty_text [] = true
is_empty_text (x ∷ text) = false

pub matchhere : List ℕ → List ℕ → Bool
matchhere [] text = true
matchhere (c ∷ []) text = if c == 36 then is_empty_text text else single (matchhere []) c text
matchhere (c ∷ d ∷ re) text =
    let starred = star (matchhere re) c text in
    let one = single (matchhere (d ∷ re)) c text in if d == 42 then starred else one

-- The loop of `match`, down to the empty text.
pub anywhere : List ℕ → List ℕ → Bool
anywhere re [] = matchhere re []
anywhere re (x ∷ text) = matchhere re (x ∷ text) || anywhere re text

pub match : List ℕ → List ℕ → Bool
match [] text = anywhere [] text
match (c ∷ re) text = if c == 94 then matchhere re text else anywhere (c ∷ re) text
