-- ===== src/Shell/Tokens.antt =====
-- sh.c: a token against the line that it is taken from.
use osass.Base.{
  ℕ, ◌<◌, ◌≡◌, Bool, true, false, ◌&&◌, not, ◌==◌, if◌then◌else◌, List, [], ◌∷◌, ◌++◌, length,
}
use osass.Programs.{strchr}
use osass.Shell.{whitespace, symbols, Token}

abbrev pub all_blank : List ℕ → Bool
all_blank [] = true
all_blank (c ∷ s) = strchr whitespace c && all_blank s

abbrev pub is_word : List ℕ → Bool
is_word [] = true
is_word (c ∷ s) = (not (strchr whitespace c) && not (strchr symbols c)) && is_word s

abbrev pub starts_blank : List ℕ → Bool
starts_blank [] = false
starts_blank (c ∷ s) = strchr whitespace c

-- The text goes on with a byte of a word, or with '>'.
abbrev pub starts_word : List ℕ → Bool
starts_word [] = false
starts_word (c ∷ s) = not (strchr whitespace c) && not (strchr symbols c)

abbrev pub starts_gt : List ℕ → Bool
starts_gt [] = false
starts_gt (c ∷ s) = c == 62

-- The token with this value cannot be longer, with the text `s` behind it.
abbrev pub Longest : ℕ → List ℕ → Type 0
Longest ret s = (ret ≡ 97 → starts_word s ≡ false) × (ret ≡ 62 → starts_gt s ≡ false)

-- What a token's value says of its bytes.
pub data Kind : ℕ → List ℕ → Type 0 where
  end : Kind 0 []
  symbol : (c : ℕ) → strchr symbols c ≡ true → Kind c (c ∷ [])
  append : Kind 43 (62 ∷ 62 ∷ [])
  word : (w : List ℕ) → 0 < length w → is_word w ≡ true → Kind 97 w

-- The line is blanks, the token, blanks, and the rest, which does not begin with a blank; the token is the
-- longest that begins there.
pub record Splits (line : List ℕ) (t : Token) : Type 0 where
  pub before : List ℕ
  pub after : List ℕ
  pub before_blank : all_blank before ≡ true
  pub after_blank : all_blank after ≡ true
  pub whole : line ≡ before ++ (t.text ++ (after ++ t.rest))
  pub kind : Kind t.ret t.text
  pub next : starts_blank t.rest ≡ false
  pub longest : Longest t.ret (after ++ t.rest)

-- The blanks at the front.
abbrev blanks_of : List ℕ → List ℕ
blanks_of [] = []
blanks_of (c ∷ s) = let more = blanks_of s in if strchr whitespace c then c ∷ more else []
