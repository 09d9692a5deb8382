-- ===== src/Shell.antt =====
-- sh.c: the tokens of a command line. The line is the list of its bytes up to the NUL at `es`, which
-- `*s` reads there.
pub mod Tokens
mod Tests
use osass.Base.{ℕ, Bool, true, false, ◌&&◌, ◌||◌, not, ◌==◌, if◌then◌else◌, List, [], ◌∷◌}
use osass.Programs.{strchr}

-- `whitespace`
abbrev pub whitespace : List ℕ
whitespace = 32 ∷ 9 ∷ 13 ∷ 10 ∷ 11 ∷ []

-- `symbols`
abbrev pub symbols : List ℕ
symbols = 60 ∷ 124 ∷ 62 ∷ 38 ∷ 59 ∷ 40 ∷ 41 ∷ []

-- `while(s < es && strchr(whitespace, *s)) s++;`
pub skip_blanks : List ℕ → List ℕ
skip_blanks [] = []
skip_blanks (c ∷ s) = let more = skip_blanks s in if strchr whitespace c then more else c ∷ s

-- `while(s < es && !strchr(whitespace, *s) && !strchr(symbols, *s)) s++;`: what it passes, and the rest.
pub pass_word : List ℕ → List ℕ × List ℕ
pass_word [] = ([], [])
pass_word (c ∷ s) =
    let (word, rest) = pass_word s in
    if not (strchr whitespace c) && not (strchr symbols c) then (c ∷ word, rest) else ([], c ∷ s)

-- The value of `gettoken`, the bytes from `*q` to `*eq`, and `*ps` after it.
pub record Token : Type 0 where
  pub ret : ℕ
  pub text : List ℕ
  pub rest : List ℕ

-- The case of '>', behind it.
pub redirect : List ℕ → Token
redirect [] = record { ret = 62; text = 62 ∷ []; rest = [] }
redirect (c ∷ s) =
    if c == 62
    then record { ret = 43; text = 62 ∷ 62 ∷ []; rest = skip_blanks s }
    else record { ret = 62; text = 62 ∷ []; rest = skip_blanks (c ∷ s) }

-- The cases of the switch but the last.
abbrev pub is_single : ℕ → Bool
is_single c = (c == 124) || ((c == 40) || ((c == 41) || ((c == 59) || ((c == 38) || (c == 60)))))

-- The switch, and what comes after it.
pub token_at : List ℕ → Token
token_at [] = record { ret = 0; text = []; rest = [] }
token_at (c ∷ s) =
    let (word, rest) = pass_word (c ∷ s) in
    if is_single c
    then record { ret = c; text = c ∷ []; rest = skip_blanks s }
    else if c == 62
    then redirect s
    else record { ret = 97; text = word; rest = skip_blanks rest }

pub gettoken : List ℕ → Token
gettoken s = token_at (skip_blanks s)

-- Whether one of `toks` comes next, and `*ps` after it.
pub peek : List ℕ → List ℕ → Bool × List ℕ
peek toks ps = elim (skip_blanks ps) [ [] ↦ (false, []) | c ∷ s ↦ (strchr toks c, c ∷ s) ]
