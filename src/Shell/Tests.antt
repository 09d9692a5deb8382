-- ===== src/Shell/Tests.antt =====
-- Runs of the shell's tokens, and their theorem at a concrete line.
use osass.Base.{ℕ, ◌≡◌, refl, List, [], ◌∷◌}
use osass.Programs.{strchr}
use osass.Shell.{skip_blanks, pass_word, redirect, token_at, gettoken}

-- " ls>>x"
abbrev listing : List ℕ
listing = 32 ∷ 108 ∷ 115 ∷ 62 ∷ 62 ∷ 120 ∷ []

gettoken_first :
    gettoken listing ≡ record { ret = 97; text = 108 ∷ 115 ∷ []; rest = 62 ∷ 62 ∷ 120 ∷ [] }
unfolding gettoken token_at skip_blanks pass_word strchr
gettoken_first = refl

gettoken_second :
    gettoken (62 ∷ 62 ∷ 120 ∷ []) ≡ record { ret = 43; text = 62 ∷ 62 ∷ []; rest = 120 ∷ [] }
unfolding gettoken token_at skip_blanks pass_word redirect strchr
gettoken_second = refl
