-- ===== src/Str/Tests.antt =====
-- Runs of the routines of string.c, and their theorems at concrete memories.
use osass.Base.{◌≡◌, refl, Memory, write, [], ◌∷◌, some}
use osass.Str.{copy_down, memmove, strlen}
use osass.Str.Move.{memmove-moved}
use osass.Str.Compare.{bytes}

-- "abc" at 100, and zeros elsewhere.
abbrev abc_at_100 : Memory
abc_at_100 = write (write (write (λ _. 0) 100 b'a') 101 b'b') 102 b'c'

memmove_overlap : bytes (memmove abc_at_100 101 100 3) 100 4 ≡ b'a' ∷ b'a' ∷ b'b' ∷ b'c' ∷ []
unfolding memmove copy_down
memmove_overlap = refl

strlen_run : strlen 10 abc_at_100 100 ≡ some 3
unfolding strlen
strlen_run = refl

memmove-moved_example : memmove abc_at_100 101 100 3 103 ≡ b'c'
memmove-moved_example = memmove-moved abc_at_100 101 100 3 103
