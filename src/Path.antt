-- ===== src/Path.antt =====
-- fs.c: path names and names in directories. A path is the list of its bytes before the NUL; of `name`
-- what counts is its bytes up to a NUL or to DIRSIZ.
pub mod Elements
pub mod Shorter
mod Tests
use osass.Base.{
  ℕ, zero, suc, ◌+◌, ◌≤◌, ◌<◌, Bool, true, false, ◌||◌, ◌==◌, leb, if◌then◌else◌, Option, none,
  some, List, [], ◌∷◌, ◌++◌, length, take,
}

-- DIRSIZ (fs.h)
abbrev pub dirsiz : ℕ
dirsiz = 14

-- `*path == '\0'`
abbrev pub is_end {ℓ} : {A : Type ℓ} → List A → Bool
is_end [] = true
is_end (x ∷ xs) = false

-- `while(*path == '/') path++;`
pub skip_slashes : List ℕ → List ℕ
skip_slashes [] = []
skip_slashes (c ∷ path) = let more = skip_slashes path in if c == 47 then more else c ∷ path

-- `while(*path != '/' && *path != 0) path++;`: the bytes that it passes, and the rest.
pub pass_element : List ℕ → List ℕ × List ℕ
pass_element [] = ([], [])
pass_element (c ∷ path) =
    let (s, rest) = pass_element path in if c == 47 then ([], c ∷ path) else (c ∷ s, rest)

-- What is copied to `name`.
pub copy_name : List ℕ → List ℕ
copy_name s = if leb dirsiz (length s) then take dirsiz s else s

-- The name and the path behind it; none is the null pointer.
pub skipelem : List ℕ → Option (List ℕ × List ℕ)
skipelem path = elim (skip_slashes path) [
  | [] ↦ none
  | c ∷ s ↦ let (name, rest) = pass_element (c ∷ s) in some (copy_name name, skip_slashes rest)
]

-- The names that the loop of `namex` goes through, with fuel.
unfoldable pub names_from : ℕ → List ℕ → List (List ℕ)
names_from zero path = []
names_from (suc fuel) path = elim (skipelem path) [
  | none ↦ []
  | some (name, rest) ↦ name ∷ names_from fuel rest
]

-- Each round passes a byte.
unfoldable pub path_names : List ℕ → List (List ℕ)
path_names path = names_from (length path) path
