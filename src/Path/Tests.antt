-- ===== src/Path/Tests.antt =====
-- Runs of path names, and their theorem at a concrete path.
use osass.Base.{ℕ, ◌≡◌, refl, arith, List, [], ◌∷◌, some}
use osass.Path.{skip_slashes, pass_element, copy_name, skipelem, path_names}
use osass.Path.Elements.{AllNames, joined, cut_names, path_names-joined}

-- "///a//bb"
skipelem_slashes :
    skipelem (47 ∷ 47 ∷ 47 ∷ 97 ∷ 47 ∷ 47 ∷ 98 ∷ 98 ∷ []) ≡ some (97 ∷ [], 98 ∷ 98 ∷ [])
unfolding skipelem skip_slashes pass_element copy_name
skipelem_slashes = refl

-- "a///bb/"
abbrev a_bb : List (List ℕ × ℕ)
a_bb = (97 ∷ [], 3) ∷ (98 ∷ 98 ∷ [], 1) ∷ []

a_bb-AllNames : AllNames a_bb
a_bb-AllNames = ((omega arith, refl), omega arith, ((omega arith, refl), tt, tt))

path_names-joined_example : path_names (joined 0 a_bb) ≡ cut_names a_bb
path_names-joined_example = path_names-joined 0 a_bb a_bb-AllNames
