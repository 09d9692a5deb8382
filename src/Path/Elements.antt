-- ===== src/Path/Elements.antt =====
-- fs.c: the elements of a path are those that it was put together from.
use osass.Base.{
  ℕ, zero, suc, ◌≤◌, ◌<◌, ◌≡◌, refl, sym, ap, ◌∙◌, arith, Bool, Bool-cases, inl, inr, leb, true,
  not, ◌&&◌, ◌==◌, none, some, List, [], ◌∷◌, ◌++◌, length, take,
}
use osass.Path.{dirsiz, skip_slashes, pass_element, copy_name, skipelem, names_from, path_names}

abbrev pub no_slash : List ℕ → Bool
no_slash [] = true
no_slash (c ∷ s) = not (c == 47) && no_slash s

-- A name in a path.
abbrev pub IsName : List ℕ → Type 0
IsName s = (0 < length s) × (no_slash s ≡ true)

-- A slash at least has to stand between a name and the next.
abbrev pub Separated : ℕ → List (List ℕ × ℕ) → Type 0
Separated k [] = Unit
Separated k (x ∷ ss) = 0 < k

-- The names, each with the number of slashes behind it.
abbrev pub AllNames : List (List ℕ × ℕ) → Type 0
AllNames [] = Unit
AllNames ((s, m) ∷ ss) = IsName s × Separated m ss × AllNames ss

abbrev pub slashes : ℕ → List ℕ
slashes zero = []
slashes (suc k) = 47 ∷ slashes k

-- The path of the names, with `k` slashes at its front.
abbrev pub joined : ℕ → List (List ℕ × ℕ) → List ℕ
joined k [] = slashes k
joined k ((s, m) ∷ ss) = slashes k ++ (s ++ joined m ss)

-- At most DIRSIZ bytes of each name.
abbrev pub cut_names : List (List ℕ × ℕ) → List (List ℕ)
cut_names [] = []
cut_names ((s, m) ∷ ss) = take dirsiz s ∷ cut_names ss

-- A path that is empty or begins with a slash.
abbrev boundary : List ℕ → Bool
boundary [] = true
boundary (c ∷ p) = c == 47

joined-boundary : (m : ℕ) (ss : List (List ℕ × ℕ)) → Separated m ss → boundary (joined m ss) ≡ true
joined-boundary zero [] h = refl
joined-boundary (suc k) [] h = refl
joined-boundary zero (x ∷ ss) h = absurd (omega arith)
joined-boundary (suc k) ((s, m) ∷ ss) h = refl

skip_slashes-slashes : (k : ℕ) (p : List ℕ) → skip_slashes (slashes k ++ p) ≡ skip_slashes p
unfolding skip_slashes
skip_slashes-slashes zero p = refl
skip_slashes-slashes (suc k) p = skip_slashes-slashes k p

skip_slashes_none : (k : ℕ) → skip_slashes (slashes k) ≡ []
unfolding skip_slashes
skip_slashes_none zero = refl
skip_slashes_none (suc k) = skip_slashes_none k

skip_slashes_twice : (p : List ℕ) → skip_slashes (skip_slashes p) ≡ skip_slashes p
unfolding skip_slashes
skip_slashes_twice [] = refl
skip_slashes_twice (c ∷ p) = ground (arith, skip_slashes_twice p)

skip_slashes_name :
    (s p : List ℕ) → 0 < length s → no_slash s ≡ true → skip_slashes (s ++ p) ≡ s ++ p
unfolding skip_slashes
skip_slashes_name [] p a b = absurd (omega arith)
skip_slashes_name (c ∷ s) p a b = ground (arith, b)

pass_element_name :
    (s p : List ℕ) → no_slash s ≡ true → boundary p ≡ true → pass_element (s ++ p) ≡ (s, p)
unfolding pass_element
pass_element_name [] [] a b = refl
pass_element_name [] (c ∷ p) a b = ground (arith, b)
pass_element_name (c ∷ s) p a b = ground (arith, a, pass_element_name s p)

skipelem_found :
    (p s rest : List ℕ) (c : ℕ) (q : List ℕ)
    → skip_slashes p ≡ c ∷ q
    → pass_element (c ∷ q) ≡ (s, rest)
    → skipelem p ≡ some (copy_name s, skip_slashes rest)
unfolding skipelem
skipelem_found p s rest c q e f = rw (e, skipelem) (rw f refl)

take_whole : (n : ℕ) (s : List ℕ) → length s ≤ n → take n s ≡ s
take_whole zero [] h = refl
take_whole zero (c ∷ s) h = absurd (omega arith)
take_whole (suc n) [] h = refl
take_whole (suc n) (c ∷ s) h = ap (λ t. c ∷ t) (take_whole n s (omega arith))

copy_name_cut : (s : List ℕ) → copy_name s ≡ take dirsiz s
unfolding copy_name
copy_name_cut s = elim (Bool-cases (leb dirsiz (length s))) [
  | inl e ↦ rw e refl
  | inr e ↦ rw e (sym (take_whole dirsiz s (ground (arith, e))))
]

-- The first round takes the first name.
skipelem-joined :
    (k m : ℕ) (s : List ℕ) (ss : List (List ℕ × ℕ))
    → IsName s
    → Separated m ss
    → skipelem (joined k ((s, m) ∷ ss)) ≡ some (take dirsiz s, skip_slashes (joined m ss))
skipelem-joined k m [] ss (a, c) h = absurd (omega arith)
skipelem-joined k m (x ∷ s) ss (a, c) h =
    skipelem_found (joined k ((x ∷ s, m) ∷ ss)) (x ∷ s) (joined m ss) x (s ++ joined m ss)
      (skip_slashes-slashes k ((x ∷ s) ++ joined m ss)
        ∙ skip_slashes_name (x ∷ s) (joined m ss) a c)
      (pass_element_name (x ∷ s) (joined m ss) c (joined-boundary m ss h))
    ∙ ap (λ n. some (n, skip_slashes (joined m ss))) (copy_name_cut (x ∷ s))

skipelem_skipped : (p : List ℕ) → skipelem (skip_slashes p) ≡ skipelem p
unfolding skipelem
skipelem_skipped p = rw (skip_slashes_twice p, skipelem) refl

skipelem_end : (k : ℕ) → skipelem (slashes k) ≡ none
unfolding skipelem
skipelem_end k = rw (skip_slashes_none k, skipelem) refl

names_from_skipped : (fuel : ℕ) (p : List ℕ) → names_from fuel (skip_slashes p) ≡ names_from fuel p
unfolding names_from
names_from_skipped zero p = refl
names_from_skipped (suc fuel) p = rw (skipelem_skipped p, names_from) refl

names_from_found :
    (fuel : ℕ) (p name rest : List ℕ)
    → skipelem p ≡ some (name, rest)
    → names_from (suc fuel) p ≡ name ∷ names_from fuel rest
unfolding names_from
names_from_found fuel p name rest e = rw (e, names_from) refl

names_from_end : (fuel k : ℕ) → names_from fuel (slashes k) ≡ []
unfolding names_from
names_from_end zero k = refl
names_from_end (suc fuel) k = rw (skipelem_end k, names_from) refl

names_from-joined :
    (fuel k : ℕ) (ss : List (List ℕ × ℕ))
    → length ss ≤ fuel
    → AllNames ss
    → names_from fuel (joined k ss) ≡ cut_names ss
names_from-joined fuel k [] h a = names_from_end fuel k
names_from-joined zero k (x ∷ ss) h a = absurd (omega arith)
names_from-joined (suc fuel) k ((s, m) ∷ ss) h (a, b, c) =
    names_from_found fuel (joined k ((s, m) ∷ ss)) (take dirsiz s) (skip_slashes (joined m ss))
      (skipelem-joined k m s ss a b)
    ∙ ap (λ t. take dirsiz s ∷ t)
        (names_from_skipped fuel (joined m ss) ∙ names_from-joined fuel m ss (omega arith) c)

length-slashes_append : (k : ℕ) (p : List ℕ) → length p ≤ length (slashes k ++ p)
length-slashes_append zero p = omega arith
length-slashes_append (suc k) p = omega (arith, length-slashes_append k p)

length-append_le : (s p : List ℕ) → length p ≤ length (s ++ p)
length-append_le [] p = omega arith
length-append_le (c ∷ s) p = omega (arith, length-append_le s p)

length-append_name : (s p : List ℕ) → 0 < length s → suc (length p) ≤ length (s ++ p)
length-append_name [] p h = absurd (omega arith)
length-append_name (c ∷ s) p h = omega (arith, length-append_le s p)

length-joined : (k : ℕ) (ss : List (List ℕ × ℕ)) → AllNames ss → length ss ≤ length (joined k ss)
length-joined k [] a = omega arith
length-joined k ((s, m) ∷ ss) (a, b, c) = omega (
  arith,
  length-slashes_append k (s ++ joined m ss),
  length-append_name s (joined m ss) a.0,
  length-joined m ss c,
)

-- For names that are not empty and have no slash, the names that are looked up for a path of them are
-- these names, up to DIRSIZ bytes of each, whatever numbers of slashes stand at its front, at its end and
-- between them, where there has to be one.
pub path_names-joined :
    (k : ℕ) (ss : List (List ℕ × ℕ)) → AllNames ss → path_names (joined k ss) ≡ cut_names ss
unfolding path_names
path_names-joined k ss a = names_from-joined (length (joined k ss)) k ss (length-joined k ss a) a
