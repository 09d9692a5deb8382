-- ===== src/Path/Shorter.antt =====
-- fs.c: `skipelem` passes a byte at least.
use osass.Base.{
  ℕ, zero, suc, ◌≤◌, ◌<◌, ◌≡◌, refl, sym, ap, arith, Bool-cases, inl, inr, false, ◌==◌, Option,
  none, some, List, [], ◌∷◌, length,
}
use osass.Path.{is_end, skip_slashes, pass_element, copy_name, skipelem, names_from}

length-skip_slashes : (p : List ℕ) → length (skip_slashes p) ≤ length p
unfolding skip_slashes
length-skip_slashes [] = omega arith
length-skip_slashes (c ∷ p) = ground (arith, length-skip_slashes p)

length-pass_element : (p : List ℕ) → length ((pass_element p).1) ≤ length p
unfolding pass_element
length-pass_element [] = omega arith
length-pass_element (c ∷ p) = ground (arith, length-pass_element p)

-- No slash is left in front.
abbrev pub Front : List ℕ → Type 0
Front [] = Unit
Front (c ∷ p) = (c == 47) ≡ false

skip_slashes-Front : (p : List ℕ) → Front (skip_slashes p)
unfolding skip_slashes
skip_slashes-Front [] = tt
skip_slashes-Front (c ∷ p) = elim (Bool-cases (c == 47)) [
  | inl e ↦ rw (e, Front) (skip_slashes-Front p)
  | inr e ↦ rw (e, Front) e
]

-- What is left is shorter than the path, with no slash in front.
abbrev pub Shorter : List ℕ → Option (List ℕ × List ℕ) → Type 0
Shorter path none = Unit
Shorter path (some (s, rest)) = (length rest < length path) × Front rest

element-Shorter :
    (path q : List ℕ)
    → Front q
    → length q ≤ length path
    → Shorter path (elim q [
      | [] ↦ none
      | c ∷ s ↦ let (name, rest) = pass_element (c ∷ s) in some (copy_name name, skip_slashes rest)
    ])
unfolding pass_element
element-Shorter path [] f l = tt
element-Shorter path (c ∷ s) f l = rw f (
  omega (arith, length-skip_slashes (pass_element s).1, length-pass_element s),
  skip_slashes-Front (pass_element s).1,
)

pub skipelem-Shorter : (path : List ℕ) → Shorter path (skipelem path)
unfolding skipelem
skipelem-Shorter path =
    element-Shorter path (skip_slashes path) (skip_slashes-Front path) (length-skip_slashes path)

pub skipelem_nil : skipelem [] ≡ none
unfolding skipelem skip_slashes
skipelem_nil = refl

names_from_nil : (m : ℕ) → names_from m [] ≡ []
unfolding names_from skipelem skip_slashes
names_from_nil zero = refl
names_from_nil (suc m) = refl

-- A path that does not begin with a slash has a name in it unless it is empty.
pub is_end-names_from :
    (m : ℕ) (p : List ℕ) → Front p → length p ≤ m → is_end p ≡ is_end (names_from m p)
unfolding names_from skipelem skip_slashes
is_end-names_from m [] f l = ap is_end (sym (names_from_nil m))
is_end-names_from zero (c ∷ p) f l = absurd (omega arith)
is_end-names_from (suc m) (c ∷ p) f l = rw (f, is_end) refl
