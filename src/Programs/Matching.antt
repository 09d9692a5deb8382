-- ===== src/Programs/Matching.antt =====
-- grep.c: the matcher against a relation that says what it is to match.
use osass.Base.{
  ℕ, ◌≡◌, ◌≢◌, refl, sym, subst, arith, Bool, Bool-cases, inl, inr, true, ◌||◌, ◌==◌, if◌then◌else◌,
  List, [], ◌∷◌,
}
use osass.Programs.{star, single, matchhere, anywhere, match}

-- Whether the character `c` of an expression stands for `x`.
abbrev pub stands_for : ℕ → ℕ → Bool
stands_for c x = (x == c) || (c == 46)

-- A prefix of the text matches the expression. A star takes any number of characters; a dollar at the
-- end wants the end of the text.
pub data Prefix : List ℕ → List ℕ → Type 0 where
  empty : (text : List ℕ) → Prefix [] text
  star_none : (c : ℕ) (re text : List ℕ) → Prefix re text → Prefix (c ∷ 42 ∷ re) text
  star_one :
      (c : ℕ) (re : List ℕ) (x : ℕ) (text : List ℕ)
      → stands_for c x ≡ true
      → Prefix (c ∷ 42 ∷ re) text
      → Prefix (c ∷ 42 ∷ re) (x ∷ text)
  dollar : Prefix (36 ∷ []) []
  last : (c x : ℕ) (text : List ℕ) → c ≢ 36 → stands_for c x ≡ true → Prefix (c ∷ []) (x ∷ text)
  one :
      (c d : ℕ) (re : List ℕ) (x : ℕ) (text : List ℕ)
      → d ≢ 42
      → stands_for c x ≡ true
      → Prefix (d ∷ re) text
      → Prefix (c ∷ d ∷ re) (x ∷ text)

star_here :
    (here : List ℕ → Bool) (c : ℕ) (text : List ℕ) → here text ≡ true → star here c text ≡ true
unfolding star
star_here here c [] h = h
star_here here c (x ∷ text) h = ground (arith, h)

-- Whatever matches is found.
matchhere_complete : (re text : List ℕ) → Prefix re text → matchhere re text ≡ true
unfolding matchhere star single
matchhere_complete _ _ (empty text) = refl
matchhere_complete _ _ (star_none c re text p) =
    star_here (matchhere re) c text (matchhere_complete re text p)
matchhere_complete _ _ (star_one c re x text s p) =
    ground (arith, s, matchhere_complete (c ∷ 42 ∷ re) text p)
matchhere_complete _ _ dollar = refl
matchhere_complete _ _ (last c x text n s) = ground (arith, n, s)
matchhere_complete _ _ (one c d re x text n s p) =
    ground (arith, n, s, matchhere_complete (d ∷ re) text p)

-- What is found matches.
star_sound :
    (c : ℕ) (re text : List ℕ)
    → ((t : List ℕ) → matchhere re t ≡ true → Prefix re t)
    → star (matchhere re) c text ≡ true
    → Prefix (c ∷ 42 ∷ re) text
unfolding star
star_sound c re [] h e = star_none c re [] (h [] e)
star_sound c re (x ∷ text) h e = elim (Bool-cases (matchhere re (x ∷ text))) [
  | inl f ↦ star_none c re (x ∷ text) (h (x ∷ text) f)
  | inr f ↦
      star_one c re x text (ground (arith, e, f)) (star_sound c re text h (ground (arith, e, f)))
]

last_sound : (c : ℕ) (text : List ℕ) → matchhere (c ∷ []) text ≡ true → Prefix (c ∷ []) text
unfolding matchhere single
last_sound c [] e =
    let dollar_sign : c ≡ 36 = ground (arith, e) in
    subst (λ k. Prefix (k ∷ []) []) (sym dollar_sign) dollar
last_sound c (x ∷ text) e = last c x text (ground (arith, e)) (ground (arith, e))

one_sound :
    (c d : ℕ) (re text : List ℕ)
    → d ≢ 42
    → ((t : List ℕ) → matchhere (d ∷ re) t ≡ true → Prefix (d ∷ re) t)
    → single (matchhere (d ∷ re)) c text ≡ true
    → Prefix (c ∷ d ∷ re) text
unfolding single
one_sound c d re [] n h e = absurd (cc)
one_sound c d re (x ∷ text) n h e =
    one c d re x text n (ground (arith, e)) (h text (ground (arith, e)))

pub matchhere_sound : (re text : List ℕ) → matchhere re text ≡ true → Prefix re text
unfolding matchhere single
matchhere_sound [] text e = empty text
matchhere_sound (c ∷ []) text e = last_sound c text e
matchhere_sound (c ∷ d ∷ re) text e = elim (Bool-cases (d == 42)) [
  | inl f ↦
      let is_star : d ≡ 42 = ground (arith, f) in
      subst (λ k. Prefix (c ∷ k ∷ re) text) (sym is_star)
        (star_sound c re text (λ t h. matchhere_sound re t h) (ground (arith, e, f)))
  | inr f ↦
      one_sound c d re text (ground (arith, f)) (λ t h. matchhere_sound (d ∷ re) t h)
        (ground (arith, e, f))
]

-- Some suffix of the text has a prefix that matches; with a caret in front, the text itself.
pub data Somewhere : List ℕ → List ℕ → Type 0 where
  here : (re text : List ℕ) → Prefix re text → Somewhere re text
  later : (re : List ℕ) (x : ℕ) (text : List ℕ) → Somewhere re text → Somewhere re (x ∷ text)

anywhere_sound : (re text : List ℕ) → anywhere re text ≡ true → Somewhere re text
unfolding anywhere
anywhere_sound re [] e = here re [] (matchhere_sound re [] e)
anywhere_sound re (x ∷ text) e = elim (Bool-cases (matchhere re (x ∷ text))) [
  | inl f ↦ here re (x ∷ text) (matchhere_sound re (x ∷ text) f)
  | inr f ↦ later re x text (anywhere_sound re text (ground (arith, e, f)))
]

anywhere_now : (re text : List ℕ) → matchhere re text ≡ true → anywhere re text ≡ true
unfolding anywhere
anywhere_now re [] e = e
anywhere_now re (x ∷ text) e = ground (arith, e)

anywhere_complete : (re text : List ℕ) → Somewhere re text → anywhere re text ≡ true
unfolding anywhere
anywhere_complete _ _ (here re text p) = anywhere_now re text (matchhere_complete re text p)
anywhere_complete _ _ (later re x text p) = ground (arith, anywhere_complete re text p)

-- What `match` is to find.
abbrev pub Found : List ℕ → List ℕ → Type 0
Found [] text = Somewhere [] text
Found (c ∷ re) text = if c == 94 then Prefix re text else Somewhere (c ∷ re) text

-- `match` answers 1 exactly when some suffix of the text has a prefix that the expression
-- matches; with a caret in front, when the text itself has one that the rest of it matches.
pub match_correct :
    (re text : List ℕ)
    → (match re text ≡ true → Found re text) × (Found re text → match re text ≡ true)
unfolding match
match_correct [] text = (anywhere_sound [] text, anywhere_complete [] text)
match_correct (c ∷ re) text = elim (Bool-cases (c == 94)) [
  | inl f ↦ rw f (matchhere_sound re text, matchhere_complete re text)
  | inr f ↦ rw f (anywhere_sound (c ∷ re) text, anywhere_complete (c ∷ re) text)
]
