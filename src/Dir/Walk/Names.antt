-- ===== src/Dir/Walk/Names.antt =====
-- fs.c: `namex` goes through the names of its path.
use osass.Base.{
  ℕ, zero, suc, ◌+◌, ◌≤◌, ◌<◌, ◌≡◌, refl, ap, arith, Bool, Option, none, some, List, [], ◌∷◌,
  length, Memory, Outcome, ◌>>=◌,
}
use osass.Path.{is_end, skipelem, names_from, path_names}
use osass.Path.Shorter.{Shorter, skipelem-Shorter, is_end-names_from, skipelem_nil}
use osass.Image.{Image}
use osass.Icache.{Icache, Run}
use osass.Dir.Walk.{Walked, walk_end, step_in, round, walk, start_at, namex}

-- To follow a list of names from the entry `i`: a round for each, and the end of `namex`.
abbrev pub follow :
    ℕ
    → (ℕ → Bool)
    → ℕ
    → Bool
    → ℕ
    → List (List ℕ)
    → ℕ
    → Icache
    → Memory
    → Image
    → Outcome (Run Walked)
follow me devices de parent name [] = walk_end me parent
follow me devices de parent name (s ∷ ss) =
    step_in me devices de parent name s (is_end ss) (follow me devices de parent name ss)

module _ (me : ℕ) (devices : ℕ → Bool) (de : ℕ) (parent : Bool) (name : ℕ) where
  round-follow :
      (go : List ℕ → ℕ → Icache → Memory → Image → Outcome (Run Walked)) (m : ℕ) (path : List ℕ)
      (o : Option (List ℕ × List ℕ))
      → Shorter path o
      → length path ≤ suc m
      → ((rest : List ℕ)
          → length rest < length path
          → go rest ≡ follow me devices de parent name (names_from m rest))
      → round me devices de parent name go o
        ≡ follow me devices de parent name
            (elim o [ none ↦ [] | some (s, rest) ↦ s ∷ names_from m rest ])
  unfolding round
  round-follow go m path none l b h = refl
  round-follow go m path (some (s, rest)) (l, f) b h = λ j.
      step_in me devices de parent name s (is_end-names_from m rest f (omega arith) j) (h rest l j)

  walk-follow :
      (n m : ℕ) (path : List ℕ)
      → length path < n
      → length path ≤ m
      → walk n me devices de parent name path ≡ follow me devices de parent name (names_from m path)
  unfolding walk round names_from
  walk-follow zero m path l k = absurd (omega arith)
  walk-follow (suc n) zero [] l k =
      ap (round me devices de parent name (walk n me devices de parent name)) skipelem_nil
  walk-follow (suc n) zero (c ∷ path) l k = absurd (omega arith)
  walk-follow (suc n) (suc m) path l k =
      round-follow (walk n me devices de parent name) m path (skipelem path) (skipelem-Shorter path)
        k (λ rest s. walk-follow n m rest (omega arith) (omega arith))

-- `namex` does what following the names of its path one by one does: a round of the loop for each name,
-- the last one told that nothing follows it, and then the end of `namex`.
pub namex-follow :
    (me : ℕ) (devices : ℕ → Bool) (de cwd : ℕ) (parent : Bool) (name : ℕ) (path : List ℕ)
    (c : Icache) (mem : Memory) (img : Image)
    → namex me devices de cwd parent name path c mem img ≡ (
        start_at cwd path c >>= λ (i, c).
        follow me devices de parent name (path_names path) i c mem img)
unfolding namex path_names
namex-follow me devices de cwd parent name path c mem img = λ j. start_at cwd path c >>= λ (i, c).
    walk-follow me devices de parent name (length path + 1) (length path) path (omega arith)
      (omega arith) j i c mem img
