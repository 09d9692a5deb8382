-- ===== src/File/Ends.antt =====
-- pipe.c: `pipealloc` makes two files for the ends of a pipe, or leaves the file table as it was.
use osass.Base.{
  ℕ, ◌+◌, ◌<◌, ◌≡◌, ◌≢◌, refl, arith, subst, Option-cases, inl, inr, true, false, Option, none,
  some, List, [], Outcome, ok, panic,
}
use osass.File.{nfile, Table, Effect, filealloc, fd_pipe, set_ends, pipealloc}
use osass.File.Descriptors.{one}
use osass.File.Counts.{Counts, OpenEnds, filealloc-OpenEnds, fileclose-Counts}

-- `filealloc` in terms of the counts.
filealloc-Counts :
    (t u : Table) (f : ℕ) (held : ℕ → ℕ)
    → filealloc t ≡ some (f, u)
    → Counts t held
    → (f < nfile) × (held f ≡ 0) × ((u f).type ≡ (t f).type) × Counts u (λ g. held g + one f g)
filealloc-Counts t u f held h c =
    let (a, b, d, e) = subst (OpenEnds t nfile 0) h (filealloc-OpenEnds t) in
    (omega arith, ground (arith, c f, d), ground (arith, e), λ g l. ground (arith, e, c g, c f, d))

-- The ends that `pipealloc` may come to, in terms of the counts.
abbrev pub PipeEnds :
    Option ℕ → (ℕ → ℕ) → Table → Outcome (Option (ℕ × ℕ) × Table × List Effect) → Type 0
PipeEnds page held t (panic text) = ⊥
PipeEnds page held t (ok (none, u, out)) = Counts u held
PipeEnds page held t (ok (some (f0, f1), u, out)) =
    (p : ℕ) × (page ≡ some p)
    × (f0 ≢ f1)
    × (held f0 ≡ 0)
    × (held f1 ≡ 0)
    × (u f0 ≡ record (u f0) { type = fd_pipe; readable = true; writable = false; pipe = p })
    × (u f1 ≡ record (u f1) { type = fd_pipe; readable = false; writable = true; pipe = p })
    × (out ≡ [])
    × Counts u (λ g. held g + one f0 g + one f1 g)

set_ends-Counts :
    (f0 f1 p : ℕ) (t : Table) (held : ℕ → ℕ) → Counts t held → Counts (set_ends f0 f1 p t) held
unfolding set_ends
set_ends-Counts f0 f1 p t held c g l = ground (arith, c g)

set_ends_lem :
    (f0 f1 p : ℕ) (t : Table)
    → f0 ≢ f1
    → (set_ends f0 f1 p t f0 ≡ record (set_ends f0 f1 p t f0) {
      type = fd_pipe;
      readable = true;
      writable = false;
      pipe = p;
    })
      × (set_ends f0 f1 p t f1 ≡ record (set_ends f0 f1 p t f1) {
        type = fd_pipe;
        readable = false;
        writable = true;
        pipe = p;
      })
unfolding set_ends
set_ends_lem f0 f1 p t n = (ground arith, ground arith)

-- Where every reference count is the number of its holders, `pipealloc` does not panic; it fails
-- with the counts as before, or two distinct files that nobody held are the ends of the pipe,
-- each with one more reference.
pub pipealloc-PipeEnds :
    (page : Option ℕ) (held : ℕ → ℕ) (t : Table)
    → Counts t held
    → PipeEnds page held t (pipealloc page t)
unfolding pipealloc
pipealloc-PipeEnds page held t c = elim (Option-cases (filealloc t)) [
  | inl e ↦ rw (e, pipealloc) c
  | inr ((f0, u), e) ↦
      let (a, free0, _, d) = filealloc-Counts t u f0 held e c in
      elim (Option-cases (filealloc u)) [
        | inl g ↦
            let (v, run, k) = fileclose-Counts f0 u (λ x. held x + one f0 x) held a (λ x. refl) d in
            rw (e, pipealloc) (rw (g, pipealloc) (rw run k))
        | inr ((f1, v), g) ↦
            let (b, free1, _, k) = filealloc-Counts u v f1 (λ x. held x + one f0 x) g d in
            elim (Option-cases page) [
              | inl h ↦
                  let (w, run0, l) =
                    fileclose-Counts f0 v (λ x. held x + one f0 x + one f1 x)
                      (λ x. held x + one f1 x) a (λ x. omega arith) k in
                  let (x, run1, m) =
                    fileclose-Counts f1 w (λ x. held x + one f1 x) held b (λ x. refl) l in
                  rw (e, pipealloc) (rw (g, pipealloc) (rw (h, pipealloc) (rw (run0, run1) m)))
              | inr (p, h) ↦
                  let n : f0 ≢ f1 = λ q. ground (arith, q, free1) in
                  let (s, r) = set_ends_lem f0 f1 p v n in
                  rw (e, pipealloc)
                    (rw (g, pipealloc)
                      (rw (h, pipealloc)
                        (
                          p,
                          refl,
                          n,
                          free0,
                          omega (arith, free1),
                          s,
                          r,
                          refl,
                          set_ends-Counts f0 f1 p v (λ x. held x + one f0 x + one f1 x) k,
                        )))
            ]
      ]
]
