-- ===== src/File/Counts.antt =====
-- file.c: a file's reference count is the number of those who hold it.
use osass.Base.{
  ℕ, zero, suc, ◌+◌, ◌-◌, ◌≤◌, ◌<◌, ◌≡◌, ◌≢◌, refl, ap, ◌∙◌, arith, subst, Bool-cases, Option-cases,
  inl, inr, false, ◌==◌, if◌then◌else◌, Option, none, some, List, [], Outcome, ok, panic,
}
use osass.Log.Blocks.{at}
use osass.File.{
  nfile, nofile, Table, Effect, alloc_from, filealloc, filedup, close_last, fileclose, fd_none,
  Ofile, fd_file, clear_fd, fdalloc, argfd, sys_dup,
}
use osass.File.Descriptors.{
  one, holders, AllocEnds, fdalloc-AllocEnds, FdEnds, argfd-FdEnds, clear_fd_lem,
}

-- `held f` is how many references to the file `f` there are.
abbrev pub Counts : Table → (ℕ → ℕ) → Type 0
Counts t held = (f : ℕ) → f < nfile → (t f).ref ≡ held f

-- The loop of `filealloc` finds a file that nobody holds, and gives it one reference.
abbrev pub OpenEnds : Table → ℕ → ℕ → Option (ℕ × Table) → Type 0
OpenEnds t r i none = (f : ℕ) → i ≤ f → f < i + r → (t f).ref ≢ 0
OpenEnds t r i (some (f, u)) =
    (i ≤ f) × (f < i + r) × ((t f).ref ≡ 0) × (u ≡ at f (record (t f) { ref = 1 }) t)

OpenEnds-next :
    (t : Table) (r i : ℕ) (o : Option (ℕ × Table))
    → ((t i).ref == 0) ≡ false
    → OpenEnds t r (i + 1) o
    → OpenEnds t (suc r) i o
OpenEnds-next t r i none e h = λ f a b z. ground (arith, e, z, h f)
OpenEnds-next t r i (some (f, u)) e (a, b, c, d) = (omega arith, omega arith, c, d)

alloc_from-OpenEnds : (r i : ℕ) (t : Table) → OpenEnds t r i (alloc_from r i t)
unfolding alloc_from
alloc_from-OpenEnds zero i t = λ f a b e. omega arith
alloc_from-OpenEnds (suc r) i t = elim (Bool-cases ((t i).ref == 0)) [
  | inl e ↦ rw e (omega arith, omega arith, ground (arith, e), refl)
  | inr e ↦ rw e (OpenEnds-next t r i (alloc_from r (i + 1) t) e (alloc_from-OpenEnds r (i + 1) t))
]

pub filealloc-OpenEnds : (t : Table) → OpenEnds t nfile 0 (filealloc t)
unfolding filealloc
filealloc-OpenEnds t = alloc_from-OpenEnds nfile 0 t

-- `filedup` of a file that is held does not panic, and counts one more.
pub filedup-Counts :
    (f : ℕ) (t : Table) (held : ℕ → ℕ)
    → f < nfile
    → 0 < held f
    → Counts t held
    → (u : Table) × (filedup f t ≡ ok u) × Counts u (λ g. held g + one f g)
unfolding filedup
filedup-Counts f t held l h c =
    (at f (record (t f) { ref = (t f).ref + 1 }) t, ground (arith, c f), λ g k. ground (arith, c g))

-- `fileclose` of a file that is held does not panic, and counts one less; something is left to do
-- exactly when nobody holds it any more.
pub fileclose-Counts :
    (f : ℕ) (t : Table) (held rest : ℕ → ℕ)
    → f < nfile
    → ((g : ℕ) → held g ≡ rest g + one f g)
    → Counts t held
    → (u : Table) × (fileclose f t ≡ ok (u, if rest f == 0 then close_last (t f) else []))
      × Counts u rest
unfolding fileclose
fileclose-Counts f t held rest l h c = elim (Bool-cases (rest f == 0)) [
  | inl e ↦ (
    at f (record (t f) { ref = 0; type = fd_none }) t,
    ground (arith, c f, h f, e),
    λ g k. ground (arith, c g, h g, h f, e),
  )
  | inr e ↦ (
    at f (record (t f) { ref = (t f).ref - 1 }) t,
    ground (arith, c f, h f, e),
    λ g k. ground (arith, c g, h g, h f, e),
  )
]

-- The references of one process, and of the others.
abbrev pub together : Ofile → (ℕ → ℕ) → ℕ → ℕ
together os others f = holders os f + others f

abbrev pub InTable : Ofile → Type 0
InTable os = (n f : ℕ) → fd_file os n ≡ some f → f < nfile

holders_pos : (os : Ofile) (n f : ℕ) → fd_file os n ≡ some f → 0 < holders os f
holders_pos os n f h = ground (arith, clear_fd_lem os n f f h)

Counts-ext : (t : Table) (h k : ℕ → ℕ) → ((f : ℕ) → h f ≡ k f) → Counts t h → Counts t k
Counts-ext t h k e c f l = c f l ∙ e f

-- The ends that `sys_dup` may come to, in terms of the counts.
abbrev pub DupEnds :
    Option ℕ → Ofile → (ℕ → ℕ) → Table → Outcome (Option ℕ × Ofile × Table) → Type 0
DupEnds arg os others t (panic text) = ⊥
DupEnds arg os others t (ok (none, ps, u)) = (ps ≡ os) × (u ≡ t)
DupEnds arg os others t (ok (some n, ps, u)) =
    (fd f : ℕ) × (argfd arg os ≡ some (fd, f))
    × (fd_file ps n ≡ some f)
    × Counts u (together ps others)

-- Where the descriptors name files of the table, and every reference count is the number of its
-- holders, `sys_dup` does not panic; it changes nothing, or it gives a new descriptor of the
-- same file, and every count is again the number of its holders.
pub sys_dup-DupEnds :
    (arg : Option ℕ) (os : Ofile) (others : ℕ → ℕ) (t : Table)
    → InTable os
    → Counts t (together os others)
    → DupEnds arg os others t (sys_dup arg os t)
unfolding sys_dup
sys_dup-DupEnds arg os others t i c = elim (Option-cases (argfd arg os)) [
  | inl e ↦ rw (e, sys_dup) (refl, refl)
  | inr ((fd, f), e) ↦
      let (a, b) = subst (FdEnds os) e (argfd-FdEnds arg os) in
      elim (Option-cases (fdalloc f os)) [
        | inl g ↦ rw (e, sys_dup) (rw (g, sys_dup) (refl, refl))
        | inr ((n, ps), g) ↦
            let (_, p, q) = subst (AllocEnds f 0 os) g (fdalloc-AllocEnds f os) in
            let pos : 0 < together os others f = omega (arith, holders_pos os fd f b) in
            let (u, run, d) = filedup-Counts f t (together os others) (i fd f b) pos c in
            let same : n ≡ n - 0 = omega arith in
            rw (e, sys_dup)
              (rw (g, sys_dup)
                (rw run (
                  fd,
                  f,
                  e,
                  ap (fd_file ps) same ∙ p,
                  Counts-ext u _ (together ps others) (λ x. omega (arith, q x)) d,
                )))
      ]
]

-- The argument is a descriptor that is open, for the file.
abbrev pub IsOpen : Option ℕ → Ofile → ℕ → ℕ → Type 0
IsOpen arg os fd f = (arg ≡ some fd) × (fd < nofile) × (fd_file os fd ≡ some f)

-- The ends that `sys_close` may come to.
abbrev pub CloseEnds :
    Option ℕ → Ofile → (ℕ → ℕ) → Table → Outcome (Option ℕ × Ofile × Table × List Effect) → Type 0
CloseEnds arg os others t (panic text) = ⊥
CloseEnds arg os others t (ok (none, ps, u, out)) =
    ((fd f : ℕ) → ¬ IsOpen arg os fd f) × (ps ≡ os) × (u ≡ t) × (out ≡ [])
CloseEnds arg os others t (ok (some n, ps, u, out)) =
    (fd f : ℕ) × IsOpen arg os fd f
    × (n ≡ 0)
    × (ps ≡ clear_fd os fd)
    × (out ≡ (if together ps others f == 0 then close_last (t f) else []))
    × Counts u (together ps others)

abbrev SameFd : Option ℕ → Option (ℕ × ℕ) → Type 0
SameFd arg none = Unit
SameFd arg (some (fd, f)) = arg ≡ some fd
