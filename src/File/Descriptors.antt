-- ===== src/File/Descriptors.antt =====
-- sysfile.c: how often the descriptors of a process name a file.
use osass.Base.{
  ℕ, zero, suc, ◌+◌, ◌-◌, ◌^◌, ◌≤◌, ◌<◌, ◌≡◌, ap, ◌∙◌, arith, Bool-cases, Option-cases, inl, inr,
  ◌||◌, ◌==◌, leb, if◌then◌else◌, Option, none, some, [], ◌∷◌,
}
use osass.File.{Ofile, fd_file, clear_fd, fdalloc_from, fdalloc, argfd, nofile}

-- One for the file `f`, zero for others.
abbrev pub one : ℕ → ℕ → ℕ
one f g = if f == g then 1 else 0

abbrev pub names : Option ℕ → ℕ → ℕ
names none g = 0
names (some f) g = one f g

abbrev pub holders : Ofile → ℕ → ℕ
holders [] g = 0
holders (o ∷ os) g = names o g + holders os g

-- What `fdalloc` may come to, from descriptor `i` on: one more name of the file, at the descriptor that
-- it returns.
abbrev pub AllocEnds : ℕ → ℕ → Ofile → Option (ℕ × Ofile) → Type 0
AllocEnds f i os none = Unit
AllocEnds f i os (some (n, ps)) =
    (i ≤ n) × (fd_file ps (n - i) ≡ some f) × ((g : ℕ) → holders ps g ≡ holders os g + one f g)

abbrev behind : ℕ → Option (ℕ × Ofile) → Option (ℕ × Ofile)
behind x r = elim r [ none ↦ none | some (n, ps) ↦ some (n, some x ∷ ps) ]

AllocEnds-behind :
    (f i x : ℕ) (os : Ofile) (r : Option (ℕ × Ofile))
    → AllocEnds f (i + 1) os r
    → AllocEnds f i (some x ∷ os) (behind x r)
unfolding fd_file
AllocEnds-behind f i x os none e = tt
AllocEnds-behind f i x os (some (n, ps)) (a, b, c) =
    let next : n - i ≡ suc (n - (i + 1)) = omega arith in
    (omega arith, ap (fd_file (some x ∷ ps)) next ∙ b, λ g. omega (arith, c g))

fdalloc_from-AllocEnds : (f i : ℕ) (os : Ofile) → AllocEnds f i os (fdalloc_from f i os)
unfolding fdalloc_from fd_file
fdalloc_from-AllocEnds f i [] = tt
fdalloc_from-AllocEnds f i (none ∷ os) =
    let start : i - i ≡ 0 = omega arith in
    (omega arith, ap (fd_file (some f ∷ os)) start, λ g. omega arith)
fdalloc_from-AllocEnds f i (some x ∷ os) =
    AllocEnds-behind f i x os (fdalloc_from f (i + 1) os) (fdalloc_from-AllocEnds f (i + 1) os)

pub fdalloc-AllocEnds : (f : ℕ) (os : Ofile) → AllocEnds f 0 os (fdalloc f os)
unfolding fdalloc
fdalloc-AllocEnds f os = fdalloc_from-AllocEnds f 0 os

-- What `argfd` may come to: a descriptor of the process and its file.
abbrev pub FdEnds : Ofile → Option (ℕ × ℕ) → Type 0
FdEnds os none = Unit
FdEnds os (some (fd, f)) = (fd < nofile) × (fd_file os fd ≡ some f)

pub argfd-FdEnds : (arg : Option ℕ) (os : Ofile) → FdEnds os (argfd arg os)
unfolding argfd
argfd-FdEnds none os = tt
argfd-FdEnds (some fd) os = elim (Bool-cases (leb (2 ^ 31) fd || leb nofile fd)) [
  | inl e ↦ rw e tt
  | inr e ↦ elim (Option-cases (fd_file os fd)) [
    | inl h ↦ rw (e, h) tt
    | inr (f, h) ↦ rw (e, h) (ground (arith, e), h)
  ]
]

-- Clearing a descriptor takes its name away.
pub clear_fd_lem :
    (os : Ofile) (n f g : ℕ)
    → fd_file os n ≡ some f
    → holders os g ≡ holders (clear_fd os n) g + one f g
unfolding fd_file clear_fd
clear_fd_lem [] n f g h = absurd (cc)
clear_fd_lem (o ∷ os) zero f g h = ground (arith, h)
clear_fd_lem (o ∷ os) (suc n) f g h = ground (arith, clear_fd_lem os n f g h)
