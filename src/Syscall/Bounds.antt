-- ===== src/Syscall/Bounds.antt =====
-- syscall.c: what is fetched lies in the memory of the process.
use osass.Base.{
  ℕ, zero, suc, ◌+◌, ◌-◌, ◌*◌, ◌%◌, ◌^◌, ◌≤◌, ◌<◌, ◌≡◌, ◌≢◌, refl, sym, ◌∙◌, arith, Bool-cases,
  Option-cases, inl, inr, ◌||◌, ◌==◌, ltb, leb, if◌then◌else◌, Option, none, some, Memory,
}
use osass.Base.Words.{get32}
use osass.Pipe.{u32}
use osass.Syscall.{User, fetchint, find_nul, fetchstr, argint, argptr}

-- A string with its end inside of the process.
pub record IsString (u : User) (addr len : ℕ) : Type 0 where
  pub inside : addr + len < u.sz
  pub end : u.mem (addr + len) ≡ 0
  pub before : (k : ℕ) → k < len → u.mem (addr + k) ≢ 0

find_nul-some :
    (m : Memory) (addr r len k : ℕ)
    → find_nul m addr r len ≡ some k
    → (len ≤ k)
      × (k < len + r)
      × (m (addr + k) ≡ 0)
      × ((j : ℕ) → len ≤ j → j < k → m (addr + j) ≢ 0)
unfolding find_nul
find_nul-some m addr zero len k h = absurd (cc)
find_nul-some m addr (suc r) len k h = elim (Bool-cases (m (addr + len) == 0)) [
  | inl e ↦
      let same : len ≡ k = ground (arith, h, e) in
      (omega arith, omega arith, ground (arith, e, same), λ j a b. absurd (omega arith))
  | inr e ↦
      let (a, b, c, d) = find_nul-some m addr r (len + 1) k (ground (arith, h, e)) in
      (omega arith, omega arith, c, λ j f g z. ground (arith, e, z, d j))
]

find_nul-none :
    (m : Memory) (addr r len j : ℕ)
    → find_nul m addr r len ≡ none
    → len ≤ j
    → j < len + r
    → m (addr + j) ≢ 0
unfolding find_nul
find_nul-none m addr zero len j h a b e = absurd (omega arith)
find_nul-none m addr (suc r) len j h a b e = ground (arith, find_nul-none m addr r (len + 1) j)

-- `argint` and `fetchint` read inside of the process.
pub argint_inside :
    (u : User) (n v : ℕ)
    → u.sz ≤ 2 ^ 31
    → argint u n ≡ some v
    → (a : ℕ) × (a ≡ (u.esp + 4 + 4 * n) % u32) × (a + 4 ≤ u.sz) × (v ≡ get32 u.mem a)
unfolding argint fetchint
argint_inside u n v z h = ((u.esp + 4 + 4 * n) % u32, refl, ground arith, ground arith)

abbrev checked : User → ℕ → ℕ → Option ℕ
checked u size i =
    if leb (2 ^ 31) size || (leb u.sz i || ltb u.sz ((i + size) % u32)) then none else some i

none_ne : (p : ℕ) → none ≢ some p
none_ne p h = cc

-- In a process whose memory ends at 2 ^ 31 at most, a pointer that `argptr` accepts is the
-- argument word, and the whole block of the given size from it on lies in the memory.
pub argptr_inside :
    (u : User) (n size p : ℕ)
    → u.sz ≤ 2 ^ 31
    → argptr u n size ≡ some p
    → (argint u n ≡ some p) × (p < u.sz) × (p + size ≤ u.sz)
unfolding argptr
argptr_inside u n size p z h = elim (Option-cases (argint u n)) [
  | inl e ↦ absurd (none_ne p (sym (rw (e, argptr) refl) ∙ h))
  | inr (i, e) ↦
      let k : checked u size i ≡ some p = sym (rw (e, argptr) refl) ∙ h in
      (ground (arith, e, k), ground (arith, k), ground (arith, k))
]

-- How `fetchstr` ends: with the length of a string that lies inside, or there is none.
abbrev pub StringEnds : User → ℕ → Option ℕ → Type 0
StringEnds u addr (some len) = IsString u addr len
StringEnds u addr none = (j : ℕ) → addr + j < u.sz → u.mem (addr + j) ≢ 0

-- `fetchstr` returns the length of a string whose NUL lies in the memory of the process, or -1
-- if no NUL follows in it.
pub fetchstr-StringEnds : (u : User) (addr : ℕ) → StringEnds u addr (fetchstr u addr)
unfolding fetchstr
fetchstr-StringEnds u addr = elim (Bool-cases (leb u.sz addr)) [
  | inl e ↦ rw e (λ j a z. ground (arith, e))
  | inr e ↦ elim (Option-cases (find_nul u.mem addr (u.sz - addr) 0)) [
    | inl f ↦
        rw (e, f) (λ j a. find_nul-none u.mem addr (u.sz - addr) 0 j f (omega arith) (omega arith))
    | inr (len, f) ↦
        let (a, b, c, d) = find_nul-some u.mem addr (u.sz - addr) 0 len f in
        rw (e, f)
          (record { inside = ground (arith, e); end = c; before = λ k g. d k (omega arith) g })
  ]
]
