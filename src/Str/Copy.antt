-- ===== src/Str/Copy.antt =====
-- string.c: `strncpy` and `safestrcpy`: what they write, how far, and the closing NUL.
use osass.Base.{
  ℕ, zero, suc, ◌+◌, ◌-◌, ◌≤◌, ◌<◌, ◌≡◌, ◌⊎◌, refl, ap, inl, inr, ◌∙◌, Bool-cases, arith, Memory,
  write, in_range, ◌==◌, if◌then◌else◌,
}
use osass.Str.{zero_fill, strncpy, safe_copy, safestrcpy}
use osass.Str.Compare.{text}

-- Byte `i` of the string at `t`, padded with NULs.
abbrev pub padded : Memory → ℕ → ℕ → ℕ
padded m t zero = m t
padded m t (suc i) = if m t == 0 then 0 else padded m (t + 1) i

zero_fill_lem :
    (n s : ℕ) (m : Memory) (a : ℕ) → zero_fill n s m a ≡ (if in_range s n a then 0 else m a)
unfolding zero_fill
zero_fill_lem zero s m a = ground arith
zero_fill_lem (suc n) s m a = ground (arith, zero_fill_lem n (s + 1) (write m s 0) a)

-- The source does not overlap the target.
abbrev pub Apart : ℕ → ℕ → ℕ → Type 0
Apart s t n = (s + n ≤ t) ⊎ (t + n ≤ s)

-- Reading the source is not disturbed by a store outside of it.
padded-write :
    (i t a v : ℕ) (m : Memory) → (a < t) ⊎ (t + i < a) → padded (write m a v) t i ≡ padded m t i
padded-write zero t a v m h = ground arith
padded-write (suc i) t a v m h = ground (arith, padded-write i (t + 1) a v m)

strncpy_outside : (n s t : ℕ) (m : Memory) (a : ℕ) → (a < s) ⊎ (s + n ≤ a) → strncpy n s t m a ≡ m a
unfolding strncpy
strncpy_outside zero s t m a h = refl
strncpy_outside (suc n) s t m a h = ground (
  arith,
  strncpy_outside n (s + 1) (t + 1) (write m s (m t)) a,
  zero_fill_lem n (s + 1) (write m s (m t)) a,
)

strncpy_inside :
    (i n s t : ℕ) (m : Memory) → Apart s t n → i < n → strncpy n s t m (s + i) ≡ padded m t i
unfolding strncpy
strncpy_inside i zero s t m h lt = absurd (omega arith)
strncpy_inside zero (suc n) s t m h lt = ground (
  arith,
  strncpy_outside n (s + 1) (t + 1) (write m s (m t)) (s + 0),
  zero_fill_lem n (s + 1) (write m s (m t)) (s + 0),
)
strncpy_inside (suc i) (suc n) s t m h lt = ground (
  arith,
  strncpy_inside i n (s + 1) (t + 1) (write m s (m t)),
  padded-write i (t + 1) s (m t) m,
  zero_fill_lem n (s + 1) (write m s (m t)) (s + suc i),
)

-- `strncpy` leaves the string of `t`, padded with NULs, in the `n` bytes at `s`, and writes nothing
-- else, where the two do not overlap.
pub strncpy_lem :
    (n s t a : ℕ) (m : Memory)
    → Apart s t n
    → strncpy n s t m a ≡ (if in_range s n a then padded m t (a - s) else m a)
strncpy_lem n s t a m h = elim (Bool-cases (in_range s n a)) [
  | inl e ↦
      rw e (ap (strncpy n s t m) (ground arith) ∙ strncpy_inside (a - s) n s t m h (ground arith))
  | inr e ↦ rw e (strncpy_outside n s t m a (ground arith))
]

-- The string that `padded` gives is that of `t`.
pub text-padded :
    (n s t : ℕ) (m m2 : Memory)
    → ((i : ℕ) → i < n → m2 (s + i) ≡ padded m t i)
    → text m2 s n ≡ text m t n
text-padded zero s t m m2 h = refl
text-padded (suc n) s t m m2 h =
    let first : m2 s ≡ m t = ap m2 (omega arith) ∙ h 0 (omega arith) in
    elim (Bool-cases (m t == 0)) [
      | inl e ↦ rw (first, e) refl
      | inr e ↦
          let rest : text m2 (s + 1) n ≡ text m (t + 1) n =
            text-padded n (s + 1) (t + 1) m m2
              (λ i l. ap m2 (omega arith) ∙ h (suc i) (omega arith) ∙ rw e refl) in
          rw (first, e, rest) refl
    ]

padded_bytes : (m : Memory) (t i : ℕ) → ((x : ℕ) → m x < 256) → padded m t i < 256
padded_bytes m t zero h = h t
padded_bytes m t (suc i) h = ground (arith, padded_bytes m (t + 1) i h)

pub strncpy_bytes :
    (n s t a : ℕ) (m : Memory) → Apart s t n → ((x : ℕ) → m x < 256) → strncpy n s t m a < 256
strncpy_bytes n s t a m p h =
    ground (arith, strncpy_lem n s t a m p, padded_bytes m t (a - s) h, h a)

safe_copy_outside :
    (k s t : ℕ) (m : Memory) (a : ℕ) → (a < s) ⊎ (s + k < a) → safe_copy k s t m a ≡ m a
unfolding safe_copy
safe_copy_outside zero s t m a h = ground arith
safe_copy_outside (suc k) s t m a h =
    ground (arith, safe_copy_outside k (s + 1) (t + 1) (write m s (m t)) a)

-- Reading a string is not disturbed by a store outside of it.
text-write :
    (n t a v : ℕ) (m : Memory) → (a < t) ⊎ (t + n ≤ a) → text (write m a v) t n ≡ text m t n
text-write zero t a v m h = refl
text-write (suc n) t a v m h = ground (arith, text-write n (t + 1) a v m)

text-safe_copy :
    (k s t : ℕ) (m : Memory) → Apart s t (k + 1) → text (safe_copy k s t m) s (suc k) ≡ text m t k
unfolding safe_copy
text-safe_copy zero s t m h = ground arith
text-safe_copy (suc k) s t m h = ground (
  arith,
  text-safe_copy k (s + 1) (t + 1) (write m s (m t)),
  safe_copy_outside k (s + 1) (t + 1) (write m s (m t)) s,
  text-write k (t + 1) s (m t) m,
)

safestrcpy_outside :
    (n s t : ℕ) (m : Memory) (a : ℕ) → (a < s) ⊎ (s + n ≤ a) → safestrcpy m s t n a ≡ m a
unfolding safestrcpy
safestrcpy_outside zero s t m a h = refl
safestrcpy_outside (suc n) s t m a h = safe_copy_outside n s t m a (omega arith)

-- `safestrcpy` leaves at `s` the string of `t`, cut to `n - 1` bytes, so that its closing NUL lies
-- within the `n` bytes; outside of these it changes no address `a`. The two do not overlap, and `n`
-- is positive.
pub safestrcpy_lem :
    (n s t a : ℕ) (m : Memory)
    → 0 < n
    → Apart s t n
    → (text (safestrcpy m s t n) s n ≡ text m t (n - 1))
      × ((if in_range s n a then m a else safestrcpy m s t n a) ≡ m a)
unfolding safestrcpy
safestrcpy_lem zero s t a m p h = absurd (omega arith)
safestrcpy_lem (suc n) s t a m p h = (
  ground (arith, text-safe_copy n s t m (omega arith)),
  ground (arith, safe_copy_outside n s t m a),
)
