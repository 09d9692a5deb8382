-- ===== src/Str/Compare.antt =====
-- string.c: `strncmp`, `memcmp` and `strlen` against the byte lists that they compare and measure.
use osass.Base.{
  ℕ, zero, suc, ◌+◌, ◌<◌, ◌≡◌, ◌≢◌, ◌↔◌, refl, subst, arith, Memory, ◌==◌, if◌then◌else◌, List, [],
  ◌∷◌, some,
}
use osass.Base.Int.{pos, sub_ℕ-eq_zero}
use osass.Str.{memcmp, strncmp, strlen, strlen_from}

-- The bytes of the string at `p`, its first `n` at most, without the NUL.
abbrev pub text : Memory → ℕ → ℕ → List ℕ
text m p zero = []
text m p (suc n) = if m p == 0 then [] else m p ∷ text m (p + 1) n

-- The `n` bytes at `p`.
abbrev pub bytes : Memory → ℕ → ℕ → List ℕ
bytes m p zero = []
bytes m p (suc n) = m p ∷ bytes m (p + 1) n

strncmp→text : (n : ℕ) (m : Memory) (p q : ℕ) → strncmp m p q n ≡ pos 0 → text m p n ≡ text m q n
unfolding strncmp
strncmp→text zero m p q h = refl
strncmp→text (suc n) m p q h =
    ground (arith, strncmp→text n m (p + 1) (q + 1), sub_ℕ-eq_zero (m p) (m q))

text→strncmp : (n : ℕ) (m : Memory) (p q : ℕ) → text m p n ≡ text m q n → strncmp m p q n ≡ pos 0
unfolding strncmp
text→strncmp zero m p q h = refl
text→strncmp (suc n) m p q h = ground (arith, text→strncmp n m (p + 1) (q + 1))

-- `strncmp` answers 0 exactly when the two strings agree up to their first `n` bytes.
pub strncmp_iff : (m : Memory) (p q n : ℕ) → (strncmp m p q n ≡ pos 0) ↔ (text m p n ≡ text m q n)
strncmp_iff m p q n = (strncmp→text n m p q, text→strncmp n m p q)

memcmp→bytes : (n : ℕ) (m : Memory) (p q : ℕ) → memcmp m p q n ≡ pos 0 → bytes m p n ≡ bytes m q n
unfolding memcmp
memcmp→bytes zero m p q h = refl
memcmp→bytes (suc n) m p q h =
    ground (arith, memcmp→bytes n m (p + 1) (q + 1), sub_ℕ-eq_zero (m p) (m q))

bytes→memcmp : (n : ℕ) (m : Memory) (p q : ℕ) → bytes m p n ≡ bytes m q n → memcmp m p q n ≡ pos 0
unfolding memcmp
bytes→memcmp zero m p q h = refl
bytes→memcmp (suc n) m p q h = ground (arith, bytes→memcmp n m (p + 1) (q + 1))

-- `memcmp` answers 0 exactly when the two runs of `n` bytes are equal.
pub memcmp_iff : (m : Memory) (p q n : ℕ) → (memcmp m p q n ≡ pos 0) ↔ (bytes m p n ≡ bytes m q n)
memcmp_iff m p q n = (memcmp→bytes n m p q, bytes→memcmp n m p q)

-- No byte of the string at `s` is NUL before index `k`.
abbrev pub NonzeroBelow : Memory → ℕ → ℕ → Type 0
NonzeroBelow m s k = (i : ℕ) → i < k → m (s + i) ≢ 0

strlen_from_lem :
    (fuel : ℕ) (m : Memory) (s n k : ℕ)
    → k < fuel
    → m (s + n + k) ≡ 0
    → ((i : ℕ) → i < k → m (s + n + i) ≢ 0)
    → strlen_from fuel m s n ≡ some (n + k)
unfolding strlen_from
strlen_from_lem zero m s n k h e ne = absurd (omega arith)
strlen_from_lem (suc fuel) m s n zero h e ne = ground arith
strlen_from_lem (suc fuel) m s n (suc k) h e ne = ground (
  arith,
  ne 0 (omega arith),
  strlen_from_lem fuel m s (n + 1) k (omega arith) (subst (λ x. m x ≡ 0) (omega arith) e)
      (λ i p. subst (λ x. m x ≢ 0) (omega arith) (ne (suc i) (omega arith))),
)

-- `strlen` gives the index of the first NUL, on any fuel above it.
pub strlen_lem :
    (fuel : ℕ) (m : Memory) (s k : ℕ)
    → k < fuel
    → m (s + k) ≡ 0
    → NonzeroBelow m s k
    → strlen fuel m s ≡ some k
unfolding strlen
strlen_lem fuel m s k h e ne = ground (
  arith,
  strlen_from_lem fuel m s 0 k h (subst (λ x. m x ≡ 0) (omega arith) e)
      (λ i p. subst (λ x. m x ≢ 0) (omega arith) (ne i p)),
)
