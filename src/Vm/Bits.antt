-- ===== src/Vm/Bits.antt =====
-- vm.c: the flags of an entry, put together with `|`.
use Prim.Native.Nat.{bit_or, digits, bit_or-bitwise}
use osass.Base.{ℕ, zero, suc, ◌+◌, ◌*◌, ◌/◌, ◌%◌, ◌^◌, ◌≤◌, ◌<◌, ◌≡◌, refl, max, arith}

abbrev or_digits : ℕ → ℕ → ℕ → ℕ
or_digits n a b = digits (λ b. b) max n a b

or_digits_fuel : (n m a b : ℕ) → a ≤ n → a ≤ m → or_digits n a b ≡ or_digits m a b
or_digits_fuel zero zero a b p q = refl
or_digits_fuel zero (suc m) zero b p q = refl
or_digits_fuel zero (suc m) (suc a) b p q = absurd (omega arith)
or_digits_fuel (suc n) zero zero b p q = refl
or_digits_fuel (suc n) zero (suc a) b p q = absurd (omega arith)
or_digits_fuel (suc n) (suc m) zero b p q = refl
or_digits_fuel (suc n) (suc m) (suc a) b p q =
    omega (arith, or_digits_fuel n m (suc a / 2) (b / 2) (omega arith) (omega arith))

zero-bit_or : (b : ℕ) → bit_or 0 b ≡ b
zero-bit_or b = bit_or-bitwise 0 b

-- The lowest digit, and the others.
bit_or_step : (a b : ℕ) → bit_or a b ≡ bit_or (a / 2) (b / 2) * 2 + max (a % 2) (b % 2)
bit_or_step zero b = omega (arith, zero-bit_or b, zero-bit_or (b / 2))
bit_or_step (suc a) b = omega (
  arith,
  bit_or-bitwise (suc a) b,
  bit_or-bitwise (suc a / 2) (b / 2),
  or_digits_fuel a (suc a / 2) (suc a / 2) (b / 2) (omega arith) (omega arith),
)

bit_or-zero_fuel : (n a : ℕ) → a ≤ n → bit_or a 0 ≡ a
bit_or-zero_fuel n zero h = refl
bit_or-zero_fuel zero (suc a) h = absurd (omega arith)
bit_or-zero_fuel (suc n) (suc a) h =
    omega (arith, bit_or_step (suc a) 0, bit_or-zero_fuel n (suc a / 2) (omega arith))

-- The lowest `n` digits of `a` are 0, and `b` has no others.
abbrev Disjoint : ℕ → ℕ → ℕ → Type 0
Disjoint zero a b = b ≡ 0
Disjoint (suc n) a b = (a % 2 ≡ 0) × Disjoint n (a / 2) (b / 2)

bit_or-Disjoint : (n a b : ℕ) → Disjoint n a b → bit_or a b ≡ a + b
bit_or-Disjoint zero a b h = rw h (omega (arith, bit_or-zero_fuel a a (omega arith)))
bit_or-Disjoint (suc n) a b (e, h) =
    omega (arith, e, bit_or_step a b, bit_or-Disjoint n (a / 2) (b / 2) h)

-- An address of a page and flags.
bit_or_page : (a b : ℕ) → a % 4096 ≡ 0 → b < 4096 → bit_or a b ≡ a + b
bit_or_page a b h l = bit_or-Disjoint 12 a b (ground arith)

pub entry_bound : (a b : ℕ) → a % 4096 ≡ 0 → b < 4096 → a < 2 ^ 32 → bit_or (bit_or a b) 1 < 2 ^ 32
entry_bound a b h l m = omega (
  arith,
  bit_or_page a b h l,
  bit_or-zero_fuel (bit_or a b / 2) (bit_or a b / 2),
  bit_or_step (bit_or a b) 1,
)

pub bit_or_one : (a : ℕ) → bit_or a 1 ≡ a / 2 * 2 + 1
bit_or_one a = omega (arith, bit_or_step a 1, bit_or-zero_fuel (a / 2) (a / 2) (omega arith))

bit_or_two : (a : ℕ) → bit_or a 2 ≡ a / 4 * 4 + 2 + a % 2
bit_or_two a = omega (arith, bit_or_step a 2, bit_or_one (a / 2))

bit_or_four : (a : ℕ) → bit_or a 4 ≡ a / 8 * 8 + 4 + a % 4
bit_or_four a = omega (arith, bit_or_step a 4, bit_or_two (a / 2))

-- The entry of a page table in the directory.
pub table_flags : (a : ℕ) → a % 4096 ≡ 0 → bit_or (bit_or (bit_or a 1) 2) 4 ≡ a + 7
table_flags a h =
    omega (arith, bit_or_one a, bit_or_two (bit_or a 1), bit_or_four (bit_or (bit_or a 1) 2), h)
