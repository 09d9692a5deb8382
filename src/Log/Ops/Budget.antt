-- ===== src/Log/Ops/Budget.antt =====
-- log.c: lists of how many blocks each operation may still log.
use osass.Base.{
  ℕ, zero, suc, ◌+◌, ◌*◌, ◌≤◌, ◌<◌, ◌≡◌, refl, arith, some, List, [], ◌∷◌, ◌++◌, length, get_elem?,
  set,
}
use osass.Log.{max_op_blocks}

abbrev pub sum : List ℕ → ℕ
sum [] = 0
sum (x ∷ xs) = x + sum xs

abbrev pub Limited : List ℕ → Type 0
Limited [] = Unit
Limited (x ∷ xs) = (x ≤ max_op_blocks) × Limited xs

pub sum-le : (xs : List ℕ) → Limited xs → sum xs ≤ length xs * max_op_blocks
sum-le [] l = omega arith
sum-le (x ∷ xs) l = omega (arith, sum-le xs l.1)

pub sum-set :
    (xs : List ℕ) (i k : ℕ) → get_elem? xs i ≡ some (suc k) → (sum (set xs i k) + 1 ≡ sum xs)
sum-set [] i k h = absurd (cc)
sum-set (x ∷ xs) zero k h = ground arith
sum-set (x ∷ xs) (suc i) k h = omega (arith, sum-set xs i k h)

pub Limited-set :
    (xs : List ℕ) (i k : ℕ) → get_elem? xs i ≡ some (suc k) → Limited xs → Limited (set xs i k)
Limited-set [] i k h l = tt
Limited-set (x ∷ xs) zero k h l = ground arith
Limited-set (x ∷ xs) (suc i) k h l = (l.0, Limited-set xs i k h l.1)

pub sum-remove : (xs ys : List ℕ) (k : ℕ) → sum (xs ++ ys) + k ≡ sum (xs ++ k ∷ ys)
sum-remove [] ys k = omega arith
sum-remove (x ∷ xs) ys k = omega (arith, sum-remove xs ys k)

pub Limited-remove : (xs ys : List ℕ) (k : ℕ) → Limited (xs ++ k ∷ ys) → Limited (xs ++ ys)
Limited-remove [] ys k l = l.1
Limited-remove (x ∷ xs) ys k l = (l.0, Limited-remove xs ys k l.1)

pub length-remove : (xs ys : List ℕ) (k : ℕ) → length (xs ++ k ∷ ys) ≡ length (xs ++ ys) + 1
length-remove [] ys k = omega arith
length-remove (x ∷ xs) ys k = omega (arith, length-remove xs ys k)

pub length_zero : (xs : List ℕ) → length xs ≡ 0 → xs ≡ []
length_zero [] h = refl
length_zero (x ∷ xs) h = absurd (omega arith)

pub sum-ge : (xs : List ℕ) (i k : ℕ) → get_elem? xs i ≡ some k → (k ≤ sum xs) × (0 < length xs)
sum-ge [] i k h = absurd (cc)
sum-ge (x ∷ xs) zero k h = ground arith
sum-ge (x ∷ xs) (suc i) k h = omega (arith, sum-ge xs i k h)
