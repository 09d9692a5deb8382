-- ===== src/Image/Bits.antt =====
-- fs.c: setting and clearing one bit of a byte, and of a block.
use Prim.Native.Nat.{bit_and, bit_or}
use osass.Base.{
  ℕ, zero, suc, ◌-◌, ◌/◌, ◌%◌, ◌^◌, ◌<◌, ◌≡◌, ◌≢◌, refl, sym, ap, ◌∙◌, Bool, true, false, not, ◌&&◌,
  ◌||◌, ◌==◌, ltb, ==→eq, Bool-cases, inl, inr, arith, Memory, write,
}
use osass.Image.{bit_set, set_bit, clear_bit}

all_below : ℕ → (ℕ → Bool) → Bool
all_below zero p = true
all_below (suc n) p = p n && all_below n p

all_below_lem : (n : ℕ) (p : ℕ → Bool) (x : ℕ) → all_below n p ≡ true → x < n → p x ≡ true
unfolding all_below
all_below_lem zero p x h l = absurd (omega arith)
all_below_lem (suc n) p x h l = ground (arith, all_below_lem n p x)

-- Over a byte and two places in it.
abbrev every : (ℕ → ℕ → ℕ → Bool) → Bool
every p = all_below 8 (λ k. all_below 8 (λ j. all_below 256 (λ x. p x k j)))

every_lem :
    (p : ℕ → ℕ → ℕ → Bool) (x k j : ℕ) → every p ≡ true → x < 256 → k < 8 → j < 8 → p x k j ≡ true
every_lem p x k j h a b c =
    all_below_lem 256 (λ x. p x k j) x
      (all_below_lem 8 (λ j. all_below 256 (λ x. p x k j)) j
        (all_below_lem 8 (λ k. all_below 8 (λ j. all_below 256 (λ x. p x k j))) k h b) c)
      a

abbrev bit : ℕ → ℕ → Bool
bit x k = not (bit_and x (2 ^ k) == 0)

abbrev same : Bool → Bool → Bool
same true b = b
same false b = not b

same_lem : (a b : Bool) → same a b ≡ true → a ≡ b
same_lem true b h = sym h
same_lem false true h = cc
same_lem false false h = refl

or_table : every (λ x k j. same (bit (bit_or x (2 ^ k)) j) ((k == j) || bit x j)) ≡ true
unfolding all_below
or_table = refl

and_table : every (λ x k j. same (bit (bit_and x (255 - 2 ^ k)) j) (not (k == j) && bit x j)) ≡ true
unfolding all_below
and_table = refl

byte_table : every (λ x k j. ltb (bit_or x (2 ^ k)) 256 && ltb (bit_and x (255 - 2 ^ k)) 256) ≡ true
unfolding all_below
byte_table = refl

set_bit_byte :
    (m : Memory) (bi bj : ℕ)
    → m (bi / 8) < 256
    → bi / 8 ≡ bj / 8
    → bit_set (set_bit m bi) bj ≡ ((bi % 8 == bj % 8) || bit_set m bj)
unfolding bit_set set_bit
set_bit_byte m bi bj h e =
    let t = same_lem _ _ (
      every_lem (λ x k j. same (bit (bit_or x (2 ^ k)) j) ((k == j) || bit x j)) (m (bi / 8))
        (bi % 8) (bj % 8) or_table h (omega arith) (omega arith)) in
    let here : write m (bi / 8) (bit_or (m (bi / 8)) (2 ^ (bi % 8))) (bj / 8)
        ≡ bit_or (m (bi / 8)) (2 ^ (bi % 8)) =
      ground arith in
    ap (λ v. bit v (bj % 8)) here ∙ t ∙ ap (λ i. (bi % 8 == bj % 8) || bit (m i) (bj % 8)) e

clear_bit_byte :
    (m : Memory) (bi bj : ℕ)
    → m (bi / 8) < 256
    → bi / 8 ≡ bj / 8
    → bit_set (clear_bit m bi) bj ≡ (not (bi % 8 == bj % 8) && bit_set m bj)
unfolding bit_set clear_bit
clear_bit_byte m bi bj h e =
    let t = same_lem _ _ (
      every_lem (λ x k j. same (bit (bit_and x (255 - 2 ^ k)) j) (not (k == j) && bit x j))
        (m (bi / 8)) (bi % 8) (bj % 8) and_table h (omega arith) (omega arith)) in
    let here : write m (bi / 8) (bit_and (m (bi / 8)) (255 - 2 ^ (bi % 8))) (bj / 8)
        ≡ bit_and (m (bi / 8)) (255 - 2 ^ (bi % 8)) =
      ground arith in
    ap (λ v. bit v (bj % 8)) here ∙ t ∙ ap (λ i. not (bi % 8 == bj % 8) && bit (m i) (bj % 8)) e

other_byte :
    (m : Memory) (bi bj v : ℕ) → bi / 8 ≢ bj / 8 → bit_set (write m (bi / 8) v) bj ≡ bit_set m bj
unfolding bit_set
other_byte m bi bj v n =
    let there : write m (bi / 8) v (bj / 8) ≡ m (bj / 8) = ground arith in
    ap (λ v. bit v (bj % 8)) there

-- Setting a bit sets it, and leaves the others.
pub bit_set-set_bit :
    (m : Memory) (bi bj : ℕ)
    → m (bi / 8) < 256
    → bit_set (set_bit m bi) bj ≡ ((bi == bj) || bit_set m bj)
unfolding set_bit
bit_set-set_bit m bi bj h = elim (Bool-cases (bi / 8 == bj / 8)) [
  | inl e ↦ set_bit_byte m bi bj h (==→eq _ _ e) ∙ ground (arith, e)
  | inr e ↦ other_byte m bi bj _ (ground (arith, e)) ∙ ground (arith, e)
]

-- So does clearing one.
pub bit_set-clear_bit :
    (m : Memory) (bi bj : ℕ)
    → m (bi / 8) < 256
    → bit_set (clear_bit m bi) bj ≡ (not (bi == bj) && bit_set m bj)
unfolding clear_bit
bit_set-clear_bit m bi bj h = elim (Bool-cases (bi / 8 == bj / 8)) [
  | inl e ↦ clear_bit_byte m bi bj h (==→eq _ _ e) ∙ ground (arith, e)
  | inr e ↦ other_byte m bi bj _ (ground (arith, e)) ∙ ground (arith, e)
]

bytes_lem : (x k : ℕ) → x < 256 → k < 8 → (bit_or x (2 ^ k) < 256) × (bit_and x (255 - 2 ^ k) < 256)
bytes_lem x k h l = ground (
  arith,
  every_lem (λ x k j. ltb (bit_or x (2 ^ k)) 256 && ltb (bit_and x (255 - 2 ^ k)) 256) x k 0
      byte_table h l (omega arith),
)

pub set_bit_bytes : (m : Memory) (bi x : ℕ) → ((i : ℕ) → m i < 256) → set_bit m bi x < 256
unfolding set_bit
set_bit_bytes m bi x h = ground (arith, bytes_lem (m (bi / 8)) (bi % 8), h (bi / 8), h x)

pub clear_bit_bytes : (m : Memory) (bi x : ℕ) → ((i : ℕ) → m i < 256) → clear_bit m bi x < 256
unfolding clear_bit
clear_bit_bytes m bi x h = ground (arith, bytes_lem (m (bi / 8)) (bi % 8), h (bi / 8), h x)
