-- ===== src/Programs/Digits.antt =====
-- printf.c and ulib.c: `atoi` reads what `printint` writes.
use osass.Base.{
  ℕ, zero, suc, ◌+◌, ◌-◌, ◌*◌, ◌/◌, ◌%◌, ◌^◌, ◌≤◌, ◌<◌, ◌≡◌, ap, ◌∙◌, arith, Bool, Bool-cases, inl,
  inr, ◌&&◌, ◌==◌, leb, List, [], ◌∷◌, length,
}
use osass.Pipe.{u32}
use osass.Programs.{digit, digits_of, printint, atoi_from, atoi}

atoi_step :
    (n d : ℕ) (buf : List ℕ) → d < 10 → atoi_from n (digit d ∷ buf) ≡ atoi_from (n * 10 + d) buf
unfolding atoi_from
atoi_step n d buf h =
    let c : digit d ≡ 48 + d = ground arith in
    let e : n * 10 + (48 + d) - 48 ≡ n * 10 + d = omega arith in
    ap (λ k. atoi_from n (k ∷ buf)) c ∙ ground (arith, ap (λ k. atoi_from k buf) e)

positive_fuel : (fuel x : ℕ) → x < 10 ^ suc fuel → 9 < x → 0 < fuel
positive_fuel zero x h p = absurd (omega arith)
positive_fuel (suc fuel) x h p = omega arith

-- Reading the digits of `x` in base 10 goes on with the value `x`, if the fuel is enough.
atoi_from-digits_of :
    (fuel x : ℕ) (buf : List ℕ)
    → x < 10 ^ fuel
    → 0 < fuel
    → atoi_from 0 (digits_of fuel 10 x buf) ≡ atoi_from x buf
unfolding digits_of
atoi_from-digits_of zero x buf h p = absurd (omega arith)
atoi_from-digits_of (suc fuel) x buf h p =
    let whole : x / 10 * 10 + x % 10 ≡ x = omega arith in
    elim (Bool-cases (x / 10 == 0)) [
      | inl e ↦
          let small : 0 * 10 + x % 10 ≡ x = ground (arith, e) in
          rw e (atoi_step 0 (x % 10) buf (omega arith) ∙ ap (λ n. atoi_from n buf) small)
      | inr e ↦
          let more : 0 < fuel = positive_fuel fuel x h (ground (arith, e)) in
          rw e (
            atoi_from-digits_of fuel (x / 10) (digit (x % 10) ∷ buf) (omega arith) more
            ∙ atoi_step (x / 10) (x % 10) buf (omega arith)
            ∙ ap (λ n. atoi_from n buf) whole)
    ]

-- `atoi` reads back the decimal that `printint` writes for a number below 2 ^ 31.
pub atoi-printint : (x : ℕ) (sgn : Bool) → x < 2 ^ 31 → atoi (printint x 10 sgn) ≡ x
unfolding atoi printint atoi_from
atoi-printint x sgn h = elim (Bool-cases (sgn && leb (2 ^ 31) x)) [
  | inl e ↦ absurd (ground (arith, e))
  | inr e ↦ rw e (atoi_from-digits_of 32 x [] (omega arith) (omega arith))
]

-- `x` has at most `k` digits.
abbrev Fits : ℕ → ℕ → ℕ → Type 0
Fits base zero x = x ≡ 0
Fits base (suc k) x = Fits base k (x / base)

length-digits_of :
    (k fuel base x : ℕ) (buf : List ℕ)
    → 0 < k
    → Fits base k x
    → length (digits_of fuel base x buf) ≤ k + length buf
unfolding digits_of
length-digits_of k zero base x buf p h = omega arith
length-digits_of zero (suc fuel) base x buf p h = absurd (omega arith)
length-digits_of (suc zero) (suc fuel) base x buf p h = ground (arith, h)
length-digits_of (suc (suc k)) (suc fuel) base x buf p h =
    ground (arith, length-digits_of (suc k) fuel base (x / base) (digit (x % base) ∷ buf))

-- `printint` writes at most 11 bytes, inside of its buffer of 16, in the two bases that `printf` uses.
pub length-printint :
    (xx : ℕ) (sgn : Bool)
    → xx < u32
    → (length (printint xx 10 sgn) ≤ 11) × (length (printint xx 16 sgn) ≤ 9)
unfolding printint
length-printint xx sgn h =
    let y = (u32 - xx) % u32 in
    (
      ground (
        arith,
        length-digits_of 10 32 10 xx [] (omega arith) (omega arith),
        length-digits_of 10 32 10 y [] (omega arith) (omega arith),
      ),
      ground (
        arith,
        length-digits_of 8 32 16 xx [] (omega arith) (omega arith),
        length-digits_of 8 32 16 y [] (omega arith) (omega arith),
      ),
    )
