-- ===== src/Console/Ring.antt =====
-- console.c: the bytes of the input buffer between two of its indices.
use osass.Base.{
  ℕ, zero, suc, ◌+◌, ◌-◌, ◌%◌, ◌≤◌, ◌<◌, ◌≡◌, refl, ap, ◌∙◌, arith, List, [], ◌∷◌, ◌++◌, Memory,
  write, length,
}
use osass.Pipe.{u32}
use osass.Console.{Input, input_buf}

-- The `n` bytes from index `h` on.
abbrev pub segment : Memory → ℕ → ℕ → List ℕ
segment m h zero = []
segment m h (suc n) = m (h % input_buf) ∷ segment m ((h + 1) % u32) n

-- The distance between two indices.
abbrev pub span : ℕ → ℕ → ℕ
span a b = (b + u32 - a) % u32

-- The bytes that may be read, and the line that is still being edited.
abbrev pub ready : Input → List ℕ
ready s = segment s.buf s.r (span s.r s.w)

abbrev pub line : Input → List ℕ
line s = segment s.buf s.w (span s.w s.e)

pub length-segment : (m : Memory) (h n : ℕ) → length (segment m h n) ≡ n
length-segment m h zero = refl
length-segment m h (suc n) = ap suc (length-segment m ((h + 1) % u32) n)

pub segment-suc :
    (n : ℕ) (m : Memory) (h : ℕ)
    → h < u32
    → n < u32
    → segment m h (suc n) ≡ segment m h n ++ (m ((h + n) % u32 % input_buf) ∷ [])
segment-suc zero m h hh hn = ground arith
segment-suc (suc n) m h hh hn = ground (arith, segment-suc n m ((h + 1) % u32))

-- A store outside of a segment does not change it.
pub segment-write :
    (n : ℕ) (m : Memory) (h i b : ℕ)
    → h < u32
    → i < u32
    → n ≤ span h i
    → span h i < input_buf
    → segment (write m (i % input_buf) b) h n ≡ segment m h n
segment-write zero m h i b hh hi a c = refl
segment-write (suc n) m h i b hh hi a c = ground (arith, segment-write n m ((h + 1) % u32) i b)

-- Two segments that follow each other.
pub segment-add :
    (k n : ℕ) (m : Memory) (h : ℕ)
    → h < u32
    → k < u32
    → segment m h (k + n) ≡ segment m h k ++ segment m ((h + k) % u32) n
segment-add zero n m h hh hk = ground arith
segment-add (suc k) n m h hh hk =
    let join : suc k + n ≡ suc (k + n) = omega arith in
    let next : ((h + 1) % u32 + k) % u32 ≡ (h + suc k) % u32 = omega arith in
    ap (segment m h) join
    ∙ ap (λ l. m (h % input_buf) ∷ l)
        (segment-add k n m ((h + 1) % u32) (omega arith) (omega arith)
          ∙ ap (λ x. segment m ((h + 1) % u32) k ++ segment m x n) next)
