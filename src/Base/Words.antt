-- ===== src/Base/Words.antt =====
-- Little-endian 16-bit and 32-bit words in byte memory, as a C structure of `short` and `int` fields reads them from a
-- buffer.
use Prim.Native.Nat.{ℕ, ◌+◌, ◌*◌, ◌/◌, ◌%◌, ◌^◌, ◌≤◌, ◌<◌}
use mathlib.Core.Path.{◌≡◌}
use mathlib.Core.Logic.{◌⊎◌}
use native.Mathlib.Omega.{arith}
use osass.Base.Bytes.{Memory, write}

unfoldable pub get32 : Memory → ℕ → ℕ
get32 m o = m o + m (o + 1) * 2 ^ 8 + m (o + 2) * 2 ^ 16 + m (o + 3) * 2 ^ 24

unfoldable pub put32 : Memory → ℕ → ℕ → Memory
put32 m o v =
    write (write (write (write m o (v % 256)) (o + 1) (v / 2 ^ 8 % 256)) (o + 2) (v / 2 ^ 16 % 256))
      (o + 3) (v / 2 ^ 24 % 256)

pub get32-put32_self : (m : Memory) (o v : ℕ) → v < 2 ^ 32 → get32 (put32 m o v) o ≡ v
unfolding get32 put32
get32-put32_self m o v h = ground arith

pub get32-put32_apart :
    (m : Memory) (o p v : ℕ) → (p + 4 ≤ o) ⊎ (o + 4 ≤ p) → get32 (put32 m o v) p ≡ get32 m p
unfolding get32 put32
get32-put32_apart m o p v h = ground arith

unfoldable pub get16 : Memory → ℕ → ℕ
get16 m o = m o + m (o + 1) * 2 ^ 8

unfoldable pub put16 : Memory → ℕ → ℕ → Memory
put16 m o v = write (write m o (v % 256)) (o + 1) (v / 2 ^ 8 % 256)

pub get16-put16_self : (m : Memory) (o v : ℕ) → v < 2 ^ 16 → get16 (put16 m o v) o ≡ v
unfolding get16 put16
get16-put16_self m o v h = ground arith

pub get16-put16_apart :
    (m : Memory) (o p v : ℕ) → (p + 2 ≤ o) ⊎ (o + 2 ≤ p) → get16 (put16 m o v) p ≡ get16 m p
unfolding get16 put16
get16-put16_apart m o p v h = ground arith

pub get16-put32_apart :
    (m : Memory) (o p v : ℕ) → (p + 2 ≤ o) ⊎ (o + 4 ≤ p) → get16 (put32 m o v) p ≡ get16 m p
unfolding get16 put32
get16-put32_apart m o p v h = ground arith

pub get32-put16_apart :
    (m : Memory) (o p v : ℕ) → (p + 4 ≤ o) ⊎ (o + 2 ≤ p) → get32 (put16 m o v) p ≡ get32 m p
unfolding get32 put16
get32-put16_apart m o p v h = ground arith

pub put32_outside : (m : Memory) (o v x : ℕ) → (x < o) ⊎ (o + 4 ≤ x) → put32 m o v x ≡ m x
unfolding put32
put32_outside m o v x h = ground arith

pub put32_bytes : (m : Memory) (o v x : ℕ) → m x < 256 → put32 m o v x < 256
unfolding put32
put32_bytes m o v x h = ground arith

pub get32_bound : (m : Memory) (o : ℕ) → ((i : ℕ) → m i < 256) → get32 m o < 2 ^ 32
unfolding get32
get32_bound m o h = omega (arith, h o, h (o + 1), h (o + 2), h (o + 3))

pub put16_bytes : (m : Memory) (o v x : ℕ) → m x < 256 → put16 m o v x < 256
unfolding put16
put16_bytes m o v x h = ground arith
