-- ===== src/Base/Bytes.antt =====
-- Byte memory: a function from addresses to bytes, with one-byte stores.
use Prim.Native.Nat.{ℕ, ◌+◌}
use mathlib.Core.Path.{◌≡◌}
use mathlib.Core.Logic.{◌≢◌}
use mathlib.Core.Bool.{Bool, ◌&&◌}
use native.Mathlib.Omega.{arith}
use osass.Base.Tests.{◌==◌, leb, ltb, if◌then◌else◌}

abbrev pub Memory : Type 0
Memory = ℕ → ℕ

-- `*a = v` of a byte.
abbrev pub write : Memory → ℕ → ℕ → Memory
write m a v x = if a == x then v else m x

-- Whether `x` is one of the `n` addresses from `a` on.
abbrev pub in_range : ℕ → ℕ → ℕ → Bool
in_range a n x = leb a x && ltb x (a + n)

pub write_self : (m : Memory) (a v : ℕ) → write m a v a ≡ v
write_self m a v = ground arith

pub write_ne : (m : Memory) (a v x : ℕ) → a ≢ x → write m a v x ≡ m x
write_ne m a v x h = ground arith
