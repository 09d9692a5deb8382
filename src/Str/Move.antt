-- ===== src/Str/Move.antt =====
-- string.c: `memmove` and `memset` against the memory that they promise.
use osass.Base.{
  ℕ, zero, suc, ◌+◌, ◌-◌, ◌*◌, ◌/◌, ◌%◌, ◌^◌, ◌≤◌, ◌<◌, ◌≡◌, ◌⊎◌, arith, Memory, write, in_range,
  if◌then◌else◌,
}
use osass.Str.{copy_up, copy_down, memmove, stosb, stosl, write_word, fill_word, memset}

-- The memory after `n` bytes have moved from `src` to `dst`.
abbrev pub moved : Memory → ℕ → ℕ → ℕ → Memory
moved m dst src n a = if in_range dst n a then m (src + (a - dst)) else m a

-- The memory after `n` bytes from `dst` on have been set to `c`.
abbrev pub filled : Memory → ℕ → ℕ → ℕ → Memory
filled m dst c n a = if in_range dst n a then c else m a

-- A copy upwards is right where the target lies below the source, or past its end.
copy_up-moved :
    (n d s : ℕ) (m : Memory) (a : ℕ) → (d ≤ s) ⊎ (s + n ≤ d) → copy_up n d s m a ≡ moved m d s n a
unfolding copy_up
copy_up-moved zero d s m a h = ground arith
copy_up-moved (suc n) d s m a h =
    ground (arith, copy_up-moved n (d + 1) (s + 1) (write m d (m s)) a)

-- A copy downwards is right where the target lies above the source.
copy_down-moved : (n d s : ℕ) (m : Memory) (a : ℕ) → s < d → copy_down n d s m a ≡ moved m d s n a
unfolding copy_down
copy_down-moved zero d s m a h = ground arith
copy_down-moved (suc n) d s m a h =
    ground (arith, copy_down-moved n d s (write m (d + n) (m (s + n))) a)

-- `memmove` leaves at the target the bytes that the source held before, however the two overlap,
-- and changes nothing else.
pub memmove-moved : (m : Memory) (dst src n a : ℕ) → memmove m dst src n a ≡ moved m dst src n a
unfolding memmove
memmove-moved m dst src n a =
    ground (arith, copy_up-moved n dst src m a, copy_down-moved n dst src m a)

stosb-filled : (n d c : ℕ) (m : Memory) (a : ℕ) → stosb m d c n a ≡ filled m d (c % 256) n a
unfolding stosb
stosb-filled zero d c m a = ground arith
stosb-filled (suc n) d c m a = ground (arith, stosb-filled n (d + 1) c (write m d (c % 256)) a)

-- The four bytes of the word that `memset` stores are the byte.
fill_word-bytes :
    (c : ℕ)
    → c < 256
    → (fill_word c % 256 ≡ c)
      × (fill_word c / 2 ^ 8 % 256 ≡ c)
      × (fill_word c / 2 ^ 16 % 256 ≡ c)
      × (fill_word c / 2 ^ 24 % 256 ≡ c)
unfolding fill_word
fill_word-bytes c h = omega arith

write_word-filled :
    (m : Memory) (d c a : ℕ) → c < 256 → write_word m d (fill_word c) a ≡ filled m d c 4 a
unfolding write_word
write_word-filled m d c a h = ground (arith, fill_word-bytes c h)

stosl-filled :
    (n d c : ℕ) (m : Memory) (a : ℕ)
    → c < 256
    → stosl m d (fill_word c) n a ≡ filled m d c (4 * n) a
unfolding stosl
stosl-filled zero d c m a h = ground arith
stosl-filled (suc n) d c m a h = ground (
  arith,
  stosl-filled n (d + 4) c (write_word m d (fill_word c)) a h,
  write_word-filled m d c a h,
)

-- `memset` sets exactly the `n` bytes from `dst` on to the low byte of `c`, whether it goes by
-- words or by bytes.
pub memset-filled : (m : Memory) (dst c n a : ℕ) → memset m dst c n a ≡ filled m dst (c % 256) n a
unfolding memset
memset-filled m dst c n a =
    ground (arith, stosb-filled n dst c m a, stosl-filled (n / 4) dst (c % 256) m a (omega arith))
