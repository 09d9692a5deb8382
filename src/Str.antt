-- ===== src/Str.antt =====
-- string.c: the kernel's byte and string routines, over a byte memory. A pointer is an address,
-- which does not wrap. A routine that returns its first argument returns the memory here; one that
-- counts `n` down recurs on `n`.
pub mod Move
pub mod Compare
pub mod Copy
mod Tests
use osass.Base.{
  ℕ, zero, suc, ◌+◌, ◌*◌, ◌/◌, ◌%◌, ◌^◌, Bool, ◌&&◌, Memory, write, ltb, ◌==◌, if◌then◌else◌, not,
  Option, none, some,
}
use osass.Base.Int.{ℤ, pos, sub_ℕ}

-- `*d++ = *s++`, n times.
pub copy_up : ℕ → ℕ → ℕ → Memory → Memory
copy_up zero d s m = m
copy_up (suc n) d s m = copy_up n (d + 1) (s + 1) (write m d (m s))

-- `*--d = *--s`, n times, from `d + n` and `s + n` down.
pub copy_down : ℕ → ℕ → ℕ → Memory → Memory
copy_down zero d s m = m
copy_down (suc n) d s m = copy_down n d s (write m (d + n) (m (s + n)))

pub memmove : Memory → ℕ → ℕ → ℕ → Memory
memmove m dst src n =
    if ltb src dst && ltb dst (src + n) then copy_down n dst src m else copy_up n dst src m

pub memcpy : Memory → ℕ → ℕ → ℕ → Memory
unfolding memmove
memcpy m dst src n = memmove m dst src n

-- The string instruction `rep stosb`: the low byte of `c` to `cnt` addresses.
pub stosb : Memory → ℕ → ℕ → ℕ → Memory
stosb m addr c zero = m
stosb m addr c (suc cnt) = stosb (write m addr (c % 256)) (addr + 1) c cnt

-- A little-endian store of a 32-bit word.
pub write_word : Memory → ℕ → ℕ → Memory
write_word m a w =
    write (write (write (write m a (w % 256)) (a + 1) (w / 2 ^ 8 % 256)) (a + 2) (w / 2 ^ 16 % 256))
      (a + 3) (w / 2 ^ 24 % 256)

-- The string instruction `rep stosl`: a word to `cnt` consecutive words.
pub stosl : Memory → ℕ → ℕ → ℕ → Memory
stosl m addr w zero = m
stosl m addr w (suc cnt) = stosl (write_word m addr w) (addr + 4) w cnt

-- `(c<<24)|(c<<16)|(c<<8)|c` of a byte `c`: the four places do not overlap, so `|` adds.
pub fill_word : ℕ → ℕ
fill_word c = c * 2 ^ 24 + c * 2 ^ 16 + c * 2 ^ 8 + c

-- `c & 0xFF` is the remainder by 256.
pub memset : Memory → ℕ → ℕ → ℕ → Memory
memset m dst c n =
    if (dst % 4 == 0) && (n % 4 == 0)
    then stosl m dst (fill_word (c % 256)) (n / 4)
    else stosb m dst c n

-- `*s1 - *s2` of two `uchar`.
pub memcmp : Memory → ℕ → ℕ → ℕ → ℤ
memcmp m v1 v2 zero = pos 0
memcmp m v1 v2 (suc n) =
    let rest = memcmp m (v1 + 1) (v2 + 1) n in
    if not (m v1 == m v2) then sub_ℕ (m v1) (m v2) else rest

-- `n == 0` at the end gives 0; else the difference where the loop stopped.
pub strncmp : Memory → ℕ → ℕ → ℕ → ℤ
strncmp m p q zero = pos 0
strncmp m p q (suc n) =
    let rest = strncmp m (p + 1) (q + 1) n in
    if not (m p == 0) && (m p == m q) then rest else sub_ℕ (m p) (m q)

-- `while(n-- > 0) *s++ = 0;`
pub zero_fill : ℕ → ℕ → Memory → Memory
zero_fill zero s m = m
zero_fill (suc n) s m = zero_fill n (s + 1) (write m s 0)

-- The first loop of `strncpy` copies up to and with the NUL, the second pads with what is left of
-- `n`. At `n <= 0` neither loop runs.
pub strncpy : ℕ → ℕ → ℕ → Memory → Memory
strncpy zero s t m = m
strncpy (suc n) s t m =
    let rest = strncpy n (s + 1) (t + 1) (write m s (m t)) in
    if not (m t == 0) then rest else zero_fill n (s + 1) (write m s (m t))

-- `while(--n > 0 && (*s++ = *t++) != 0) ; *s = 0;` with `k = n - 1` rounds at most.
pub safe_copy : ℕ → ℕ → ℕ → Memory → Memory
safe_copy zero s t m = write m s 0
safe_copy (suc k) s t m =
    let rest = safe_copy k (s + 1) (t + 1) (write m s (m t)) in
    if not (m t == 0) then rest else write (write m s (m t)) (s + 1) 0

-- `n <= 0` returns at once.
pub safestrcpy : Memory → ℕ → ℕ → ℕ → Memory
safestrcpy m s t zero = m
safestrcpy m s t (suc n) = safe_copy n s t m

-- `for(n = 0; s[n]; n++)`: the loop has no bound, so it runs on fuel, and `none` is out of fuel.
pub strlen_from : ℕ → Memory → ℕ → ℕ → Option ℕ
strlen_from zero m s n = none
strlen_from (suc fuel) m s n =
    let rest = strlen_from fuel m s (n + 1) in if m (s + n) == 0 then some n else rest

pub strlen : ℕ → Memory → ℕ → Option ℕ
unfolding strlen_from
strlen fuel m s = strlen_from fuel m s 0
