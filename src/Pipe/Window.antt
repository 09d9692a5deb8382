-- ===== src/Pipe/Window.antt =====
-- pipe.c: the queue of bytes that a pipe holds, with counters that wrap at 2 ^ 32.
use osass.Base.{
  ℕ, zero, suc, ◌+◌, ◌-◌, ◌%◌, ◌≤◌, ◌<◌, ◌≡◌, refl, ap, arith, List, [], ◌∷◌, ◌++◌, ◌==◌, Memory,
  write, length,
}
use osass.Pipe.{Pipe, pipe_size, u32, is_full, is_empty, put, get}

-- The `n` bytes from counter `h` on.
abbrev pub window : Memory → ℕ → ℕ → List ℕ
window m h zero = []
window m h (suc n) = m (h % pipe_size) ∷ window m ((h + 1) % u32) n

-- `nwrite - nread`, as a `uint`.
abbrev pub count : Pipe → ℕ
count p = (p.nwrite + u32 - p.nread) % u32

abbrev pub contents : Pipe → List ℕ
contents p = window p.bytes p.nread (count p)

pub record IsValid (p : Pipe) : Type 0 where
  pub nread_in : p.nread < u32
  pub nwrite_in : p.nwrite < u32
  pub bounded : count p ≤ pipe_size

length-window : (m : Memory) (h n : ℕ) → length (window m h n) ≡ n
length-window m h zero = refl
length-window m h (suc n) = ap suc (length-window m ((h + 1) % u32) n)

pub length-contents : (p : Pipe) → length (contents p) ≡ count p
length-contents p = length-window p.bytes p.nread (count p)

-- A store just past a window extends it, up to the size of the ring.
window-write :
    (n : ℕ) (m : Memory) (h b i : ℕ)
    → h < u32
    → n < pipe_size
    → i ≡ (h + n) % u32
    → window (write m (i % pipe_size) b) h (suc n) ≡ window m h n ++ (b ∷ [])
window-write zero m h b i hh hn e = ground arith
window-write (suc n) m h b i hh hn e = ground (arith, window-write n m ((h + 1) % u32) b i)

pub full_iff : (p : Pipe) → IsValid p → is_full p ≡ (count p == pipe_size)
full_iff p v = ground arith

pub empty_iff : (p : Pipe) → IsValid p → is_empty p ≡ (count p == 0)
empty_iff p v = ground arith

-- `put` appends a byte to the queue of a pipe that is not full.
pub contents-put :
    (p : Pipe) (b : ℕ)
    → IsValid p
    → count p < pipe_size
    → (contents (put p b) ≡ contents p ++ (b ∷ []))
      × (count (put p b) ≡ count p + 1)
      × IsValid (put p b)
unfolding put
contents-put p b v h =
    let e : count (put p b) ≡ suc (count p) = omega arith in
    (
      rw e (window-write (count p) p.bytes p.nread b p.nwrite v.nread_in h (omega arith)),
      omega arith,
      omega arith,
    )

window_of_pos :
    (m : Memory) (h n : ℕ)
    → 0 < n
    → window m h n ≡ m (h % pipe_size) ∷ window m ((h + 1) % u32) (n - 1)
window_of_pos m h zero p = absurd (omega arith)
window_of_pos m h (suc n) p = ap (λ k. window m h (suc k)) (omega arith)

-- `get` splits off the oldest byte of a pipe that is not empty.
pub contents-get :
    (p : Pipe)
    → IsValid p
    → 0 < count p
    → (contents p ≡ (get p).0 ∷ contents (get p).1)
      × (count (get p).1 ≡ count p - 1)
      × IsValid (get p).1
unfolding get
contents-get p v h =
    let e : count (get p).1 ≡ count p - 1 = omega arith in
    (rw e (window_of_pos p.bytes p.nread (count p) h), omega arith, omega arith)
