-- ===== src/Programs/Counting.antt =====
-- wc.c: the counts do not depend on how the input comes in.
use osass.Base.{
  ℕ, ◌+◌, ◌%◌, ◌^◌, ◌<◌, ◌&&◌, ◌||◌, Bool-cases, inl, inr, ◌≡◌, refl, sym, ◌∙◌, arith, Bool, false,
  not, ◌==◌, if◌then◌else◌, List, [], ◌∷◌, ◌++◌, length,
}
use osass.Programs.{
  Counts, strchr, blanks, count_byte, count_buffer, count_reads, prints, read_error, wc,
}

abbrev pub concat : List (List ℕ) → List ℕ
concat [] = []
concat (b ∷ bs) = b ++ concat bs

abbrev pub newlines : List ℕ → ℕ
newlines [] = 0
newlines (b ∷ bs) = (if b == 10 then 1 else 0) + newlines bs

-- A blank, in words of its own.
abbrev pub is_space : ℕ → Bool
is_space b = (b == 32) || ((b == 9) || ((b == 10) || ((b == 11) || (b == 13))))

-- The words that begin in the text, where the byte `a` is before it: the bytes that are no blanks and stand
-- behind one.
abbrev pub words : ℕ → List ℕ → ℕ
words a [] = 0
words a (b ∷ bs) = (if is_space a && not (is_space b) then 1 else 0) + words b bs

-- The counters fit, and `inword` is whether the byte before is no blank.
abbrev After : ℕ → Counts → Type 0
After a k = (k.l < 2 ^ 32) × (k.w < 2 ^ 32) × (k.c < 2 ^ 32) × (k.inword ≡ not (is_space a))

abbrev pub Counted : ℕ → List ℕ → Counts → Counts → Type 0
Counted a bs k m =
    (m.l ≡ (k.l + newlines bs) % 2 ^ 32)
    × (m.w ≡ (k.w + words a bs) % 2 ^ 32)
    × (m.c ≡ (k.c + length bs) % 2 ^ 32)

count_buffer-append :
    (xs bs : List ℕ) (k : Counts) → count_buffer (xs ++ bs) k ≡ count_buffer bs (count_buffer xs k)
unfolding count_buffer
count_buffer-append [] bs k = refl
count_buffer-append (x ∷ xs) bs k = count_buffer-append xs bs (count_byte x k)

count_reads_lem :
    (bufs : List (List ℕ)) (k : Counts) → count_reads bufs k ≡ count_buffer (concat bufs) k
unfolding count_reads count_buffer
count_reads_lem [] k = refl
count_reads_lem (b ∷ bs) k =
    count_reads_lem bs (count_buffer b k) ∙ sym (count_buffer-append b (concat bs) k)

blanks-is_space : (b : ℕ) → strchr blanks b ≡ is_space b
unfolding strchr
blanks-is_space b = ground arith

count_byte_lem :
    (a b : ℕ) (k : Counts)
    → After a k
    → After b (count_byte b k)
      × ((count_byte b k).l ≡ (k.l + (if b == 10 then 1 else 0)) % 2 ^ 32)
      × ((count_byte b k).c ≡ (k.c + 1) % 2 ^ 32)
      × ((count_byte b k).w ≡ (k.w + (if is_space a && not (is_space b) then 1 else 0)) % 2 ^ 32)
unfolding count_byte
count_byte_lem a b k (l, w, c, i) = elim (Bool-cases (is_space b)) [
  | inl e ↦
      rw (blanks-is_space b, e)
        ((ground arith, ground arith, omega arith, refl), ground arith, refl, ground arith)
  | inr e ↦ rw (blanks-is_space b, e) (ground (arith, e, i))
]

count_buffer-Counted :
    (bs : List ℕ) (a : ℕ) (k : Counts) → After a k → Counted a bs k (count_buffer bs k)
unfolding count_buffer
count_buffer-Counted [] a k (l, w, c, i) = (omega arith, omega arith, omega arith)
count_buffer-Counted (b ∷ bs) a k h =
    let (n, l, c, w) = count_byte_lem a b k h in
    let (x, y, z) = count_buffer-Counted bs b (count_byte b k) n in
    (omega (arith, x, l), omega (arith, y, w), omega (arith, z, c))

-- Unless a read fails, `wc` prints the numbers of the newlines, of the words and of the bytes of the whole
-- input, in whatever pieces it is read, each modulo 2 ^ 32. A word is a byte that is no blank, at the
-- start or behind a blank, with all up to the next blank.
pub wc_counts :
    (bufs : List (List ℕ)) (failed : Bool)
    → wc bufs failed ≡ (
        if failed
        then read_error
        else prints
            (newlines (concat bufs) % 2 ^ 32)
            (words 32 (concat bufs) % 2 ^ 32)
            (length (concat bufs) % 2 ^ 32))
unfolding wc
wc_counts bufs failed =
    let k : Counts = record { l = 0; w = 0; c = 0; inword = false } in
    let e = count_reads_lem bufs k in
    let (x, y, z) =
      count_buffer-Counted (concat bufs) 32 k (omega arith, omega arith, omega arith, refl) in
    let whole : (n : ℕ) → (0 + n) % 2 ^ 32 ≡ n % 2 ^ 32 = λ n. omega arith in
    rw
      (
        e,
        x ∙ whole (newlines (concat bufs)),
        y ∙ whole (words 32 (concat bufs)),
        z ∙ whole (length (concat bufs)),
      )
      refl
