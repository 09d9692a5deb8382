-- ===== src/Programs/Tests.antt =====
-- Runs of the programs, and their theorems at concrete inputs.
use osass.Base.{◌%◌, ◌^◌, ℕ, ◌≡◌, refl, arith, false, true, List, [], ◌∷◌, length}
use osass.Programs.{
  digits_of, printint, convert, print_from, printf, atoi, strchr, count_byte, count_buffer,
  count_reads, prints, wc, star, single, matchhere, anywhere, match,
}
use osass.Programs.Digits.{atoi-printint}
use osass.Programs.Counting.{newlines, words, concat, wc_counts}
use osass.Programs.Matching.{Found, match_correct}

-- "%d;" of -12
printf_negative : printf (λ a. []) (λ i. 4294967284) (37 ∷ 100 ∷ 59 ∷ []) ≡ 45 ∷ 49 ∷ 50 ∷ 59 ∷ []
unfolding printf print_from convert printint digits_of
printf_negative = refl

atoi-printint_example : atoi (printint 1234 10 true) ≡ 1234
atoi-printint_example = atoi-printint 1234 true (omega arith)

-- "a b" and "c" and a newline, in two reads.
abbrev input : List (List ℕ)
input = (97 ∷ 32 ∷ 98 ∷ []) ∷ (99 ∷ 10 ∷ []) ∷ []

wc_input : wc input false ≡ prints 1 2 5
unfolding wc count_reads count_buffer count_byte strchr
wc_input = refl

wc_counts_example :
    wc input false
    ≡ prints
        (newlines (concat input) % 2 ^ 32)
        (words 32 (concat input) % 2 ^ 32)
        (length (concat input) % 2 ^ 32)
wc_counts_example = wc_counts input false

-- "b*c" in "abbc"
abbrev expression : List ℕ
expression = 98 ∷ 42 ∷ 99 ∷ []

abbrev text : List ℕ
text = 97 ∷ 98 ∷ 98 ∷ 99 ∷ []

match_run : match expression text ≡ true
unfolding match anywhere matchhere star single
match_run = refl

match_correct_example :
    (match expression text ≡ true → Found expression text)
    × (Found expression text → match expression text ≡ true)
match_correct_example = match_correct expression text
