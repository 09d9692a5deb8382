-- ===== src/Programs/Printing.antt =====
-- printf.c: a format prints piece by piece.
use osass.Base.{
  ℕ, ◌+◌, ◌≡◌, refl, ap, sym, ◌∙◌, Bool, Bool-cases, inl, inr, true, false, ◌==◌, List, [], ◌∷◌,
  ◌++◌,
}
use mathlib.Core.List.{append_assoc}
use osass.Programs.{convert, print_from}

-- Printing goes on with the state and the argument that the part before left.
abbrev pub then_print : (ℕ → List ℕ) → (ℕ → ℕ) → List ℕ → List ℕ × Bool × ℕ → List ℕ × Bool × ℕ
then_print string_at args fmt (out, state, ap_at) =
    let (more, s, e) = print_from string_at args state ap_at fmt in (out ++ more, s, e)

abbrev after : List ℕ → List ℕ × Bool × ℕ → List ℕ × Bool × ℕ
after text (out, state, ap_at) = (text ++ out, state, ap_at)

then_print-after :
    (string_at : ℕ → List ℕ) (args : ℕ → ℕ) (text rest : List ℕ) (p : List ℕ × Bool × ℕ)
    → after text (then_print string_at args rest p) ≡ then_print string_at args rest (after text p)
then_print-after string_at args text rest (out, state, k) =
    let (more, s, e) = print_from string_at args state k rest in
    ap (λ o. (o, s, e)) (sym (append_assoc text out more))

-- A format with another behind it prints what it prints, and then the other goes on with the state
-- and the argument that it left.
pub print_from-append :
    (string_at : ℕ → List ℕ) (args : ℕ → ℕ) (state : Bool) (from : ℕ) (fmt rest : List ℕ)
    → print_from string_at args state from (fmt ++ rest)
      ≡ then_print string_at args rest (print_from string_at args state from fmt)
unfolding print_from
print_from-append string_at args state from [] rest = refl
print_from-append string_at args false from (c ∷ fmt) rest = elim (Bool-cases (c == 37)) [
  | inl e ↦ rw e (print_from-append string_at args true from fmt rest)
  | inr e ↦ rw e (ap (after (c ∷ [])) (print_from-append string_at args false from fmt rest))
]
print_from-append string_at args true from (c ∷ fmt) rest =
    let text = (convert string_at c (args from)).0 in
    let next = from + (convert string_at c (args from)).1 in
    ap (after text) (print_from-append string_at args false next fmt rest)
    ∙ then_print-after string_at args text rest (print_from string_at args false next fmt)
