-- ===== src/Console/Keys.antt =====
-- console.c: whole interrupts, and reads, in terms of the text.
use osass.Base.{
  ℕ, zero, suc, ◌+◌, ◌-◌, ◌%◌, ◌<◌, ◌≡◌, ◌≢◌, refl, ap, sym, ◌∙◌, arith, Bool, Bool-cases, false,
  ◌||◌, ◌==◌, ltb, if◌then◌else◌, List, [], ◌∷◌, inl, inr, subst,
}
use mathlib.Core.Path.{ap₂}
use osass.Pipe.{u32}
use osass.Console.{
  Input, input_buf, newline, ctrl, key, keys, consoleintr, End, returns, fails, sleeps, Reading,
  read_loop, consoleread,
}
use osass.Console.Ring.{segment, span, ready, line}
use osass.Console.Edit.{Text, IsValid}
use osass.Console.Line.{edit, text, Has, key-Has}

abbrev pub edits : List ℕ → Text → Text
edits [] x = x
edits (c ∷ cs) x = edits cs (edit c x)

abbrev pub AllBytes : List ℕ → Type 0
AllBytes [] = Unit
AllBytes (c ∷ cs) = (c < 256) × AllBytes cs

abbrev with_lists : List ℕ → List ℕ → Text
with_lists r l = record { ready = r; line = l }

keys-Has :
    (cs : List ℕ) (dump : Bool) (s : Input) (x : Text)
    → Has s x
    → AllBytes cs
    → Has (keys dump cs s).0 (edits cs x)
unfolding keys
keys-Has [] dump s x h b = h
keys-Has (c ∷ cs) dump s x h (b, bs) =
    let k = key-Has c s h.valid b in
    let same : text s ≡ x = ap₂ with_lists h.ready_same h.line_same in
    keys-Has cs (dump || (c == ctrl 80)) (key c s).0 (edit c x)
      (subst (λ y. Has (key c s).0 (edit c y)) same k) bs

-- On a valid buffer, an interrupt with any bytes leaves a valid buffer, whose bytes to be read
-- and whose line are those that the list editor makes of them, character by character.
pub consoleintr_refines :
    (cs : List ℕ) (s : Input)
    → IsValid s
    → AllBytes cs
    → Has (consoleintr cs s).0 (edits cs (text s))
unfolding consoleintr
consoleintr_refines cs s v b =
    keys-Has cs false s (text s) (record { valid = v; ready_same = refl; line_same = refl }) b

-- What a read takes of the bytes that are ready: at most a line, and no more than it asks for; C('D')
-- ends it, and is left for the next read if this one has bytes. The rest comes last.
abbrev pub take_line : Bool → ℕ → ℕ → List ℕ → List ℕ × End × List ℕ
take_line killed target zero l = ([], returns, l)
take_line killed target (suc n) [] = ([], if killed then fails else sleeps (suc n), [])
take_line killed target (suc n) (c ∷ l) =
    let (bytes, end, rest) = take_line killed target n l in
    if c == ctrl 68
    then ([], returns, if ltb (suc n) target then c ∷ l else l)
    else if c == newline
    then (c ∷ [], returns, l)
    else (c ∷ bytes, end, rest)

-- A run took these bytes, ended so, and left the rest; the line that is edited is as before.
pub record Took (s : Input) (d : Reading) (x : List ℕ × End × List ℕ) : Type 0 where
  pub bytes_same : d.bytes ≡ x.0
  pub end_same : d.end ≡ x.1
  pub rest_same : ready d.input ≡ x.2
  pub line_same : line d.input ≡ line s
  pub valid : IsValid d.input

-- Past the first of the bytes that are ready.
advance : Input → Input
advance s = record s { r = (s.r + 1) % u32 }

advance_lem :
    (s : Input)
    → IsValid s
    → s.r ≢ s.w
    → (ready s ≡ s.buf (s.r % input_buf) ∷ ready (advance s))
      × IsValid (advance s)
      × (line (advance s) ≡ line s)
unfolding advance
advance_lem s v n =
    let e : span s.r s.w ≡ suc (span ((s.r + 1) % u32) s.w) = omega (arith, v.r_in, v.w_in, n) in
    (
      ap (segment s.buf s.r) e,
      record {
        r_in = omega arith;
        w_in = v.w_in;
        e_in = v.e_in;
        ordered = omega (arith, v.r_in, v.w_in, v.ordered, n);
        open_line = v.open_line;
      },
      refl,
    )

read_loop-Took :
    (killed : Bool) (target n : ℕ) (s : Input)
    → IsValid s
    → Took s (read_loop killed target n s) (take_line killed target n (ready s))
unfolding read_loop advance
read_loop-Took killed target zero s v = record {
  bytes_same = refl;
  end_same = refl;
  rest_same = refl;
  line_same = refl;
  valid = v;
}
read_loop-Took killed target (suc n) s v = elim (Bool-cases (s.r == s.w)) [
  | inl e ↦
      let no : span s.r s.w ≡ 0 = ground (arith, v.r_in, e) in
      let z : ready s ≡ [] = ap (segment s.buf s.r) no in
      rw (e, z)
        (record { bytes_same = refl; end_same = refl; rest_same = z; line_same = refl; valid = v })
  | inr e ↦
      let (a, w, l) = advance_lem s v (ground (arith, e)) in
      let c = s.buf (s.r % input_buf) in
      let d = read_loop-Took killed target n (advance s) w in
      let undo : ((s.r + 1) % u32 + u32 - 1) % u32 ≡ s.r = omega (arith, v.r_in) in
      elim (Bool-cases (c == ctrl 68)) [
        | inl f ↦ elim (Bool-cases (ltb (suc n) target)) [
          | inl g ↦
              rw (e, a, f, g)
                (record {
                  bytes_same = refl;
                  end_same = refl;
                  rest_same = ap (λ x. segment s.buf x (span x s.w)) undo ∙ a;
                  line_same = refl;
                  valid = subst (λ x. IsValid (record s { r = x })) (sym undo) v;
                })
          | inr g ↦
              rw (e, a, f, g)
                (record {
                  bytes_same = refl;
                  end_same = refl;
                  rest_same = refl;
                  line_same = refl;
                  valid = w;
                })
        ]
        | inr f ↦ elim (Bool-cases (c == newline)) [
          | inl g ↦
              rw (e, a, f, g)
                (record {
                  bytes_same = refl;
                  end_same = refl;
                  rest_same = refl;
                  line_same = refl;
                  valid = w;
                })
          | inr g ↦
              rw (e, a, f, g)
                (record {
                  bytes_same = ap (λ k. c ∷ k) d.bytes_same;
                  end_same = d.end_same;
                  rest_same = d.rest_same;
                  line_same = d.line_same;
                  valid = d.valid;
                })
        ]
      ]
]

-- On a valid buffer, a run of `consoleread` takes from the bytes that are ready what the list
-- reader takes, ends as it does, and leaves its rest, the line as it was, and a valid buffer.
pub consoleread_refines :
    (killed : Bool) (n : ℕ) (s : Input)
    → IsValid s
    → Took s (consoleread killed n s) (take_line killed n n (ready s))
unfolding consoleread
consoleread_refines killed n s v = read_loop-Took killed n n s v
