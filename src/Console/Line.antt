-- ===== src/Console/Line.antt =====
-- console.c: each key as an edit of two lists, the bytes to be read and the line.
use osass.Base.{
  ℕ, suc, ◌+◌, ◌-◌, ◌%◌, ◌<◌, ◌≡◌, ◌≢◌, refl, ap, sym, ◌∙◌, arith, Bool-cases, ◌&&◌, ◌||◌, not,
  ◌==◌, ltb, if◌then◌else◌, [], ◌∷◌, ◌++◌, write, write_self, length, inl, inr,
}
use mathlib.Core.Path.{ap₂}
use osass.Pipe.{u32}
use osass.Console.{Input, input_buf, newline, ctrl, back, kill_line, line_fuel, erase, enter, key}
use osass.Console.Ring.{
  segment, span, ready, line, segment-suc, segment-write, segment-add, length-segment,
}
use osass.Console.Edit.{
  Text, IsValid, without_last, without_last-snoc, has, has-snoc, back_lem, back-IsValid,
  kill_line-Killed,
}

-- The default case: a full buffer and a null character are ignored; a carriage return is a newline;
-- a newline, C('D') or the last place makes the line ready.
abbrev pub enter_text : ℕ → Text → Text
enter_text c x =
    let d = if c == 13 then newline else c in
    let l = x.line ++ (d ∷ []) in
    if not (c == 0) && ltb (length x.ready + length x.line) input_buf
    then if (d == newline) || ((d == ctrl 68) || (length x.ready + length x.line + 1 == input_buf))
      then record { ready = x.ready ++ l; line = [] }
      else record { ready = x.ready; line = l }
    else x

abbrev pub edit : ℕ → Text → Text
edit c x =
    if c == ctrl 80
    then x
    else if c == ctrl 85
    then record { ready = x.ready; line = [] }
    else if (c == ctrl 72) || (c == 127)
    then record { ready = x.ready; line = without_last x.line }
    else enter_text c x

abbrev pub text : Input → Text
text s = record { ready = ready s; line = line s }

-- The buffer after an edit is valid and has the given text.
pub record Has (s : Input) (x : Text) : Type 0 where
  pub valid : IsValid s
  pub ready_same : ready s ≡ x.ready
  pub line_same : line s ≡ x.line

Has-self : (s : Input) → IsValid s → Has s (text s)
Has-self s v = record { valid = v; ready_same = refl; line_same = refl }

kill_line-Has :
    (s : Input)
    → IsValid s
    → Has (kill_line (line_fuel s) s).0 (record { ready = ready s; line = [] })
kill_line-Has s v =
    let k = kill_line-Killed (line_fuel s) s v (omega arith) in
    let t = (kill_line (line_fuel s) s).0 in
    let n : span t.w t.e ≡ 0 = omega (arith, v.w_in, k.e_end, k.w_same) in
    record {
      valid = k.valid;
      ready_same =
          ap₂ (λ m x. segment m x (span x t.w)) k.buf_same k.r_same
          ∙ ap (λ x. segment s.buf s.r (span s.r x)) k.w_same;
      line_same = ap (segment t.buf t.w) n;
    }

erase-Has :
    (s : Input)
    → IsValid s
    → Has (erase s).0 (record { ready = ready s; line = without_last (line s) })
unfolding erase
erase-Has s v = elim (Bool-cases (s.e == s.w)) [
  | inl e ↦
      let n : span s.w s.e ≡ 0 = ground (arith, v.e_in) in
      rw e (record {
        valid = v;
        ready_same = refl;
        line_same = ap (segment s.buf s.w) n ∙ ap (λ k. without_last (segment s.buf s.w k)) (sym n);
      })
  | inr e ↦
      let n : s.e ≢ s.w = ground arith in
      rw e (record {
        valid = back-IsValid s v n;
        ready_same = refl;
        line_same = sym (ap without_last (back_lem s v n).0 ∙ without_last-snoc (line (back s)) _);
      })
]

-- The buffer with the byte `d` put at its end.
abbrev put : ℕ → Input → Input
put d s = record s { buf = write s.buf (s.e % input_buf) (d % 256); e = (s.e + 1) % u32 }

put-line :
    (d : ℕ) (s : Input)
    → IsValid s
    → d < 256
    → span s.r s.e < input_buf
    → (ready (put d s) ≡ ready s)
      × (line (put d s) ≡ line s ++ (d ∷ []))
      × (span s.w (put d s).e ≡ span s.w s.e + 1)
      × (span s.r (put d s).e ≡ span s.r s.e + 1)
put-line d s v h f =
    let n = span s.w s.e in
    let more : span s.w (put d s).e ≡ suc n = omega (arith, v.w_in, v.r_in, v.e_in, v.ordered) in
    let here : (s.w + n) % u32 ≡ s.e = omega (arith, v.w_in, v.e_in) in
    let last : (put d s).buf ((s.w + n) % u32 % input_buf) ≡ d =
      ap (λ x. (put d s).buf (x % input_buf)) here
      ∙ write_self s.buf (s.e % input_buf) (d % 256)
      ∙ omega (arith, h) in
    (
      segment-write (span s.r s.w) s.buf s.r s.e (d % 256) v.r_in v.e_in
          (omega (arith, v.ordered, v.w_in, v.r_in, v.e_in)) f,
      ap (segment (put d s).buf s.w) more
          ∙ segment-suc n (put d s).buf s.w v.w_in (omega (arith, v.ordered))
          ∙ ap₂ (λ l b. l ++ (b ∷ []))
              (segment-write n s.buf s.w s.e (d % 256) v.w_in v.e_in (omega arith)
                (omega (arith, v.ordered, v.w_in, v.r_in, v.e_in, f)))
              last,
      omega (arith, v.w_in, v.r_in, v.e_in, v.ordered),
      omega (arith, v.w_in, v.r_in, v.e_in, v.ordered),
    )

-- The line goes on.
put-open :
    (d : ℕ) (s : Input)
    → IsValid s
    → d < 256
    → span s.r s.e < input_buf
    → d ≢ newline
    → Has (put d s) (record { ready = ready s; line = line s ++ (d ∷ []) })
put-open d s v h f n =
    let (a, b, c, e) = put-line d s v h f in
    record {
      valid = record {
        r_in = v.r_in;
        w_in = v.w_in;
        e_in = omega arith;
        ordered = omega (arith, v.w_in, v.r_in, v.e_in, v.ordered, f);
        open_line =
            ap (has newline) b ∙ has-snoc newline (line s) d ∙ ground (arith, v.open_line, n);
      };
      ready_same = a;
      line_same = b;
    }

-- The line ends, and may be read.
put-ready :
    (d : ℕ) (s : Input)
    → IsValid s
    → d < 256
    → span s.r s.e < input_buf
    → Has
        (record (put d s) { w = (put d s).e })
        (record { ready = ready s ++ (line s ++ (d ∷ [])); line = [] })
put-ready d s v h f =
    let (a, b, c, e) = put-line d s v h f in
    let t = put d s in
    let n : span t.e t.e ≡ 0 = omega arith in
    let whole : span s.r t.e ≡ span s.r s.w + span s.w t.e =
      omega (arith, v.w_in, v.r_in, v.e_in, v.ordered, f) in
    let from : (s.r + span s.r s.w) % u32 ≡ s.w = omega (arith, v.w_in, v.r_in) in
    record {
      valid = record {
        r_in = v.r_in;
        w_in = omega arith;
        e_in = omega arith;
        ordered = omega (arith, v.w_in, v.r_in, v.e_in, v.ordered, f);
        open_line = ap (λ k. has newline (segment t.buf t.e k)) n;
      };
      ready_same =
          ap (segment t.buf s.r) whole
          ∙ segment-add (span s.r s.w) (span s.w t.e) t.buf s.r v.r_in (omega arith)
          ∙ ap₂ (λ l x. l ++ segment t.buf x (span s.w t.e)) a from
          ∙ ap (λ l. ready s ++ l) b;
      line_same = ap (segment t.buf t.e) n;
    }

-- The test for room, and the test for the last place, in terms of the two lists.
enter_tests :
    (s : Input) → IsValid s → ((s.e + u32 - s.r) % u32 ≡ length (ready s) + length (line s))
enter_tests s v = omega (
  arith,
  v.w_in,
  v.r_in,
  v.e_in,
  v.ordered,
  length-segment s.buf s.r (span s.r s.w),
  length-segment s.buf s.w (span s.w s.e),
)

full_test :
    (d : ℕ) (s : Input)
    → IsValid s
    → span s.r s.e < input_buf
    → ((put d s).e == (s.r + input_buf) % u32)
      ≡ (length (ready s) + length (line s) + 1 == input_buf)
full_test d s v f = ground (arith, enter_tests s v, v.r_in, v.e_in)

enter-Has : (c : ℕ) (s : Input) → IsValid s → c < 256 → Has (enter c s).0 (enter_text c (text s))
unfolding enter
enter-Has c s v h =
    let d = if c == 13 then newline else c in
    let d_in : d < 256 = ground arith in
    let sizes = enter_tests s v in
    elim (Bool-cases (not (c == 0) && ltb (span s.r s.e) input_buf)) [
      | inr e ↦ rw (e, sym (ap (λ k. not (c == 0) && ltb k input_buf) sizes) ∙ e) (Has-self s v)
      | inl e ↦
          let f : span s.r s.e < input_buf = ground (arith, e) in
          let last = full_test d s v f in
          let same = ap (λ b. (d == newline) || ((d == ctrl 68) || b)) last in
          elim (Bool-cases
            ((d == newline) || ((d == ctrl 68) || ((put d s).e == (s.r + input_buf) % u32)))) [
              | inl g ↦
                  rw (e, sym (ap (λ k. not (c == 0) && ltb k input_buf) sizes) ∙ e, g, sym same ∙ g)
                    (put-ready d s v d_in f)
              | inr g ↦
                  rw (e, sym (ap (λ k. not (c == 0) && ltb k input_buf) sizes) ∙ e, g, sym same ∙ g)
                    (put-open d s v d_in f (ground (arith, g)))
            ]
    ]

-- Every key edits the text as the reference does.
pub key-Has : (c : ℕ) (s : Input) → IsValid s → c < 256 → Has (key c s).0 (edit c (text s))
unfolding key
key-Has c s v h = elim (Bool-cases (c == ctrl 80)) [
  | inl e ↦ rw e (Has-self s v)
  | inr e ↦ elim (Bool-cases (c == ctrl 85)) [
    | inl f ↦ rw (e, f) (kill_line-Has s v)
    | inr f ↦ elim (Bool-cases ((c == ctrl 72) || (c == 127))) [
      | inl g ↦ rw (e, f, g) (erase-Has s v)
      | inr g ↦ rw (e, f, g) (enter-Has c s v h)
    ]
  ]
]
