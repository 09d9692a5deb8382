-- ===== src/Console/Edit.antt =====
-- console.c: what each key does to the bytes that may be read and to the line that is edited.
use osass.Base.{
  ℕ, zero, suc, ◌+◌, ◌-◌, ◌%◌, ◌≤◌, ◌<◌, ◌≡◌, ◌≢◌, refl, ap, ◌∙◌, arith, Bool, Bool-cases, false,
  ◌&&◌, ◌||◌, not, ◌==◌, List, [], ◌∷◌, ◌++◌, length, inl, inr,
}
use osass.Pipe.{u32}
use osass.Console.{Input, input_buf, newline, backspace, Output, puts, back, kill_line}
use osass.Console.Ring.{segment, span, line, segment-suc}

-- The two lists that a reader of the buffer cares for.
pub record Text : Type 0 where
  pub ready : List ℕ
  pub line : List ℕ

abbrev pub without_last : List ℕ → List ℕ
without_last [] = []
without_last (c ∷ []) = []
without_last (c ∷ d ∷ cs) = c ∷ without_last (d ∷ cs)

abbrev pub has : ℕ → List ℕ → Bool
has x [] = false
has x (c ∷ cs) = (c == x) || has x cs

-- The indices are in order, at most a buffer apart, and the line that is edited has no newline.
pub record IsValid (s : Input) : Type 0 where
  pub r_in : s.r < u32
  pub w_in : s.w < u32
  pub e_in : s.e < u32
  pub ordered : span s.r s.w + span s.w s.e ≤ input_buf
  pub open_line : has newline (line s) ≡ false

pub without_last-snoc : (l : List ℕ) (c : ℕ) → without_last (l ++ (c ∷ [])) ≡ l
without_last-snoc [] c = refl
without_last-snoc (b ∷ []) c = refl
without_last-snoc (b ∷ d ∷ l) c = ap (λ k. b ∷ k) (without_last-snoc (d ∷ l) c)

pub has-snoc : (x : ℕ) (l : List ℕ) (c : ℕ) → has x (l ++ (c ∷ [])) ≡ (has x l || (c == x))
has-snoc x [] c = ground arith
has-snoc x (b ∷ l) c = ground (arith, has-snoc x l c)

length-snoc : (l : List ℕ) (c : ℕ) → length (l ++ (c ∷ [])) ≡ length l + 1
length-snoc [] c = refl
length-snoc (b ∷ l) c = ground (arith, length-snoc l c)

-- Erasing the last byte of a line that has one.
pub back_lem :
    (s : Input)
    → IsValid s
    → s.e ≢ s.w
    → (line s ≡ line (back s) ++ (s.buf ((s.e + u32 - 1) % u32 % input_buf) ∷ []))
      × (span s.w s.e ≡ suc (span s.w (back s).e))
back_lem s v n =
    let e : span s.w s.e ≡ suc (span s.w ((s.e + u32 - 1) % u32)) =
      omega (arith, v.w_in, v.e_in, n) in
    let f : (s.w + span s.w ((s.e + u32 - 1) % u32)) % u32 ≡ (s.e + u32 - 1) % u32 =
      omega (arith, v.w_in, v.e_in) in
    (
      ap (segment s.buf s.w) e
          ∙ segment-suc (span s.w ((s.e + u32 - 1) % u32)) s.buf s.w v.w_in (omega arith)
          ∙ ap
              (λ x.
                segment s.buf s.w (span s.w ((s.e + u32 - 1) % u32))
                ++ (s.buf (x % input_buf) ∷ []))
              f,
      e,
    )

pub back-IsValid : (s : Input) → IsValid s → s.e ≢ s.w → IsValid (back s)
back-IsValid s v n =
    let (a, b) = back_lem s v n in
    record {
      r_in = v.r_in;
      w_in = v.w_in;
      e_in = omega arith;
      ordered = omega (arith, v.ordered, v.w_in, v.e_in, n);
      open_line = ground (
        arith,
        a,
        v.open_line,
        has-snoc newline (line (back s)) (s.buf ((s.e + u32 - 1) % u32 % input_buf)),
      );
    }

-- The line is gone, and each byte of it from the screen.
pub record Killed (s : Input) (o : Input × List Output) : Type 0 where
  pub valid : IsValid o.0
  pub e_end : o.0.e ≡ s.w
  pub w_same : o.0.w ≡ s.w
  pub r_same : o.0.r ≡ s.r
  pub buf_same : o.0.buf ≡ s.buf
  pub erased : length o.1 ≡ length (line s)

go_on : Input → Bool
go_on s = not (s.e == s.w) && not (s.buf ((s.e + u32 - 1) % u32 % input_buf) == newline)

-- The test for a newline never stops the loop.
go_on-false : (s : Input) → IsValid s → go_on s ≡ false → s.e ≡ s.w
unfolding go_on
go_on-false s v h = elim (Bool-cases (s.e == s.w)) [
  | inl e ↦ ground arith
  | inr e ↦
      let b = s.buf ((s.e + u32 - 1) % u32 % input_buf) in
      ground (
        arith,
        h,
        e,
        v.open_line,
        (back_lem s v (ground arith)).0,
        has-snoc newline (line (back s)) b,
      )
]

Killed-back :
    (s : Input) (o : Input × List Output)
    → IsValid s
    → s.e ≢ s.w
    → Killed (back s) o
    → Killed s (o.0, puts backspace ∷ o.1)
Killed-back s o v n k = record {
  valid = k.valid;
  e_end = k.e_end;
  w_same = k.w_same;
  r_same = k.r_same;
  buf_same = k.buf_same;
  erased = ground (
    arith,
    k.erased,
    (back_lem s v n).0,
    length-snoc (line (back s)) (s.buf ((s.e + u32 - 1) % u32 % input_buf)),
  );
}

-- The loop for C('U') erases the whole line.
pub kill_line-Killed :
    (fuel : ℕ) (s : Input) → IsValid s → span s.w s.e < fuel → Killed s (kill_line fuel s)
unfolding kill_line go_on
kill_line-Killed zero s v h = absurd (omega arith)
kill_line-Killed (suc fuel) s v h = elim (Bool-cases (go_on s)) [
  | inl e ↦
      let n : s.e ≢ s.w = ground (arith, e) in
      rw e (
        Killed-back s (kill_line fuel (back s)) v n (
          kill_line-Killed fuel (back s) (back-IsValid s v n)
            (omega (arith, h, (back_lem s v n).1))))
  | inr e ↦
      let d = go_on-false s v e in
      rw e (record {
        valid = v;
        e_end = d;
        w_same = refl;
        r_same = refl;
        buf_same = refl;
        erased = ground (arith, d, v.e_in);
      })
]
