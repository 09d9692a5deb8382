-- ===== src/Kbd/Typed.antt =====
-- kbd.c: what is typed, key by key, apart from scan codes, bits and maps.
use osass.Base.{
  ℕ, zero, suc, ◌+◌, ◌-◌, ◌<◌, ◌≡◌, refl, sym, subst, ==→eq, ap, ◌∙◌, arith, Bool, Bool-cases, inl,
  inr, true, false, ◌&&◌, ◌||◌, not, List, [], ◌∷◌, ◌==◌, ltb, leb, if◌then◌else◌, Option, none,
  some,
}
use osass.Console.Keys.{AllBytes}
use osass.Kbd.{
  Shift, entry, keypad, map_of, normalmap, shiftmap, ctlmap, press, lift, toggle, charcode, recase,
  pressed, kbdgetc, scan,
}

-- A key goes down or up, or 0xE0 says that the next is of the second set, from 128 on.
pub data Event : Type 0 where
  down up : ℕ → Event
  escape : Event

-- The events that the bytes of the controller stand for; `second` is whether 0xE0 was the last.
abbrev pub events : Bool → List ℕ → List Event
events second [] = []
events second (b ∷ bs) =
    if b == 224
    then escape ∷ events true bs
    else if ltb b 128
    then down (if second then b + 128 else b) ∷ events false bs
    else up (if second then b else b - 128) ∷ events false bs

-- Either of the two keys.
abbrev pub is_ctl : ℕ → Bool
is_ctl k = (k == 29) || (k == 157)

abbrev pub is_shift : ℕ → Bool
is_shift k = (k == 42) || (k == 54)

abbrev pub is_letter : ℕ → Bool
is_letter c = leb 97 c && leb c 122

-- A letter, by the shifts that are on; what the other keys give stands in the maps.
abbrev pub typed_char : Bool → Bool → Bool → ℕ → ℕ
typed_char ctl shift caps k =
    if is_letter (normalmap k)
    then (if ctl
        then normalmap k - 96
        else if shift
        then (if caps then normalmap k else normalmap k - 32)
        else if caps
        then normalmap k - 32
        else normalmap k)
    else if ctl
    then ctlmap k
    else if shift
    then shiftmap k
    else normalmap k

-- The characters of the events: ctl and shift are on while a key of theirs is the last to have gone down,
-- and caps lock changes with every press. An event without a character gives 0.
abbrev pub typed : Bool → Bool → Bool → List Event → List ℕ
typed ctl shift caps [] = []
typed ctl shift caps (escape ∷ es) = 0 ∷ typed ctl shift caps es
typed ctl shift caps (up k ∷ es) =
    0 ∷ typed (ctl && not (is_ctl k)) (shift && not (is_shift k)) caps es
typed ctl shift caps (down k ∷ es) =
    let c = ctl || is_ctl k in
    let s = shift || is_shift k in
    let l = if k == 58 then not caps else caps in typed_char c s l k ∷ typed c s l es

-- A test that holds below `n`.
abbrev all_below : ℕ → (ℕ → Bool) → Bool
all_below zero test = true
all_below (suc n) test = test n && all_below n test

all_below_lem : (n : ℕ) (test : ℕ → Bool) (k : ℕ) → all_below n test ≡ true → k < n → test k ≡ true
all_below_lem zero test k h l = absurd (omega arith)
all_below_lem (suc n) test k h l = elim (Bool-cases (k == n)) [
  | inl e ↦ subst (λ k. test k ≡ true) (sym (==→eq k n e)) (ground (arith, h))
  | inr e ↦ all_below_lem n test k (ground (arith, h)) (ground (arith, e))
]

abbrev agrees : Bool → Bool → Bool → ℕ → Bool
agrees ctl shift caps k =
    recase caps (if ctl then ctlmap k else if shift then shiftmap k else normalmap k)
    == typed_char ctl shift caps k

agree_all : (ctl shift caps : Bool) → all_below 256 (agrees ctl shift caps) ≡ true
unfolding recase map_of entry keypad
agree_all true true true = refl
agree_all true true false = refl
agree_all true false true = refl
agree_all true false false = refl
agree_all false true true = refl
agree_all false true false = refl
agree_all false false true = refl
agree_all false false false = refl

char_lem :
    (s : Shift) (k : ℕ)
    → k < 256
    → recase s.capslock (charcode s k) ≡ typed_char s.ctl s.shift s.capslock k
unfolding charcode
char_lem s k l =
    ==→eq _ _ (all_below_lem 256 (agrees s.ctl s.shift s.capslock) k (agree_all _ _ _) l)

press_lem :
    (k : ℕ) (s : Shift)
    → ((toggle k (press k s)).ctl ≡ (s.ctl || is_ctl k))
      × ((toggle k (press k s)).shift ≡ (s.shift || is_shift k))
      × ((toggle k (press k s)).capslock ≡ (if k == 58 then not s.capslock else s.capslock))
      × ((toggle k (press k s)).e0esc ≡ s.e0esc)
unfolding toggle press
press_lem k s = ground arith

lift_lem :
    (k : ℕ) (s : Shift)
    → ((lift k s).ctl ≡ (s.ctl && not (is_ctl k)))
      × ((lift k s).shift ≡ (s.shift && not (is_shift k)))
      × ((lift k s).capslock ≡ s.capslock)
      × ((lift k s).e0esc ≡ false)
unfolding lift
lift_lem k s = ground arith

-- What the shifts of the state and the bytes `bs` stand for.
abbrev pub from_state : Shift → List ℕ → List ℕ
from_state s bs = typed s.ctl s.shift s.capslock (events s.e0esc bs)

after_up :
    (k : ℕ) (s : Shift) (bs : List ℕ)
    → 0 ∷ from_state (lift k s) bs ≡ typed s.ctl s.shift s.capslock (up k ∷ events false bs)
after_up k s bs = let (a, b, c, d) = lift_lem k s in rw (a, b, c, d) refl

after_down :
    (k : ℕ) (s : Shift) (bs : List ℕ)
    → k < 256
    → s.e0esc ≡ false
    → (let t = toggle k (press k s) in
        recase t.capslock (charcode t k) ∷ from_state t bs
        ≡ typed s.ctl s.shift s.capslock (down k ∷ events false bs))
after_down k s bs l z =
    let (a, b, c, d) = press_lem k s in
    let t = toggle k (press k s) in
    ap (λ x. x ∷ from_state t bs) (char_lem t k l) ∙ rw (a, b, c, d, z) refl

scan-some :
    (b x : ℕ) (bs : List ℕ) (s t : Shift)
    → kbdgetc (some b) s ≡ (some x, t)
    → (scan (b ∷ bs) s).0 ≡ x ∷ (scan bs t).0
unfolding scan
scan-some b x bs s t e =
    ap {A = Option ℕ × Shift}
      (λ r. elim r.0 [ none ↦ (scan bs r.1).0 | some x ↦ x ∷ (scan bs r.1).0 ]) e

-- One byte, and then the rest.
byte_typed :
    (b : ℕ) (bs : List ℕ) (s : Shift)
    → b < 256
    → ((t : Shift) → (scan bs t).0 ≡ from_state t bs)
    → (scan (b ∷ bs) s).0 ≡ from_state s (b ∷ bs)
unfolding kbdgetc pressed
byte_typed b bs s l h = elim (Bool-cases (b == 224)) [
  | inl e ↦
      let t : Shift = record s { e0esc = true } in
      let got : kbdgetc (some b) s ≡ (some 0, t) = rw e refl in
      scan-some b 0 bs s t got ∙ ap (λ x. 0 ∷ x) (h t) ∙ rw e refl
  | inr e ↦ elim (Bool-cases (leb 128 b)) [
    | inl f ↦
        let g : ltb b 128 ≡ false = ground (arith, f) in
        let k = if s.e0esc then b else b - 128 in
        let got : kbdgetc (some b) s ≡ (some 0, lift k s) = rw (e, f) refl in
        scan-some b 0 bs s (lift k s) got
        ∙ ap (λ x. 0 ∷ x) (h (lift k s))
        ∙ after_up k s bs
        ∙ rw (e, g) refl
    | inr f ↦
        let g : ltb b 128 ≡ true = ground (arith, f) in
        elim (Bool-cases s.e0esc) [
          | inl z ↦
              let q : Shift = record s { e0esc = false } in
              let k = b + 128 in
              let t = toggle k (press k q) in
              let x = recase t.capslock (charcode t k) in
              let got : kbdgetc (some b) s ≡ (some x, t) = rw (e, f, z) refl in
              scan-some b x bs s t got
              ∙ ap (λ y. x ∷ y) (h t)
              ∙ after_down k q bs (ground (arith, f)) refl
              ∙ rw (e, g, z) refl
          | inr z ↦
              let t = toggle b (press b s) in
              let x = recase t.capslock (charcode t b) in
              let got : kbdgetc (some b) s ≡ (some x, t) = rw (e, f, z) refl in
              scan-some b x bs s t got
              ∙ ap (λ y. x ∷ y) (h t)
              ∙ after_down b s bs l z
              ∙ rw (e, g, z) refl
        ]
  ]
]

-- From any state of the shifts, the characters that `kbdgetc` returns for bytes of the controller are
-- those of the keys that the bytes stand for.
pub scan-typed : (bs : List ℕ) (s : Shift) → AllBytes bs → (scan bs s).0 ≡ from_state s bs
unfolding scan
scan-typed [] s h = refl
scan-typed (b ∷ bs) s (l, h) = byte_typed b bs s l (λ t. scan-typed bs t h)
