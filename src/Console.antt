-- ===== src/Console.antt =====
-- console.c: the input buffer, with its indices that wrap at 2 ^ 32, as the interrupt handler edits it
-- and as `consoleread` takes lines from it. Both run under `cons.lock`, so each run is one step; a
-- read that sleeps goes on by a step of its own. The screen and the serial port are outputs.
pub mod Ring
pub mod Edit
pub mod Line
pub mod Keys
mod Tests
use osass.Base.{
  ℕ, zero, suc, ◌+◌, ◌-◌, ◌%◌, ◌^◌, ◌≤◌, ◌<◌, Bool, true, false, ◌&&◌, ◌||◌, not, List, [], ◌∷◌,
  ◌++◌, ◌==◌, ltb, if◌then◌else◌, Memory, write,
}
use osass.Pipe.{u32}

-- INPUT_BUF
abbrev pub input_buf : ℕ
input_buf = 128

-- BACKSPACE
abbrev pub backspace : ℕ
backspace = 256

abbrev pub newline : ℕ
newline = 10

-- `C(x)`, for `x` a code above that of '@'
abbrev pub ctrl : ℕ → ℕ
ctrl x = x - 64

-- `input`
pub record Input : Type 0 where
  pub buf : Memory
  pub r : ℕ
  pub w : ℕ
  pub e : ℕ

-- What the handler does besides: `consputc`, `wakeup(&input.r)` and `procdump`.
pub data Output : Type 0 where
  puts : ℕ → Output
  wakes dumps : Output

-- `input.e--`
abbrev pub back : Input → Input
back s = record s { e = (s.e + u32 - 1) % u32 }

-- The loop for C('U'), with fuel.
pub kill_line : ℕ → Input → Input × List Output
kill_line zero s = (s, [])
kill_line (suc fuel) s =
    let (t, out) = kill_line fuel (back s) in
    if not (s.e == s.w) && not (s.buf ((s.e + u32 - 1) % u32 % input_buf) == newline)
    then (t, puts backspace ∷ out)
    else (s, [])

-- `input.e - input.w`, as a `uint`, is more than the loop needs.
abbrev pub line_fuel : Input → ℕ
line_fuel s = (s.e + u32 - s.w) % u32 + 1

-- The case for C('H') and '\x7f'.
pub erase : Input → Input × List Output
erase s = if not (s.e == s.w) then (back s, puts backspace ∷ []) else (s, [])

-- The default case.
pub enter : ℕ → Input → Input × List Output
enter c s =
    if not (c == 0) && ltb ((s.e + u32 - s.r) % u32) input_buf
    then (let d = if c == 13 then newline else c in
        let t = record s { buf = write s.buf (s.e % input_buf) (d % 256); e = (s.e + 1) % u32 } in
        if (d == newline) || ((d == ctrl 68) || (t.e == (t.r + input_buf) % u32))
        then (record t { w = t.e }, puts d ∷ wakes ∷ [])
        else (t, puts d ∷ []))
    else (s, [])

-- One round of the loop of `consoleintr`, for the character `c`.
pub key : ℕ → Input → Input × List Output
key c s =
    if c == ctrl 80
    then (s, [])
    else if c == ctrl 85
    then kill_line (line_fuel s) s
    else if (c == ctrl 72) || (c == 127)
    then erase s
    else enter c s

-- The loop, over the characters that `getc` returns before it is out of them. The Boolean is
-- `doprocdump`.
pub keys : Bool → List ℕ → Input → Input × List Output × Bool
keys dump [] s = (s, [], dump)
keys dump (c ∷ cs) s =
    let (t, out) = key c s in
    let (u, more, d) = keys (dump || (c == ctrl 80)) cs t in (u, out ++ more, d)

pub consoleintr : List ℕ → Input → Input × List Output
consoleintr cs s =
    let (t, out, dump) = keys false cs s in (t, if dump then out ++ (dumps ∷ []) else out)

-- How a run of the loop of `consoleread` ends: it returns, fails since the process is killed, or
-- sleeps with so many bytes to go.
pub data End : Type 0 where
  returns fails : End
  sleeps : ℕ → End

-- The bytes that were stored at `dst` in this run, its end, and the buffer.
pub record Reading : Type 0 where
  pub bytes : List ℕ
  pub end : End
  pub input : Input

abbrev stored : ℕ → Reading → Reading
stored c d = record d { bytes = c ∷ d.bytes }

-- The loop of `consoleread`, with `n` bytes to go of `target`.
pub read_loop : Bool → ℕ → ℕ → Input → Reading
read_loop killed target zero s = record { bytes = []; end = returns; input = s }
read_loop killed target (suc n) s =
    let c = s.buf (s.r % input_buf) in
    let t = record s { r = (s.r + 1) % u32 } in
    let rest = read_loop killed target n t in
    if s.r == s.w
    then record { bytes = []; end = if killed then fails else sleeps (suc n); input = s }
    else if c == ctrl 68
    then record {
      bytes = [];
      end = returns;
      input = if ltb (suc n) target then record t { r = (t.r + u32 - 1) % u32 } else t;
    }
    else if c == newline
    then record { bytes = c ∷ []; end = returns; input = t }
    else stored c rest

-- A call of `consoleread` up to its first sleep.
pub consoleread : Bool → ℕ → Input → Reading
consoleread killed n s = read_loop killed n n s
