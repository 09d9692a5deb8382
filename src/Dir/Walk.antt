-- ===== src/Dir/Walk.antt =====
-- fs.c: `namex`, `namei` and `nameiparent`. The path is the list of its bytes before the NUL; the name that
-- is looked up lies in memory at `name`.
pub mod Names
use osass.Base.{
  ℕ, zero, suc, ◌+◌, ◌≤◌, ◌<◌, Bool, true, false, not, ◌&&◌, ◌==◌, leb, if◌then◌else◌, Option, none,
  some, List, [], ◌∷◌, length, Memory, Outcome, ok, ◌>>=◌, ◌>>◌,
}
use osass.Log.Blocks.{at}
use osass.Path.{dirsiz, is_end, skipelem}
use osass.Image.{Image}
use osass.Icache.{
  Entry, Icache, Run, done, asleep, set_entry, iget, idup, ilock, iunlock, iput, iunlockput,
}
use osass.Dir.{t_dir, Place, Looked, dirlookup}

-- ROOTDEV (param.h) and ROOTINO (fs.h)
abbrev pub rootdev : ℕ
rootdev = 1

abbrev pub rootino : ℕ
rootino = 1

-- The bytes `s`, stored from `o` on.
pub put_bytes : Memory → ℕ → List ℕ → Memory
put_bytes m o [] = m
put_bytes m o (b ∷ s) = put_bytes (at o b m) (o + 1) s

-- The name as `skipelem` leaves it, with a NUL where it is shorter than DIRSIZ.
pub put_name : Memory → ℕ → List ℕ → Memory
put_name m name s =
    if leb dirsiz (length s)
    then put_bytes m name s
    else at (name + length s) 0 (put_bytes m name s)

-- What `namex` returns, none where it is 0, with what it has changed.
abbrev pub Walked : Type 0
Walked = Option ℕ × Icache × Memory × Image

-- `iunlockput(ip); return 0;`
pub give_up : ℕ → ℕ → Icache → Memory → Image → Outcome (Run Walked)
give_up me i c mem img = iunlockput me i c img >>= λ r. elim r [
  | asleep c ↦ ok (asleep c)
  | done (c, img) ↦ ok (done (none, c, mem, img))
]

-- What `namex` does behind its loop.
pub walk_end : ℕ → Bool → ℕ → Icache → Memory → Image → Outcome (Run Walked)
walk_end me true i c mem img = iput me i c img >>= λ r. elim r [
  | asleep c ↦ ok (asleep c)
  | done (c, img) ↦ ok (done (none, c, mem, img))
]
walk_end me false i c mem img = ok (done (some i, c, mem, img))

-- The lookup of `name` in the locked entry `i`, which keeps what `dirlookup` makes of its inode.
pub look_in :
    (ℕ → Bool) → ℕ → ℕ → ℕ → Icache → Memory → Image → Outcome (Looked × Icache × Memory × Image)
look_in devices de name i c mem img =
    dirlookup devices de name c (record { mem = mem; dp = (c.slot i).inode; img = img })
    >>= λ (f, c, p). ok (f, set_entry i (record (c.slot i) { inode = p.dp }) c, p.mem, p.img)

-- A round of the loop of `namex` in the entry `i`, behind `skipelem`: `last` is whether the path has
-- ended, and `go` is what comes after the round.
pub step_in :
    ℕ
    → (ℕ → Bool)
    → ℕ
    → Bool
    → ℕ
    → List ℕ
    → Bool
    → (ℕ → Icache → Memory → Image → Outcome (Run Walked))
    → ℕ
    → Icache
    → Memory
    → Image
    → Outcome (Run Walked)
step_in me devices de parent name s last go i c mem img = ilock me (some i) c img >>= λ r. elim r [
  | asleep c ↦ ok (asleep c)
  | done c ↦
      let mem = put_name mem name s in
      if not ((c.slot i).inode.type == t_dir)
      then give_up me i c mem img
      else if parent && last
      then (iunlock me (some i) c >>= λ c. ok (done (some i, c, mem, img)))
      else (look_in devices de name i c mem img >>= λ (f, c, mem, img). elim f [
        | none ↦ give_up me i c mem img
        | some (next, off) ↦ iunlockput me i c img >>= λ r. elim r [
          | asleep c ↦ ok (asleep c)
          | done (c, img) ↦ go next c mem img
        ]
      ])
]

-- The same by what `skipelem` gave: the loop goes on with the rest of the path, or it has ended.
pub round :
    ℕ
    → (ℕ → Bool)
    → ℕ
    → Bool
    → ℕ
    → (List ℕ → ℕ → Icache → Memory → Image → Outcome (Run Walked))
    → Option (List ℕ × List ℕ)
    → ℕ
    → Icache
    → Memory
    → Image
    → Outcome (Run Walked)
round me devices de parent name go none i c mem img = walk_end me parent i c mem img
round me devices de parent name go (some (s, rest)) i c mem img =
    step_in me devices de parent name s (is_end rest) (go rest) i c mem img

-- The loop of `namex`, with fuel: `i` is the entry of `ip`.
pub walk :
    ℕ → ℕ → (ℕ → Bool) → ℕ → Bool → ℕ → List ℕ → ℕ → Icache → Memory → Image → Outcome (Run Walked)
walk zero me devices de parent name path i c mem img = walk_end me parent i c mem img
walk (suc fuel) me devices de parent name path i c mem img =
    round me devices de parent name (walk fuel me devices de parent name) (skipelem path) i c mem
      img

-- Where `namex` starts: at the root, or at the entry `cwd` of the process.
pub start_at : ℕ → List ℕ → Icache → Outcome (ℕ × Icache)
start_at cwd [] c = idup cwd c
start_at cwd (b ∷ path) c = if b == 47 then iget rootdev rootino c else idup cwd c

-- Each round passes a byte of the path.
pub namex :
    ℕ → (ℕ → Bool) → ℕ → ℕ → Bool → ℕ → List ℕ → Icache → Memory → Image → Outcome (Run Walked)
namex me devices de cwd parent name path c mem img = start_at cwd path c >>= λ (i, c).
    walk (length path + 1) me devices de parent name path i c mem img

-- `name` is the address of the array on the stack.
pub namei : ℕ → (ℕ → Bool) → ℕ → ℕ → ℕ → List ℕ → Icache → Memory → Image → Outcome (Run Walked)
namei me devices de cwd name path c mem img = namex me devices de cwd false name path c mem img

pub nameiparent :
    ℕ → (ℕ → Bool) → ℕ → ℕ → ℕ → List ℕ → Icache → Memory → Image → Outcome (Run Walked)
nameiparent me devices de cwd name path c mem img = namex me devices de cwd true name path c mem img
