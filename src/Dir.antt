-- ===== src/Dir.antt =====
-- fs.c: directories, which are files of 16-byte entries. A directory entry is read to, and written from,
-- the address `de` of the memory in which the name lies.
pub mod Entries
pub mod Lookup
pub mod Find
pub mod Link
pub mod Stored
pub mod Added
pub mod Linking
pub mod Walk
mod Tests
use osass.Base.{
  String, ℕ, zero, suc, ◌+◌, ◌-◌, ◌*◌, ◌/◌, ◌%◌, ◌^◌, ◌≤◌, ◌<◌, Bool, true, false, not, ◌&&◌, ◌||◌,
  ◌==◌, ltb, leb, if◌then◌else◌, Option, none, some, Memory, Outcome, ok, panic, panic_if, ◌>>=◌,
  ◌>>◌,
}
use osass.Base.Int.{ℤ, pos, negsuc}
use osass.Base.Words.{get16, put16}
use osass.Str.{strncmp, strncpy}
use osass.Path.{dirsiz}
use osass.Image.{Image}
use osass.Inode.{Inode, Result, fails, device, count, readi, writei}
use osass.Icache.{Entry, Icache, Run, done, asleep, iget, iput}

-- T_DIR and sizeof(struct dirent)
abbrev pub t_dir : ℕ
t_dir = 1

abbrev pub de_size : ℕ
de_size = 16

abbrev pub is_zero : ℤ → Bool
is_zero (pos n) = n == 0
is_zero (negsuc n) = false

abbrev pub is_count : ℕ → Result → Bool
is_count n (count c) = c == n
is_count n fails = false
is_count n device = false

pub namecmp : Memory → ℕ → ℕ → ℤ
namecmp m s t = strncmp m s t dirsiz

-- What the code of a directory works on: the memory, the directory and the disk.
pub record Place : Type 0 where
  pub mem : Memory
  pub dp : Inode
  pub img : Image

-- `readi(dp, (char*)&de, off, sizeof(de))`, which has to give a whole entry.
pub read_entry : String → (ℕ → Bool) → ℕ → ℕ → Place → Outcome Place
read_entry text devices de off p =
    readi devices de off de_size p.mem p.dp p.img >>= λ (r, mem, dp, img).
    panic_if (not (is_count de_size r)) text >> ok (record { mem = mem; dp = dp; img = img })

-- The loop of `dirlookup`, with fuel: where the entry is and its inode number.
pub lookup_loop : ℕ → (ℕ → Bool) → ℕ → ℕ → ℕ → Place → Outcome (Option (ℕ × ℕ) × Place)
lookup_loop zero devices de name off p = ok (none, p)
lookup_loop (suc fuel) devices de name off p =
    if ltb off p.dp.size
    then (read_entry "dirlookup read" devices de off p >>= λ p.
        (let more = lookup_loop fuel devices de name (off + de_size) p in
          if get16 p.mem de == 0
          then more
          else if is_zero (namecmp p.mem name (de + 2))
          then ok (some (off, get16 p.mem de), p)
          else more))
    else ok (none, p)

-- What `dirlookup` has found: the entry of the inode cache, and where the directory entry is.
abbrev pub Looked : Type 0
Looked = Option (ℕ × ℕ)

-- `iget` of what the loop found.
pub get_found : Option (ℕ × ℕ) → Icache → Place → Outcome (Looked × Icache × Place)
get_found none c p = ok (none, c, p)
get_found (some (off, inum)) c p = iget p.dp.dev inum c >>= λ (i, c). ok (some (i, off), c, p)

pub dirlookup : (ℕ → Bool) → ℕ → ℕ → Icache → Place → Outcome (Looked × Icache × Place)
dirlookup devices de name c p =
    panic_if (not (p.dp.type == t_dir)) "dirlookup not DIR"
    >> lookup_loop (p.dp.size / de_size + 1) devices de name 0 p
    >>= λ (f, p). get_found f c p

-- The loop of `dirlink`, with fuel: where to put an entry.
pub empty_loop : ℕ → (ℕ → Bool) → ℕ → ℕ → Place → Outcome (ℕ × Place)
empty_loop zero devices de off p = ok (off, p)
empty_loop (suc fuel) devices de off p =
    if ltb off p.dp.size
    then (read_entry "dirlink read" devices de off p >>= λ p.
        (let more = empty_loop fuel devices de (off + de_size) p in
          if get16 p.mem de == 0 then ok (off, p) else more))
    else ok (off, p)

-- The end of `dirlink`: the entry is filled in, and written.
pub write_link : (ℕ → Bool) → ℕ → ℕ → ℕ → ℕ → Place → Outcome Place
write_link devices de name inum off p =
    let mem = put16 (strncpy dirsiz (de + 2) name p.mem) de inum in
    writei devices de off de_size mem p.dp p.img >>= λ (r, dp, img).
    panic_if (not (is_count de_size r)) "dirlink" >> ok (record { mem = mem; dp = dp; img = img })

-- `dirlink` where the name is not there.
pub add_link : (ℕ → Bool) → ℕ → ℕ → ℕ → Place → Outcome Place
add_link devices de name inum p =
    empty_loop (p.dp.size / de_size + 1) devices de 0 p >>= λ (off, p).
    write_link devices de name inum off p

-- `dirlink` by the process `me`; -1 and 0 are its results.
pub dirlink : ℕ → (ℕ → Bool) → ℕ → ℕ → ℕ → Icache → Place → Outcome (Run (ℤ × Icache × Place))
dirlink me devices de name inum c p = dirlookup devices de name c p >>= λ (f, c, p). elim f [
  | none ↦ add_link devices de name inum p >>= λ p. ok (done (pos 0, c, p))
  | some (i, off) ↦ iput me i c p.img >>= λ r. elim r [
    | done (c, img) ↦ ok (done (negsuc 0, c, record p { img = img }))
    | asleep c ↦ ok (asleep c)
  ]
]
