-- ===== src/Icache.antt =====
-- fs.c: the cache of inodes in memory, and the table of inodes on the disk. `lk` is whether icache.lock
-- is held, a pointer to an inode is its index, and a run of a call ends where it sleeps. Whom
-- `releasesleep` wakes is no part of the cache, and left to Sleeplock.
pub mod Get
pub mod Put
mod Tests
use osass.Base.{
  ℕ, zero, suc, ◌+◌, ◌-◌, ◌*◌, ◌/◌, ◌%◌, ◌^◌, ◌≤◌, ◌<◌, Bool, true, false, not, ◌&&◌, ◌||◌, ◌==◌,
  ltb, leb, if◌then◌else◌, Option, none, some, Memory, Outcome, ok, panic, panic_if, ◌>>=◌, ◌>>◌,
}
use osass.Base.Words.{get16, put16}
use osass.Lock.Held.{take_lock, drop_lock}
use osass.Log.Blocks.{at}
use osass.Sleeplock.{
  Sleeplock, initsleeplock, taken, waits, acquiresleep, releasesleep, holdingsleep,
}
use osass.Str.{memset}
use osass.Image.{Image, update_block, readsb}
use osass.Inode.{Inode, ipb, iblock, iupdate, load_inode, itrunc}

-- NINODE
abbrev pub ninode : ℕ
ninode = 50

-- `struct inode` with its lock and its count.
pub record Entry : Type 0 where
  pub ref : ℕ
  pub lock : Sleeplock
  pub inode : Inode

-- `icache`
pub record Icache : Type 0 where
  pub lk : Bool
  pub slot : ℕ → Entry

abbrev pub set_entry : ℕ → Entry → Icache → Icache
set_entry i e c = record c { slot = at i e c.slot }

-- How the loop of `iget` ends: at an entry for the inode, or with the first free one, if any.
pub data Search : Type 0 where
  found : ℕ → Search
  absent : Option ℕ → Search

abbrev pub keep_first : Option ℕ → ℕ → Bool → Option ℕ
keep_first (some e) i b = some e
keep_first none i b = if b then some i else none

abbrev pub is_entry : ℕ → ℕ → Entry → Bool
is_entry dev inum e = ltb 0 e.ref && (e.inode.dev == dev) && (e.inode.inum == inum)

-- With `r` rounds to go.
pub search : Icache → ℕ → ℕ → ℕ → ℕ → Option ℕ → Search
search c dev inum zero i empty = absent empty
search c dev inum (suc r) i empty =
    let more = search c dev inum r (i + 1) (keep_first empty i ((c.slot i).ref == 0)) in
    if is_entry dev inum (c.slot i) then found i else more

pub recycle : ℕ → ℕ → Entry → Entry
recycle dev inum e = record e {
  ref = 1;
  inode = record e.inode { dev = dev; inum = inum; valid = false };
}

-- What `iget` does after its loop; `h` is the flag of the lock.
pub settle : ℕ → ℕ → Icache → Bool → Search → Outcome (ℕ × Icache)
settle dev inum c h (found i) =
    let e = c.slot i in
    drop_lock h >>= λ g. ok (i, set_entry i (record e { ref = e.ref + 1 }) (record c { lk = g }))
settle dev inum c h (absent none) = panic "iget: no inodes"
settle dev inum c h (absent (some i)) =
    drop_lock h >>= λ g. ok (i, set_entry i (recycle dev inum (c.slot i)) (record c { lk = g }))

pub iget : ℕ → ℕ → Icache → Outcome (ℕ × Icache)
iget dev inum c = take_lock c.lk >>= λ h. settle dev inum c h (search c dev inum ninode 0 none)

pub idup : ℕ → Icache → Outcome (ℕ × Icache)
idup i c = take_lock c.lk >>= λ h.
    let e = c.slot i in
    drop_lock h >>= λ g. ok (i, set_entry i (record e { ref = e.ref + 1 }) (record c { lk = g }))

-- `iinit`, after the locks have been initialised to what they were: with `n` of them to go.
pub init_locks : ℕ → (ℕ → Entry) → ℕ → Entry
init_locks zero slot = slot
init_locks (suc n) slot = init_locks n (at n (record (slot n) { lock = initsleeplock }) slot)

pub iinit : Icache → Image → Icache × Image
iinit c img =
    (record { lk = false; slot = init_locks ninode c.slot }, record img { sb = readsb img })

-- A call that may sleep on the lock of an inode.
pub data Run {ℓ} (A : Type ℓ) : Type ℓ where
  done : A → Run A
  asleep : Icache → Run A

-- `ip` is no entry where the pointer is null.
pub ilock : ℕ → Option ℕ → Icache → Image → Outcome (Run Icache)
ilock me none c img = panic "ilock"
ilock me (some i) c img =
    let e = c.slot i in
    panic_if (ltb e.ref 1) "ilock" >> acquiresleep me e.lock >>= λ a. elim a [
      | waits l ↦ ok (asleep (set_entry i (record e { lock = l }) c))
      | taken l ↦ load_inode e.inode img >>= λ ip.
          ok (done (set_entry i (record e { lock = l; inode = ip }) c))
    ]

pub iunlock : ℕ → Option ℕ → Icache → Outcome Icache
iunlock me none c = panic "iunlock"
iunlock me (some i) c =
    let e = c.slot i in
    holdingsleep me e.lock >>= λ (mine, l).
    panic_if (not mine || ltb e.ref 1) "iunlock" >> releasesleep l >>= λ (calls, l).
    ok (set_entry i (record e { lock = l }) c)

-- The part of `iput` that frees the inode on the disk, if it is to go.
pub free_inode : Entry → Image → Outcome (Inode × Image)
free_inode e img =
    let ip = e.inode in
    if ip.valid && (ip.nlink == 0) && (e.ref == 1)
    then (itrunc ip img >>= λ (ip, img).
        (let gone = record ip { type = 0 } in ok (record gone { valid = false }, iupdate gone img)))
    else ok (ip, img)

pub iput : ℕ → ℕ → Icache → Image → Outcome (Run (Icache × Image))
iput me i c img =
    let e = c.slot i in
    acquiresleep me e.lock >>= λ a. elim a [
      | waits l ↦ ok (asleep (set_entry i (record e { lock = l }) c))
      | taken l ↦
          (if e.inode.valid && (e.inode.nlink == 0)
            then (take_lock c.lk >>= λ h. drop_lock h)
            else ok c.lk)
          >>= λ g. free_inode e img >>= λ (ip, img). releasesleep l >>= λ (calls, l).
              take_lock g >>= λ h. drop_lock h >>= λ g. ok (
                done (
                  record {
                    lk = g;
                    slot = at i (record { ref = e.ref - 1; lock = l; inode = ip }) c.slot;
                  },
                  img,
                ))
    ]

pub iunlockput : ℕ → ℕ → Icache → Image → Outcome (Run (Icache × Image))
iunlockput me i c img = iunlock me (some i) c >>= λ c. iput me i c img

-- The loop of `ialloc`, with `r` inodes to go: the first with no type.
pub free_inum : Image → ℕ → ℕ → Option ℕ
free_inum img zero i = none
free_inum img (suc r) i =
    let more = free_inum img r (i + 1) in
    if get16 (img.block (iblock i img.sb)) (i % ipb * 64) == 0 then some i else more

-- `memset(dip, 0, sizeof(*dip)); dip->type = type;`
pub new_dinode : Memory → ℕ → ℕ → Memory
new_dinode m o type = put16 (memset m o 0 64) o type

pub ialloc : ℕ → ℕ → Icache → Image → Outcome (ℕ × Icache × Image)
ialloc dev type c img = elim (free_inum img (img.sb.ninodes - 1) 1) [
  | none ↦ panic "ialloc: no inodes"
  | some i ↦
      let b = iblock i img.sb in
      let j = update_block b (new_dinode (img.block b) (i % ipb * 64) type) img in
      iget dev i c >>= λ (k, c). ok (k, c, j)
]
