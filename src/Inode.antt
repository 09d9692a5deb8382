-- ===== src/Inode.antt =====
-- fs.c: the content of one locked inode, in the blocks of the file system. Its copy in memory, and what
-- `bmap`, `itrunc`, `readi` and `writei` do with its block numbers; a 16-bit field keeps its bits, so that
-- a negative `short` is 2 ^ 15 or more.
pub mod Slots
pub mod Grow
pub mod Fresh
pub mod Mapping
pub mod Store
pub mod Write
pub mod Dinode
pub mod Size
pub mod Read
pub mod Owns
pub mod Trunc
pub mod Emptied
pub mod Truncated
pub mod Sample
mod Tests
use osass.Base.{
  ℕ, zero, suc, ◌+◌, ◌-◌, ◌*◌, ◌/◌, ◌%◌, ◌^◌, ◌≤◌, ◌<◌, Bool, true, false, not, ◌&&◌, ◌||◌, ◌==◌,
  ltb, leb, in_range, if◌then◌else◌, Memory, min, Outcome, ok, panic, ◌>>=◌, ◌>>◌,
}
use osass.Base.Words.{get16, put16, get32, put32}
use osass.Log.Blocks.{at}
use osass.Image.{bsize, Super, Image, update_block, balloc, bfree}

-- NDIRECT, NINDIRECT and MAXFILE
abbrev pub ndirect : ℕ
ndirect = 12

abbrev pub nindirect : ℕ
nindirect = 128

abbrev pub maxfile : ℕ
maxfile = 140

-- T_DEV and NDEV
abbrev pub t_dev : ℕ
t_dev = 3

abbrev pub ndev : ℕ
ndev = 10

-- `struct inode`, without its lock and its count.
pub record Inode : Type 0 where
  pub dev : ℕ
  pub inum : ℕ
  pub valid : Bool
  pub type : ℕ
  pub major : ℕ
  pub minor : ℕ
  pub nlink : ℕ
  pub size : ℕ
  pub addrs : ℕ → ℕ

abbrev pub set_addr : ℕ → ℕ → Inode → Inode
set_addr k a ip = record ip { addrs = at k a ip.addrs }

-- `if((addr = ip->addrs[k]) == 0) ip->addrs[k] = addr = balloc(ip->dev);`
pub direct : ℕ → Inode → Image → Outcome (ℕ × Inode × Image)
direct k ip img =
    if ip.addrs k == 0
    then (balloc img >>= λ (a, j). ok (a, set_addr k a ip, j))
    else ok (ip.addrs k, ip, img)

-- The entry `k` of the indirect block `b`.
pub indirect : ℕ → ℕ → Inode → Image → Outcome (ℕ × Inode × Image)
indirect b k ip img =
    if get32 (img.block b) (4 * k) == 0
    then (balloc img >>= λ (a, j). ok (a, ip, update_block b (put32 (j.block b) (4 * k) a) j))
    else ok (get32 (img.block b) (4 * k), ip, img)

pub bmap : ℕ → Inode → Image → Outcome (ℕ × Inode × Image)
bmap bn ip img =
    if ltb bn ndirect
    then direct bn ip img
    else if ltb (bn - ndirect) nindirect
    then (direct ndirect ip img >>= λ (b, ip, img). indirect b (bn - ndirect) ip img)
    else panic "bmap: out of range"

-- IPB and IBLOCK
abbrev pub ipb : ℕ
ipb = 8

abbrev pub iblock : ℕ → Super → ℕ
iblock i sb = i / ipb + sb.inodestart

-- `n` words of the array `f`, stored from `o` on.
pub put_words : Memory → ℕ → (ℕ → ℕ) → ℕ → Memory
put_words m o f zero = m
put_words m o f (suc n) = put32 (put_words m o f n) (o + 4 * n) (f n)

-- The fields of `struct dinode` at `o`, as `iupdate` fills them in.
pub put_dinode : Memory → ℕ → Inode → Memory
put_dinode m o ip =
    let fields =
      put16 (put16 (put16 (put16 m o ip.type) (o + 2) ip.major) (o + 4) ip.minor) (o + 6)
        ip.nlink in
    put_words (put32 fields (o + 8) ip.size) (o + 12) ip.addrs (ndirect + 1)

pub iupdate : Inode → Image → Image
iupdate ip img =
    let b = iblock ip.inum img.sb in
    update_block b (put_dinode (img.block b) (ip.inum % ipb * 64) ip) img

-- What `ilock` reads into an inode that is not valid.
pub get_dinode : Memory → ℕ → Inode → Inode
get_dinode m o ip = record ip {
  type = get16 m o;
  major = get16 m (o + 2);
  minor = get16 m (o + 4);
  nlink = get16 m (o + 6);
  size = get32 m (o + 8);
  addrs = λ k. get32 m (o + 12 + 4 * k);
}

-- `ilock`, once it has the sleep lock.
pub load_inode : Inode → Image → Outcome Inode
load_inode ip img =
    if ip.valid
    then ok ip
    else (let l = get_dinode (img.block (iblock ip.inum img.sb)) (ip.inum % ipb * 64) ip in
        if l.type == 0 then panic "ilock: no type" else ok (record l { valid = true }))

-- The first loop of `itrunc`, with `r` rounds to go.
pub free_direct : ℕ → ℕ → Inode → Image → Outcome (Inode × Image)
free_direct zero i ip img = ok (ip, img)
free_direct (suc r) i ip img =
    (if ip.addrs i == 0
      then ok (ip, img)
      else (bfree (ip.addrs i) img >>= λ j. ok (set_addr i 0 ip, j)))
    >>= λ (ip, img). free_direct r (i + 1) ip img

-- The second: the entries of the indirect block `b`.
pub free_indirect : ℕ → ℕ → ℕ → Image → Outcome Image
free_indirect b zero j img = ok img
free_indirect b (suc r) j img =
    (if get32 (img.block b) (4 * j) == 0 then ok img else bfree (get32 (img.block b) (4 * j)) img)
    >>= λ img. free_indirect b r (j + 1) img

pub itrunc : Inode → Image → Outcome (Inode × Image)
itrunc ip img = free_direct ndirect 0 ip img >>= λ (ip, img).
    (if ip.addrs ndirect == 0
      then ok (ip, img)
      else (free_indirect (ip.addrs ndirect) nindirect 0 img >>= λ img.
          bfree (ip.addrs ndirect) img >>= λ img. ok (set_addr ndirect 0 ip, img)))
    >>= λ (ip, img). (let e = record ip { size = 0 } in ok (e, iupdate e img))

-- `memmove` of `n` bytes at `s` of one object to `d` of another.
abbrev pub copy_between : Memory → ℕ → Memory → ℕ → ℕ → Memory
copy_between m d from s n a = if in_range d n a then from (s + (a - d)) else m a

-- How `readi` and `writei` end: -1, a count, or with what the device's function returns.
pub data Result : Type 0 where
  fails device : Result
  count : ℕ → Result

-- The loop of `readi`, with fuel.
pub read_loop : ℕ → ℕ → ℕ → ℕ → ℕ → Memory → Inode → Image → Outcome (Memory × Inode × Image)
read_loop zero tot n off dst mem ip img = ok (mem, ip, img)
read_loop (suc fuel) tot n off dst mem ip img =
    if ltb tot n
    then (bmap (off / bsize) ip img >>= λ (b, ip, img).
        (let m = min (n - tot) (bsize - off % bsize) in
          read_loop fuel (tot + m) n (off + m) (dst + m)
            (copy_between mem dst (img.block b) (off % bsize) m) ip img))
    else ok (mem, ip, img)

-- `devices` are the major numbers that have a function in `devsw`.
pub readi :
    (ℕ → Bool) → ℕ → ℕ → ℕ → Memory → Inode → Image → Outcome (Result × Memory × Inode × Image)
readi devices dst off n mem ip img =
    if ip.type == t_dev
    then (if leb (2 ^ 15) ip.major || leb ndev ip.major || not (devices ip.major)
        then ok (fails, mem, ip, img)
        else ok (device, mem, ip, img))
    else if ltb ip.size off || ltb ((off + n) % 2 ^ 32) off
    then ok (fails, mem, ip, img)
    else (let k = if ltb ip.size ((off + n) % 2 ^ 32) then ip.size - off else n in
        read_loop k 0 k off dst mem ip img >>= λ (mem, ip, img). ok (count k, mem, ip, img))

-- The loop of `writei`, with fuel; it leaves `off` behind the last byte.
pub write_loop : ℕ → ℕ → ℕ → ℕ → ℕ → Memory → Inode → Image → Outcome (ℕ × Inode × Image)
write_loop zero tot n off src mem ip img = ok (off, ip, img)
write_loop (suc fuel) tot n off src mem ip img =
    if ltb tot n
    then (bmap (off / bsize) ip img >>= λ (b, ip, img).
        (let m = min (n - tot) (bsize - off % bsize) in
          write_loop fuel (tot + m) n (off + m) (src + m) mem ip
            (update_block b (copy_between (img.block b) (off % bsize) mem src m) img)))
    else ok (off, ip, img)

-- The end of `writei`: a file that has grown has its size written back.
pub grow_size : ℕ → ℕ → Inode → Image → Inode × Image
grow_size n off ip img =
    let e = record ip { size = off } in
    if ltb 0 n && ltb ip.size off then (e, iupdate e img) else (ip, img)

pub writei : (ℕ → Bool) → ℕ → ℕ → ℕ → Memory → Inode → Image → Outcome (Result × Inode × Image)
writei devices src off n mem ip img =
    if ip.type == t_dev
    then (if leb (2 ^ 15) ip.major || leb ndev ip.major || not (devices ip.major)
        then ok (fails, ip, img)
        else ok (device, ip, img))
    else if ltb ip.size off
        || ltb ((off + n) % 2 ^ 32) off
        || ltb (maxfile * bsize) ((off + n) % 2 ^ 32)
    then ok (fails, ip, img)
    else (write_loop n 0 n off src mem ip img >>= λ (o, ip, img).
        (let (ip, img) = grow_size n o ip img in ok (count n, ip, img)))

-- `struct stat`
pub record Stat : Type 0 where
  pub type : ℕ
  pub dev : ℕ
  pub ino : ℕ
  pub nlink : ℕ
  pub size : ℕ

-- What `stati` fills in.
pub stati : Inode → Stat
stati ip = record { type = ip.type; dev = ip.dev; ino = ip.inum; nlink = ip.nlink; size = ip.size }
