-- ===== src/Dir/Stored.antt =====
-- fs.c: the bytes of the entry that `dirlink` writes.
use osass.Base.{
  ℕ, ◌+◌, ◌*◌, ◌%◌, ◌^◌, ◌≤◌, ◌<◌, ◌≡◌, ◌≢◌, refl, ap, ◌∙◌, true, false, in_range, arith, Memory,
}
use osass.Base.Words.{get16, put16, get16-put16_self, put16_bytes}
use osass.Str.{strncpy}
use osass.Str.Compare.{text}
use osass.Str.Copy.{strncpy_lem, text-padded, strncpy_bytes}
use osass.Image.{bsize}
use osass.Inode.{maxfile}
use osass.Inode.Slots.{byte_at}
use osass.Inode.Write.{Stored}
use osass.Path.{dirsiz}
use osass.Dir.{de_size, Place}
use osass.Dir.Entries.{entry_inum, entry_name}
use osass.Dir.Lookup.{NameApart, text_same}

-- The memory with the entry that `dirlink` writes.
abbrev pub entry_mem : ℕ → ℕ → ℕ → Memory → Memory
entry_mem de name inum m = put16 (strncpy dirsiz (de + 2) name m) de inum

pub entry_mem_bytes :
    (de name inum x : ℕ) (m : Memory)
    → NameApart name de
    → ((x : ℕ) → m x < 256)
    → entry_mem de name inum m x < 256
entry_mem_bytes de name inum x m a h =
    put16_bytes (strncpy dirsiz (de + 2) name m) de inum x
      (strncpy_bytes dirsiz (de + 2) name x m (ground (arith, a)) h)

entry_mem_name :
    (de name inum : ℕ) (m : Memory)
    → NameApart name de
    → text (entry_mem de name inum m) (de + 2) dirsiz ≡ text m name dirsiz
unfolding put16
entry_mem_name de name inum m a =
    text-padded dirsiz (de + 2) name m (entry_mem de name inum m)
      (λ i l. ground (arith, strncpy_lem dirsiz (de + 2) name (de + 2 + i) m))

outside :
    (k off i : ℕ)
    → k % de_size ≡ 0
    → off % de_size ≡ 0
    → k ≢ off
    → i < de_size
    → in_range off de_size (k + i) ≡ false
outside k off i y z n b = ground arith

-- The bytes of the entry, once they are stored.
module _ (de name inum off : ℕ) (m : Memory) (p q : Place) (a : NameApart name de)
    (fits : off + de_size ≤ maxfile * bsize)
    (s : Stored de_size off de (entry_mem de name inum m) p.dp p.img q.dp q.img) where
  stored_at :
      (i : ℕ) → i < de_size → byte_at q.dp q.img (off + i) ≡ entry_mem de name inum m (de + i)
  stored_at i l =
      let y : in_range off de_size (off + i) ≡ true = ground arith in
      s (off + i) (omega arith) ∙ rw y (ap (entry_mem de name inum m) (omega arith))

  pub stored_inum : inum < 2 ^ 16 → entry_inum q off ≡ inum
  unfolding get16
  stored_inum l =
      let a0 : byte_at q.dp q.img off ≡ entry_mem de name inum m de =
        ap (byte_at q.dp q.img) (omega arith)
        ∙ stored_at 0 (omega arith)
        ∙ ap (entry_mem de name inum m) (omega arith) in
      let a1 = stored_at 1 (omega arith) in
      let e : entry_mem de name inum m de + entry_mem de name inum m (de + 1) * 2 ^ 8 ≡ inum =
        get16-put16_self (strncpy dirsiz (de + 2) name m) de inum l in
      rw (a0, a1) e

  pub stored_name : entry_name q off ≡ text m name dirsiz
  stored_name =
      text_same dirsiz (byte_at q.dp q.img) (entry_mem de name inum m) (off + 2) (de + 2) (λ i l.
        ap (byte_at q.dp q.img) (omega arith)
        ∙ stored_at (2 + i) (omega arith)
        ∙ ap (entry_mem de name inum m) (omega arith))
      ∙ entry_mem_name de name inum m a

  pub stored_others :
      (k : ℕ)
      → k % de_size ≡ 0
      → off % de_size ≡ 0
      → k ≢ off
      → k + de_size ≤ maxfile * bsize
      → (entry_inum q k ≡ entry_inum p k) × (entry_name q k ≡ entry_name p k)
  unfolding get16
  stored_others k y z n l =
      let apart : (i : ℕ) → i < de_size → byte_at q.dp q.img (k + i) ≡ byte_at p.dp p.img (k + i) =
        λ i b. s (k + i) (omega (arith, b, l)) ∙ rw (outside k off i y z n b) refl in
      let first : byte_at q.dp q.img k ≡ byte_at p.dp p.img k =
        ap (byte_at q.dp q.img) (omega arith)
        ∙ apart 0 (omega arith)
        ∙ ap (byte_at p.dp p.img) (omega arith) in
      (
        ap (λ x. x + byte_at q.dp q.img (k + 1) * 2 ^ 8) first
            ∙ ap (λ x. byte_at p.dp p.img k + x * 2 ^ 8) (apart 1 (omega arith)),
        text_same dirsiz (byte_at q.dp q.img) (byte_at p.dp p.img) (k + 2) (k + 2) (λ i b.
            ap (byte_at q.dp q.img) (omega arith)
            ∙ apart (2 + i) (omega (arith, b))
            ∙ ap (byte_at p.dp p.img) (omega arith)),
      )
