-- ===== src/Inode/Dinode.antt =====
-- fs.c: what `iupdate` writes, `ilock` reads.
use osass.Base.{
  ℕ, zero, suc, ◌+◌, ◌*◌, ◌%◌, ◌^◌, ◌≤◌, ◌<◌, ◌≡◌, ◌≢◌, refl, sym, subst, ◌∙◌, true, false, ◌==◌,
  if◌then◌else◌, ==→eq, ==_false→ne, eq→==, Bool-cases, inl, inr, ◌⊎◌, arith, Memory, Outcome, ok,
  panic,
}
use osass.Base.Words.{
  get16, put16, get32, put32, get16-put16_self, get16-put16_apart, get16-put32_apart,
  get32-put32_self, get32-put32_apart, put32_bytes, put16_bytes,
}
use osass.Log.Blocks.{at}
use osass.Image.{Image}
use osass.Inode.{
  Inode, ndirect, ipb, iblock, put_words, put_dinode, iupdate, get_dinode, load_inode,
}

put_words_bytes : (m : Memory) (o : ℕ) (f : ℕ → ℕ) (n x : ℕ) → m x < 256 → put_words m o f n x < 256
unfolding put_words
put_words_bytes m o f zero x h = h
put_words_bytes m o f (suc n) x h =
    put32_bytes (put_words m o f n) (o + 4 * n) (f n) x (put_words_bytes m o f n x h)

pub put_dinode_bytes : (m : Memory) (o x : ℕ) (ip : Inode) → m x < 256 → put_dinode m o ip x < 256
unfolding put_dinode
put_dinode_bytes m o x ip h = put_words_bytes _ (o + 12) ip.addrs (ndirect + 1) x (
    put32_bytes _ (o + 8) ip.size x (
      put16_bytes _ (o + 6) ip.nlink x (
        put16_bytes _ (o + 4) ip.minor x
          (put16_bytes _ (o + 2) ip.major x (put16_bytes m o ip.type x h)))))

get32-put_words :
    (m : Memory) (o : ℕ) (f : ℕ → ℕ) (n k : ℕ)
    → k < n
    → ((i : ℕ) → i < n → f i < 2 ^ 32)
    → get32 (put_words m o f n) (o + 4 * k) ≡ f k
unfolding put_words
get32-put_words m o f zero k l h = absurd (omega arith)
get32-put_words m o f (suc n) k l h = elim (Bool-cases (k == n)) [
  | inl e ↦
      subst (λ k. get32 (put32 (put_words m o f n) (o + 4 * n) (f n)) (o + 4 * k) ≡ f k)
        (sym (==→eq k n e))
        (get32-put32_self (put_words m o f n) (o + 4 * n) (f n) (h n (omega arith)))
  | inr e ↦
      get32-put32_apart (put_words m o f n) (o + 4 * n) (o + 4 * k) (f n) (ground (arith, e))
      ∙ get32-put_words m o f n k (ground (arith, e)) (λ i p. h i (omega arith))
]

get16-put_words :
    (m : Memory) (o : ℕ) (f : ℕ → ℕ) (n p : ℕ) → p + 2 ≤ o → get16 (put_words m o f n) p ≡ get16 m p
unfolding put_words
get16-put_words m o f zero p l = refl
get16-put_words m o f (suc n) p l =
    get16-put32_apart (put_words m o f n) (o + 4 * n) p (f n) (inl (omega arith))
    ∙ get16-put_words m o f n p l

below-put_words :
    (m : Memory) (o : ℕ) (f : ℕ → ℕ) (n p : ℕ) → p + 4 ≤ o → get32 (put_words m o f n) p ≡ get32 m p
unfolding put_words
below-put_words m o f zero p l = refl
below-put_words m o f (suc n) p l =
    get32-put32_apart (put_words m o f n) (o + 4 * n) p (f n) (inl (omega arith))
    ∙ below-put_words m o f n p l

put_words_outside :
    (m : Memory) (o : ℕ) (f : ℕ → ℕ) (n x : ℕ)
    → (x < o) ⊎ (o + 4 * n ≤ x)
    → put_words m o f n x ≡ m x
unfolding put_words put32
put_words_outside m o f zero x h = refl
put_words_outside m o f (suc n) x h = elim h [
  | inl l ↦ ground (arith, l, put_words_outside m o f n x (inl l))
  | inr l ↦ ground (arith, l, put_words_outside m o f n x (inr (omega (arith, l))))
]

-- Only the 64 bytes of the inode change.
pub put_dinode_outside :
    (m : Memory) (o x : ℕ) (ip : Inode) → (x < o) ⊎ (o + 64 ≤ x) → put_dinode m o ip x ≡ m x
unfolding put_dinode put16 put32
put_dinode_outside m o x ip h = elim h [
  | inl l ↦
      put_words_outside _ (o + 12) ip.addrs (ndirect + 1) x (inl (omega (arith, l)))
      ∙ ground (arith, l)
  | inr l ↦
      put_words_outside _ (o + 12) ip.addrs (ndirect + 1) x (inr (omega (arith, l)))
      ∙ ground (arith, l)
]

-- The fields of an inode hold what their C types can.
pub record Narrow (ip : Inode) : Type 0 where
  pub type_short : ip.type < 2 ^ 16
  pub major_short : ip.major < 2 ^ 16
  pub minor_short : ip.minor < 2 ^ 16
  pub nlink_short : ip.nlink < 2 ^ 16
  pub size_uint : ip.size < 2 ^ 32
  pub addrs_uint : (k : ℕ) → k < 13 → ip.addrs k < 2 ^ 32

-- The fields that the disk holds are the same in both.
pub record SameFields (a b : Inode) : Type 0 where
  pub same_type : a.type ≡ b.type
  pub same_major : a.major ≡ b.major
  pub same_minor : a.minor ≡ b.minor
  pub same_nlink : a.nlink ≡ b.nlink
  pub same_size : a.size ≡ b.size
  pub same_addrs : (k : ℕ) → k < 13 → a.addrs k ≡ b.addrs k

pub type-put_dinode :
    (m : Memory) (o : ℕ) (ip : Inode) → ip.type < 2 ^ 16 → get16 (put_dinode m o ip) o ≡ ip.type
unfolding put_dinode
type-put_dinode m o ip w =
    let a = put16 m o ip.type in
    let b = put16 a (o + 2) ip.major in
    let c = put16 b (o + 4) ip.minor in
    let d = put16 c (o + 6) ip.nlink in
    get16-put_words (put32 d (o + 8) ip.size) (o + 12) ip.addrs (ndirect + 1) o (omega arith)
    ∙ get16-put32_apart d (o + 8) o ip.size (inl (omega arith))
    ∙ get16-put16_apart c (o + 6) o ip.nlink (inl (omega arith))
    ∙ get16-put16_apart b (o + 4) o ip.minor (inl (omega arith))
    ∙ get16-put16_apart a (o + 2) o ip.major (inl (omega arith))
    ∙ get16-put16_self m o ip.type w

get_dinode-put_dinode :
    (m : Memory) (o : ℕ) (ip old : Inode)
    → Narrow ip
    → SameFields (get_dinode (put_dinode m o ip) o old) ip
unfolding get_dinode put_dinode
get_dinode-put_dinode m o ip old w =
    let a = put16 m o ip.type in
    let b = put16 a (o + 2) ip.major in
    let c = put16 b (o + 4) ip.minor in
    let d = put16 c (o + 6) ip.nlink in
    let e = put32 d (o + 8) ip.size in
    let short = λ (p : ℕ) (l : p + 2 ≤ o + 8).
      get16-put_words e (o + 12) ip.addrs (ndirect + 1) p (omega arith)
      ∙ get16-put32_apart d (o + 8) p ip.size (inl l) in
    record {
      same_type = type-put_dinode m o ip w.type_short;
      same_major =
          short (o + 2) (omega arith)
          ∙ get16-put16_apart c (o + 6) (o + 2) ip.nlink (inl (omega arith))
          ∙ get16-put16_apart b (o + 4) (o + 2) ip.minor (inl (omega arith))
          ∙ get16-put16_self a (o + 2) ip.major w.major_short;
      same_minor =
          short (o + 4) (omega arith)
          ∙ get16-put16_apart c (o + 6) (o + 4) ip.nlink (inl (omega arith))
          ∙ get16-put16_self b (o + 4) ip.minor w.minor_short;
      same_nlink = short (o + 6) (omega arith) ∙ get16-put16_self c (o + 6) ip.nlink w.nlink_short;
      same_size =
          below-put_words e (o + 12) ip.addrs (ndirect + 1) (o + 8) (omega arith)
          ∙ get32-put32_self d (o + 8) ip.size w.size_uint;
      same_addrs = λ k l. get32-put_words e (o + 12) ip.addrs (ndirect + 1) k l w.addrs_uint;
    }

-- How the reading of `ilock` ends for an inode that is written as `ip`.
abbrev pub LoadEnds : Inode → Outcome Inode → Type 0
LoadEnds ip (panic text) = ip.type ≡ 0
LoadEnds ip (ok l) = SameFields l ip × (l.valid ≡ true) × (ip.type ≢ 0)

LoadEnds-loaded :
    (ip l : Inode)
    → SameFields l ip
    → LoadEnds ip (if l.type == 0 then panic "ilock: no type" else ok (record l { valid = true }))
LoadEnds-loaded ip l s = elim (Bool-cases (l.type == 0)) [
  | inl e ↦ rw (e, LoadEnds) (sym s.same_type ∙ ==→eq _ _ e)
  | inr e ↦
      let again : SameFields (record l { valid = true }) ip = record {
        same_type = s.same_type;
        same_major = s.same_major;
        same_minor = s.same_minor;
        same_nlink = s.same_nlink;
        same_size = s.same_size;
        same_addrs = s.same_addrs;
      } in
      rw (e, LoadEnds) (again, refl, λ z. ==_false→ne _ _ e (s.same_type ∙ z))
]

-- What `iupdate` writes of an inode whose fields fit, `ilock` of its number reads back into an inode that
-- is not valid: every field is the same, unless the type is 0, where it panics.
pub load_inode-iupdate :
    (ip old : Inode) (img : Image)
    → Narrow ip
    → old.inum ≡ ip.inum
    → old.valid ≡ false
    → LoadEnds ip (load_inode old (iupdate ip img))
unfolding load_inode iupdate
load_inode-iupdate ip old img w e v =
    let o = ip.inum % ipb * 64 in
    let b = iblock ip.inum img.sb in
    let m = put_dinode (img.block b) o ip in
    let again : Inode = record old { inum = ip.inum; valid = false } in
    let s = get_dinode-put_dinode (img.block b) o ip again w in
    let here : at b m img.block (iblock old.inum img.sb) ≡ m = rw (e, eq→== b b refl) refl in
    rw (v, here, e) (LoadEnds-loaded ip (get_dinode m o again) s)
