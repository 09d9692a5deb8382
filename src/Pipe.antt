-- ===== src/Pipe.antt =====
-- pipe.c: a pipe's ring of bytes with 32-bit counters, and the calls that use it. A call runs until
-- it returns or goes to sleep; one that sleeps has given up the lock, and goes on by a call of its
-- own when it is woken. Channels to wake are collected in order. `myproc()->killed` is an argument
-- of each run.
pub mod Window
pub mod Write
pub mod Read
pub mod Stream
mod Tests
use osass.Base.{
  ℕ, zero, suc, ◌+◌, ◌%◌, ◌^◌, Bool, true, false, ◌&&◌, ◌||◌, not, List, [], ◌∷◌, ◌==◌,
  if◌then◌else◌, Memory, write, Outcome, ok, panic, ◌>>=◌,
}
use osass.Lock.Held.{take_lock, drop_lock}

-- PIPESIZE
abbrev pub pipe_size : ℕ
pipe_size = 512

-- The values of a `uint`.
abbrev pub u32 : ℕ
u32 = 2 ^ 32

-- `struct pipe`: `lock` is whether this CPU has the lock.
pub record Pipe : Type 0 where
  pub lock : Bool
  pub bytes : Memory
  pub nread : ℕ
  pub nwrite : ℕ
  pub readopen : Bool
  pub writeopen : Bool

-- `&p->nread` and `&p->nwrite` as sleep channels.
pub data Chan : Type 0 where
  readers writers : Chan

-- How a run of a call ends, with the channels that it woke. `fails` is the return of -1; `sleeps`
-- names the channel and what the call goes on with.
pub data Run {ℓ κ} (Reply : Type ℓ) (Rest : Type κ) : Type (ℓ ⊔ κ) where
  returns : Reply → Pipe → List Chan → Run Reply Rest
  fails : Pipe → List Chan → Run Reply Rest
  sleeps : Chan → Rest → Pipe → List Chan → Run Reply Rest

-- What `pipealloc` sets in a fresh page.
pub fresh : Memory → Pipe
fresh page = record {
  lock = false;
  bytes = page;
  nread = 0;
  nwrite = 0;
  readopen = true;
  writeopen = true;
}

abbrev pub is_full : Pipe → Bool
is_full p = p.nwrite == (p.nread + pipe_size) % u32

abbrev pub is_empty : Pipe → Bool
is_empty p = p.nread == p.nwrite

-- `p->data[p->nwrite++ % PIPESIZE] = b`
pub put : Pipe → ℕ → Pipe
put p b = record p { bytes = write p.bytes (p.nwrite % pipe_size) b; nwrite = (p.nwrite + 1) % u32 }

-- `p->data[p->nread++ % PIPESIZE]`
pub get : Pipe → ℕ × Pipe
get p = (p.bytes (p.nread % pipe_size), record p { nread = (p.nread + 1) % u32 })

pub lock_pipe : Pipe → Outcome Pipe
lock_pipe p = take_lock p.lock >>= λ l. ok (record p { lock = l })

-- `release(&p->lock)`, and then what the call ends with.
pub unlock {ℓ} : {A : Type ℓ} → Pipe → (Pipe → A) → Outcome A
unlock p end_with = drop_lock p.lock >>= λ l. ok (end_with (record p { lock = l }))

-- The loop of `pipewrite` over the bytes that are left, entered with the lock held; `n` is what it
-- returns. A full pipe fails if no reader is left or the process is killed, else it sleeps.
pub write_loop : ℕ → Bool → Pipe → List ℕ → Outcome (Run ℕ (List ℕ))
unfolding unlock
write_loop n killed p [] = unlock p (λ q. returns n q (readers ∷ []))
write_loop n killed p (b ∷ rest) =
    let more = write_loop n killed (put p b) rest in
    if is_full p
    then if not p.readopen || killed
      then unlock p (λ q. fails q [])
      else unlock p (λ q. sleeps writers (b ∷ rest) q (readers ∷ []))
    else more

-- `pipewrite` from its start, and again from each wake-up with the bytes that are left.
pub pipewrite : ℕ → Bool → Pipe → List ℕ → Outcome (Run ℕ (List ℕ))
unfolding lock_pipe
pipewrite n killed p src = lock_pipe p >>= λ q. write_loop n killed q src

-- `for(i = 0; i < n; i++)` of `piperead`: the bytes that reach `addr`.
pub copy_loop : ℕ → Pipe → List ℕ × Pipe
copy_loop zero p = ([], p)
copy_loop (suc n) p =
    let (b, q) = get p in let (bs, r) = copy_loop n q in if is_empty p then ([], p) else (b ∷ bs, r)

-- `piperead`, from its start and from each wake-up: it sleeps on an empty pipe with a writer. Its
-- reply is what it copied, whose length the code returns.
pub piperead : ℕ → Bool → Pipe → Outcome (Run (List ℕ) ℕ)
unfolding lock_pipe unlock
piperead n killed p = lock_pipe p >>= λ q.
    if is_empty q && q.writeopen
    then if killed then unlock q (λ r. fails r []) else unlock q (λ r. sleeps readers n r [])
    else let (bs, q') = copy_loop n q in unlock q' (λ r. returns bs r (writers ∷ []))

-- `pipeclose` of one end: whether the page was freed, and the channel woken.
pub pipeclose : Pipe → Bool → Outcome (Bool × Pipe × List Chan)
unfolding lock_pipe unlock
pipeclose p writable = lock_pipe p >>= λ q.
    let c = if writable then record q { writeopen = false } else record q { readopen = false } in
    let woken = if writable then readers else writers in
    unlock c (λ r. (not c.readopen && not c.writeopen, r, woken ∷ []))
