-- ===== src/Sleeplock/Waiters.antt =====
-- sleeplock.c: processes that contend for a lock.
use osass.Base.{
  ℕ, ◌≡◌, refl, sym, ◌∙◌, ap, subst, arith, Bool, true, false, if◌then◌else◌, List, [], ◌∷◌, ok,
}
use osass.Log.Blocks.{at}
use osass.Sleeplock.{
  Sleeplock, Wakeup, wakeup_lk, initsleeplock, taken, waits, acquiresleep, releasesleep,
  holdingsleep,
}

-- The lock, which processes have returned from `acquiresleep` and not called `releasesleep` since, and
-- which are asleep in it.
pub record System : Type 0 where
  pub lock : Sleeplock
  pub inside : ℕ → Bool
  pub asleep : ℕ → Bool

-- Who is still asleep after the calls of `wakeup`: a single one wakes all that sleep on the lock.
abbrev pub left_asleep : List Wakeup → (ℕ → Bool) → ℕ → Bool
left_asleep [] asleep = asleep
left_asleep (x ∷ calls) asleep = λ p. false

pub data Step : System → System → Type 0 where
  takes :
      (s : System) (me : ℕ) (l : Sleeplock)
      → s.asleep me ≡ false
      → acquiresleep me s.lock ≡ ok (taken l)
      → Step s (record s { lock = l; inside = at me true s.inside })
  sleeps :
      (s : System) (me : ℕ) (l : Sleeplock)
      → s.asleep me ≡ false
      → acquiresleep me s.lock ≡ ok (waits l)
      → Step s (record s { lock = l; asleep = at me true s.asleep })
  releases :
      (s : System) (me : ℕ) (calls : List Wakeup) (l : Sleeplock)
      → s.inside me ≡ true
      → releasesleep s.lock ≡ ok (calls, l)
      → Step s
          (record { lock = l; inside = at me false s.inside; asleep = left_asleep calls s.asleep })

pub data Reach : System → Type 0 where
  start : Reach (record { lock = initsleeplock; inside = λ p. false; asleep = λ p. false })
  then_step : (s t : System) → Reach s → Step s t → Reach t

-- The inner lock is free; whoever is inside has the lock under its pid; and nobody sleeps for a lock
-- that is free.
pub record Inv (s : System) : Type 0 where
  pub unlocked : s.lock.lk ≡ false
  pub owner : (p : ℕ) → s.inside p ≡ true → (s.lock.locked ≡ true) × (s.lock.pid ≡ p)
  pub wanted : (p : ℕ) → s.asleep p ≡ true → s.lock.locked ≡ true

pub acquiresleep_lem :
    (me : ℕ) (l : Sleeplock)
    → l.lk ≡ false
    → acquiresleep me l
      ≡ ok (if l.locked then waits l else taken (record { lk = false; locked = true; pid = me }))
unfolding acquiresleep
acquiresleep_lem me l h = ground (arith, h)

init_free : initsleeplock.lk ≡ false
unfolding initsleeplock
init_free = refl

pub releasesleep_lem :
    (l : Sleeplock) → l.lk ≡ false → releasesleep l ≡ ok (wakeup_lk ∷ [], initsleeplock)
unfolding releasesleep initsleeplock
releasesleep_lem l h = ground (arith, h)

taken_lem :
    (me : ℕ) (l m : Sleeplock)
    → l.lk ≡ false
    → acquiresleep me l ≡ ok (taken m)
    → (l.locked ≡ false) × (m ≡ record { lk = false; locked = true; pid = me })
taken_lem me l m h e = ground (arith, acquiresleep_lem me l h, e)

waits_lem :
    (me : ℕ) (l m : Sleeplock)
    → l.lk ≡ false
    → acquiresleep me l ≡ ok (waits m)
    → (l.locked ≡ true) × (m ≡ l)
waits_lem me l m h e = ground (arith, acquiresleep_lem me l h, e)

Step-Inv : (s t : System) → Step s t → Inv s → Inv t
Step-Inv _ _ (takes s me l a e) v =
    let (f, m) = taken_lem me s.lock l v.unlocked e in
    record {
      unlocked = ground (arith, m);
      owner = λ p h. ground (arith, m, h, f, v.owner p);
      wanted = λ p h. ground (arith, m);
    }
Step-Inv _ _ (sleeps s me l a e) v =
    let (f, m) = waits_lem me s.lock l v.unlocked e in
    record {
      unlocked = ground (arith, m, v.unlocked);
      owner = λ p h. ground (arith, m, v.owner p);
      wanted = λ p h. ground (arith, m, f);
    }
Step-Inv _ _ (releases s me calls l a e) v =
    let m : l ≡ initsleeplock = ground (arith, releasesleep_lem s.lock v.unlocked, e) in
    let w : calls ≡ wakeup_lk ∷ [] = ground (arith, releasesleep_lem s.lock v.unlocked, e) in
    record {
      unlocked = ap (λ k. k.lk) m ∙ init_free;
      owner = λ p h. absurd (ground (arith, h, a, v.owner p, v.owner me));
      wanted = λ p h. absurd (cc (subst (λ c. left_asleep c s.asleep p ≡ true) w h));
    }

Reach-Inv : (s : System) → Reach s → Inv s
unfolding initsleeplock
Reach-Inv _ start = record {
  unlocked = refl;
  owner = λ p h. absurd (cc);
  wanted = λ p h. absurd (cc);
}
Reach-Inv _ (then_step s t r one) = Step-Inv s t one (Reach-Inv s r)

-- What `releasesleep` wakes follows from the calls of `wakeup` that it makes. However processes contend from the start on, at most one is inside, it is the one for which
-- `holdingsleep` says so, and nobody sleeps on a lock that is free.
pub sleeplock_exclusive :
    (s : System)
    → Reach s
    → ((p q : ℕ) → s.inside p ≡ true → s.inside q ≡ true → p ≡ q)
      × ((p : ℕ) → s.inside p ≡ true → holdingsleep p s.lock ≡ ok (true, s.lock))
      × ((p : ℕ) → s.asleep p ≡ true → s.lock.locked ≡ true)
unfolding holdingsleep
sleeplock_exclusive s r =
    let v = Reach-Inv s r in
    (
      (λ p q h k. sym (v.owner p h).1 ∙ (v.owner q k).1),
      (λ p h. ground (arith, v.unlocked, v.owner p h)),
      v.wanted,
    )
