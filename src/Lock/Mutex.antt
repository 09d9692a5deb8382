-- ===== src/Lock/Mutex.antt =====
-- spinlock.c: CPUs that contend for one lock. A step is one call, by one CPU, that returns; the
-- interleaving is any sequence of steps, and a CPU that spins takes none.
use osass.Base.{ℕ, ◌≡◌, arith, Bool, true, false, ◌==◌, if◌then◌else◌, some, ok}
use osass.Lock.{Cpu, Spinlock, initlock, pushcli, popcli, holding, got, acquire, release}
use osass.Lock.Laws.{acquire_cases}

pub record System : Type 0 where
  pub lock : Spinlock
  pub cpu : ℕ → Cpu
  pub inside : ℕ → Bool

abbrev pub at {ℓ} : {A : Type ℓ} → ℕ → A → (ℕ → A) → ℕ → A
at i a f j = if i == j then a else f j

abbrev pub entered : System → ℕ → Cpu → Spinlock → System
entered s i c l = record { lock = l; cpu = at i c s.cpu; inside = at i true s.inside }

abbrev pub left : System → ℕ → Cpu → Spinlock → System
left s i c l = record { lock = l; cpu = at i c s.cpu; inside = at i false s.inside }

pub data Step (s : System) : System → Type 0 where
  enter :
      (i : ℕ) (c : Cpu) (l : Spinlock)
      → acquire (s.cpu i) s.lock ≡ ok (got c l)
      → Step s (entered s i c l)
  leave :
      (i : ℕ) (c : Cpu) (l : Spinlock)
      → release (s.cpu i) s.lock ≡ ok (c, l)
      → Step s (left s i c l)
  mask : (i : ℕ) → Step s (record s { cpu = at i (pushcli (s.cpu i)) s.cpu })
  unmask : (i : ℕ) (c : Cpu) → popcli (s.cpu i) ≡ ok c → Step s (record s { cpu = at i c s.cpu })

pub data Reach (s : System) : System → Type 0 where
  here : Reach s s
  next : {t u : System} → Reach s t → Step t u → Reach s u

pub record Inv (s : System) : Type 0 where
  pub ids : (i : ℕ) → (s.cpu i).id ≡ i
  pub owner : (i : ℕ) → s.inside i ≡ true → (s.lock.locked ≡ true) × (s.lock.cpu ≡ some i)

-- `mycpu` keeps its answer: no call changes which CPU runs.
acquire-id :
    (c d : Cpu) (l k : Spinlock)
    → acquire c l ≡ ok (got d k)
    → (d.id ≡ c.id) × (l.locked ≡ false) × (k.locked ≡ true) × (k.cpu ≡ some c.id)
unfolding pushcli
acquire-id c d l k h = let e = acquire_cases c l in ground arith

popcli-id : (c d : Cpu) → popcli c ≡ ok d → d.id ≡ c.id
unfolding popcli
popcli-id c d h = ground arith

release-id :
    (c d : Cpu) (l k : Spinlock) → release c l ≡ ok (d, k) → (d.id ≡ c.id) × (l.cpu ≡ some c.id)
unfolding release holding popcli pushcli
release-id c d l k h = ground arith

Step-Inv : {s t : System} → Step s t → Inv s → Inv t
unfolding pushcli
Step-Inv {s} (enter i c l h) v = record {
  ids = λ j. ground (arith, v.ids j, v.ids i, acquire-id (s.cpu i) c s.lock l h);
  owner = λ j p. ground (arith, v.owner j, v.ids i, acquire-id (s.cpu i) c s.lock l h);
}
Step-Inv {s} (leave i c l h) v = record {
  ids = λ j. ground (arith, v.ids j, v.ids i, release-id (s.cpu i) c s.lock l h);
  owner = λ j p. ground (arith, v.owner j, v.ids i, release-id (s.cpu i) c s.lock l h);
}
Step-Inv {s} (mask i) v = record { ids = λ j. ground (arith, v.ids j, v.ids i); owner = v.owner }
Step-Inv {s} (unmask i c h) v = record {
  ids = λ j. ground (arith, v.ids j, v.ids i, popcli-id (s.cpu i) c h);
  owner = v.owner;
}

Reach-Inv : {s t : System} → Inv s → Reach s t → Inv t
Reach-Inv v here = v
Reach-Inv v (next r st) = Step-Inv st (Reach-Inv v r)

-- The system at boot: the lock is initialised, and no CPU is inside.
pub record IsBoot (s : System) : Type 0 where
  pub fresh : s.lock ≡ initlock
  pub numbered : (i : ℕ) → (s.cpu i).id ≡ i
  pub outside : (i : ℕ) → s.inside i ≡ false

-- Mutual exclusion: from boot on, whatever the interleaving, no two CPUs are between an `acquire`
-- and its `release`.
pub mutual_exclusion :
    {s t : System}
    → IsBoot s
    → Reach s t
    → (i j : ℕ) → t.inside i ≡ true
    → t.inside j ≡ true
    → i ≡ j
mutual_exclusion {s} {t} b r i j p q =
    let v : Inv t =
      Reach-Inv (record { ids = b.numbered; owner = λ k e. absurd (ground (arith, b.outside k)) })
        r in
    ground (arith, v.owner i p, v.owner j q)
