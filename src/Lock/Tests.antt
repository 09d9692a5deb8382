-- ===== src/Lock/Tests.antt =====
-- Runs of spinlock.c, and its theorems at concrete CPUs.
use osass.Base.{ℕ, ◌≡◌, inl, inr, refl, arith, true, false, none, some, ok, panic}
use osass.Lock.{Cpu, Spinlock, initlock, pushcli, popcli, holding, acquire, release}
use osass.Lock.Laws.{IsValid, release_cases, popcli-pushcli, restored}
use osass.Lock.Mutex.{System, IsBoot, Reach, here, next, enter, entered, mutual_exclusion}

-- CPU 0 with interrupts on and no lock.
abbrev idle_cpu : Cpu
idle_cpu = record { id = 0; interrupts = true; ncli = 0; intena = false }

-- CPU 0 inside a critical section.
abbrev masked_cpu : Cpu
masked_cpu = record { id = 0; interrupts = false; ncli = 1; intena = true }

idle-IsValid : IsValid idle_cpu
idle-IsValid = record { masked = inl refl }

masked-IsValid : IsValid masked_cpu
masked-IsValid = record { masked = inr refl }

abbrev free_lock : Spinlock
free_lock = record { locked = false; cpu = none }

abbrev lock_of_0 : Spinlock
lock_of_0 = record { locked = true; cpu = some 0 }

acquire_twice : acquire masked_cpu lock_of_0 ≡ panic "acquire"
unfolding acquire holding popcli pushcli
acquire_twice = refl

popcli-pushcli_example : popcli (pushcli idle_cpu) ≡ ok (restored idle_cpu)
popcli-pushcli_example = popcli-pushcli idle_cpu idle-IsValid

release_cases_example :
    release masked_cpu lock_of_0 ≡ ok (record masked_cpu { ncli = 0; interrupts = true }, initlock)
release_cases_example = release_cases masked_cpu lock_of_0 masked-IsValid (omega arith)

abbrev boot : System
boot = record {
  lock = free_lock;
  cpu = λ i. record { id = i; interrupts = true; ncli = 0; intena = false };
  inside = λ _. false;
}

boot-IsBoot : IsBoot boot
unfolding initlock
boot-IsBoot = record { fresh = refl; numbered = λ i. refl; outside = λ i. refl }

-- CPU 0 has entered.
abbrev one_in : System
one_in = entered boot 0 masked_cpu lock_of_0

boot_enter : Reach boot one_in
unfolding acquire holding popcli pushcli
boot_enter = next here (enter 0 masked_cpu lock_of_0 refl)

mutual_exclusion_example : ◌≡◌ {A = ℕ} 0 0
mutual_exclusion_example = mutual_exclusion boot-IsBoot boot_enter 0 0 refl refl
