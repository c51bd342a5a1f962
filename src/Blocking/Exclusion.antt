-- ===== src/Blocking/Exclusion.antt =====
-- Histories of a `Mutex` and of a `Semaphore` of src/blocking.rs, while the scheduler runs.
use eonos.Prelude.{
  ℕ, ◌+◌, ◌-◌, ◌≤◌, ◌<◌, ◌≡◌, refl, List, [], ◌∷◌, Bool, true, false, Option, none, some,
  if◌then◌else◌, length, arith, Bool-cases, inl, inr,
}
use eonos.Blocking.{
  Mutex, Semaphore, wake_first, wait_round, try_lock, lock, unlock_store, unlock_wake, try_acquire,
  acquire, release_add, release_wake,
}

abbrev pub one_if : Bool → ℕ
one_if b = if b then 1 else 0

abbrev pub count_some : Option ℕ → ℕ
count_some none = 0
count_some (some t) = 1

-- A semaphore, the threads that have acquired it and not released it, the threads that `wake_one`
-- has taken off the queue and that have not tried again yet, and the threads between the two steps of
-- a release.
pub record Sem : Type 0 where
  pub s : Semaphore
  pub inside : ℕ
  pub woken : ℕ
  pub waking : ℕ

-- What threads do with a semaphore: a first try, a try after being woken, a try without waiting, and
-- the two steps of a release, the first by a thread inside.
pub data SemStep : Sem → Sem → Type 0 where
  arrives :
      (t : ℕ) (w : Sem)
      → SemStep w (record w {
        s = (acquire true t w.s).1;
        inside = w.inside + one_if (acquire true t w.s).0;
      })
  retries :
      (t : ℕ) (w : Sem)
      → 1 ≤ w.woken
      → SemStep w (record w {
        s = (acquire true t w.s).1;
        inside = w.inside + one_if (acquire true t w.s).0;
        woken = w.woken - 1;
      })
  tries :
      (w : Sem)
      → SemStep w
          (record w { s = (try_acquire w.s).1; inside = w.inside + one_if (try_acquire w.s).0 })
  releases :
      (w : Sem)
      → 1 ≤ w.inside
      → SemStep w (record w { s = release_add w.s; inside = w.inside - 1; waking = w.waking + 1 })
  wakes :
      (w : Sem)
      → 1 ≤ w.waking
      → SemStep w (record w {
        s = (release_wake w.s).1;
        woken = w.woken + count_some (release_wake w.s).0;
        waking = w.waking - 1;
      })

pub data SemReach (w : Sem) : Sem → Type 0 where
  here : SemReach w w
  next : {v u : Sem} → SemReach w v → SemStep v u → SemReach w u

-- The permits add up, and while threads are parked, there are at least as many threads woken
-- or about to wake one as there are free permits.
pub record SemSound (initial : ℕ) (w : Sem) : Type 0 where
  pub permits : w.s.count + w.inside ≡ initial
  pub no_lost_wakeup : 0 < length w.s.queue → w.s.count ≤ w.woken + w.waking

-- The wake-up that was about to come has come, or nobody is parked.
one_woken :
    (queue : List ℕ) (need woken waking : ℕ)
    → 1 ≤ waking
    → (0 < length queue → need ≤ woken + waking)
    → 0 < length (wake_first queue).1
    → need ≤ woken + count_some (wake_first queue).0 + (waking - 1)
unfolding wake_first
one_woken [] need woken waking n h lt = absurd (omega arith)
one_woken (t ∷ queue) need woken waking n h lt = omega (arith, n, h (omega arith))

abbrev pub new_sem : ℕ → Sem
new_sem initial = record {
  s = record { count = initial; queue = [] };
  inside = 0;
  woken = 0;
  waking = 0;
}

-- A mutex, its holders, the threads that `wake_one` has taken off the queue and that have not tried
-- again yet, and the threads between the two steps of an unlock.
pub record Mut : Type 0 where
  pub m : Mutex
  pub inside : ℕ
  pub woken : ℕ
  pub waking : ℕ

pub data MutStep : Mut → Mut → Type 0 where
  arrives :
      (t : ℕ) (w : Mut)
      → MutStep w
          (record w { m = (lock true t w.m).1; inside = w.inside + one_if (lock true t w.m).0 })
  retries :
      (t : ℕ) (w : Mut)
      → 1 ≤ w.woken
      → MutStep w (record w {
        m = (lock true t w.m).1;
        inside = w.inside + one_if (lock true t w.m).0;
        woken = w.woken - 1;
      })
  tries :
      (w : Mut)
      → MutStep w (record w { m = (try_lock w.m).1; inside = w.inside + one_if (try_lock w.m).0 })
  stores :
      (w : Mut)
      → 1 ≤ w.inside
      → MutStep w (record w { m = unlock_store w.m; inside = w.inside - 1; waking = w.waking + 1 })
  wakes :
      (w : Mut)
      → 1 ≤ w.waking
      → MutStep w (record w {
        m = (unlock_wake w.m).1;
        woken = w.woken + count_some (unlock_wake w.m).0;
        waking = w.waking - 1;
      })

pub data MutReach (w : Mut) : Mut → Type 0 where
  here : MutReach w w
  next : {v u : Mut} → MutReach w v → MutStep v u → MutReach w u

pub record MutSound (w : Mut) : Type 0 where
  pub held : w.inside ≡ one_if w.m.locked
  pub no_lost_wakeup : 0 < length w.m.queue → w.m.locked ≡ false → 1 ≤ w.woken + w.waking

MutStep-MutSound : {w v : Mut} → MutStep w v → MutSound w → MutSound v
unfolding lock try_lock unlock_store unlock_wake wait_round
MutStep-MutSound (arrives t w) i = elim (Bool-cases w.m.locked) [
  | inl e ↦ record { held = ground (arith, e, i.held); no_lost_wakeup = λ h u. ground (arith, e) }
  | inr e ↦ record { held = ground (arith, e, i.held); no_lost_wakeup = λ h u. ground (arith, e) }
]
MutStep-MutSound (retries t w n) i = elim (Bool-cases w.m.locked) [
  | inl e ↦ record { held = ground (arith, e, i.held); no_lost_wakeup = λ h u. ground (arith, e) }
  | inr e ↦ record { held = ground (arith, e, i.held); no_lost_wakeup = λ h u. ground (arith, e) }
]
MutStep-MutSound (tries w) i = elim (Bool-cases w.m.locked) [
  | inl e ↦ record { held = ground (arith, e, i.held); no_lost_wakeup = λ h u. ground (arith, e) }
  | inr e ↦ record { held = ground (arith, e, i.held); no_lost_wakeup = λ h u. ground (arith, e) }
]
MutStep-MutSound (stores w n) i = record {
  held = ground (arith, i.held, n);
  no_lost_wakeup = λ h u. omega arith;
}
MutStep-MutSound (wakes w n) i = record {
  held = i.held;
  no_lost_wakeup = λ h u. one_woken w.m.queue 1 w.woken w.waking n (λ k. i.no_lost_wakeup k u) h;
}

MutReach-MutSound : {w v : Mut} → MutReach w v → MutSound w → MutSound v
MutReach-MutSound here i = i
MutReach-MutSound (next r t) i = MutStep-MutSound t (MutReach-MutSound r i)

abbrev pub new_mutex : Mut
new_mutex = record { m = record { locked = false; queue = [] }; inside = 0; woken = 0; waking = 0 }

-- In every history of a mutex while the scheduler runs, with any interleaving of arrivals, retries of
-- woken threads, tries, and the two steps of unlocks, it has one holder while it is locked and none
-- while it is not; and no wake-up is lost: while threads are parked and the mutex is free, some thread
-- was woken and has not tried again, or has stored the unlock and not called `wake_one` yet.
pub mutex-MutSound : (w : Mut) → MutReach new_mutex w → MutSound w
mutex-MutSound w r =
    MutReach-MutSound r (record { held = refl; no_lost_wakeup = λ h u. absurd (omega arith) })
