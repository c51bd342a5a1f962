-- ===== src/Blocking.antt =====
-- The blocking primitives, src/blocking.rs, and the loop that they wait in, `WaitQueue::wait_until`
-- of src/scheduler.rs.
-- A round of `wait_until` runs with interrupts off on the one CPU, so nothing comes between the
-- test and the parking: it is one function, from the state to whether the call returns, and the
-- state. `ready` is `READY`, whether the scheduler runs. The end of a lock and of a permit are two
-- functions each, since interrupts are on between the store and `wake_one`. The queue holds thread ids, first come first. A compare-and-exchange loop that is not interrupted ends at its
-- first turn; one that is starts again, so it acts at the turn that succeeds. `Semaphore` counts
-- from a number that is not negative, and stays below 2^63.
pub mod Exclusion
mod Tests
use eonos.Prelude.{
  ℕ, zero, suc, ◌+◌, ◌-◌, List, [], ◌∷◌, ◌++◌, Bool, true, false, Option, none, some, if◌then◌else◌,
  not, ◌==◌,
}

pub record Mutex : Type 0 where
  pub locked : Bool
  pub queue : List ℕ

pub record Semaphore : Type 0 where
  pub count : ℕ
  pub queue : List ℕ

-- `WaitQueue::wake_one`: the thread that becomes ready, and the queue.
unfoldable pub wake_first : List ℕ → Option ℕ × List ℕ
wake_first [] = (none, [])
wake_first (t ∷ queue) = (some t, queue)

-- A round of `wait_until`: the call returns where the test passed, and also where the scheduler does
-- not run yet; otherwise the thread is parked.
unfoldable pub wait_round : Bool → Bool → ℕ → List ℕ → Bool × List ℕ
wait_round ready passed t queue =
    if passed
    then (true, queue)
    else if not ready
    then (true, queue)
    else (false, queue ++ (t ∷ []))

-- The test of `lock` and `try_lock`, `!locked.swap(true)`.
unfoldable pub try_lock : Mutex → Bool × Mutex
try_lock m = elim m.locked [ true ↦ (false, m) | false ↦ (true, record m { locked = true }) ]

-- A round of `lock` for thread `t`: whether it returns a guard.
unfoldable pub lock : Bool → ℕ → Mutex → Bool × Mutex
unfolding try_lock wait_round
lock ready t m =
    let (passed, m1) = try_lock m in
    let (returns, queue) = wait_round ready passed t m1.queue in
    (returns, record m1 { queue = queue })

-- The drop of a guard: `locked.store(false)`, then `wake_one`.
unfoldable pub unlock_store : Mutex → Mutex
unlock_store m = record m { locked = false }

unfoldable pub unlock_wake : Mutex → Option ℕ × Mutex
unfolding wake_first
unlock_wake m = let (woken, queue) = wake_first m.queue in (woken, record m { queue = queue })

unfoldable pub try_acquire : Semaphore → Bool × Semaphore
try_acquire s = if s.count == 0 then (false, s) else (true, record s { count = s.count - 1 })

-- A round of `acquire` for thread `t`: whether it returns.
unfoldable pub acquire : Bool → ℕ → Semaphore → Bool × Semaphore
unfolding try_acquire wait_round
acquire ready t s =
    let (passed, s1) = try_acquire s in
    let (returns, queue) = wait_round ready passed t s1.queue in
    (returns, record s1 { queue = queue })

-- `release`: `count.fetch_add(1)`, then `wake_one`.
unfoldable pub release_add : Semaphore → Semaphore
release_add s = record s { count = s.count + 1 }

unfoldable pub release_wake : Semaphore → Option ℕ × Semaphore
unfolding wake_first
release_wake s = let (woken, queue) = wake_first s.queue in (woken, record s { queue = queue })
