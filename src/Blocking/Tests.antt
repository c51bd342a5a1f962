-- ===== src/Blocking/Tests.antt =====
-- Histories of a semaphore and of a mutex of src/blocking.rs.
use eonos.Prelude.{[], ◌∷◌, true, false, arith}
use eonos.Blocking.{lock, unlock_store, unlock_wake}
use eonos.Blocking.Exclusion.{Sem, Mut, MutStep, MutReach, MutSound, new_mutex, mutex-MutSound}

-- Thread 8 is parked while thread 7 is inside.
abbrev one_parked : Sem
one_parked = record { s = record { count = 0; queue = 8 ∷ [] }; inside = 1; woken = 0; waking = 0 }

-- Thread 7 has unlocked, thread 8 is woken.
abbrev handed_over : Mut
handed_over = record {
  m = record { locked = false; queue = [] };
  inside = 0;
  woken = 1;
  waking = 0;
}

handed_over-MutReach : MutReach new_mutex handed_over
unfolding lock unlock_store unlock_wake
handed_over-MutReach =
    MutReach.next
      (MutReach.next
        (MutReach.next (MutReach.next MutReach.here (MutStep.arrives 7 new_mutex)) (
          MutStep.arrives 8 (record {
            m = record { locked = true; queue = [] };
            inside = 1;
            woken = 0;
            waking = 0;
          })))
        (MutStep.stores
          (record {
            m = record { locked = true; queue = 8 ∷ [] };
            inside = 1;
            woken = 0;
            waking = 0;
          })
          (omega arith)))
      (MutStep.wakes
        (record {
          m = record { locked = false; queue = 8 ∷ [] };
          inside = 0;
          woken = 0;
          waking = 1;
        })
        (omega arith))

mutex-MutSound_example : MutSound handed_over
mutex-MutSound_example = mutex-MutSound handed_over handed_over-MutReach
