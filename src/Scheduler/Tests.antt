-- ===== src/Scheduler/Tests.antt =====
-- Runs of the scheduler of src/scheduler.rs, and its theorems at concrete kernels.
use eonos.Prelude.{ℕ, ◌+◌, ◌≡◌, refl, [], ◌∷◌, Bool, false, none, some, arith, map}
use eonos.Prelude.Vec.{count_by, swap_remove}
use eonos.Scheduler.{Thread, Scheduler, Kernel, Next, yield, sleep, wake_sleepers, reschedule}
use eonos.Scheduler.Wake.{wake_sleepers_lem, is_due, Woken}
use eonos.Scheduler.Conserve.{tally, Known, reschedule-tally}
use eonos.Scheduler.Running.{Running, Running-alone, Allowed, reschedule-Running}
use eonos.Scheduler.Slots.{init, spawn, spawn_user, tick}
use eonos.Scheduler.Owned.{uses}
use eonos.Scheduler.Sound.{Sound}
use eonos.Scheduler.History.{at_boot, Reach, here, next, spawned, spawned_user, history-Sound}
use eonos.Scheduler.Fair.{switches, switches-turn}

-- The boot thread runs; threads 2 and 3 are ready.
abbrev two_ready : Kernel
two_ready = (spawn_user 50 0x5000 0x40_0000 0x7000 (spawn 100 (init 100 (at_boot 2 0x1000))).1).1

two_ready-Reach : Reach (init 100 (at_boot 2 0x1000)) two_ready
two_ready-Reach =
    next (next here (spawned 100 (init 100 (at_boot 2 0x1000))))
      (spawned_user 50 0x5000 0x40_0000 0x7000 (spawn 100 (init 100 (at_boot 2 0x1000))).1)

history-Sound_example :
    Sound two_ready
    × ((now : ℕ) (how : Next)
        → Known how two_ready
        → Allowed how two_ready
        → (k' : Kernel) × (reschedule now how two_ready ≡ some k'))
history-Sound_example = history-Sound 100 2 0x1000 two_ready (omega arith) two_ready-Reach

two_ready-Running : Running two_ready
two_ready-Running = (history-Sound 100 2 0x1000 two_ready (omega arith) two_ready-Reach).0.running

abbrev boot : Thread
boot = record {
  id = 0;
  stack_slot = none;
  wake_at = 0;
  is_idle = false;
  aspace = none;
  user_entry = 0;
  user_rsp = 0;
}

two_ready-boot : two_ready.current ≡ some boot
unfolding spawn_user spawn init at_boot
two_ready-boot = refl

sleep-Allowed : Allowed (sleep 20) two_ready
sleep-Allowed = λ cur e i. absurd (ground (arith, two_ready-boot))

-- The kernel when the boot thread has gone to sleep until 20.
abbrev asleep : Kernel
asleep = (reschedule-Running 7 (sleep 20) two_ready two_ready-Running tt sleep-Allowed).0

switches-turn_example :
    (k' : Kernel) × (switches ((7, sleep 20) ∷ (30, yield) ∷ []) two_ready ≡ some k')
    × (k'.current
        ≡ some (record {
          id = 3;
          stack_slot = some 2;
          wake_at = 0;
          is_idle = false;
          aspace = some 0x5000;
          user_entry = 0x40_0000;
          user_rsp = 0x7000;
        }))
unfolding spawn_user spawn init at_boot
switches-turn_example =
    switches-turn
      (record {
        id = 2;
        stack_slot = some 1;
        wake_at = 0;
        is_idle = false;
        aspace = none;
        user_entry = 0;
        user_rsp = 0;
      }
        ∷ [])
      []
      (record {
        id = 3;
        stack_slot = some 2;
        wake_at = 0;
        is_idle = false;
        aspace = some 0x5000;
        user_entry = 0x40_0000;
        user_rsp = 0x7000;
      })
      boot ((7, sleep 20) ∷ (30, yield) ∷ []) two_ready refl refl refl

reschedule-tally_example : tally (uses 1) asleep ≡ tally (uses 1) two_ready
reschedule-tally_example =
    reschedule-tally (uses 1) 7 (sleep 20) two_ready asleep (λ t w. refl) tt
      (Running-alone two_ready two_ready-Running)
      (reschedule-Running 7 (sleep 20) two_ready two_ready-Running tt sleep-Allowed).1

abbrev sleeper : ℕ → Thread
sleeper w = record {
  id = w;
  stack_slot = some w;
  wake_at = w;
  is_idle = false;
  aspace = none;
  user_entry = 0;
  user_rsp = 0;
}

abbrev sleepers : Scheduler
sleepers = record {
  current = some boot;
  ready = [];
  sleeping = sleeper 5 ∷ sleeper 9 ∷ sleeper 3 ∷ [];
  idle = none;
  zombies = [];
  free_slots = [];
  next_slot = 10;
  next_id = 10;
}

wake_sleepers_run : map (λ t. t.id) (wake_sleepers 6 sleepers).ready ≡ 5 ∷ 3 ∷ []
unfolding wake_sleepers swap_remove
wake_sleepers_run = refl

wake_sleepers_lem_example :
    (count_by (is_due 6) (wake_sleepers 6 sleepers).sleeping ≡ 0)
    × Woken 6 [] (wake_sleepers 6 sleepers).ready
    × ((q : Thread → Bool)
        → count_by q (wake_sleepers 6 sleepers).ready
            + count_by q (wake_sleepers 6 sleepers).sleeping
          ≡ count_by q sleepers.ready + count_by q sleepers.sleeping)
wake_sleepers_lem_example = wake_sleepers_lem 6 sleepers

tick_run : (tick 1000 6 two_ready).need_resched ≡ false
unfolding tick spawn_user spawn init at_boot
tick_run = refl
