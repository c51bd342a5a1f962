-- ===== src/Scheduler/Slots.antt =====
-- The operations of src/scheduler.rs around `reschedule`: the slots and ids that `create_thread`
-- and `free_thread` hand out and take back, `init`, `spawn`, `spawn_user`, `finish_switch`, the
-- timer's `tick` and `preempt_if_needed`, `yield_now`, `sleep_ms`, and the wake-ups of `WaitQueue`.
-- The argument `frames` is the number of page frames that src/pmm.rs can give: with fewer than
-- `stack_pages` of them `create_thread` returns those that it got, and the slot.
-- In `tick` the lock is taken: interrupts are off while it is held, so `try_lock` does not fail.
-- `finish_switch`, which a thread runs when it is switched to, is an operation of its own.
use eonos.Prelude.{
  ℕ, ◌+◌, ◌*◌, ◌/◌, ◌-◌, max, List, [], ◌∷◌, ◌++◌, Bool, true, false, ◌&&◌, ◌||◌, Option, none,
  some, if◌then◌else◌, ltb, leb, length, get_or, set,
}
use eonos.Prelude.Vec.{any}
use eonos.Scheduler.{
  Thread, Scheduler, Kernel, yield, sleep, max_slots, stack_pages, time_slice_ms, reschedule,
}

unfoldable pub take_slot : Scheduler → Option (ℕ × Scheduler)
take_slot s = elim s.free_slots [
  | i ∷ rest ↦ some (i, record s { free_slots = rest })
  | [] ↦
      if ltb s.next_slot max_slots
      then some (s.next_slot, record s { next_slot = s.next_slot + 1 })
      else none
]

unfoldable pub create_thread : Bool → ℕ → Kernel → Option Thread × Kernel
unfolding take_slot
create_thread is_idle frames k = elim (take_slot (k.sched)) [
  | none ↦ (none, k)
  | some (slot, s) ↦
      if ltb frames stack_pages
      then (
        none,
        record k { sched = record s { next_id = s.next_id + 1; free_slots = slot ∷ s.free_slots } },
      )
      else (
        some (record {
          id = s.next_id;
          stack_slot = some slot;
          wake_at = 0;
          is_idle = is_idle;
          aspace = none;
          user_entry = 0;
          user_rsp = 0;
        }),
        record k { sched = record s { next_id = s.next_id + 1 } },
      )
]

-- The thread that the kernel starts on.
abbrev pub boot_thread : Thread
boot_thread = record {
  id = 0;
  stack_slot = none;
  wake_at = 0;
  is_idle = false;
  aspace = none;
  user_entry = 0;
  user_rsp = 0;
}

unfoldable pub init : ℕ → Kernel → Kernel
unfolding create_thread
init frames k =
    let (t, k1) = create_thread true frames k in
    elim t [
      | none ↦ k1
      | some idle ↦ record k1 {
        sched = record (k1.sched) { current = some boot_thread; idle = some idle };
        started = true;
      }
    ]

unfoldable pub spawn : ℕ → Kernel → Option ℕ × Kernel
unfolding create_thread
spawn frames k =
    let (t, k1) = create_thread false frames k in
    elim t [
      | none ↦ (none, k1)
      | some t ↦
          (some t.id, record k1 { sched = record (k1.sched) { ready = k1.ready ++ (t ∷ []) } })
    ]

unfoldable pub spawn_user : ℕ → ℕ → ℕ → ℕ → Kernel → Option ℕ × Kernel
unfolding create_thread
spawn_user frames aspace entry user_rsp k =
    let (t, k1) = create_thread false frames k in
    elim t [
      | none ↦ (none, k1)
      | some t ↦ (
        some t.id,
        record k1 {
          sched = record (k1.sched) {
            ready =
                k1.ready
                ++ (record t { aspace = some aspace; user_entry = entry; user_rsp = user_rsp }
                    ∷ []);
          };
        },
      )
    ]

unfoldable pub free_thread : Thread → Scheduler → Scheduler
free_thread t s = elim t.stack_slot [
  | none ↦ s
  | some slot ↦ record s { free_slots = slot ∷ s.free_slots }
]

unfoldable pub free_threads : List Thread → Scheduler → Scheduler
unfolding free_thread
free_threads [] s = s
free_threads (t ∷ dead) s = free_threads dead (free_thread t s)

unfoldable pub finish_switch : Kernel → Kernel
unfolding free_threads
finish_switch k = record k { sched = free_threads k.zombies (record (k.sched) { zombies = [] }) }

-- The wake-up half of `WaitQueue`, on the wait queue of a number.
unfoldable pub wake_one : ℕ → Kernel → Bool × Kernel
wake_one q k = elim (get_or k.queues q []) [
  | t ∷ rest ↦ (
    true,
    record k {
      sched = record (k.sched) { ready = k.ready ++ (t ∷ []) };
      queues = set k.queues q rest;
    },
  )
  | [] ↦ (false, k)
]

unfoldable pub wake_all : ℕ → Kernel → Kernel
wake_all q k = record k {
  sched = record (k.sched) { ready = k.ready ++ get_or k.queues q [] };
  queues = set k.queues q [];
}

-- The timer interrupt, at `frequency_hz` ticks a second.
unfoldable pub tick : ℕ → ℕ → Kernel → Kernel
unfolding any
tick frequency_hz now k =
    let used = k.slice_ticks + 1 in
    let slice_ticks = max (frequency_hz * time_slice_ms / 1000) 1 in
    let sleeper_due = any (λ t. leb t.wake_at now) k.sleeping in
    let slice_over = leb slice_ticks used && ltb 0 (length k.ready) in
    if k.started
    then record k {
      slice_ticks = used;
      need_resched = if sleeper_due || slice_over then true else k.need_resched;
    }
    else k

unfoldable pub preempt_if_needed : ℕ → Kernel → Option Kernel
unfolding reschedule
preempt_if_needed now k =
    let switched =
      reschedule now yield (record k { need_resched = false; preemptions = k.preemptions + 1 }) in
    if k.need_resched then switched else some k

unfoldable pub yield_now : ℕ → Kernel → Option Kernel
unfolding reschedule
yield_now now k = let switched = reschedule now yield k in if k.started then switched else some k

unfoldable pub sleep_ms : ℕ → ℕ → Kernel → Option Kernel
unfolding reschedule
sleep_ms ms now k =
    let switched = reschedule now (sleep (now + ms)) k in if k.started then switched else some k

unfoldable pub stack_slots_in_use : Scheduler → ℕ
stack_slots_in_use s = s.next_slot - length s.free_slots
