-- ===== src/Scheduler.antt =====
-- The thread scheduler, src/scheduler.rs: `Thread`, `Scheduler`, `wake_sleepers`, `reschedule`, the
-- slots and ids that `create_thread` and `free_thread` hand out and take back, `tick`,
-- `preempt_if_needed`, and `WaitQueue::wake_one` and `wake_all`.
-- The statics of the module stand in one record, `Kernel`, with the wait queues of the kernel, by
-- number. `pit::uptime_ms()` is the argument `now`. `none` stands for the two panics of
-- `reschedule`. The register switch itself (`switch_context`), kernel stack memory and the thread
-- names are left out: the thread that `reschedule` makes current is the one that runs next.
pub mod Conserve
pub mod Running
pub mod Wake
pub mod Slots
pub mod Fair
pub mod Owned
pub mod Sound
pub mod History
mod Tests
use eonos.Prelude.{
  ℕ, zero, suc, ◌+◌, ◌-◌, ◌*◌, ◌/◌, max, List, [], ◌∷◌, ◌++◌, Bool, true, false, not, ◌&&◌, ◌||◌,
  Option, none, some, if◌then◌else◌, ltb, leb, ◌==◌, length, get_or, set,
}
use eonos.Prelude.Vec.{swap_remove, any}

-- `aspace` is the physical address of the root table of a user thread's address space.
pub record Thread : Type 0 where
  pub id : ℕ
  pub stack_slot : Option ℕ
  pub wake_at : ℕ
  pub is_idle : Bool
  pub aspace : Option ℕ
  pub user_entry : ℕ
  pub user_rsp : ℕ

-- The vector `free_slots` is listed from its end, where `push` and `pop` work.
pub record Scheduler : Type 0 where
  pub current : Option Thread
  pub ready : List Thread
  pub sleeping : List Thread
  pub idle : Option Thread
  pub zombies : List Thread
  pub free_slots : List ℕ
  pub next_slot : ℕ
  pub next_id : ℕ

pub record Kernel : Type 0 where
  pub sched : Scheduler
  pub open sched use *
  pub started : Bool
  pub slice_ticks : ℕ
  pub need_resched : Bool
  pub preemptions : ℕ
  pub kernel_cr3 : ℕ
  pub cr3 : ℕ
  pub rsp0 : ℕ
  pub queues : List (List Thread)

-- `Block` names the wait queue by its number.
pub data Next : Type 0 where
  yield exit : Next
  sleep : ℕ → Next
  block : ℕ → Next

abbrev pub max_slots : ℕ
max_slots = 512

abbrev pub time_slice_ms : ℕ
time_slice_ms = 10

abbrev pub stack_pages : ℕ
stack_pages = 16

unfoldable pub slot_base : ℕ → ℕ
slot_base slot = 0xffff_ffff_a000_0000 + slot * 0x2_0000

-- The loop of `wake_sleepers`, on fuel: the ready queue and the sleepers. Each round lets `i` grow
-- or the sleepers shrink, so as many rounds as there are sleepers are enough.
unfoldable pub wake_loop : ℕ → ℕ → ℕ → List Thread → List Thread → List Thread × List Thread
wake_loop zero now i ready sleeping = (ready, sleeping)
wake_loop (suc fuel) now i ready sleeping = elim (swap_remove sleeping i) [
  | none ↦ (ready, sleeping)
  | some (t, rest) ↦ elim (leb t.wake_at now) [
    | true ↦ wake_loop fuel now i (ready ++ (t ∷ [])) rest
    | false ↦ wake_loop fuel now (i + 1) ready sleeping
  ]
]

unfoldable pub wake_sleepers : ℕ → Scheduler → Scheduler
unfolding wake_loop
wake_sleepers now s =
    let (ready, sleeping) = wake_loop (length s.sleeping) now 0 s.ready s.sleeping in
    record s { ready = ready; sleeping = sleeping }

-- Where the thread that leaves the CPU goes.
unfoldable pub put_away : Next → Thread → Kernel → Kernel
put_away yield cur k =
    if cur.is_idle
    then record k { sched = record (k.sched) { idle = some cur } }
    else record k { sched = record (k.sched) { ready = k.ready ++ (cur ∷ []) } }
put_away (sleep wake_at) cur k = record k {
  sched = record (k.sched) { sleeping = k.sleeping ++ (record cur { wake_at = wake_at } ∷ []) };
}
put_away exit cur k = record k { sched = record (k.sched) { zombies = k.zombies ++ (cur ∷ []) } }
put_away (block q) cur k = record k { queues = set k.queues q (get_or k.queues q [] ++ (cur ∷ [])) }

-- The next thread, and the scheduler without it: the head of the ready queue, or the idle thread.
unfoldable pub pick : Scheduler → Option (Thread × Scheduler)
pick s = elim s.ready [
  | t ∷ rest ↦ some (t, record s { ready = rest })
  | [] ↦ elim s.idle [ none ↦ none | some t ↦ some (t, record s { idle = none }) ]
]

unfoldable pub top_of_stack : Thread → ℕ → ℕ
unfolding slot_base
top_of_stack t old = elim t.stack_slot [
  | none ↦ old
  | some slot ↦ slot_base slot + (1 + stack_pages) * 4096
]

unfoldable pub want_cr3 : Thread → ℕ → ℕ
want_cr3 t kernel_cr3 = elim t.aspace [ none ↦ kernel_cr3 | some a ↦ a ]

-- Make `next` the current thread: kernel stack, page tables, `current`.
unfoldable pub switch_to : Thread → Scheduler → Kernel → Kernel
unfolding top_of_stack want_cr3
switch_to next s k =
    let want = want_cr3 next k.kernel_cr3 in
    record k {
      sched = record s { current = some next };
      rsp0 = top_of_stack next k.rsp0;
      cr3 = if not (want == 0) && not (want == k.cr3) then want else k.cr3;
    }

unfoldable pub reschedule : ℕ → Next → Kernel → Option Kernel
unfolding wake_sleepers put_away pick switch_to
reschedule now how k =
    let woken = wake_sleepers now k.sched in
    let k1 = record k {
      sched = record woken { current = none };
      slice_ticks = 0;
      need_resched = false;
    } in
    elim woken.current [
      | none ↦ none
      | some cur ↦
          let k2 = put_away how cur k1 in
          elim (pick (k2.sched)) [ none ↦ none | some (next, s) ↦ some (switch_to next s k2) ]
    ]
