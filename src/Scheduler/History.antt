-- ===== src/Scheduler/History.antt =====
-- Whole histories of the scheduler of src/scheduler.rs: from `init` on, every sequence of spawns,
-- switches, wake-ups, timer ticks and clean-ups.
use eonos.Prelude.{
  ℕ, zero, suc, ◌+◌, ◌≤◌, ◌≡◌, refl, ap, sym, ◌∙◌, subst, [], Bool, true, false, none, some, arith,
  Bool-cases, inl, inr, ltb, replicate,
}
use eonos.Prelude.Vec.{count_by}
use eonos.Scheduler.{Thread, Kernel, Next, yield, reschedule, stack_pages}
use eonos.Scheduler.Conserve.{count_option, count_queues, tally, Known}
use eonos.Scheduler.Running.{Allowed, idle_test}
use eonos.Scheduler.Slots.{
  take_slot, init, spawn, spawn_user, finish_switch, wake_one, wake_all, tick, preempt_if_needed,
  boot_thread,
}
use eonos.Scheduler.Owned.{uses, create_thread-made, made, made_kernel}
use eonos.Scheduler.Sound.{
  Sound, spawn-Sound, spawn_user-Sound, finish_switch-Sound, wake_all-Sound, wake_one-Sound,
  reschedule-Sound,
}

-- The statics of the module at boot, with a number of wait queues.
unfoldable pub at_boot : ℕ → ℕ → Kernel
at_boot n kernel_cr3 = record {
  sched = record {
    current = none;
    ready = [];
    sleeping = [];
    idle = none;
    zombies = [];
    free_slots = [];
    next_slot = 0;
    next_id = 1;
  };
  started = false;
  slice_ticks = 0;
  need_resched = false;
  preemptions = 0;
  kernel_cr3 = kernel_cr3;
  cr3 = kernel_cr3;
  rsp0 = 0;
  queues = replicate n [];
}

-- What can happen to the scheduler between two moments.
pub data Step : Kernel → Kernel → Type 0 where
  spawned : (frames : ℕ) (k : Kernel) → Step k (spawn frames k).1
  spawned_user : (frames a e r : ℕ) (k : Kernel) → Step k (spawn_user frames a e r k).1
  switched :
      (now : ℕ) (how : Next) (k k' : Kernel)
      → Known how k
      → Allowed how k
      → reschedule now how k ≡ some k'
      → Step k k'
  cleaned : (k : Kernel) → Step k (finish_switch k)
  woke_one : (n : ℕ) (k : Kernel) → Step k (wake_one n k).1
  woke_all : (n : ℕ) (k : Kernel) → Step k (wake_all n k)
  ticked : (hz now : ℕ) (k : Kernel) → Step k (tick hz now k)
  preempted : (now : ℕ) (k k' : Kernel) → preempt_if_needed now k ≡ some k' → Step k k'

pub data Reach (s : Kernel) : Kernel → Type 0 where
  here : Reach s s
  next : {t u : Kernel} → Reach s t → Step t u → Reach s u

-- An operation that changes only counters.
same-Sound : (k k' : Kernel) → k'.sched ≡ k.sched → k'.queues ≡ k.queues → Sound k → Sound k'
unfolding tally
same-Sound k k' a b s = record {
  running = record {
    cur = s.running.cur;
    is_cur = ap (λ j. j.current) a ∙ s.running.is_cur;
    only = rw (a, b) s.running.only;
    home = rw a s.running.home;
    spare = rw a s.running.spare;
  };
  owned = record { once = λ i. rw (a, b) (s.owned.once i); bounded = rw a s.owned.bounded };
}

tick-Sound : (hz now : ℕ) (k : Kernel) → Sound k → Sound (tick hz now k)
unfolding tick
tick-Sound hz now k s = elim (Bool-cases k.started) [
  | inl e ↦ same-Sound k (tick hz now k) (ground arith) (ground arith) s
  | inr e ↦ same-Sound k (tick hz now k) (ground arith) (ground arith) s
]

switched-Sound :
    (now : ℕ) (how : Next) (k k' : Kernel)
    → Known how k
    → Allowed how k
    → reschedule now how k ≡ some k'
    → Sound k
    → Sound k'
switched-Sound now how k k' known ok e s =
    let (j, f, t) = reschedule-Sound now how k known ok s in
    let same : j ≡ k' = ground arith in subst Sound same t

preempted-Sound : (now : ℕ) (k k' : Kernel) → preempt_if_needed now k ≡ some k' → Sound k → Sound k'
unfolding preempt_if_needed
preempted-Sound now k k' h s =
    let k1 = record k { need_resched = false; preemptions = k.preemptions + 1 } in
    elim (Bool-cases k.need_resched) [
      | inl e ↦
          switched-Sound now yield k1 k' tt (λ cur c i. refl) (ground arith)
            (same-Sound k k1 refl refl s)
      | inr e ↦ same-Sound k k' (ground arith) (ground arith) s
    ]

Step-Sound : {k k' : Kernel} → Step k k' → Sound k → Sound k'
Step-Sound (spawned n k) s = spawn-Sound n k s
Step-Sound (spawned_user n a e r k) s = spawn_user-Sound n a e r k s
Step-Sound (switched now how k k' known ok e) s = switched-Sound now how k k' known ok e s
Step-Sound (cleaned k) s = finish_switch-Sound k s
Step-Sound (woke_one n k) s = wake_one-Sound n k s
Step-Sound (woke_all n k) s = wake_all-Sound n k s
Step-Sound (ticked hz now k) s = tick-Sound hz now k s
Step-Sound (preempted now k k' e) s = preempted-Sound now k k' e s

Reach-Sound : {k k' : Kernel} → Reach k k' → Sound k → Sound k'
Reach-Sound here s = s
Reach-Sound (next r t) s = Step-Sound t (Reach-Sound r s)

count_queues-empty : (q : Thread → Bool) (n : ℕ) → count_queues q (replicate n []) ≡ 0
unfolding count_queues count_by
count_queues-empty q zero = refl
count_queues-empty q (suc n) = omega (arith, count_queues-empty q n)

-- The kernel that `init` leaves, with memory for the idle thread's stack.
first_kernel : ℕ → ℕ → Kernel
unfolding at_boot
first_kernel n cr3 = record (at_boot n cr3) {
  sched = record {
    current = some boot_thread;
    ready = [];
    sleeping = [];
    idle = some (record {
      id = 1;
      stack_slot = some 0;
      wake_at = 0;
      is_idle = true;
      aspace = none;
      user_entry = 0;
      user_rsp = 0;
    });
    zombies = [];
    free_slots = [];
    next_slot = 1;
    next_id = 2;
  };
  started = true;
}

init-first_kernel :
    (frames n cr3 : ℕ) → stack_pages ≤ frames → init frames (at_boot n cr3) ≡ first_kernel n cr3
unfolding init take_slot at_boot first_kernel made made_kernel
init-first_kernel frames n cr3 h =
    let enough : ltb frames stack_pages ≡ false = ground arith in
    let s = record ((at_boot n cr3).sched) { next_slot = 1 } in
    let c = create_thread-made true frames (at_boot n cr3) 0 s refl enough in rw (c, init, c) refl

first_kernel-Sound : (n cr3 : ℕ) → Sound (first_kernel n cr3)
unfolding first_kernel at_boot tally count_option count_by
first_kernel-Sound n cr3 = record {
  running = record {
    cur = boot_thread;
    is_cur = refl;
    only = ground (arith, count_queues-empty idle_test n);
    home = refl;
    spare = λ i h. ground arith;
  };
  owned = record {
    once = λ i. ground (arith, count_queues-empty (uses i) n);
    bounded = omega arith;
  };
}

-- After `init`, with memory for the idle thread's stack, and after any history of spawns, switches,
-- preemptions, ticks, wake-ups and clean-ups in which the idle thread only yields and only existing
-- wait queues are named: some thread is current, one idle thread is there; each kernel-stack slot
-- below `next_slot` (at most 512) has exactly one owner, a thread or the list of free slots, and no
-- other slot has any; and `reschedule` returns, it does not panic.
pub history-Sound :
    (frames n cr3 : ℕ) (k : Kernel)
    → stack_pages ≤ frames
    → Reach (init frames (at_boot n cr3)) k
    → Sound k
      × ((now : ℕ) (how : Next)
          → Known how k
          → Allowed how k
          → (k' : Kernel) × (reschedule now how k ≡ some k'))
history-Sound frames n cr3 k h r =
    let s =
      Reach-Sound r
        (subst Sound (sym (init-first_kernel frames n cr3 h)) (first_kernel-Sound n cr3)) in
    (s, λ now how known ok. let (k', e, t) = reschedule-Sound now how k known ok s in (k', e))
