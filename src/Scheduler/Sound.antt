-- ===== src/Scheduler/Sound.antt =====
-- The operations of src/scheduler.rs, the running thread, the idle thread, and the owners of the
-- kernel-stack slots.
use eonos.Prelude.{
  ℕ, zero, suc, ◌+◌, ◌≡◌, refl, ap, sym, ◌∙◌, List, [], ◌∷◌, ◌++◌, Bool, false, some, arith,
  Bool-cases, Option-cases, inl, inr, ltb, set, get_or,
}
use mathlib.Core.List.{append-nil}
use eonos.Prelude.Vec.{count_by, count_by-append}
use eonos.Scheduler.{
  Thread, Scheduler, Kernel, Next, yield, sleep, exit, block, reschedule, stack_pages, pick,
  switch_to, wake_sleepers, put_away,
}
use eonos.Scheduler.Conserve.{
  count_queues, tally, Known, reschedule-tally, reschedule-Switched, taken_off,
}
use eonos.Scheduler.Running.{Running, Running-alone, Allowed, idle_test, reschedule-Running}
use eonos.Scheduler.Slots.{
  take_slot, spawn, spawn_user, free_thread, free_threads, finish_switch, wake_one, wake_all,
}
use eonos.Scheduler.Owned.{
  uses, is_slot, Owned, Quiet, Running-Quiet, create_thread-none, refused_kernel,
  create_thread_refused, made, made_kernel, create_thread-made, refused-Owned, refused-Quiet,
  queued, queued-Owned, queued-Quiet,
}

pub record Sound (k : Kernel) : Type 0 where
  pub running : Running k
  pub owned : Owned k

Quiet-Sound : (k k' : Kernel) → Sound k → Quiet k k' → (Owned k → Owned k') → Sound k'
Quiet-Sound k k' s q f = record { running = Running-Quiet k k' q s.running; owned = f s.owned }

pub spawn-Sound : (n : ℕ) (k : Kernel) → Sound k → Sound (spawn n k).1
unfolding spawn made made_kernel queued
spawn-Sound n k s = elim (Option-cases (take_slot (k.sched))) [
  | inl e ↦ rw (create_thread-none false n k e, spawn, create_thread-none false n k e) s
  | inr ((slot, t), e) ↦ elim (Bool-cases (ltb n stack_pages)) [
    | inl few ↦
        rw
          (
            create_thread_refused false n k slot t e few,
            spawn,
            create_thread_refused false n k slot t e few,
          )
          (Quiet-Sound k (refused_kernel k slot t) s (refused-Quiet k slot t e)
            (refused-Owned k slot t e))
    | inr enough ↦
        rw
          (
            create_thread-made false n k slot t e enough,
            spawn,
            create_thread-made false n k slot t e enough,
          )
          (Quiet-Sound k (queued k t (made false t.next_id slot)) s
            (queued-Quiet k slot t (made false t.next_id slot) e refl)
            (queued-Owned k slot t (made false t.next_id slot) e refl))
  ]
]

count_by-free :
    (i : ℕ) (dead : List Thread) (s : Scheduler)
    → count_by (is_slot i) (free_threads dead s).free_slots
      ≡ count_by (uses i) dead + count_by (is_slot i) s.free_slots
unfolding free_threads free_thread count_by
count_by-free i [] s = omega arith
count_by-free i (t ∷ dead) s = elim (Option-cases t.stack_slot) [
  | inl e ↦ ground (arith, count_by-free i dead s, e)
  | inr (slot, e) ↦
      ground (arith, count_by-free i dead (record s { free_slots = slot ∷ s.free_slots }), e)
]

record Freed (s s' : Scheduler) : Type 0 where
  current : s'.current ≡ s.current
  ready : s'.ready ≡ s.ready
  sleeping : s'.sleeping ≡ s.sleeping
  idle : s'.idle ≡ s.idle
  zombies : s'.zombies ≡ s.zombies
  next_slot : s'.next_slot ≡ s.next_slot

free_threads-Freed : (dead : List Thread) (s : Scheduler) → Freed s (free_threads dead s)
unfolding free_threads free_thread
free_threads-Freed [] s = record {
  current = refl;
  ready = refl;
  sleeping = refl;
  idle = refl;
  zombies = refl;
  next_slot = refl;
}
free_threads-Freed (t ∷ dead) s = elim (Option-cases t.stack_slot) [
  | inl e ↦ rw e (free_threads-Freed dead s)
  | inr (slot, e) ↦ rw e (
      let f = free_threads-Freed dead (record s { free_slots = slot ∷ s.free_slots }) in
      record {
        current = f.current;
        ready = f.ready;
        sleeping = f.sleeping;
        idle = f.idle;
        zombies = f.zombies;
        next_slot = f.next_slot;
      })
]

pub finish_switch-Sound : (k : Kernel) → Sound k → Sound (finish_switch k)
unfolding finish_switch tally count_by
finish_switch-Sound k s =
    let none_left = record (k.sched) { zombies = [] } in
    let f = free_threads-Freed k.zombies none_left in
    Quiet-Sound k (finish_switch k) s
      (record {
        current = f.current;
        idle = f.idle;
        fewer = ground (arith, f.current, f.ready, f.sleeping, f.idle, f.zombies);
      })
      (λ o. record {
        once = λ i. ground (
          arith,
          o.once i,
          count_by-free i k.zombies none_left,
          f.current,
          f.ready,
          f.sleeping,
          f.idle,
          f.zombies,
          f.next_slot,
        );
        bounded = ground (arith, f.next_slot, o.bounded);
      })

pub spawn_user-Sound : (n a e r : ℕ) (k : Kernel) → Sound k → Sound (spawn_user n a e r k).1
unfolding spawn_user made made_kernel queued
spawn_user-Sound n a entry rsp k s = elim (Option-cases (take_slot (k.sched))) [
  | inl e ↦ rw (create_thread-none false n k e, spawn_user, create_thread-none false n k e) s
  | inr ((slot, t), e) ↦ elim (Bool-cases (ltb n stack_pages)) [
    | inl few ↦
        rw
          (
            create_thread_refused false n k slot t e few,
            spawn_user,
            create_thread_refused false n k slot t e few,
          )
          (Quiet-Sound k (refused_kernel k slot t) s (refused-Quiet k slot t e)
            (refused-Owned k slot t e))
    | inr enough ↦
        let new = record (made false t.next_id slot) {
          aspace = some a;
          user_entry = entry;
          user_rsp = rsp;
        } in
        rw
          (
            create_thread-made false n k slot t e enough,
            spawn_user,
            create_thread-made false n k slot t e enough,
          )
          (Quiet-Sound k (queued k t new) s (queued-Quiet k slot t new e refl)
            (queued-Owned k slot t new e refl))
  ]
]

count_queues-taken :
    (q : Thread → Bool) (ls : List (List Thread)) (n m : ℕ) (rest : List Thread)
    → count_by q (get_or ls n []) ≡ m + count_by q rest
    → count_queues q (set ls n rest) + m ≡ count_queues q ls
unfolding count_queues count_by
count_queues-taken q [] n m rest e = omega (arith, e)
count_queues-taken q (l ∷ ls) zero m rest e = omega (arith, e)
count_queues-taken q (l ∷ ls) (suc n) m rest e = omega (arith, count_queues-taken q ls n m rest e)

-- Threads of the wait queue `n`, moved to the end of the ready queue.
moved : ℕ → List Thread → List Thread → Kernel → Kernel
moved n woken rest k = record k {
  sched = record (k.sched) { ready = k.ready ++ woken };
  queues = set k.queues n rest;
}

moved-tally :
    (n : ℕ) (woken rest : List Thread) (k : Kernel) (q : Thread → Bool)
    → get_or k.queues n [] ≡ woken ++ rest
    → tally q (moved n woken rest k) ≡ tally q k
unfolding tally moved
moved-tally n woken rest k q e =
    let split : count_by q (get_or k.queues n []) ≡ count_by q woken + count_by q rest =
      ap (count_by q) e ∙ count_by-append q woken rest in
    omega (
      arith,
      count_queues-taken q k.queues n (count_by q woken) rest split,
      count_by-append q k.ready woken,
    )

moved-Sound :
    (n : ℕ) (woken rest : List Thread) (k : Kernel)
    → get_or k.queues n [] ≡ woken ++ rest
    → Sound k
    → Sound (moved n woken rest k)
unfolding moved
moved-Sound n woken rest k e s =
    Quiet-Sound k (moved n woken rest k) s
      (record {
        current = refl;
        idle = refl;
        fewer = omega (arith, moved-tally n woken rest k idle_test e);
      })
      (λ o. record {
        once = λ i. omega (arith, moved-tally n woken rest k (uses i) e, o.once i);
        bounded = o.bounded;
      })

pub wake_all-Sound : (n : ℕ) (k : Kernel) → Sound k → Sound (wake_all n k)
unfolding wake_all moved
wake_all-Sound n k s =
    moved-Sound n (get_or k.queues n []) [] k (sym (append-nil (get_or k.queues n []))) s

wake_one-from :
    (n : ℕ) (k : Kernel) (l : List Thread)
    → get_or k.queues n [] ≡ l
    → Sound k
    → Sound (wake_one n k).1
unfolding wake_one moved
wake_one-from n k [] e s = rw (e, wake_one) s
wake_one-from n k (t ∷ rest) e s = rw (e, wake_one) (moved-Sound n (t ∷ []) rest k e s)

pub wake_one-Sound : (n : ℕ) (k : Kernel) → Sound k → Sound (wake_one n k).1
wake_one-Sound n k = wake_one-from n k (get_or k.queues n []) refl

abbrev SameSlots : Scheduler → Scheduler → Type 0
SameSlots s s' = (s'.free_slots ≡ s.free_slots) × (s'.next_slot ≡ s.next_slot)

put_away-slots :
    (how : Next) (cur : Thread) (k : Kernel) → SameSlots (k.sched) ((put_away how cur k).sched)
unfolding put_away
put_away-slots yield cur k = ground arith
put_away-slots (sleep w) cur k = (refl, refl)
put_away-slots exit cur k = (refl, refl)
put_away-slots (block n) cur k = (refl, refl)

pick-slots : (s s' : Scheduler) (t : Thread) → pick s ≡ some (t, s') → SameSlots s s'
unfolding pick
pick-slots s s' t h = ground arith

taken_off-slots : (now : ℕ) (k : Kernel) → SameSlots (k.sched) ((taken_off now k).sched)
unfolding taken_off wake_sleepers
taken_off-slots now k = (refl, refl)

-- `reschedule` does not touch the slots.
reschedule-slots :
    (now : ℕ) (how : Next) (k k' : Kernel)
    → reschedule now how k ≡ some k'
    → SameSlots (k.sched) (k'.sched)
unfolding switch_to
reschedule-slots now how k k' h =
    let w = reschedule-Switched now how k k' h in
    let a = taken_off-slots now k in
    let b = put_away-slots how w.cur (taken_off now k) in
    let c = pick-slots ((put_away how w.cur (taken_off now k)).sched) w.rest w.next w.picked in
    let d = ap (λ j. j.free_slots) w.result in
    let e = ap (λ j. j.next_slot) w.result in (d ∙ c.0 ∙ b.0 ∙ a.0, e ∙ c.1 ∙ b.1 ∙ a.1)

reschedule-Owned :
    (now : ℕ) (how : Next) (k k' : Kernel)
    → Known how k
    → Running k
    → reschedule now how k ≡ some k'
    → Owned k
    → Owned k'
reschedule-Owned now how k k' known r h o =
    let (a, b) = reschedule-slots now how k k' h in
    record {
      once = λ i. ground (
        arith,
        o.once i,
        a,
        b,
        reschedule-tally (uses i) now how k k' (λ t w. refl) known (Running-alone k r) h,
      );
      bounded = ground (arith, o.bounded, b);
    }

pub reschedule-Sound :
    (now : ℕ) (how : Next) (k : Kernel)
    → Known how k
    → Allowed how k
    → Sound k
    → (k' : Kernel) × (reschedule now how k ≡ some k') × Sound k'
reschedule-Sound now how k known ok s =
    let (k', e, r) = reschedule-Running now how k s.running known ok in
    (k', e, record { running = r; owned = reschedule-Owned now how k k' known s.running e s.owned })
