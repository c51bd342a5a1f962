-- ===== src/Scheduler/Owned.antt =====
-- Who owns the kernel-stack slots of src/scheduler.rs, and how handing one out changes that.
use eonos.Prelude.{
  ℕ, ◌+◌, ◌≤◌, ◌≡◌, ap, sym, ◌∙◌, [], ◌∷◌, ◌++◌, Bool, true, false, none, some, if◌then◌else◌,
  arith, ltb, ◌==◌,
}
use eonos.Prelude.Vec.{count_by, count_by-append}
use eonos.Scheduler.{Thread, Scheduler, Kernel, max_slots, stack_pages}
use eonos.Scheduler.Conserve.{count_option, tally, one}
use eonos.Scheduler.Running.{Running, idle_test}
use eonos.Scheduler.Slots.{take_slot, create_thread}

abbrev pub uses : ℕ → Thread → Bool
uses i t = elim t.stack_slot [ none ↦ false | some s ↦ s == i ]

abbrev pub is_slot : ℕ → ℕ → Bool
is_slot i s = s == i

-- Each slot that was ever handed out has one owner: a thread, or the list of free slots.
pub record Owned (k : Kernel) : Type 0 where
  pub once :
      (i : ℕ)
      → tally (uses i) k + count_by (is_slot i) k.free_slots ≡ (if ltb i k.next_slot then 1 else 0)
  pub bounded : k.next_slot ≤ max_slots

take_slot-once :
    (s s' : Scheduler) (slot : ℕ)
    → take_slot s ≡ some (slot, s')
    → (i : ℕ)
    → (count_by (is_slot i) s'.free_slots
          + (if slot == i then 1 else 0)
          + (if ltb i s.next_slot then 1 else 0)
        ≡ count_by (is_slot i) s.free_slots + (if ltb i s'.next_slot then 1 else 0))
unfolding take_slot count_by
take_slot-once s s' slot h i = ground arith

record Taken (s s' : Scheduler) : Type 0 where
  current : s'.current ≡ s.current
  ready : s'.ready ≡ s.ready
  sleeping : s'.sleeping ≡ s.sleeping
  idle : s'.idle ≡ s.idle
  zombies : s'.zombies ≡ s.zombies
  bounded : s.next_slot ≤ max_slots → s'.next_slot ≤ max_slots

take_slot-Taken : (s s' : Scheduler) (slot : ℕ) → take_slot s ≡ some (slot, s') → Taken s s'
unfolding take_slot
take_slot-Taken s s' slot h = record {
  current = ground arith;
  ready = ground arith;
  sleeping = ground arith;
  idle = ground arith;
  zombies = ground arith;
  bounded = λ b. ground arith;
}

-- What an operation that neither runs nor stops a thread leaves as it is.
pub record Quiet (k k' : Kernel) : Type 0 where
  pub current : k'.current ≡ k.current
  pub idle : k'.idle ≡ k.idle
  pub fewer : tally idle_test k' ≤ tally idle_test k

pub Running-Quiet : (k k' : Kernel) → Quiet k k' → Running k → Running k'
unfolding tally
Running-Quiet k k' s r = record {
  cur = r.cur;
  is_cur = s.current ∙ r.is_cur;
  only = omega (
    arith,
    s.fewer,
    r.only,
    r.home,
    ap (count_option idle_test) s.current,
    ap (count_option idle_test) s.idle,
  );
  home =
      omega
        (arith, r.home, ap (count_option idle_test) s.current, ap (count_option idle_test) s.idle);
  spare = λ i h. r.spare i (sym s.idle ∙ h);
}

-- The three ways `create_thread` can end.
pub create_thread-none :
    (b : Bool) (n : ℕ) (k : Kernel) → take_slot (k.sched) ≡ none → create_thread b n k ≡ (none, k)
unfolding create_thread
create_thread-none b n k h = rw (create_thread, h)

unfoldable pub refused_kernel : Kernel → ℕ → Scheduler → Kernel
refused_kernel k slot s = record k {
  sched = record s { next_id = s.next_id + 1; free_slots = slot ∷ s.free_slots };
}

pub create_thread_refused :
    (b : Bool) (n : ℕ) (k : Kernel) (slot : ℕ) (s : Scheduler)
    → take_slot (k.sched) ≡ some (slot, s)
    → ltb n stack_pages ≡ true
    → create_thread b n k ≡ (none, refused_kernel k slot s)
unfolding create_thread refused_kernel
create_thread_refused b n k slot s h e = rw (create_thread, h, e)

unfoldable pub made : Bool → ℕ → ℕ → Thread
made b id slot = record {
  id = id;
  stack_slot = some slot;
  wake_at = 0;
  is_idle = b;
  aspace = none;
  user_entry = 0;
  user_rsp = 0;
}

unfoldable pub made_kernel : Kernel → Scheduler → Kernel
made_kernel k s = record k { sched = record s { next_id = s.next_id + 1 } }

pub create_thread-made :
    (b : Bool) (n : ℕ) (k : Kernel) (slot : ℕ) (s : Scheduler)
    → take_slot (k.sched) ≡ some (slot, s)
    → ltb n stack_pages ≡ false
    → create_thread b n k ≡ (some (made b s.next_id slot), made_kernel k s)
unfolding create_thread made made_kernel
create_thread-made b n k slot s h e = rw (create_thread, h, e)

pub refused-Owned :
    (k : Kernel) (slot : ℕ) (s : Scheduler)
    → take_slot (k.sched) ≡ some (slot, s)
    → Owned k
    → Owned (refused_kernel k slot s)
unfolding refused_kernel tally count_by
refused-Owned k slot s h o =
    let t = take_slot-Taken (k.sched) s slot h in
    record {
      once = λ i. ground (
        arith,
        o.once i,
        take_slot-once (k.sched) s slot h i,
        t.current,
        t.ready,
        t.sleeping,
        t.idle,
        t.zombies,
      );
      bounded = t.bounded o.bounded;
    }

pub refused-Quiet :
    (k : Kernel) (slot : ℕ) (s : Scheduler)
    → take_slot (k.sched) ≡ some (slot, s)
    → Quiet k (refused_kernel k slot s)
unfolding refused_kernel tally
refused-Quiet k slot s h =
    let t = take_slot-Taken (k.sched) s slot h in
    record {
      current = t.current;
      idle = t.idle;
      fewer = ground (arith, t.current, t.ready, t.sleeping, t.idle, t.zombies);
    }

-- A new thread, with the slot just taken, goes to the ready queue.
unfoldable pub queued : Kernel → Scheduler → Thread → Kernel
queued k s t = record k {
  sched = record s { next_id = s.next_id + 1; ready = s.ready ++ (t ∷ []) };
}

pub queued-Owned :
    (k : Kernel) (slot : ℕ) (s : Scheduler) (t : Thread)
    → take_slot (k.sched) ≡ some (slot, s)
    → t.stack_slot ≡ some slot
    → Owned k
    → Owned (queued k s t)
unfolding queued tally count_by
queued-Owned k slot s t h e o =
    let w = take_slot-Taken (k.sched) s slot h in
    record {
      once = λ i. ground (
        arith,
        o.once i,
        take_slot-once (k.sched) s slot h i,
        w.current,
        w.ready,
        w.sleeping,
        w.idle,
        w.zombies,
        count_by-append (uses i) s.ready (t ∷ []),
        one (uses i) t,
        e,
      );
      bounded = w.bounded o.bounded;
    }

pub queued-Quiet :
    (k : Kernel) (slot : ℕ) (s : Scheduler) (t : Thread)
    → take_slot (k.sched) ≡ some (slot, s)
    → t.is_idle ≡ false
    → Quiet k (queued k s t)
unfolding queued tally
queued-Quiet k slot s t h e =
    let w = take_slot-Taken (k.sched) s slot h in
    record {
      current = w.current;
      idle = w.idle;
      fewer = ground (
        arith,
        w.current,
        w.ready,
        w.sleeping,
        w.idle,
        w.zombies,
        count_by-append idle_test s.ready (t ∷ []),
        one idle_test t,
        e,
      );
    }
