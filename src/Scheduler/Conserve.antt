-- ===== src/Scheduler/Conserve.antt =====
-- Where the threads are before and after `reschedule` of src/scheduler.rs.
use eonos.Prelude.{
  ℕ, zero, suc, ◌+◌, ◌<◌, ◌≡◌, refl, ◌∙◌, List, [], ◌∷◌, ◌++◌, Bool, true, false, Option, none,
  some, if◌then◌else◌, length, arith, Option-cases, inl, inr, set, get_or,
}
use eonos.Prelude.Vec.{count_by, count_by-append}
use eonos.Scheduler.{
  Thread, Scheduler, Kernel, Next, yield, sleep, exit, block, wake_sleepers, put_away, pick,
  switch_to, reschedule,
}
use eonos.Scheduler.Wake.{wake_sleepers_lem}

unfoldable pub count_option : (Thread → Bool) → Option Thread → ℕ
count_option q none = 0
count_option q (some t) = if q t then 1 else 0

unfoldable pub count_queues : (Thread → Bool) → List (List Thread) → ℕ
count_queues q [] = 0
count_queues q (l ∷ ls) = count_by q l + count_queues q ls

-- How many threads of the kernel pass a test, wherever they are.
unfoldable pub tally : (Thread → Bool) → Kernel → ℕ
unfolding count_option count_queues count_by
tally q k =
    count_option q k.current
    + count_option q k.idle
    + count_by q k.ready
    + count_by q k.sleeping
    + count_by q k.zombies
    + count_queues q k.queues

-- A test that does not look at `wake_at`, which going to sleep changes.
abbrev pub Stable : (Thread → Bool) → Type 0
Stable q = (t : Thread) (w : ℕ) → q (record t { wake_at = w }) ≡ q t

-- The wait queue that a thread blocks on exists.
abbrev pub Known : Next → Kernel → Type 0
Known yield k = Unit {0}
Known exit k = Unit {0}
Known (sleep w) k = Unit {0}
Known (block q) k = q < length k.queues

pub count_queues-set :
    (q : Thread → Bool) (ls : List (List Thread)) (i : ℕ) (l : List Thread)
    → i < length ls
    → count_queues q (set ls i l) + count_by q (get_or ls i []) ≡ count_queues q ls + count_by q l
unfolding count_queues
count_queues-set q [] i l h = absurd (omega arith)
count_queues-set q (x ∷ ls) zero l h = omega arith
count_queues-set q (x ∷ ls) (suc i) l h = omega (arith, count_queues-set q ls i l (omega arith))

pub one : (q : Thread → Bool) (t : Thread) → count_by q (t ∷ []) ≡ (if q t then 1 else 0)
unfolding count_by
one q t = ground arith

put_away-tally :
    (q : Thread → Bool) (how : Next) (cur : Thread) (k : Kernel)
    → Stable q
    → Known how k
    → (cur.is_idle ≡ true → k.idle ≡ none)
    → tally q (put_away how cur k) ≡ tally q k + (if q cur then 1 else 0)
unfolding tally put_away
put_away-tally q yield cur k st known alone =
    ground (arith, count_by-append q k.ready (cur ∷ []), one q cur)
put_away-tally q (sleep w) cur k st known alone = ground (
  arith,
  count_by-append q k.sleeping (record cur { wake_at = w } ∷ []),
  one q (record cur { wake_at = w }),
  st cur w,
)
put_away-tally q exit cur k st known alone =
    ground (arith, count_by-append q k.zombies (cur ∷ []), one q cur)
put_away-tally q (block n) cur k st known alone = ground (
  arith,
  count_queues-set q k.queues n (get_or k.queues n [] ++ (cur ∷ [])) known,
  count_by-append q (get_or k.queues n []) (cur ∷ []),
  one q cur,
)

-- The kernel when the current thread has been taken off and the sleepers have been woken.
unfoldable pub taken_off : ℕ → Kernel → Kernel
taken_off now k = record k {
  sched = record (wake_sleepers now k.sched) { current = none };
  slice_ticks = 0;
  need_resched = false;
}

same_current : (now : ℕ) (s : Scheduler) → (wake_sleepers now s).current ≡ s.current
unfolding wake_sleepers
same_current now s = refl

-- A successful `reschedule` taken apart.
pub record Switched (now : ℕ) (how : Next) (k k' : Kernel) : Type 0 where
  pub cur : Thread
  pub was_current : k.current ≡ some cur
  pub next : Thread
  pub rest : Scheduler
  pub picked : pick ((put_away how cur (taken_off now k)).sched) ≡ some (next, rest)
  pub result : k' ≡ switch_to next rest (put_away how cur (taken_off now k))

reschedule_from :
    (now : ℕ) (how : Next) (k : Kernel) (cur : Thread)
    → k.current ≡ some cur
    → reschedule now how k ≡ elim (pick ((put_away how cur (taken_off now k)).sched)) [
      | none ↦ none
      | some (next, s) ↦ some (switch_to next s (put_away how cur (taken_off now k)))
    ]
unfolding reschedule taken_off
reschedule_from now how k cur e = rw (e, reschedule, wake_sleepers)

reschedule_idle_cpu :
    (now : ℕ) (how : Next) (k : Kernel) → k.current ≡ none → reschedule now how k ≡ none
unfolding reschedule
reschedule_idle_cpu now how k e = rw (e, reschedule, wake_sleepers)

pub reschedule-picked :
    (now : ℕ) (how : Next) (k : Kernel) (cur next : Thread) (rest : Scheduler)
    → k.current ≡ some cur
    → pick ((put_away how cur (taken_off now k)).sched) ≡ some (next, rest)
    → reschedule now how k ≡ some (switch_to next rest (put_away how cur (taken_off now k)))
reschedule-picked now how k cur next rest e p = reschedule_from now how k cur e ∙ rw p refl

stuck :
    (now : ℕ) (how : Next) (k : Kernel) (cur : Thread)
    → k.current ≡ some cur
    → pick ((put_away how cur (taken_off now k)).sched) ≡ none
    → reschedule now how k ≡ none
stuck now how k cur e p = reschedule_from now how k cur e ∙ rw p refl

pub reschedule-Switched :
    (now : ℕ) (how : Next) (k k' : Kernel) → reschedule now how k ≡ some k' → Switched now how k k'
reschedule-Switched now how k k' h = elim (Option-cases k.current) [
  | inl e ↦ absurd (ground (arith, reschedule_idle_cpu now how k e))
  | inr (cur, e) ↦ elim (Option-cases (pick ((put_away how cur (taken_off now k)).sched))) [
    | inl p ↦ absurd (ground (arith, stuck now how k cur e p))
    | inr ((next, rest), p) ↦ record {
      cur = cur;
      was_current = e;
      next = next;
      rest = rest;
      picked = p;
      result = ground (arith, reschedule-picked now how k cur next rest e p);
    }
  ]
]

pick-tally :
    (q : Thread → Bool) (s s' : Scheduler) (t : Thread)
    → pick s ≡ some (t, s')
    → (count_option q s.idle + count_by q s.ready
        ≡ (if q t then 1 else 0) + count_option q s'.idle + count_by q s'.ready)
      × (s'.sleeping ≡ s.sleeping)
      × (s'.zombies ≡ s.zombies)
unfolding pick count_option count_by
pick-tally q s s' t h = ground arith

taken_off-idle : (now : ℕ) (k : Kernel) → (taken_off now k).idle ≡ k.idle
unfolding taken_off wake_sleepers
taken_off-idle now k = refl

taken_off-current : (now : ℕ) (k : Kernel) → (taken_off now k).current ≡ none
unfolding taken_off
taken_off-current now k = refl

taken_off-tally :
    (q : Thread → Bool) (now : ℕ) (k : Kernel) (cur : Thread)
    → k.current ≡ some cur
    → tally q (taken_off now k) + (if q cur then 1 else 0) ≡ tally q k
unfolding tally taken_off count_option wake_sleepers
taken_off-tally q now k cur e = ground (arith, (wake_sleepers_lem now k.sched).2 q, e)

put_away-current :
    (how : Next) (cur : Thread) (k : Kernel) → (put_away how cur k).current ≡ k.current
unfolding put_away
put_away-current yield cur k = ground arith
put_away-current (sleep w) cur k = refl
put_away-current exit cur k = refl
put_away-current (block n) cur k = refl

switch_to-tally :
    (q : Thread → Bool) (next : Thread) (rest : Scheduler) (k : Kernel)
    → k.current ≡ none
    → pick (k.sched) ≡ some (next, rest)
    → tally q (switch_to next rest k) ≡ tally q k
unfolding tally switch_to count_option
switch_to-tally q next rest k e p = ground (arith, pick-tally q (k.sched) rest next p, e)

Known-taken_off : (now : ℕ) (how : Next) (k : Kernel) → Known how k → Known how (taken_off now k)
unfolding taken_off
Known-taken_off now yield k h = tt
Known-taken_off now exit k h = tt
Known-taken_off now (sleep w) k h = tt
Known-taken_off now (block n) k h = h

-- A `reschedule` that does not panic keeps every thread: each kind of thread that can be told
-- without its wake-up time is, over all the places where a thread can be, as frequent as before. It
-- is assumed that the queue a thread blocks on exists, and that there is no second idle thread when
-- the idle thread is running.
pub reschedule-tally :
    (q : Thread → Bool) (now : ℕ) (how : Next) (k k' : Kernel)
    → Stable q
    → Known how k
    → ((cur : Thread) → k.current ≡ some cur → cur.is_idle ≡ true → k.idle ≡ none)
    → reschedule now how k ≡ some k'
    → tally q k' ≡ tally q k
reschedule-tally q now how k k' st known alone h =
    let w = reschedule-Switched now how k k' h in
    let off = taken_off now k in
    let a = taken_off-tally q now k w.cur w.was_current in
    let b =
      put_away-tally q how w.cur off st (Known-taken_off now how k known)
        (λ idle. taken_off-idle now k ∙ alone w.cur w.was_current idle) in
    let c =
      switch_to-tally q w.next w.rest (put_away how w.cur off)
        (put_away-current how w.cur off ∙ taken_off-current now k) w.picked in
    rw w.result (omega (arith, a, b, c))
