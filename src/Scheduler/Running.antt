-- ===== src/Scheduler/Running.antt =====
-- The two panics of `reschedule` of src/scheduler.rs, and the idle thread.
use eonos.Prelude.{
  ℕ, ◌+◌, ◌≡◌, refl, ◌∙◌, subst, List, [], ◌∷◌, ◌++◌, Bool, true, false, none, some, arith,
  Bool-cases, Option-cases, inl, inr, ◌⊎◌,
}
use eonos.Prelude.Vec.{count_by, count_by-append}
use eonos.Scheduler.{
  Thread, Scheduler, Kernel, Next, yield, sleep, exit, block, wake_sleepers, put_away, pick,
  switch_to, reschedule,
}
use eonos.Scheduler.Wake.{wake_sleepers_lem}
use eonos.Scheduler.Conserve.{
  count_option, tally, Known, one, taken_off, reschedule-picked, reschedule-tally,
}

abbrev pub idle_test : Thread → Bool
idle_test t = t.is_idle

-- A thread is running, and there is one idle thread: it runs, or it is kept in `idle`.
pub record Running (k : Kernel) : Type 0 where
  pub cur : Thread
  pub is_cur : k.current ≡ some cur
  pub only : tally idle_test k ≡ 1
  pub home : count_option idle_test k.current + count_option idle_test k.idle ≡ 1
  pub spare : (i : Thread) → k.idle ≡ some i → i.is_idle ≡ true

-- The idle thread only yields.
abbrev pub Allowed : Next → Kernel → Type 0
Allowed how k = (cur : Thread) → k.current ≡ some cur → cur.is_idle ≡ true → how ≡ yield

record Parked (s : Scheduler) : Type 0 where
  i : Thread
  kept : s.idle ≡ some i
  is_spare : i.is_idle ≡ true
  busy : count_by idle_test s.ready ≡ 0

pub Running-alone :
    (k : Kernel)
    → Running k
    → (cur : Thread) → k.current ≡ some cur
    → cur.is_idle ≡ true
    → k.idle ≡ none
unfolding count_option
Running-alone k r cur e i = elim (Option-cases k.idle) [
  | inl n ↦ n
  | inr (j, s) ↦ absurd (ground (arith, r.home, r.spare j s, e, i, s))
]

taken_off-busy :
    (now : ℕ) (k : Kernel)
    → Running k
    → (count_by idle_test (taken_off now k).ready ≡ 0) × ((taken_off now k).idle ≡ k.idle)
unfolding taken_off tally
taken_off-busy now k r = (
  omega (arith, (wake_sleepers_lem now k.sched).2 idle_test, r.only, r.home),
  unfold wake_sleepers in refl,
)

idle_or_kept :
    (k : Kernel) (r : Running k)
    → (r.cur.is_idle ≡ true)
      ⊎ ((r.cur.is_idle ≡ false) × (i : Thread) × (k.idle ≡ some i) × (i.is_idle ≡ true))
unfolding count_option
idle_or_kept k r = elim (Bool-cases r.cur.is_idle) [
  | inl e ↦ inl e
  | inr e ↦ elim (Option-cases k.idle) [
    | inl n ↦ absurd (ground (arith, r.home, r.is_cur, e, n))
    | inr (i, s) ↦ inr (e, i, s, r.spare i s)
  ]
]

put_away-idle :
    (k : Kernel) (cur : Thread)
    → cur.is_idle ≡ true
    → record k { sched = record (k.sched) { idle = some cur } } ≡ put_away yield cur k
unfolding put_away
put_away-idle k cur e = ground arith

put_away-ready :
    (k : Kernel) (cur : Thread)
    → cur.is_idle ≡ false
    → record k { sched = record (k.sched) { ready = k.ready ++ (cur ∷ []) } } ≡ put_away yield cur k
unfolding put_away
put_away-ready k cur e = ground arith

yield-Parked :
    (k : Kernel) (cur : Thread)
    → cur.is_idle ≡ true
    → count_by idle_test k.ready ≡ 0
    → Parked ((put_away yield cur k).sched)
yield-Parked k cur e b =
    subst (λ j. Parked (j.sched)) (put_away-idle k cur e)
      (record { i = cur; kept = refl; is_spare = e; busy = b })

put_away-Parked :
    (how : Next) (k : Kernel) (cur i : Thread)
    → cur.is_idle ≡ false
    → k.idle ≡ some i
    → i.is_idle ≡ true
    → count_by idle_test k.ready ≡ 0
    → Parked ((put_away how cur k).sched)
unfolding put_away
put_away-Parked yield k cur i e s t b =
    subst (λ j. Parked (j.sched)) (put_away-ready k cur e)
      (record {
        i = i;
        kept = s;
        is_spare = t;
        busy = ground (arith, count_by-append idle_test k.ready (cur ∷ []), one idle_test cur);
      })
put_away-Parked (sleep w) k cur i e s t b = record { i = i; kept = s; is_spare = t; busy = b }
put_away-Parked exit k cur i e s t b = record { i = i; kept = s; is_spare = t; busy = b }
put_away-Parked (block n) k cur i e s t b = record { i = i; kept = s; is_spare = t; busy = b }

record Picked (s : Scheduler) : Type 0 where
  next : Thread
  rest : Scheduler
  picked : pick s ≡ some (next, rest)
  home : count_option idle_test (some next) + count_option idle_test rest.idle ≡ 1
  spare : (j : Thread) → rest.idle ≡ some j → j.is_idle ≡ true

pick-Picked : (s : Scheduler) (l : List Thread) → s.ready ≡ l → Parked s → Picked s
unfolding pick count_option count_by
pick-Picked s [] e p = record {
  next = p.i;
  rest = record s { idle = none };
  picked = ground (arith, p.kept, e);
  home = ground (arith, p.is_spare);
  spare = λ j h. absurd (cc);
}
pick-Picked s (t ∷ rest) e p = record {
  next = t;
  rest = record s { ready = rest };
  picked = ground (arith, e);
  home = ground (arith, p.kept, p.is_spare, p.busy, e);
  spare = λ j h. ground (arith, p.kept, p.is_spare, h);
}

Running-Parked :
    (now : ℕ) (how : Next) (k : Kernel) (r : Running k)
    → Allowed how k
    → Parked ((put_away how r.cur (taken_off now k)).sched)
Running-Parked now how k r ok =
    let (b, same) = taken_off-busy now k r in
    elim (idle_or_kept k r) [
      | inl e ↦ rw (ok r.cur r.is_cur e) (yield-Parked (taken_off now k) r.cur e b)
      | inr (e, i, s, t) ↦ put_away-Parked how (taken_off now k) r.cur i e (same ∙ s) t b
    ]

-- From a running kernel, `reschedule` returns, whatever time it is and whatever the current thread
-- asks for, if the idle thread asks for nothing but to yield and a wait queue that is named exists;
-- and the kernel is running again: some thread is current and the one idle thread runs or waits in
-- its place.
pub reschedule-Running :
    (now : ℕ) (how : Next) (k : Kernel)
    → Running k
    → Known how k
    → Allowed how k
    → (k' : Kernel) × (reschedule now how k ≡ some k') × Running k'
reschedule-Running now how k r known ok =
    let k2 = put_away how r.cur (taken_off now k) in
    let p = pick-Picked (k2.sched) (k2.ready) refl (Running-Parked now how k r ok) in
    let k' = switch_to p.next p.rest k2 in
    let e = reschedule-picked now how k r.cur p.next p.rest r.is_cur p.picked in
    (
      k',
      e,
      record {
        cur = p.next;
        is_cur = unfold switch_to in refl;
        only =
            reschedule-tally idle_test now how k k' (λ t w. refl) known (Running-alone k r) e
            ∙ r.only;
        home = unfold switch_to in p.home;
        spare = unfold switch_to in p.spare;
      },
    )
