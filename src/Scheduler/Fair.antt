-- ===== src/Scheduler/Fair.antt =====
-- How long a ready thread of src/scheduler.rs waits.
use eonos.Prelude.{
  ℕ, suc, ◌≡◌, refl, ap, sym, ◌∙◌, List, [], ◌∷◌, ◌++◌, Option, none, some, arith, Bool-cases, inl,
  inr, length,
}
use mathlib.Core.List.{append_assoc, append-nil}
use eonos.Scheduler.{
  Thread, Scheduler, Kernel, Next, yield, sleep, exit, block, put_away, pick, switch_to, reschedule,
}
use eonos.Scheduler.Wake.{wake_sleepers_lem}
use eonos.Scheduler.Conserve.{taken_off, reschedule-picked}

-- Switches one after the other, each at its time and for its reason.
unfoldable pub switches : List (ℕ × Next) → Kernel → Option Kernel
unfolding reschedule
switches [] k = some k
switches ((now, how) ∷ l) k = elim (reschedule now how k) [ none ↦ none | some k' ↦ switches l k' ]

put_away-behind :
    (how : Next) (cur : Thread) (k : Kernel)
    → (behind : List Thread) × ((put_away how cur k).ready ≡ k.ready ++ behind)
unfolding put_away
put_away-behind yield cur k = elim (Bool-cases cur.is_idle) [
  | inl e ↦ ([], ground (arith, append-nil k.ready))
  | inr e ↦ (cur ∷ [], ground arith)
]
put_away-behind (sleep w) cur k = ([], sym (append-nil k.ready))
put_away-behind exit cur k = ([], sym (append-nil k.ready))
put_away-behind (block n) cur k = ([], sym (append-nil k.ready))

taken_off-behind :
    (now : ℕ) (k : Kernel) → (behind : List Thread) × ((taken_off now k).ready ≡ k.ready ++ behind)
unfolding taken_off
taken_off-behind now k =
    let (none_due, w, kept) = wake_sleepers_lem now (k.sched) in (w.woken, w.at_end)

-- The head of the ready queue runs next, and the others move up.
record Advanced (now : ℕ) (how : Next) (k : Kernel) (t : Thread) (rest : List Thread) : Type 0 where
  after : Kernel
  returns : reschedule now how k ≡ some after
  current : after.current ≡ some t
  behind : List Thread
  ready : after.ready ≡ rest ++ behind

pick-head :
    (s : Scheduler) (t : Thread) (rest : List Thread)
    → s.ready ≡ t ∷ rest
    → pick s ≡ some (t, record s { ready = rest })
unfolding pick
pick-head s t rest e = rw e refl

reschedule-Advanced :
    (now : ℕ) (how : Next) (k : Kernel) (cur t : Thread) (rest : List Thread)
    → k.current ≡ some cur
    → k.ready ≡ t ∷ rest
    → Advanced now how k t rest
unfolding switch_to
reschedule-Advanced now how k cur t rest c e =
    let (l1, e1) = taken_off-behind now k in
    let k2 = put_away how cur (taken_off now k) in
    let (l2, e2) = put_away-behind how cur (taken_off now k) in
    let front : k2.ready ≡ t ∷ (rest ++ l1) ++ l2 =
      e2 ∙ ap (λ l. l ++ l2) (e1 ∙ ap (λ l. l ++ l1) e) in
    let left = record (k2.sched) { ready = (rest ++ l1) ++ l2 } in
    record {
      after = switch_to t left k2;
      returns =
          reschedule-picked now how k cur t left c
            (pick-head (k2.sched) t ((rest ++ l1) ++ l2) front);
      current = refl;
      behind = l1 ++ l2;
      ready = append_assoc rest l1 l2;
    }

-- No starvation: a thread with `n` threads before it in the ready queue runs after exactly `n + 1`
-- switches. These return, for whatever reason each switch is made and at whatever time; threads
-- that wake up meanwhile, or yield, do not pass it. It is assumed only that some thread is current.
pub switches-turn :
    (before after : List Thread) (t cur : Thread) (l : List (ℕ × Next)) (k : Kernel)
    → k.current ≡ some cur
    → k.ready ≡ before ++ (t ∷ after)
    → length l ≡ suc (length before)
    → (k' : Kernel) × (switches l k ≡ some k') × (k'.current ≡ some t)
unfolding switches
switches-turn before after t cur [] k c e n = absurd (omega arith)
switches-turn [] after t cur ((now, how) ∷ []) k c e n =
    let a = reschedule-Advanced now how k cur t after c e in
    (a.after, rw (switches, a.returns) refl, a.current)
switches-turn [] after t cur ((now, how) ∷ x ∷ l) k c e n = absurd (omega arith)
switches-turn (b ∷ before) after t cur ((now, how) ∷ l) k c e n =
    let a = reschedule-Advanced now how k cur b (before ++ (t ∷ after)) c e in
    let (k', r, f) =
      switches-turn before (after ++ a.behind) t b l a.after a.current
        (a.ready ∙ append_assoc before (t ∷ after) a.behind) (omega arith) in
    (k', rw (switches, a.returns) r, f)
