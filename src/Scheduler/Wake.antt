-- ===== src/Scheduler/Wake.antt =====
-- `wake_sleepers` of src/scheduler.rs.
use eonos.Prelude.{
  ℕ, zero, suc, ◌+◌, ◌≤◌, ◌≡◌, refl, ap, sym, ◌∙◌, subst, List, [], ◌∷◌, ◌++◌, Bool, true, false,
  not, none, some, if◌then◌else◌, leb, length, take, arith, Bool-cases, Option-cases, inl, inr,
  dec_le,
}
use native.Mathlib.Numerals.{add-one}
use mathlib.Core.List.{append_assoc, append-nil}
use eonos.Prelude.Vec.{
  swap_remove, count_by, count_by-append, count_by-swap_remove, swap_remove-some,
}
use eonos.Scheduler.{Thread, Scheduler, wake_loop, wake_sleepers}

-- The three ways a round can go.
wake_round_stop :
    (fuel now i : ℕ) (ready sleeping : List Thread)
    → swap_remove sleeping i ≡ none
    → wake_loop (suc fuel) now i ready sleeping ≡ (ready, sleeping)
unfolding wake_loop
wake_round_stop fuel now i ready sleeping e = rw (e, wake_loop)

wake_round_due :
    (fuel now i : ℕ) (ready sleeping rest : List Thread) (t : Thread)
    → swap_remove sleeping i ≡ some (t, rest)
    → leb t.wake_at now ≡ true
    → wake_loop (suc fuel) now i ready sleeping ≡ wake_loop fuel now i (ready ++ (t ∷ [])) rest
unfolding wake_loop
wake_round_due fuel now i ready sleeping rest t e d = rw (e, wake_loop, d)

wake_round_later :
    (fuel now i : ℕ) (ready sleeping rest : List Thread) (t : Thread)
    → swap_remove sleeping i ≡ some (t, rest)
    → leb t.wake_at now ≡ false
    → wake_loop (suc fuel) now i ready sleeping ≡ wake_loop fuel now (i + 1) ready sleeping
unfolding wake_loop
wake_round_later fuel now i ready sleeping rest t e d = rw (e, wake_loop, d)

count_by-one : (q : Thread → Bool) (t : Thread) → count_by q (t ∷ []) ≡ (if q t then 1 else 0)
unfolding count_by
count_by-one q t = ground arith

-- Waking moves threads from the sleepers to the ready queue, and neither loses nor makes one.
pub wake_loop-count_by :
    (q : Thread → Bool) (fuel now i : ℕ) (ready sleeping : List Thread)
    → let (r, s) = wake_loop fuel now i ready sleeping in
      count_by q r + count_by q s ≡ count_by q ready + count_by q sleeping
unfolding wake_loop
wake_loop-count_by q zero now i ready sleeping = refl
wake_loop-count_by q (suc fuel) now i ready sleeping =
    elim (Option-cases (swap_remove sleeping i)) [
      | inl e ↦ rw (wake_round_stop fuel now i ready sleeping e)
      | inr ((t, rest), e) ↦ elim (Bool-cases (leb t.wake_at now)) [
        | inl d ↦ rw (wake_round_due fuel now i ready sleeping rest t e d) (
            omega (
              arith,
              wake_loop-count_by q fuel now i (ready ++ (t ∷ [])) rest,
              count_by-append q ready (t ∷ []),
              count_by-one q t,
              count_by-swap_remove q sleeping i t rest e,
            ))
        | inr d ↦
            rw (wake_round_later fuel now i ready sleeping rest t e d)
              (wake_loop-count_by q fuel now (i + 1) ready sleeping)
      ]
    ]

abbrev pub is_due : ℕ → Thread → Bool
is_due now t = leb t.wake_at now

module _ {ℓ} {A : Type ℓ} where
  take-swap_remove :
      (xs : List A) (i : ℕ) (e : A) (rest : List A)
      → swap_remove xs i ≡ some (e, rest)
      → take i rest ≡ take i xs
  unfolding swap_remove
  take-swap_remove [] i e rest h = absurd (cc)
  take-swap_remove (x ∷ xs) zero e rest h = refl
  take-swap_remove (x ∷ xs) (suc i) e rest h = elim (Option-cases (swap_remove xs i)) [
    | inl n ↦ absurd (ground arith)
    | inr ((e', rest'), s) ↦ ground (arith, take-swap_remove xs i e' rest' s)
  ]

  count_by-take-suc :
      (q : A → Bool) (xs : List A) (i : ℕ) (e : A) (rest : List A)
      → swap_remove xs i ≡ some (e, rest)
      → count_by q (take (suc i) xs) ≡ count_by q (take i xs) + (if q e then 1 else 0)
  unfolding swap_remove count_by
  count_by-take-suc q [] i e rest h = absurd (cc)
  count_by-take-suc q (x ∷ xs) zero e rest h = ground arith
  count_by-take-suc q (x ∷ xs) (suc i) e rest h = elim (Option-cases (swap_remove xs i)) [
    | inl n ↦ absurd (ground arith)
    | inr ((e', rest'), s) ↦ ground (arith, count_by-take-suc q xs i e' rest' s)
  ]

  swap_remove_past : (xs : List A) (i : ℕ) → length xs ≤ i → swap_remove xs i ≡ none
  unfolding swap_remove
  swap_remove_past [] i h = refl
  swap_remove_past (x ∷ xs) zero h = absurd (omega arith)
  swap_remove_past (x ∷ xs) (suc i) h = ground (arith, swap_remove_past xs i)

  take_all : (xs : List A) (n : ℕ) → length xs ≤ n → take n xs ≡ xs
  take_all [] zero h = refl
  take_all [] (suc n) h = refl
  take_all (x ∷ xs) zero h = absurd (omega arith)
  take_all (x ∷ xs) (suc n) h = ap (◌∷◌ x) (take_all xs n (omega arith))

  length-swap_remove :
      (xs : List A) (i : ℕ) (e : A) (rest : List A)
      → swap_remove xs i ≡ some (e, rest)
      → length xs ≡ suc (length rest)
  length-swap_remove xs i e rest h = elim (dec_le (length xs) i) [
    | yes p ↦ absurd (ground (arith, swap_remove_past xs i p))
    | no p ↦ let (e', rest', s, g, n) = swap_remove-some xs i (omega arith) in ground arith
  ]

  swap_remove-none : (xs : List A) (i : ℕ) → swap_remove xs i ≡ none → length xs ≤ i
  swap_remove-none xs i h = elim (dec_le (length xs) i) [
    | yes p ↦ p
    | no p ↦ let (e, rest, s, g, n) = swap_remove-some xs i (omega arith) in absurd (ground arith)
  ]

-- With rounds enough nobody who is due stays asleep.
wake_loop-none_due :
    (fuel now i : ℕ) (ready sleeping : List Thread)
    → length sleeping ≤ fuel + i
    → count_by (is_due now) (take i sleeping) ≡ 0
    → count_by (is_due now) (wake_loop fuel now i ready sleeping).1 ≡ 0
unfolding wake_loop
wake_loop-none_due zero now i ready sleeping enough before =
    rw (← take_all sleeping i (omega arith)) before
wake_loop-none_due (suc fuel) now i ready sleeping enough before =
    elim (Option-cases (swap_remove sleeping i)) [
      | inl e ↦ rw (wake_round_stop fuel now i ready sleeping e) (
          subst (λ l. count_by (is_due now) l ≡ 0)
            (take_all sleeping i (swap_remove-none sleeping i e)) before)
      | inr ((t, rest), e) ↦ elim (Bool-cases (leb t.wake_at now)) [
        | inl d ↦ rw (wake_round_due fuel now i ready sleeping rest t e d) (
            wake_loop-none_due fuel now i (ready ++ (t ∷ [])) rest
              (omega (arith, length-swap_remove sleeping i t rest e))
              (rw (take-swap_remove sleeping i t rest e) before))
        | inr d ↦ rw (wake_round_later fuel now i ready sleeping rest t e d) (
            wake_loop-none_due fuel now (i + 1) ready sleeping (omega arith) (
              rw add-one
                (ground (arith, count_by-take-suc (is_due now) sleeping i t rest e, before, d))))
      ]
    ]

-- The woken threads go to the end of the ready queue, and all of them were due.
pub record Woken (now : ℕ) (ready : List Thread) (out : List Thread) : Type 0 where
  pub woken : List Thread
  pub at_end : out ≡ ready ++ woken
  pub due : count_by (λ t. not (is_due now t)) woken ≡ 0

pub wake_loop-Woken :
    (fuel now i : ℕ) (ready sleeping : List Thread)
    → Woken now ready (wake_loop fuel now i ready sleeping).0
unfolding wake_loop count_by
wake_loop-Woken zero now i ready sleeping = record {
  woken = [];
  at_end = sym (append-nil ready);
  due = refl;
}
wake_loop-Woken (suc fuel) now i ready sleeping = elim (Option-cases (swap_remove sleeping i)) [
  | inl e ↦
      rw (wake_round_stop fuel now i ready sleeping e)
        (record { woken = []; at_end = sym (append-nil ready); due = refl })
  | inr ((t, rest), e) ↦ elim (Bool-cases (leb t.wake_at now)) [
    | inl d ↦ rw (wake_round_due fuel now i ready sleeping rest t e d) (
        let w = wake_loop-Woken fuel now i (ready ++ (t ∷ [])) rest in
        record {
          woken = t ∷ w.woken;
          at_end = w.at_end ∙ append_assoc ready (t ∷ []) w.woken;
          due = ground (arith, w.due, d);
        })
    | inr d ↦
        rw (wake_round_later fuel now i ready sleeping rest t e d)
          (wake_loop-Woken fuel now (i + 1) ready sleeping)
  ]
]

-- After `wake_sleepers` no thread that still sleeps is due; the ready queue is the old one with the
-- woken threads, all of them due, behind it; and ready and sleeping threads together are the same,
-- each as often.
pub wake_sleepers_lem :
    (now : ℕ) (s : Scheduler)
    → (count_by (is_due now) (wake_sleepers now s).sleeping ≡ 0)
      × Woken now s.ready (wake_sleepers now s).ready
      × ((q : Thread → Bool)
          → count_by q (wake_sleepers now s).ready + count_by q (wake_sleepers now s).sleeping
            ≡ count_by q s.ready + count_by q s.sleeping)
unfolding wake_sleepers
wake_sleepers_lem now s = (
  wake_loop-none_due (length s.sleeping) now 0 s.ready s.sleeping (omega arith)
      (unfold count_by in refl),
  wake_loop-Woken (length s.sleeping) now 0 s.ready s.sleeping,
  λ q. wake_loop-count_by q (length s.sleeping) now 0 s.ready s.sleeping,
)
