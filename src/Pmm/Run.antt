-- ===== src/Pmm/Run.antt =====
-- `Pmm::alloc_contiguous` of src/pmm.rs: what it takes, and that it fails only when there is no run.
use eonos.Prelude.{
  ℕ, zero, suc, ◌+◌, ◌*◌, ◌/◌, ◌%◌, ◌≤◌, ◌<◌, true, false, ◌≡◌, [], if◌then◌else◌, arith, ◌==◌, ltb,
  ◌&&◌, get_or, some, none, ◌⊎◌, Bool-cases, inl, inr, subst, ◌≢◌, Option-cases, ℕ_discrete, dec_lt,
}
use eonos.Pmm.Bits.{Bitmap, test_bit}
use eonos.Pmm.Bits.Fill.{fill_range-Fills}
use eonos.Pmm.Valid.{Valid, Takes, Takes-of_Fills}
use eonos.Pmm.Alloc.{is_full-get_or}
use eonos.Pmm.{Pmm, page_size, is_full, run_scan, alloc_contiguous}

-- The `n` frames from `start` on are clear.
abbrev pub Clear : Bitmap → ℕ → ℕ → Type 0
Clear bm start n = (j : ℕ) → start ≤ j → j < start + n → test_bit bm j ≡ false

-- What the search knows at `frame`: the `run` frames before it, from `start` on, are clear.
record Scanning (bm : Bitmap) (count frame run start : ℕ) : Type 0 where
  short : run < count
  place : 0 < run → start + run ≡ frame
  clear : (j : ℕ) → 0 < run → start ≤ j → j < start + run → test_bit bm j ≡ false

reset : (bm : Bitmap) (count frame start : ℕ) → 0 < count → Scanning bm count frame 0 start
reset bm count frame start h = record {
  short = h;
  place = λ p. absurd (omega arith);
  clear = λ j p a b. absurd (omega arith);
}

begin_at : ℕ → ℕ → ℕ → ℕ
begin_at frame run start = if run == 0 then frame else start

begin_at-place :
    (bm : Bitmap) (count frame run start : ℕ)
    → Scanning bm count frame run start
    → begin_at frame run start + run ≡ frame
unfolding begin_at
begin_at-place bm count frame run start s = ground (arith, s.place)

-- One clear frame more.
longer :
    (bm : Bitmap) (count frame run start : ℕ)
    → Scanning bm count frame run start
    → test_bit bm frame ≡ false
    → Clear bm (begin_at frame run start) (run + 1)
unfolding begin_at
longer bm count frame run start s e j a b = elim (ℕ_discrete j frame) [
  | yes p ↦ subst (λ k. test_bit bm k ≡ false) (omega arith) e
  | no p ↦ ground (arith, s.clear j, s.place)
]

extended :
    (bm : Bitmap) (count frame run start : ℕ)
    → Scanning bm count frame run start
    → test_bit bm frame ≡ false
    → run + 1 ≢ count
    → Scanning bm count (frame + 1) (run + 1) (begin_at frame run start)
extended bm count frame run start s e ne = record {
  short = omega (arith, s.short);
  place = λ p. omega (arith, begin_at-place bm count frame run start s);
  clear = λ j p a b. longer bm count frame run start s e j a b;
}

run_scan-Clear :
    (fuel : ℕ) (bm : Bitmap) (total count frame run start found : ℕ)
    → Scanning bm count frame run start
    → run_scan fuel bm total count frame run start ≡ some found
    → (found + count ≤ total) × Clear bm found count
unfolding run_scan
run_scan-Clear zero bm total count frame run start found s h = absurd (cc)
run_scan-Clear (suc fuel) bm total count frame run start found s h =
    elim (Bool-cases (ltb frame total)) [
      | inr over ↦ absurd (ground arith)
      | inl more ↦ elim (Bool-cases (frame % 64 == 0 && is_full (get_or bm (frame / 64) []))) [
        | inl full ↦
            run_scan-Clear fuel bm total count (frame + 64) 0 start found
              (reset bm count (frame + 64) start (omega (arith, s.short))) (ground arith)
        | inr part ↦ elim (Bool-cases (test_bit bm frame)) [
          | inl used ↦
              run_scan-Clear fuel bm total count (frame + 1) 0 start found
                (reset bm count (frame + 1) start (omega (arith, s.short))) (ground arith)
          | inr clear ↦ elim (ℕ_discrete (run + 1) count) [
            | yes last ↦
                let at : begin_at frame run start ≡ found = unfold begin_at in ground arith in
                let place = begin_at-place bm count frame run start s in
                (
                  ground (arith, place),
                  subst (λ b. Clear bm b count) at
                      (subst (Clear bm (begin_at frame run start)) last
                        (longer bm count frame run start s clear)),
                )
            | no ne ↦
                run_scan-Clear fuel bm total count (frame + 1) (run + 1) (begin_at frame run start)
                  found (extended bm count frame run start s clear ne)
                  (unfold begin_at in ground arith)
          ]
        ]
      ]
    ]

-- No run of `count` clear frames starts further than `run` frames before `frame`.
NoneBefore : Bitmap → ℕ → ℕ → ℕ → Type 0
NoneBefore bm count frame run = (lo : ℕ) → Clear bm lo count → frame ≤ lo + run

-- Marked frames from `frame` on move the bound past them.
past :
    (bm : Bitmap) (count frame run n : ℕ)
    → run < count
    → 0 < n
    → ((j : ℕ) → frame ≤ j → j < frame + n → test_bit bm j ≡ true)
    → NoneBefore bm count frame run
    → NoneBefore bm count (frame + n) 0
unfolding NoneBefore
past bm count frame run n short pos marked before lo c = elim (dec_lt lo (frame + n)) [
  | no ge ↦ omega arith
  | yes lt ↦ elim (dec_lt lo frame) [
    | yes l ↦ absurd (ground (arith, before lo c, c frame, marked frame))
    | no g ↦ absurd (ground (arith, c lo, marked lo))
  ]
]

full_word-marked :
    (bm : Bitmap) (frame : ℕ)
    → (frame % 64 == 0 && is_full (get_or bm (frame / 64) [])) ≡ true
    → (j : ℕ) → frame ≤ j
    → j < frame + 64
    → test_bit bm j ≡ true
unfolding test_bit
full_word-marked bm frame full j a b =
    let same : j / 64 ≡ frame / 64 = ground arith in
    rw same (is_full-get_or (get_or bm (frame / 64) []) (j % 64) (ground arith))

run_scan-none :
    (fuel : ℕ) (bm : Bitmap) (total count frame run start : ℕ)
    → run < count
    → total < frame + fuel
    → NoneBefore bm count frame run
    → run_scan fuel bm total count frame run start ≡ none
    → (lo : ℕ) → lo + count ≤ total
    → ¬ Clear bm lo count
unfolding run_scan NoneBefore
run_scan-none zero bm total count frame run start short enough before h lo fits c =
    omega (arith, before lo c)
run_scan-none (suc fuel) bm total count frame run start short enough before h lo fits c =
    elim (Bool-cases (ltb frame total)) [
      | inr over ↦ ground (arith, before lo c)
      | inl more ↦ elim (Bool-cases (frame % 64 == 0 && is_full (get_or bm (frame / 64) []))) [
        | inl full ↦
            run_scan-none fuel bm total count (frame + 64) 0 start (omega arith) (omega arith)
              (past bm count frame run 64 short (omega arith) (full_word-marked bm frame full)
                before)
              (ground arith) lo fits c
        | inr part ↦ elim (Bool-cases (test_bit bm frame)) [
          | inl used ↦
              run_scan-none fuel bm total count (frame + 1) 0 start (omega arith) (omega arith)
                (past bm count frame run 1 short (omega arith)
                  (λ j a b. subst (λ k. test_bit bm k ≡ true) (omega arith) used) before)
                (ground arith) lo fits c
          | inr clear ↦ elim (ℕ_discrete (run + 1) count) [
            | yes last ↦ absurd (ground arith)
            | no ne ↦
                run_scan-none fuel bm total count (frame + 1) (run + 1) (begin_at frame run start)
                  (omega arith) (omega arith) (λ l d. omega (arith, before l d))
                  (unfold begin_at in ground arith) lo fits c
          ]
        ]
      ]
    ]

-- In a valid allocator a successful `alloc_contiguous` returns the address of `count` consecutive
-- frames inside the managed memory that were all clear, marks them and no other frame, and leaves
-- the allocator valid with `count` free frames less.
pub alloc_contiguous-Takes :
    (p : Pmm) (count phys : ℕ) (q : Pmm)
    → Valid p
    → alloc_contiguous p count ≡ some (phys, q)
    → (start : ℕ) × (phys ≡ start * page_size) × Takes p start count q
unfolding alloc_contiguous
alloc_contiguous-Takes p count phys q v h =
    elim (Option-cases (run_scan (suc p.total_frames) p.bitmap p.total_frames count 0 0 0)) [
      | inl e ↦ absurd (ground arith)
      | inr (start, e) ↦
          let (inside, clear) =
            run_scan-Clear (suc p.total_frames) p.bitmap p.total_frames count 0 0 0 start
              (reset p.bitmap count 0 0 (ground arith)) e in
          let bits =
            fill_range-Fills p.bitmap start count true v.words
              (omega (arith, v.num_words, v.covered)) in
          (
            start,
            ground arith,
            subst (Takes p start count) (ground arith)
                (Takes-of_Fills p start count p.next_hint _ v inside clear bits),
          )
    ]

-- When `alloc_contiguous` fails, the request was empty or larger than the number of free frames, or
-- no `count` consecutive frames inside the managed memory are all clear.
pub alloc_contiguous-none :
    (p : Pmm) (count : ℕ)
    → alloc_contiguous p count ≡ none
    → (count ≡ 0)
      ⊎ ((p.free_frames < count)
          ⊎ ((lo : ℕ) → lo + count ≤ p.total_frames → ¬ Clear p.bitmap lo count))
unfolding alloc_contiguous
alloc_contiguous-none p count h = elim (ℕ_discrete count 0) [
  | yes e ↦ inl e
  | no ne ↦ elim (dec_lt p.free_frames count) [
    | yes l ↦ inr (inl l)
    | no g ↦ inr (
        inr (
          run_scan-none (suc p.total_frames) p.bitmap p.total_frames count 0 0 0 (omega arith)
            (omega arith) (unfold NoneBefore in (λ lo c. omega arith)) (ground arith)))
  ]
]
