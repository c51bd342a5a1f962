-- ===== src/Pmm/Alloc.antt =====
-- `Pmm::alloc_one` of src/pmm.rs: what it takes, and that it fails only when nothing is free.
use native.Mathlib.Nat.{mod-add-mod, mod-eq_of_lt, add-mod-mod, mod-lt, mod_self, zero-add}
use eonos.Prelude.{
  ℕ, zero, suc, ◌+◌, ◌-◌, ◌*◌, ◌/◌, ◌%◌, ◌≤◌, ◌<◌, Bool, true, false, length, ◌≡◌, refl, [], ◌∷◌,
  arith, ◌∙◌, sym, ltb, get_or, set, some, none, All-get_or, Bool-cases, inl, inr, subst, ◌≢◌, ap,
  ◌⊎◌, ℕ_discrete, dec_lt, Option-cases, get_or_default,
}
use eonos.Pmm.Bits.{Word, Bitmap, test_bit}
use eonos.Pmm.Bits.Fill.{put, Fills-put}
use eonos.Pmm.Valid.{Valid, Takes, Takes-of_Fills, clear_below}
use eonos.Pmm.{Pmm, page_size, is_full, first_clear, alloc_scan, alloc_one}

pub is_full-get_or : (w : Word) (k : ℕ) → is_full w ≡ true → get_or w k true ≡ true
unfolding is_full
is_full-get_or [] k h = refl
is_full-get_or (b ∷ w) zero h = ground arith
is_full-get_or (b ∷ w) (suc k) h = is_full-get_or w k (ground arith)

first_clear_lem :
    (w : Word)
    → is_full w ≡ false
    → (first_clear w < length w) × (get_or w (first_clear w) true ≡ false)
unfolding is_full first_clear
first_clear_lem [] h = absurd (cc)
first_clear_lem (true ∷ w) h = let (a, b) = first_clear_lem w h in (omega arith, b)
first_clear_lem (false ∷ w) h = (omega arith, refl)

-- The word and the bit that the loop writes are those of the frame that it returns.
put-word_bit :
    (bm : Bitmap) (w bit : ℕ)
    → bit < 64
    → set bm w (set (get_or bm w []) bit true) ≡ put bm (w * 64 + bit) true
unfolding put
put-word_bit bm w bit h =
    let e1 : (w * 64 + bit) / 64 ≡ w = omega arith in
    let e2 : (w * 64 + bit) % 64 ≡ bit = omega arith in rw (e1, e2)

-- A word outside the bitmap reads as full.
not_full-lt : (bm : Bitmap) (w : ℕ) → is_full (get_or bm w []) ≡ false → w < length bm
unfolding is_full
not_full-lt [] w h = absurd (cc)
not_full-lt (x ∷ bm) zero h = omega arith
not_full-lt (x ∷ bm) (suc w) h = omega (arith, not_full-lt bm w h)

test_bit-word :
    (bm : Bitmap) (w bit : ℕ)
    → bit < 64
    → test_bit bm (w * 64 + bit) ≡ get_or (get_or bm w []) bit true
unfolding test_bit
test_bit-word bm w bit h =
    let e1 : (w * 64 + bit) / 64 ≡ w = omega arith in
    let e2 : (w * 64 + bit) % 64 ≡ bit = omega arith in rw (e1, e2)

true≢false : (b : Bool) → b ≡ true → b ≢ false
true≢false b h e = cc

-- What the round that finds a word with a clear bit does.
found-Takes :
    (p : Pmm) (w : ℕ)
    → Valid p
    → is_full (get_or p.bitmap w []) ≡ false
    → let bit = first_clear (get_or p.bitmap w []) in
      Takes p (w * 64 + bit) 1 (record p {
        bitmap = set p.bitmap w (set (get_or p.bitmap w []) bit true);
        free_frames = p.free_frames - 1;
        next_hint = w;
      })
found-Takes p w v h = rw (put-word_bit p.bitmap w bit (omega (arith, size, fc.0))) (
    Takes-of_Fills p frame 1 w (put p.bitmap frame true) v (omega (arith, below))
      (λ j a b. subst (λ k. test_bit p.bitmap k ≡ false) (omega arith) clear)
      (Fills-put p.bitmap frame true v.words (omega (arith, size, fc.0, not_full-lt p.bitmap w h))))
  where
    bit : ℕ
    bit = first_clear (get_or p.bitmap w [])

    frame : ℕ
    frame = w * 64 + bit

    size : length (get_or p.bitmap w []) ≡ 64
    size = All-get_or (λ x. length x ≡ 64) p.bitmap w [] v.words (not_full-lt p.bitmap w h)

    fc : (bit < length (get_or p.bitmap w [])) × (get_or (get_or p.bitmap w []) bit true ≡ false)
    fc = first_clear_lem (get_or p.bitmap w []) h

    clear : test_bit p.bitmap frame ≡ false
    clear = test_bit-word p.bitmap w bit (omega (arith, size, fc.0)) ∙ fc.1

    below : frame < p.total_frames
    below = elim (Bool-cases (ltb frame p.total_frames)) [
      | inl e ↦ ground arith
      | inr e ↦ absurd (true≢false _ (v.beyond frame (ground arith)) clear)
    ]

alloc_scan-Takes :
    (left n : ℕ) (p q : Pmm) (phys : ℕ)
    → Valid p
    → alloc_scan left n p ≡ some (phys, q)
    → (frame : ℕ) × (phys ≡ frame * page_size) × Takes p frame 1 q
unfolding alloc_scan
alloc_scan-Takes zero n p q phys v h = absurd (cc)
alloc_scan-Takes (suc left) n p q phys v h =
    let w = (p.next_hint + n) % p.bitmap_words in
    elim (Bool-cases (is_full (get_or p.bitmap w []))) [
      | inl e ↦ alloc_scan-Takes left (n + 1) p q phys v (ground arith)
      | inr e ↦ (
        w * 64 + first_clear (get_or p.bitmap w []),
        ground arith,
        subst (Takes p (w * 64 + first_clear (get_or p.bitmap w [])) 1) (ground arith)
            (found-Takes p w v e),
      )
    ]

alloc_scan-none :
    (left n : ℕ) (p : Pmm) (k : ℕ)
    → alloc_scan left n p ≡ none
    → n ≤ k
    → k < n + left
    → is_full (get_or p.bitmap ((p.next_hint + k) % p.bitmap_words) []) ≡ true
unfolding alloc_scan
alloc_scan-none zero n p k h a b = absurd (omega arith)
alloc_scan-none (suc left) n p k h a b =
    elim (Bool-cases (is_full (get_or p.bitmap ((p.next_hint + n) % p.bitmap_words) []))) [
      | inr e ↦ absurd (ground arith)
      | inl e ↦ elim (ℕ_discrete n k) [
        | yes p' ↦
            subst (λ i. is_full (get_or p.bitmap ((p.next_hint + i) % p.bitmap_words) []) ≡ true) p'
              e
        | no p' ↦ alloc_scan-none left (n + 1) p k (ground arith) (omega arith) (omega arith)
      ]
    ]

-- Going round from any hint meets every word.
round_trip :
    (hint w words : ℕ) → w < words → (hint + (w + words - hint % words) % words) % words ≡ w
round_trip hint w words h =
    add-mod-mod hint (w + words - hint % words) words
    ∙ sym (mod-add-mod hint words (w + words - hint % words))
    ∙ ap (λ k. k % words) (omega (arith, mod-lt hint {m = words} (omega arith)))
    ∙ sym (mod-add-mod words words w)
    ∙ ap (λ k. (k + w) % words) (mod_self words)
    ∙ ap (λ k. k % words) (zero-add w)
    ∙ mod-eq_of_lt h

scan_none-full :
    (p : Pmm) (w : ℕ)
    → alloc_scan p.bitmap_words 0 p ≡ none
    → w < p.bitmap_words
    → is_full (get_or p.bitmap w []) ≡ true
scan_none-full p w h lt =
    subst (λ k. is_full (get_or p.bitmap k []) ≡ true) (round_trip p.next_hint w p.bitmap_words lt)
      (alloc_scan-none p.bitmap_words 0 p
        ((w + p.bitmap_words - p.next_hint % p.bitmap_words) % p.bitmap_words) h (omega arith)
        (omega (
          arith,
          mod-lt (w + p.bitmap_words - p.next_hint % p.bitmap_words) {m = p.bitmap_words}
              (omega arith),
        )))

clear_below_full : (f : ℕ → Bool) (t : ℕ) → ((j : ℕ) → f j ≡ true) → clear_below f t ≡ 0
unfolding clear_below
clear_below_full f zero h = refl
clear_below_full f (suc t) h = ground (arith, h t, clear_below_full f t h)

scan_none-free : (p : Pmm) → Valid p → alloc_scan p.bitmap_words 0 p ≡ none → p.free_frames ≡ 0
unfolding test_bit
scan_none-free p v h = v.counted ∙ clear_below_full (test_bit p.bitmap) p.total_frames full
  where
    full : (j : ℕ) → test_bit p.bitmap j ≡ true
    full j = elim (dec_lt (j / 64) p.bitmap_words) [
      | yes lt ↦
          is_full-get_or (get_or p.bitmap (j / 64) []) (j % 64) (scan_none-full p (j / 64) h lt)
      | no ge ↦ rw (get_or_default p.bitmap (j / 64) [] (omega (arith, v.num_words)))
    ]

-- In a valid allocator `alloc_one` fails exactly when no frame is free. Otherwise it returns the
-- address of a frame inside the managed memory that was clear, marks it and no other, and leaves
-- the allocator valid with one free frame less.
pub alloc_one_lem :
    (p : Pmm)
    → Valid p
    → ((p.free_frames ≡ 0) × (alloc_one p ≡ none))
      ⊎ ((frame : ℕ) × (q : Pmm) × (0 < p.free_frames)
          × (alloc_one p ≡ some (frame * page_size, q))
          × Takes p frame 1 q)
unfolding alloc_one
alloc_one_lem p v = elim (ℕ_discrete p.free_frames 0) [
  | yes e ↦ inl (e, ground arith)
  | no ne ↦ elim (Option-cases (alloc_scan p.bitmap_words 0 p)) [
    | inl e ↦ absurd (ne (scan_none-free p v e))
    | inr ((phys, q), e) ↦
        let (frame, at, t) = alloc_scan-Takes p.bitmap_words 0 p q phys v e in
        inr (frame, q, omega arith, ground arith, t)
  ]
]
