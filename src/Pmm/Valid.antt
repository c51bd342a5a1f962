-- ===== src/Pmm/Valid.antt =====
-- The invariant of `Pmm` (src/pmm.rs), and what it means to take and to give back frames.
use eonos.Prelude.{
  ℕ, zero, suc, ◌+◌, ◌-◌, ◌*◌, ◌≤◌, ◌<◌, min, Bool, true, false, length, ◌≡◌, refl, if◌then◌else◌,
  arith, ◌∙◌,
}
use eonos.Pmm.Bits.{Bitmap, test_bit, IsWords}
use eonos.Pmm.Bits.Fill.{Fills, filled}
use eonos.Pmm.{Pmm}

-- How many of the first `n` frames are clear.
unfoldable pub clear_below : (ℕ → Bool) → ℕ → ℕ
clear_below f zero = 0
clear_below f (suc n) = (if f n then 0 else 1) + clear_below f n

-- The words are whole and cover the managed frames, no frame beyond them is free, and `free_frames`
-- is the number of clear bits.
pub record Valid (p : Pmm) : Type 0 where
  pub words : IsWords p.bitmap
  pub num_words : length p.bitmap ≡ p.bitmap_words
  pub covered : p.total_frames ≤ 64 * p.bitmap_words
  pub beyond : (j : ℕ) → p.total_frames ≤ j → test_bit p.bitmap j ≡ true
  pub counted : p.free_frames ≡ clear_below (test_bit p.bitmap) p.total_frames

pub clear_below_ext :
    (f g : ℕ → Bool) (t : ℕ) → ((j : ℕ) → f j ≡ g j) → clear_below f t ≡ clear_below g t
unfolding clear_below
clear_below_ext f g zero h = refl
clear_below_ext f g (suc t) h = ground (arith, h t, clear_below_ext f g t h)

clear_below-filled-true :
    (f : ℕ → Bool) (lo n t : ℕ)
    → ((j : ℕ) → lo ≤ j → j < lo + n → f j ≡ false)
    → clear_below (filled lo n true f) t + (min t (lo + n) - lo) ≡ clear_below f t
unfolding clear_below
clear_below-filled-true f lo n zero h = omega arith
clear_below-filled-true f lo n (suc t) h = ground (arith, h t, clear_below-filled-true f lo n t h)

clear_below-filled-false :
    (f : ℕ → Bool) (lo n t : ℕ)
    → ((j : ℕ) → lo ≤ j → j < lo + n → f j ≡ true)
    → clear_below (filled lo n false f) t ≡ clear_below f t + (min t (lo + n) - lo)
unfolding clear_below
clear_below-filled-false f lo n zero h = omega arith
clear_below-filled-false f lo n (suc t) h = ground (arith, h t, clear_below-filled-false f lo n t h)

-- `q` is `p` with the `n` frames from `start` on taken: they were clear and inside the managed
-- memory, they are now marked, and nothing else has changed.
pub record Takes (p : Pmm) (start n : ℕ) (q : Pmm) : Type 0 where
  pub inside : start + n ≤ p.total_frames
  pub was_clear : (j : ℕ) → start ≤ j → j < start + n → test_bit p.bitmap j ≡ false
  pub marked : (j : ℕ) → test_bit q.bitmap j ≡ filled start n true (test_bit p.bitmap) j
  pub fewer : q.free_frames + n ≡ p.free_frames
  pub same_total : q.total_frames ≡ p.total_frames
  pub valid : Valid q

-- The reverse: the frames were marked, and are clear in `q`.
pub record Gives (p : Pmm) (start n : ℕ) (q : Pmm) : Type 0 where
  pub inside : start + n ≤ p.total_frames
  pub was_marked : (j : ℕ) → start ≤ j → j < start + n → test_bit p.bitmap j ≡ true
  pub cleared : (j : ℕ) → test_bit q.bitmap j ≡ filled start n false (test_bit p.bitmap) j
  pub more : q.free_frames ≡ p.free_frames + n
  pub same_total : q.total_frames ≡ p.total_frames
  pub valid : Valid q

pub Takes-of_Fills :
    (p : Pmm) (start n hint : ℕ) (bm : Bitmap)
    → Valid p
    → start + n ≤ p.total_frames
    → ((j : ℕ) → start ≤ j → j < start + n → test_bit p.bitmap j ≡ false)
    → Fills p.bitmap start n true bm
    → Takes p start n (record p { bitmap = bm; free_frames = p.free_frames - n; next_hint = hint })
Takes-of_Fills p start n hint bm v h clear f = record {
  inside = h;
  was_clear = clear;
  marked = f.bits;
  fewer = omega (arith, moved, v.counted);
  same_total = refl;
  valid = record {
    words = f.words;
    num_words = f.same_length ∙ v.num_words;
    covered = v.covered;
    beyond = λ j hj. ground (arith, f.bits j, v.beyond j hj);
    counted = omega (arith, moved, v.counted);
  };
}
  where
    moved :
        clear_below (test_bit bm) p.total_frames + n
        ≡ clear_below (test_bit p.bitmap) p.total_frames
    moved = omega (
      arith,
      clear_below_ext (test_bit bm) (filled start n true (test_bit p.bitmap)) p.total_frames f.bits,
      clear_below-filled-true (test_bit p.bitmap) start n p.total_frames clear,
    )

pub Gives-of_Fills :
    (p : Pmm) (start n hint : ℕ) (bm : Bitmap)
    → Valid p
    → start + n ≤ p.total_frames
    → ((j : ℕ) → start ≤ j → j < start + n → test_bit p.bitmap j ≡ true)
    → Fills p.bitmap start n false bm
    → Gives p start n (record p { bitmap = bm; free_frames = p.free_frames + n; next_hint = hint })
Gives-of_Fills p start n hint bm v h marked f = record {
  inside = h;
  was_marked = marked;
  cleared = f.bits;
  more = refl;
  same_total = refl;
  valid = record {
    words = f.words;
    num_words = f.same_length ∙ v.num_words;
    covered = v.covered;
    beyond = λ j hj. ground (arith, f.bits j, v.beyond j hj);
    counted = omega (arith, moved, v.counted);
  };
}
  where
    moved :
        clear_below (test_bit bm) p.total_frames
        ≡ clear_below (test_bit p.bitmap) p.total_frames + n
    moved = omega (
      arith,
      clear_below_ext (test_bit bm) (filled start n false (test_bit p.bitmap)) p.total_frames
          f.bits,
      clear_below-filled-false (test_bit p.bitmap) start n p.total_frames marked,
    )
