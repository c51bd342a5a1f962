-- ===== src/Pmm/Tests.antt =====
-- Runs of the frame allocator on a memory of 130 frames, and an instance of each theorem.
use eonos.Prelude.{
  ℕ, ◌*◌, ◌≤◌, ◌<◌, true, false, ◌≡◌, refl, [], ◌∷◌, arith, some, none, ◌⊎◌, replicate,
  get_or_default, ◌/◌, zero, suc,
}
use eonos.Pmm.Bits.{Word, test_bit, fill_range, zero_word}
use eonos.Pmm.Valid.{Valid, Takes, Gives, clear_below}
use eonos.Pmm.Alloc.{alloc_one_lem}
use eonos.Pmm.Run.{alloc_contiguous-Takes}
use eonos.Pmm.Free.{Accepts, free_lem, free-alloc_frames}
use eonos.Pmm.{
  Pmm, page_size, ok, err, unaligned, out_of_range, alloc_one, alloc_contiguous, alloc_frames, free,
  run_scan, all_allocated,
}

-- Frames 0 to 3 are in use, 4 to 127 are free.
abbrev low_word : Word
low_word = true ∷ true ∷ true ∷ true ∷ replicate 60 false

abbrev pub machine : Pmm
machine = record {
  bitmap = low_word ∷ zero_word ∷ [];
  bitmap_words = 2;
  total_frames = 128;
  free_frames = 124;
  usable_frames = 124;
  next_hint = 1;
  regions = [];
}

machine-beyond : (j : ℕ) → 128 ≤ j → test_bit machine.bitmap j ≡ true
unfolding test_bit
machine-beyond j h = rw (get_or_default machine.bitmap (j / 64) [] (omega arith))

pub machine-Valid : Valid machine
unfolding clear_below test_bit
machine-Valid = record {
  words = (refl, (refl, tt));
  num_words = refl;
  covered = omega arith;
  beyond = machine-beyond;
  counted = refl;
}

-- The state after `alloc_contiguous(70)` on the machine.
abbrev after_run : Pmm
after_run = record machine { bitmap = fill_range machine.bitmap 4 70 true; free_frames = 54 }

alloc_contiguous_runs : alloc_contiguous machine 70 ≡ some (16384, after_run)
unfolding alloc_contiguous run_scan
alloc_contiguous_runs = refl

alloc_frames_runs : alloc_frames machine 70 ≡ some (16384, after_run)
unfolding alloc_frames alloc_contiguous run_scan
alloc_frames_runs = refl

alloc_contiguous_fails : alloc_contiguous after_run 55 ≡ none
unfolding alloc_contiguous
alloc_contiguous_fails = refl

free_unaligned : free machine 5 1 ≡ err unaligned
unfolding free
free_unaligned = refl

free_outside : free machine 4096 128 ≡ err out_of_range
unfolding free
free_outside = refl

machine-Accepts : Accepts machine 4096 3
machine-Accepts = record { aligned = refl; inside = omega arith; marked = marked }
  where
    marked : (j : ℕ) → 1 ≤ j → j < 4 → test_bit machine.bitmap j ≡ true
    marked zero a b = absurd (omega arith)
    marked (suc zero) a b = unfold test_bit in refl
    marked (suc (suc zero)) a b = unfold test_bit in refl
    marked (suc (suc (suc zero))) a b = unfold test_bit in refl
    marked (suc (suc (suc (suc j)))) a b = absurd (omega arith)

abbrev after_free : Pmm
after_free = record machine {
  bitmap = fill_range machine.bitmap 1 3 false;
  free_frames = 127;
  next_hint = 0;
}

free_runs : free machine 4096 3 ≡ ok after_free
unfolding free all_allocated test_bit
free_runs = refl

alloc_one_lem_example :
    ((machine.free_frames ≡ 0) × (alloc_one machine ≡ none))
    ⊎ ((frame : ℕ) × (q : Pmm) × (0 < machine.free_frames)
        × (alloc_one machine ≡ some (frame * page_size, q))
        × Takes machine frame 1 q)
alloc_one_lem_example = alloc_one_lem machine machine-Valid

alloc_contiguous-Takes_example :
    (start : ℕ) × (◌≡◌ {A = ℕ} 16384 (start * page_size)) × Takes machine start 70 after_run
alloc_contiguous-Takes_example =
    alloc_contiguous-Takes machine 70 16384 after_run machine-Valid alloc_contiguous_runs

free_lem_example :
    (Accepts machine 4096 3 → (q : Pmm) × (free machine 4096 3 ≡ ok q))
    × ((q : Pmm)
        → free machine 4096 3 ≡ ok q
        → Accepts machine 4096 3 × Gives machine (4096 / page_size) 3 q)
free_lem_example = free_lem machine 4096 3 machine-Valid (omega arith) (omega arith)

free-alloc_frames_example :
    (r : Pmm) × (free after_run 16384 70 ≡ ok r)
    × Valid r
    × (r.free_frames ≡ machine.free_frames)
    × ((j : ℕ) → test_bit r.bitmap j ≡ test_bit machine.bitmap j)
free-alloc_frames_example =
    free-alloc_frames machine after_run 70 16384 machine-Valid (omega arith) (omega arith)
      alloc_frames_runs
