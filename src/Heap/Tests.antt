-- ===== src/Heap/Tests.antt =====
-- Runs of the kernel heap, and an instance of each theorem.
use eonos.Prelude.{
  ℕ, ◌+◌, ◌<◌, true, ◌≡◌, refl, List, [], ◌∷◌, arith, some, none, Option, inl, inr, ◌||◌, ◌⊎◌, ◌*◌,
  ◌-◌,
}
use eonos.Vmm.{Mem}
use eonos.Vmm.Tests.{places, memory, memory-Tree}
use eonos.Heap.{
  FreeBlock, FreeList, new, block_at, insert, find_and_remove, heap_start, heap_max_size, grow_by,
  adjust, alloc, dealloc,
}
use eonos.Heap.Bytes.{within, covers, total_size}
use eonos.Heap.Grow.{IsHeap, start_of}
use eonos.Heap.Serve.{Loaned}
use eonos.Heap.Global.{AllocDone, alloc-AllocDone, alloc-some, dealloc-IsHeap, dealloc-alloc_leak}

-- Two free blocks, with 64 bytes on loan between them.
abbrev two_blocks : List FreeBlock
two_blocks = block_at heap_start 128 ∷ block_at (heap_start + 192) 3904 ∷ []

abbrev heap : FreeList
heap = record { blocks = two_blocks; mapped_end = heap_start + 4096; allocated = 64; total = 4096 }

two_blocks-mapped : (x : ℕ) → covers two_blocks x ≡ true → x < heap_start + 4096
unfolding covers
two_blocks-mapped x h = ground arith

heap-IsHeap : IsHeap heap
heap-IsHeap = record {
  ordered = (
    omega arith,
    (omega arith, omega arith, omega arith),
    (omega arith, (omega arith, omega arith, omega arith), tt),
  );
  mapped = two_blocks-mapped;
  paged = refl;
  ceiling = omega arith;
  floor = inr (omega arith);
}

new-IsHeap : IsHeap new
unfolding covers
new-IsHeap = record {
  ordered = tt;
  mapped = λ x h. absurd (cc);
  paged = refl;
  ceiling = omega arith;
  floor = inl refl;
}

-- The gap is filled and all three regions become one block.
insert_coalesces : insert two_blocks (heap_start + 128) 64 ≡ block_at heap_start 4096 ∷ []
unfolding insert
insert_coalesces = refl

find_runs :
    find_and_remove two_blocks 256 64
    ≡ some (heap_start + 192, block_at heap_start 128 ∷ block_at (heap_start + 448) 3648 ∷ [])
unfolding find_and_remove insert
find_runs = refl

alloc-AllocDone_example :
    ((alloc heap (some 4096) memory 100 16 ≡ none)
      × (find_and_remove heap.blocks (adjust 100 16).0 (adjust 100 16).1 ≡ none)
      × (memory.pmm.free_frames * 1024
          < grow_by
              ((adjust 100 16).0 + (adjust 100 16).1)
              (heap_start + heap_max_size - start_of heap)))
    ⊎ ((r : Option ℕ × FreeList × Mem) × (alloc heap (some 4096) memory 100 16 ≡ some r)
        × AllocDone 4096 heap 100 16 r)
alloc-AllocDone_example =
    alloc-AllocDone 4096 heap memory 100 16 heap-IsHeap (places, memory-Tree)
      (inr (omega arith, refl))

alloc-some_example :
    (addr : ℕ) × (l' : FreeList) × (m' : Mem) × (alloc new (some 4096) memory 100 16
      ≡ some (some addr, l', m'))
unfolding adjust start_of
alloc-some_example =
    alloc-some 4096 new memory 100 16 new-IsHeap (places, memory-Tree) (inr (omega arith, refl))
      (omega arith) (omega arith)

gap-Loaned : Loaned heap (heap_start + 128) (adjust 60 4).0
unfolding adjust covers
gap-Loaned = record {
  not_free = λ x w. ground arith;
  low = omega arith;
  high = omega arith;
  addr_align = refl;
  size_align = refl;
  large = omega arith;
  counted = omega arith;
}

dealloc-IsHeap_example :
    IsHeap (dealloc heap (heap_start + 128) 60 4)
    × ((x : ℕ)
        → covers (dealloc heap (heap_start + 128) 60 4).blocks x
          ≡ (within (heap_start + 128) (adjust 60 4).0 x || covers heap.blocks x))
    × ((dealloc heap (heap_start + 128) 60 4).allocated + (adjust 60 4).0 ≡ heap.allocated)
dealloc-IsHeap_example = dealloc-IsHeap heap (heap_start + 128) 60 4 heap-IsHeap gap-Loaned

dealloc-alloc_leak_example :
    (l' : FreeList) × (alloc heap (some 4096) memory 120 8 ≡ some (some heap_start, l', memory))
    × (total_size (dealloc l' heap_start 120 8).blocks + 8 ≡ total_size heap.blocks)
    × ((dealloc l' heap_start 120 8).allocated ≡ heap.allocated)
unfolding adjust
dealloc-alloc_leak_example =
    dealloc-alloc_leak heap (some 4096) memory (block_at heap_start 128)
      (block_at (heap_start + 192) 3904 ∷ []) 120 8 (inr (omega arith, refl)) refl refl refl
