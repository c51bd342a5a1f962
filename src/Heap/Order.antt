-- ===== src/Heap/Order.antt =====
-- The order of the free list of src/heap.rs, and the room that its headers need.
use eonos.Prelude.{ℕ, ◌+◌, ◌%◌, ◌≤◌, ◌<◌, List, [], ◌∷◌, ◌≡◌, arith, ltb, ◌⊎◌, inl, inr, Bool-cases}
use eonos.Heap.{FreeBlock, end_of, merge_next, insert_after, insert, block_size, block_align}

-- A block can hold its header: it is large enough and aligned.
abbrev pub IsBlock : ℕ → ℕ → Type 0
IsBlock addr size = (block_size ≤ size) × (addr % block_align ≡ 0) × (size % block_align ≡ 0)

-- The blocks follow one another at or above `lo`, and no two of them touch.
abbrev pub Ordered : ℕ → List FreeBlock → Type 0
Ordered lo [] = Unit {0}
Ordered lo (b ∷ bs) = (lo ≤ b.addr) × IsBlock b.addr b.size × Ordered (end_of b + 1) bs

-- The region `[addr, addr + size)` meets no block.
abbrev pub Apart : ℕ → ℕ → List FreeBlock → Type 0
Apart addr size [] = Unit {0}
Apart addr size (b ∷ bs) = ((end_of b ≤ addr) ⊎ (addr + size ≤ b.addr)) × Apart addr size bs

pub Ordered-lower : (lo lo' : ℕ) (l : List FreeBlock) → lo' ≤ lo → Ordered lo l → Ordered lo' l
Ordered-lower lo lo' [] h o = tt
Ordered-lower lo lo' (b ∷ bs) h o = (omega arith, o.1, o.2)

insert_after-Ordered :
    (lo : ℕ) (prev : FreeBlock) (l : List FreeBlock) (addr size : ℕ)
    → Ordered lo (prev ∷ l)
    → prev.addr < addr
    → IsBlock addr size
    → Apart addr size (prev ∷ l)
    → Ordered lo (insert_after prev l addr size)
unfolding insert_after merge_next
insert_after-Ordered lo prev [] addr size o lt b a = ground arith
insert_after-Ordered lo prev (cur ∷ rest) addr size o lt b a =
    elim (Bool-cases (ltb cur.addr addr)) [
      | inl e ↦ rw e (
        o.0,
        o.1,
        insert_after-Ordered (end_of prev + 1) cur rest addr size o.2 (ground arith) b a.1,
      )
      | inr e ↦ rw e (ground (arith, Ordered-lower (end_of cur + 1) (addr + size + 1) rest))
    ]

-- Putting a region that can hold a header and meets no free block into an ordered free list leaves
-- the list ordered: sorted by address, no two blocks overlapping or adjacent, and every block able
-- to hold a header.
pub insert-Ordered :
    (lo : ℕ) (l : List FreeBlock) (addr size : ℕ)
    → Ordered lo l
    → lo ≤ addr
    → IsBlock addr size
    → Apart addr size l
    → Ordered lo (insert l addr size)
unfolding insert merge_next
insert-Ordered lo [] addr size o h b a = (h, b, tt)
insert-Ordered lo (cur ∷ rest) addr size o h b a = elim (Bool-cases (ltb cur.addr addr)) [
  | inl e ↦ rw e (insert_after-Ordered lo cur rest addr size o (ground arith) b a)
  | inr e ↦ rw e (ground (arith, Ordered-lower (end_of cur + 1) (addr + size + 1) rest))
]
