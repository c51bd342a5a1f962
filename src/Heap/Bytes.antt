-- ===== src/Heap/Bytes.antt =====
-- Which bytes the free list of src/heap.rs holds, and how many.
use eonos.Prelude.{
  ℕ, ◌+◌, ◌≤◌, ◌<◌, List, [], ◌∷◌, Bool, false, ◌≡◌, refl, arith, ltb, leb, inl, inr, ◌&&◌, ◌||◌,
  dec_le, max,
}
use eonos.Heap.{FreeBlock, end_of, merge_next, insert_after, insert}
use eonos.Heap.Order.{Apart, Ordered}

abbrev pub within : ℕ → ℕ → ℕ → Bool
within addr size x = leb addr x && ltb x (addr + size)

-- Does a block of the list hold the byte `x`?
unfoldable pub covers : List FreeBlock → ℕ → Bool
covers [] x = false
covers (b ∷ bs) x = within b.addr b.size x || covers bs x

unfoldable pub total_size : List FreeBlock → ℕ
total_size [] = 0
total_size (b ∷ bs) = b.size + total_size bs

insert_after-covers :
    (prev : FreeBlock) (l : List FreeBlock) (addr size x : ℕ)
    → covers (insert_after prev l addr size) x ≡ (within addr size x || covers (prev ∷ l) x)
unfolding insert_after merge_next covers
insert_after-covers prev [] addr size x = ground arith
insert_after-covers prev (cur ∷ rest) addr size x =
    ground (arith, insert_after-covers cur rest addr size x)

-- After `insert` the free bytes are those that were free and those of the region, whatever was
-- merged.
pub insert-covers :
    (l : List FreeBlock) (addr size x : ℕ)
    → covers (insert l addr size) x ≡ (within addr size x || covers l x)
unfolding insert merge_next covers
insert-covers [] addr size x = ground arith
insert-covers (cur ∷ rest) addr size x = ground (arith, insert_after-covers cur rest addr size x)

insert_after-total_size :
    (prev : FreeBlock) (l : List FreeBlock) (addr size : ℕ)
    → total_size (insert_after prev l addr size) ≡ size + total_size (prev ∷ l)
unfolding insert_after merge_next total_size
insert_after-total_size prev [] addr size = ground arith
insert_after-total_size prev (cur ∷ rest) addr size =
    ground (arith, insert_after-total_size cur rest addr size)

pub total_size-insert :
    (l : List FreeBlock) (addr size : ℕ) → total_size (insert l addr size) ≡ size + total_size l
unfolding insert merge_next total_size
total_size-insert [] addr size = ground arith
total_size-insert (cur ∷ rest) addr size =
    ground (arith, insert_after-total_size cur rest addr size)

-- A region none of whose bytes is free lies apart from every block.
pub Apart-of_covers :
    (lo : ℕ) (l : List FreeBlock) (addr size : ℕ)
    → Ordered lo l
    → 0 < size
    → ((x : ℕ) → addr ≤ x → x < addr + size → covers l x ≡ false)
    → Apart addr size l
unfolding covers
Apart-of_covers lo [] addr size o pos h = tt
Apart-of_covers lo (b ∷ bs) addr size o pos h = (
  elim (dec_le (end_of b) addr) [
    | yes p ↦ inl p
    | no p ↦ elim (dec_le (addr + size) b.addr) [
      | yes q ↦ inr q
      | no q ↦ absurd (ground (arith, h (max addr b.addr)))
    ]
  ],
  Apart-of_covers (end_of b + 1) bs addr size o.2 pos (λ x p q. ground (arith, h x p q)),
)

-- Nothing is free below the first block.
pub covers_below :
    (lo : ℕ) (l : List FreeBlock) (x : ℕ) → Ordered lo l → x < lo → covers l x ≡ false
unfolding covers
covers_below lo [] x o h = refl
covers_below lo (b ∷ bs) x o h = ground (arith, covers_below (end_of b + 1) bs x o.2)
