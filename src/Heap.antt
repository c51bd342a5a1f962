-- ===== src/Heap.antt =====
-- The kernel heap, src/heap.rs: `FreeBlock`, `FreeList` with `insert`, `find_and_remove` and `grow`,
-- and the allocator `KernelHeap` with `alloc` and `dealloc`.
-- The free list is the list of its blocks in the order of the `next` pointers: a block lies at the
-- start of the region that it describes, so its `addr` is the pointer to it. `align` is a power of
-- two in Rust's `Layout`, where `(a + align - 1) & !(align - 1)` is `(a + align - 1) / align * align`.
-- `grow` takes its frames from the model of src/pmm.rs and maps them with `map_page` of the model of
-- src/vmm.rs, which takes the frames of its tables from the same allocator and panics without one.
-- `kernel` is what `VMM` holds.
pub mod Order
pub mod Bytes
pub mod Fit
pub mod Pages
pub mod Grow
pub mod Serve
pub mod Global
mod Tests
use eonos.Prelude.{
  ℕ, zero, suc, ◌+◌, ◌-◌, ◌*◌, ◌/◌, ◌%◌, ◌^◌, min, max, List, [], ◌∷◌, Bool, true, false, Option,
  none, some, if◌then◌else◌, ltb, leb, ◌==◌,
}
use eonos.Pmm.{alloc_one}
use eonos.Vmm.{Mem, kernel_rw}
use eonos.Vmm.Leaf.{map_page}

abbrev pub heap_start : ℕ
heap_start = 0xffff_ffff_9000_0000

abbrev pub heap_max_size : ℕ
heap_max_size = 64 * 1024 * 1024

abbrev pub heap_grow_step : ℕ
heap_grow_step = 64 * 1024

abbrev pub page_size : ℕ
page_size = 4096

-- `size_of::<FreeBlock>()` and `align_of::<FreeBlock>()`: a `usize` and a pointer.
abbrev pub block_size : ℕ
block_size = 16

abbrev pub block_align : ℕ
block_align = 8

abbrev pub align_up : ℕ → ℕ → ℕ
align_up addr align = (addr + align - 1) / align * align

abbrev pub align_down : ℕ → ℕ → ℕ
align_down v a = v / a * a

pub record FreeBlock : Type 0 where
  pub addr : ℕ
  pub size : ℕ

abbrev pub end_of : FreeBlock → ℕ
end_of b = b.addr + b.size

abbrev pub block_at : ℕ → ℕ → FreeBlock
block_at addr size = record { addr = addr; size = size }

-- Merge with the following block, if adjacent: the new size, and what follows.
unfoldable pub merge_next : List FreeBlock → ℕ → ℕ → ℕ × List FreeBlock
merge_next [] addr size = (size, [])
merge_next (cur ∷ rest) addr size =
    if addr + size == cur.addr then (size + cur.size, rest) else (size, cur ∷ rest)

-- Past `prev`, whose address is below `addr`: the list from `prev` on.
unfoldable pub insert_after : FreeBlock → List FreeBlock → ℕ → ℕ → List FreeBlock
unfolding merge_next
insert_after prev [] addr size =
    if end_of prev == addr
    then block_at prev.addr (prev.size + size) ∷ []
    else prev ∷ block_at addr size ∷ []
insert_after prev (cur ∷ rest) addr size =
    let further = insert_after cur rest addr size in
    let (merged, next) = merge_next (cur ∷ rest) addr size in
    if ltb cur.addr addr
    then prev ∷ further
    else if end_of prev == addr
    then block_at prev.addr (prev.size + merged) ∷ next
    else prev ∷ block_at addr merged ∷ next

unfoldable pub insert : List FreeBlock → ℕ → ℕ → List FreeBlock
unfolding insert_after merge_next
insert [] addr size = block_at addr size ∷ []
insert (cur ∷ rest) addr size =
    let (merged, next) = merge_next (cur ∷ rest) addr size in
    if ltb cur.addr addr then insert_after cur rest addr size else block_at addr merged ∷ next

-- The search of `find_and_remove`: the first block that fits, and the list with it unlinked.
unfoldable pub find_fit : List FreeBlock → ℕ → ℕ → Option (FreeBlock × List FreeBlock)
find_fit [] size align = none
find_fit (cur ∷ rest) size align =
    let later = find_fit rest size align in
    if leb (align_up cur.addr align - cur.addr + size) cur.size
    then some (cur, rest)
    else elim later [ none ↦ none | some (b, l) ↦ some (b, cur ∷ l) ]

-- Leftover space is put back where it can hold a `FreeBlock`.
unfoldable pub put_back : List FreeBlock → ℕ → ℕ → List FreeBlock
put_back l addr size = if leb block_size size then insert l addr size else l

unfoldable pub split_block : FreeBlock → List FreeBlock → ℕ → ℕ → ℕ × List FreeBlock
unfolding put_back
split_block b l size align =
    let alloc_start = align_up b.addr align in
    let padding = alloc_start - b.addr in
    let l1 = put_back l b.addr padding in
    (alloc_start, put_back l1 (alloc_start + size) (b.size - padding - size))

unfoldable pub find_and_remove : List FreeBlock → ℕ → ℕ → Option (ℕ × List FreeBlock)
unfolding find_fit split_block
find_and_remove l size align = elim (find_fit l size align) [
  | none ↦ none
  | some (b, rest) ↦ some (split_block b rest size align)
]

pub record FreeList : Type 0 where
  -- the blocks from `head` on
  pub blocks : List FreeBlock
  pub mapped_end : ℕ
  pub allocated : ℕ
  pub total : ℕ

abbrev pub new : FreeList
new = record { blocks = []; mapped_end = 0; allocated = 0; total = 0 }

-- The loop of `grow`, on fuel: `mapped` and the memory; `none` where `map_page` panics.
unfoldable pub map_pages : ℕ → ℕ → ℕ → ℕ → Option ℕ → Mem → Option (ℕ × Mem)
unfolding map_page
map_pages zero start grow_by mapped kernel m = some (mapped, m)
map_pages (suc fuel) start grow_by mapped kernel m = elim (ltb mapped grow_by) [
  | false ↦ some (mapped, m)
  | true ↦ elim (alloc_one m.pmm) [
    | none ↦ some (mapped, m)
    | some (phys, q) ↦
        elim (map_page (record m { pmm = q }) kernel (start + mapped) phys kernel_rw) [
          | none ↦ none
          | some m1 ↦ map_pages fuel start grow_by (mapped + page_size) kernel m1
        ]
  ]
]

-- How much `grow` maps, from what is asked for and the virtual space that remains.
unfoldable pub grow_by : ℕ → ℕ → ℕ
grow_by min_extra remaining_va =
    let wanted = min (max heap_grow_step (align_up min_extra page_size)) remaining_va in
    min (align_up wanted page_size) (align_down remaining_va page_size)

-- Each round maps a page, so one round for each page and one more are enough.
unfoldable pub grow : FreeList → Option ℕ → Mem → ℕ → Option (Bool × FreeList × Mem)
unfolding map_pages grow_by
grow list kernel m min_extra =
    let start = if list.mapped_end == 0 then heap_start else list.mapped_end in
    let placed = record list { mapped_end = start } in
    let remaining_va = heap_start + heap_max_size - start in
    let by = grow_by min_extra remaining_va in
    let extended : Option (Bool × FreeList × Mem) =
      elim (map_pages (suc (by / page_size)) start by 0 kernel m) [
        | none ↦ none
        | some (mapped, m1) ↦
            if mapped == 0
            then some (false, placed, m1)
            else some (
              true,
              record list {
                blocks = insert list.blocks start mapped;
                mapped_end = start + mapped;
                total = list.total + mapped;
              },
              m1,
            )
      ] in
    if remaining_va == 0
    then some (false, placed, m)
    else if by == 0
    then some (false, placed, m)
    else extended

-- `adjust`: the size and the alignment that a layout is served with.
unfoldable pub adjust : ℕ → ℕ → ℕ × ℕ
adjust size align = (align_up (max size block_size) block_align, max align block_align)

-- `KernelHeap::alloc`: the address, `none` for a null pointer; no result where `grow` panics.
unfoldable pub alloc : FreeList → Option ℕ → Mem → ℕ → ℕ → Option (Option ℕ × FreeList × Mem)
alloc list kernel m layout_size layout_align =
    let (size, align) = adjust layout_size layout_align in
    let serve = λ (l : FreeList) (r : ℕ × List FreeBlock). record l {
      blocks = r.1;
      allocated = l.allocated + size;
    } in
    elim (find_and_remove list.blocks size align) [
      | some r ↦ some (some r.0, serve list r, m)
      | none ↦ elim (grow list kernel m (size + align)) [
        | none ↦ none
        | some (grew, list', m1) ↦
            if grew
            then elim (find_and_remove list'.blocks size align) [
              | some r ↦ some (some r.0, serve list' r, m1)
              | none ↦ some (none, list', m1)
            ]
            else some (none, list', m1)
      ]
    ]

-- `KernelHeap::dealloc`; `saturating_sub` is `-`.
unfoldable pub dealloc : FreeList → ℕ → ℕ → ℕ → FreeList
unfolding adjust
dealloc list ptr layout_size layout_align =
    let (size, align) = adjust layout_size layout_align in
    record list { blocks = insert list.blocks ptr size; allocated = list.allocated - size }
