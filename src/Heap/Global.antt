-- ===== src/Heap/Global.antt =====
-- `KernelHeap::alloc` and `KernelHeap::dealloc` of src/heap.rs.
use native.Mathlib.Nat.{div-add-mod', div-eq_of_lt-le, add-mul, one-mul}
use eonos.Prelude.{
  ℕ, ◌+◌, ◌-◌, ◌*◌, ◌/◌, ◌%◌, ◌≤◌, ◌<◌, List, ◌∷◌, Bool, true, false, ◌≡◌, refl, arith, ap, sym,
  subst, ◌∙◌, ◌⊎◌, inl, inr, ◌||◌, max, Option, some, none, Option-cases,
}
use eonos.Pmm.Valid.{Valid}
use eonos.Heap.{
  FreeBlock, FreeList, grow_by, find_and_remove, adjust, heap_start, heap_max_size, heap_grow_step,
  page_size, grow, alloc, dealloc, align_up,
}
use eonos.Vmm.{Mem}
use eonos.Heap.Pages.{HasTree}
use eonos.Heap.Order.{insert-Ordered}
use eonos.Heap.Bytes.{within, covers, insert-covers, Apart-of_covers, total_size, total_size-insert}
use eonos.Heap.Fit.{find_and_remove-Holds}
use eonos.Heap.Serve.{IsAlign, adjust_bounds, Loaned, Allocated, served_size, serve-Allocated}
use eonos.Heap.Grow.{IsHeap, Backed, start-facts, Grown, grow-Grown, grow_full, start_of}

older :
    (root : ℕ) (l : FreeList) (m : Mem) (r : Bool × FreeList × Mem)
    → Grown root l m r
    → (x : ℕ) → covers r.1.blocks x ≡ true
    → (covers l.blocks x ≡ true) ⊎ (l.mapped_end ≤ x)
unfolding start_of
older root l m r g x c = ground (arith, g.bytes x, c)

-- What `alloc` leaves behind on every path that returns.
pub record AllocDone (root : ℕ) (l : FreeList) (size align : ℕ) (r : Option ℕ × FreeList × Mem)
    : Type 0 where
  pub heap : IsHeap r.1
  pub tree : HasTree root r.2
  pub pmm : Valid (r.2.pmm)
  pub success :
      (addr : ℕ) → r.0 ≡ some addr → Allocated l r.1 root r.2 addr (adjust size align).0 align
  pub failure : r.0 ≡ none → r.1.allocated ≡ l.allocated
  pub backed : Backed root l r.1 r.2

failed :
    (root : ℕ) (l l' : FreeList) (m : Mem) (size align : ℕ)
    → IsHeap l'
    → HasTree root m
    → l'.allocated ≡ l.allocated
    → Backed root l l' m
    → AllocDone root l size align (none, l', m)
failed root l l' m size align h t e k = record {
  heap = h;
  tree = t;
  pmm = (t.1).valid;
  success = λ addr bad. absurd (cc);
  failure = λ _. e;
  backed = k;
}

done :
    (root : ℕ) (l l' : FreeList) (m : Mem) (size align addr : ℕ)
    → Allocated l l' root m addr (adjust size align).0 align
    → Backed root l l' m
    → AllocDone root l size align (some addr, l', m)
done root l l' m size align addr a k = record {
  heap = a.heap;
  tree = a.tree;
  pmm = (a.tree.1).valid;
  success =
      λ x e. subst (λ k. Allocated l l' root m k (adjust size align).0 align) (ground arith) a;
  failure = λ bad. absurd (cc);
  backed = k;
}

-- A block is found at once: neither the heap nor the memory changes but for the block.
alloc_direct :
    (l : FreeList) (kernel : Option ℕ) (m : Mem) (size align : ℕ) (r : ℕ × List FreeBlock)
    → find_and_remove l.blocks (adjust size align).0 (adjust size align).1 ≡ some r
    → alloc l kernel m size align
      ≡ some
          (some r.0, record l { blocks = r.1; allocated = l.allocated + (adjust size align).0 }, m)
unfolding alloc
alloc_direct l kernel m size align r e = rw (e, alloc) refl

-- After `grow`: what `alloc` returns.
after_grow : FreeList → Mem → ℕ → Option (ℕ × List FreeBlock) → Option ℕ × FreeList × Mem
after_grow l m size none = (none, l, m)
after_grow l m size (some r) =
    (some r.0, record l { blocks = r.1; allocated = l.allocated + size }, m)

module _ (root : ℕ) (l : FreeList) (m : Mem) (size align : ℕ)
    (missing : find_and_remove l.blocks (adjust size align).0 (adjust size align).1 ≡ none) where
  alloc_panics :
      grow l (some root) m ((adjust size align).0 + (adjust size align).1) ≡ none
      → alloc l (some root) m size align ≡ none
  unfolding alloc
  alloc_panics g = rw (missing, alloc, g) refl

  alloc_refused :
      (l' : FreeList) (m' : Mem)
      → grow l (some root) m ((adjust size align).0 + (adjust size align).1) ≡ some (false, l', m')
      → alloc l (some root) m size align ≡ some (none, l', m')
  unfolding alloc
  alloc_refused l' m' g = rw (missing, alloc, g) refl

  alloc_grown :
      (l' : FreeList) (m' : Mem)
      → grow l (some root) m ((adjust size align).0 + (adjust size align).1) ≡ some (true, l', m')
      → alloc l (some root) m size align
        ≡ some (
            after_grow l' m'
              (adjust size align).0
              (find_and_remove l'.blocks (adjust size align).0 (adjust size align).1))
  unfolding alloc after_grow
  alloc_grown l' m' g =
      elim (Option-cases (find_and_remove l'.blocks (adjust size align).0 (adjust size align).1)) [
        | inl k ↦ rw (missing, alloc, g, k) refl
        | inr (r, k) ↦ rw (missing, alloc, g, k) refl
      ]

  alloc_found :
      (grew : Bool) (l' : FreeList) (m' : Mem) (found : Option (ℕ × List FreeBlock))
      → grow l (some root) m ((adjust size align).0 + (adjust size align).1) ≡ some (grew, l', m')
      → grew ≡ true
      → find_and_remove l'.blocks (adjust size align).0 (adjust size align).1 ≡ found
      → alloc l (some root) m size align ≡ some (after_grow l' m' (adjust size align).0 found)
  alloc_found grew l' m' found g yes_grew k =
      alloc_grown l' m' (g ∙ ap (λ x. some (x, l', m')) yes_grew)
      ∙ ap (λ x. some (after_grow l' m' (adjust size align).0 x)) k

-- On a valid heap over valid page tables and a valid frame allocator, `alloc` keeps all of them valid
-- on every path that returns; it panics only where no free block fits and there are fewer than four
-- free frames for each page by which the heap is to grow. The page
-- tables map all memory by which the heap grew. An address that it returns has the alignment asked
-- for, and the region of the adjusted size there lies in the heap, was free or is newly mapped, and is
-- on loan afterwards, counted in `allocated`; no other byte that was on loan has become free. A null
-- pointer leaves `allocated`.
pub alloc-AllocDone :
    (root : ℕ) (l : FreeList) (m : Mem) (size align : ℕ)
    → IsHeap l
    → HasTree root m
    → IsAlign align
    → ((alloc l (some root) m size align ≡ none)
        × (find_and_remove l.blocks (adjust size align).0 (adjust size align).1 ≡ none)
        × (m.pmm.free_frames * 1024
            < grow_by
                ((adjust size align).0 + (adjust size align).1)
                (heap_start + heap_max_size - start_of l)))
      ⊎ ((r : Option ℕ × FreeList × Mem) × (alloc l (some root) m size align ≡ some r)
          × AllocDone root l size align r)
unfolding served_size after_grow
alloc-AllocDone root l m size align h t al =
    let n = (adjust size align).0 + (adjust size align).1 in
    elim (Option-cases (find_and_remove l.blocks (adjust size align).0 (adjust size align).1)) [
      | inr ((addr, rest), e) ↦ inr (
        _,
        alloc_direct l (some root) m size align (addr, rest) e,
        done root l _ m size align addr
            (serve-Allocated l l root m size align al h t refl (λ x c. inl c) addr rest e)
            (λ v p k. absurd (omega (arith, p, k, start-facts l h))),
      )
      | inl e ↦ elim (grow-Grown root l m h t n) [
        | inl (z, few) ↦ inl (alloc_panics root l m size align e z, e, few)
        | inr ((false, l', m'), z, g) ↦ inr (
          _,
          alloc_refused root l m size align e l' m' z,
          failed root l l' m' size align g.heap g.tree g.loans g.backed,
        )
        | inr ((true, l', m'), z, g) ↦
            elim (Option-cases
              (find_and_remove l'.blocks (adjust size align).0 (adjust size align).1)) [
                | inl k ↦ inr (
                  _,
                  alloc_found root l m size align e true l' m' none z refl k,
                  failed root l l' m' size align g.heap g.tree g.loans g.backed,
                )
                | inr ((addr, rest), k) ↦ inr (
                  _,
                  alloc_found root l m size align e true l' m' (some (addr, rest)) z refl k,
                  done root l _ m' size align addr
                      (serve-Allocated l l' root m' size align al g.heap g.tree g.loans
                        (older root l m (true, l', m') g) addr rest k)
                      g.backed,
                )
              ]
      ]
    ]

-- `alloc` neither panics nor fails while the reserved range has room above the mapped part for the
-- growth step or the request rounded up to pages, whichever is larger, and the frame allocator has
-- four frames for each of these pages: one to map, and three for page tables.
pub alloc-some :
    (root : ℕ) (l : FreeList) (m : Mem) (size align : ℕ)
    → IsHeap l
    → HasTree root m
    → IsAlign align
    → let need =
        max heap_grow_step (align_up ((adjust size align).0 + (adjust size align).1) page_size) in
      start_of l + need ≤ heap_start + heap_max_size
      → need / page_size * 4 ≤ m.pmm.free_frames
      → (addr : ℕ) × (l' : FreeList) × (m' : Mem) × (alloc l (some root) m size align
          ≡ some (some addr, l', m'))
unfolding after_grow
alloc-some root l m size align h t al room frames =
    let n = (adjust size align).0 + (adjust size align).1 in
    let b = adjust_bounds size align al in
    elim (Option-cases (find_and_remove l.blocks (adjust size align).0 (adjust size align).1)) [
      | inr (r, e) ↦ (r.0, _, _, alloc_direct l (some root) m size align r e)
      | inl e ↦
          let ((grew, l', m'), z, g, yes_grew, at) =
            grow_full root l m h t n room (omega (arith, frames)) in
          let held = g.holds yes_grew in
          let (r, f) =
            find_and_remove-Holds l'.blocks (start_of l) (l'.mapped_end - start_of l)
              (adjust size align).0 (adjust size align).1 b.0 held (omega (arith, at)) in
          (r.0, _, _, alloc_found root l m size align e grew l' m' (some r) z yes_grew f)
    ]

-- Giving back a region on loan, with the layout it was asked for, keeps the heap valid; the free
-- bytes are then the old ones and those of the region, and `allocated` is less by its size.
pub dealloc-IsHeap :
    (l : FreeList) (addr size align : ℕ)
    → IsHeap l
    → Loaned l addr (adjust size align).0
    → IsHeap (dealloc l addr size align)
      × ((x : ℕ)
          → covers (dealloc l addr size align).blocks x
            ≡ (within addr (adjust size align).0 x || covers l.blocks x))
      × ((dealloc l addr size align).allocated + (adjust size align).0 ≡ l.allocated)
unfolding dealloc
dealloc-IsHeap l addr size align h t =
    let s = (adjust size align).0 in
    (
      record {
        ordered =
            insert-Ordered heap_start l.blocks addr s h.ordered t.low
              (t.large, t.addr_align, t.size_align)
              (Apart-of_covers heap_start l.blocks addr s h.ordered (omega (arith, t.large))
                (λ x a b. t.not_free x (ground (arith, a, b))));
        mapped = λ x c. ground (arith, insert-covers l.blocks addr s x, h.mapped x, t.high, c);
        paged = h.paged;
        ceiling = h.ceiling;
        floor = h.floor;
      },
      λ x. insert-covers l.blocks addr s x,
      omega (arith, t.counted),
    )

align_up_self : (addr align : ℕ) → 0 < align → addr % align ≡ 0 → align_up addr align ≡ addr
align_up_self addr align pos e =
    let whole : addr / align * align ≡ addr = omega (arith, div-add-mod' addr align) in
    let q : (addr + align - 1) / align ≡ addr / align =
      div-eq_of_lt-le {k = addr / align} align (omega (arith, whole))
        (omega (arith, whole, add-mul (addr / align) 1 align, one-mul align)) in
    rw q whole

total_size-cons :
    (b : FreeBlock) (rest : List FreeBlock) → total_size (b ∷ rest) ≡ b.size + total_size rest
unfolding total_size
total_size-cons b rest = refl

find_and_remove_exact :
    (b : FreeBlock) (rest : List FreeBlock) (size align : ℕ)
    → 0 < align
    → b.addr % align ≡ 0
    → b.size ≡ size + 8
    → find_and_remove (b ∷ rest) size align ≡ some (b.addr, rest)
unfolding find_and_remove
find_and_remove_exact b rest size align pos m s = ground (arith, align_up_self b.addr align pos m)

-- The bytes that an allocation cuts off are lost: where the first block is 8 bytes larger than the
-- adjusted request and lies at a multiple of the alignment, `alloc` takes the whole block, and
-- `dealloc` of the result puts back 8 bytes less than the free list held, with the same `allocated`.
pub dealloc-alloc_leak :
    (l : FreeList) (kernel : Option ℕ) (m : Mem) (b : FreeBlock) (rest : List FreeBlock)
    (size align : ℕ)
    → IsAlign align
    → l.blocks ≡ b ∷ rest
    → b.addr % (adjust size align).1 ≡ 0
    → b.size ≡ (adjust size align).0 + 8
    → (l' : FreeList) × (alloc l kernel m size align ≡ some (some b.addr, l', m))
      × (total_size (dealloc l' b.addr size align).blocks + 8 ≡ total_size l.blocks)
      × ((dealloc l' b.addr size align).allocated ≡ l.allocated)
unfolding dealloc
dealloc-alloc_leak l kernel m b rest size align al e on s =
    let bounds = adjust_bounds size align al in
    let f =
      subst
        (λ k. find_and_remove k (adjust size align).0 (adjust size align).1 ≡ some (b.addr, rest))
        (sym e)
        (find_and_remove_exact b rest (adjust size align).0 (adjust size align).1 bounds.0 on s) in
    (
      record l { blocks = rest; allocated = l.allocated + (adjust size align).0 },
      alloc_direct l kernel m size align (b.addr, rest) f,
      omega (
        arith,
        total_size-insert rest b.addr (adjust size align).0,
        ap total_size e,
        total_size-cons b rest,
        s,
      ),
      omega arith,
    )
