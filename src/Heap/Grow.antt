-- ===== src/Heap/Grow.antt =====
-- `FreeList::grow` of src/heap.rs over the page tables of src/vmm.rs and the frame allocator
-- of src/pmm.rs, and `KernelHeap`.
use eonos.Prelude.{
  ℕ, suc, ◌+◌, ◌-◌, ◌*◌, ◌/◌, ◌%◌, ◌≤◌, ◌<◌, Bool, true, false, ◌≡◌, refl, ap, arith, if◌then◌else◌,
  ◌==◌, ◌⊎◌, inl, inr, Bool-cases, ◌||◌, max, none, some,
}
use eonos.Vmm.{Mem, walk}
use eonos.Heap.{
  FreeList, insert, align_up, heap_start, heap_max_size, heap_grow_step, page_size, map_pages,
  grow_by, grow,
}
use eonos.Heap.Pages.{HasTree, Mapped, map_pages-Mapped}
use eonos.Heap.Order.{Ordered, insert-Ordered}
use eonos.Heap.Bytes.{within, covers, insert-covers, Apart-of_covers}
use eonos.Heap.Fit.{Holds, insert-Holds}

-- The invariant of `FreeList`: the blocks are in order inside the mapped part of the heap, which is
-- a whole number of pages within the reserved range.
pub record IsHeap (l : FreeList) : Type 0 where
  pub ordered : Ordered heap_start l.blocks
  pub mapped : (x : ℕ) → covers l.blocks x ≡ true → x < l.mapped_end
  pub paged : l.mapped_end % page_size ≡ 0
  pub ceiling : l.mapped_end ≤ heap_start + heap_max_size
  pub floor : (l.mapped_end ≡ 0) ⊎ (heap_start ≤ l.mapped_end)

-- What `grow` asks for is a whole number of pages, at most what remains.
grow_by_bounds :
    (min_extra remaining_va : ℕ)
    → (grow_by min_extra remaining_va % page_size ≡ 0)
      × (grow_by min_extra remaining_va ≤ remaining_va)
unfolding grow_by
grow_by_bounds min_extra remaining_va = omega arith

unfoldable pub start_of : FreeList → ℕ
start_of l = if l.mapped_end == 0 then heap_start else l.mapped_end

module _ (l : FreeList) (h : IsHeap l) where
  pub start-facts :
      (heap_start ≤ start_of l)
      × (start_of l ≤ heap_start + heap_max_size)
      × (l.mapped_end ≤ start_of l)
      × (start_of l % page_size ≡ 0)
  unfolding start_of
  start-facts = ground (arith, h.paged, h.ceiling, h.floor)

  extended-IsHeap :
      (mapped : ℕ)
      → 0 < mapped
      → mapped % page_size ≡ 0
      → mapped ≤ heap_start + heap_max_size - start_of l
      → IsHeap (record l {
        blocks = insert l.blocks (start_of l) mapped;
        mapped_end = start_of l + mapped;
        total = l.total + mapped;
      })
  extended-IsHeap mapped pos whole room = record {
    ordered =
        insert-Ordered heap_start l.blocks (start_of l) mapped h.ordered start-facts.0
          (omega (arith, whole, start-facts))
          (Apart-of_covers heap_start l.blocks (start_of l) mapped h.ordered pos
            (λ x a b. ground (arith, h.mapped x, start-facts, a)));
    mapped = λ x c.
        ground (arith, insert-covers l.blocks (start_of l) mapped x, h.mapped x, start-facts, c);
    paged = omega (arith, whole, start-facts);
    ceiling = omega (arith, room, start-facts);
    floor = inr (omega (arith, start-facts));
  }

-- The page tables map the memory by which the heap `l'` is larger than `l`.
abbrev pub Backed : ℕ → FreeList → FreeList → Mem → Type 0
Backed root l l' m =
    (v : ℕ) → start_of l ≤ v → v < l'.mapped_end → (phys : ℕ) × (walk m root v ≡ some phys)

-- What `grow` leaves behind: the heap is valid, and so are the page tables and their allocator; the
-- free bytes are the old ones and the newly mapped ones, which one block holds if it reports
-- success; each page mapped costs at most four frames; and the page tables map all of the new part.
pub record Grown (root : ℕ) (l : FreeList) (m : Mem) (r : Bool × FreeList × Mem) : Type 0 where
  pub heap : IsHeap r.1
  pub tree : HasTree root r.2
  pub bytes :
      (x : ℕ)
      → covers r.1.blocks x
        ≡ (within (start_of l) (r.1.mapped_end - start_of l) x || covers l.blocks x)
  pub holds : r.0 ≡ true → Holds r.1.blocks (start_of l) (r.1.mapped_end - start_of l)
  pub larger : (l.mapped_end ≤ r.1.mapped_end) × (start_of l ≤ r.1.mapped_end)
  pub frames : m.pmm.free_frames * 1024 + start_of l ≤ r.2.pmm.free_frames * 1024 + r.1.mapped_end
  pub loans : r.1.allocated ≡ l.allocated
  pub backed : Backed root l r.1 r.2

module _ (root : ℕ) (l : FreeList) (m : Mem) (h : IsHeap l) (t : HasTree root m) where
  refused-Grown :
      (m1 : Mem)
      → HasTree root m1
      → m.pmm.free_frames ≤ m1.pmm.free_frames
      → Grown root l m (false, record l { mapped_end = start_of l }, m1)
  refused-Grown m1 t1 same = record {
    heap = record {
      ordered = h.ordered;
      mapped = λ x c. ground (arith, h.mapped x c, start-facts l h);
      paged = omega (arith, start-facts l h);
      ceiling = omega (arith, start-facts l h);
      floor = inr (omega (arith, start-facts l h));
    };
    tree = t1;
    bytes = λ x. ground arith;
    holds = λ e. absurd (cc);
    larger = omega (arith, start-facts l h);
    frames = omega arith;
    loans = refl;
    backed = λ v p k. absurd (omega arith);
  }

  success-Grown :
      (by : ℕ) (out : ℕ × Mem)
      → Mapped root (start_of l) by 0 m out
      → by ≤ heap_start + heap_max_size - start_of l
      → 0 < out.0
      → Grown root l m (
        true,
        record l {
          blocks = insert l.blocks (start_of l) out.0;
          mapped_end = start_of l + out.0;
          total = l.total + out.0;
        },
        out.1,
      )
  success-Grown by (mapped, m1) k room pos =
      let width : start_of l + mapped - start_of l ≡ mapped = omega arith in
      record {
        heap = extended-IsHeap l h mapped pos k.whole (omega (arith, k.within_by, room));
        tree = k.tree;
        bytes = λ x. rw width (insert-covers l.blocks (start_of l) mapped x);
        holds = λ e. rw width (insert-Holds l.blocks (start_of l) mapped);
        larger = omega (arith, start-facts l h);
        frames = omega (arith, k.frames);
        loans = refl;
        backed = λ v p q. k.backed v (omega arith) q;
      }

  by : ℕ → ℕ
  by n = grow_by n (heap_start + heap_max_size - start_of l)

  loop :
      (n : ℕ)
      → ((map_pages (suc (by n / page_size)) (start_of l) (by n) 0 (some root) m ≡ none)
          × (m.pmm.free_frames * 1024 + 0 < by n))
        ⊎ ((out : ℕ × Mem) × (map_pages (suc (by n / page_size)) (start_of l) (by n) 0 (some root) m
              ≡ some out)
            × Mapped root (start_of l) (by n) 0 m out)
  unfolding by
  loop n =
      map_pages-Mapped (suc (by n / page_size)) root (start_of l) (by n) 0 m t (omega arith)
        (grow_by_bounds n (heap_start + heap_max_size - start_of l)).0 (omega arith) (omega arith)
        (omega (arith, start-facts l h))
        (omega (arith, start-facts l h, grow_by_bounds n (heap_start + heap_max_size - start_of l)))

  -- `grow` keeps the heap and the page tables valid, whatever it is asked for and however many
  -- frames it gets; it panics only with fewer than four free frames for each page that it wants.
  pub grow-Grown :
      (n : ℕ)
      → ((grow l (some root) m n ≡ none)
          × (m.pmm.free_frames * 1024 < grow_by n (heap_start + heap_max_size - start_of l)))
        ⊎ ((r : Bool × FreeList × Mem) × (grow l (some root) m n ≡ some r) × Grown root l m r)
  unfolding grow by start_of
  grow-Grown n = elim (Bool-cases (heap_start + heap_max_size - start_of l == 0)) [
    | inl e ↦ inr (_, rw e refl, refused-Grown m t (omega arith))
    | inr e ↦ elim (Bool-cases (by n == 0)) [
      | inl f ↦ inr (_, rw (e, f) refl, refused-Grown m t (omega arith))
      | inr f ↦ elim (loop n) [
        | inl (z, few) ↦ inl (rw (e, f, z) refl, omega (arith, few))
        | inr ((mapped, m1), z, k) ↦ elim (Bool-cases (mapped == 0)) [
          | inl g ↦
              inr (_, rw (e, f, z, g) refl, refused-Grown m1 k.tree (ground (arith, k.frames, g)))
          | inr g ↦ inr (
            _,
            rw (e, f, z, g) refl,
            success-Grown (by n) (mapped, m1) k
                (grow_by_bounds n (heap_start + heap_max_size - start_of l)).1 (ground arith),
          )
        ]
      ]
    ]
  ]

  -- With the virtual space and four frames for each page, `grow` maps all that it wants.
  pub grow_full :
      (n : ℕ)
      → let need = max heap_grow_step (align_up n page_size) in
        start_of l + need ≤ heap_start + heap_max_size
        → need ≤ m.pmm.free_frames * 1024
        → (r : Bool × FreeList × Mem) × (grow l (some root) m n ≡ some r)
          × Grown root l m r
          × (r.0 ≡ true)
          × (r.1.mapped_end ≡ start_of l + need)
  unfolding grow start_of
  grow_full n space frames =
      let need = max heap_grow_step (align_up n page_size) in
      let e : by n ≡ need = unfold by grow_by in omega (arith, start-facts l h) in
      elim (loop n) [
        | inl (z, few) ↦ absurd (omega (arith, few, e, frames))
        | inr ((mapped, m1), z, k) ↦
            let w : mapped ≡ need = omega (arith, k.stops, k.frames, k.within_by, e, frames) in
            (
              (
                true,
                record l {
                  blocks = insert l.blocks (start_of l) mapped;
                  mapped_end = start_of l + mapped;
                  total = l.total + mapped;
                },
                m1,
              ),
              unfold by in ground (arith, z, e, w, space),
              success-Grown (by n) (mapped, m1) k
                  (unfold by in (grow_by_bounds n (heap_start + heap_max_size - start_of l)).1)
                  (omega (arith, w)),
              refl,
              ap (λ x. start_of l + x) w,
            )
      ]
