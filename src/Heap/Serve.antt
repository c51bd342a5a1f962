-- ===== src/Heap/Serve.antt =====
-- The request that `KernelHeap::alloc` of src/heap.rs serves for a layout, and what serving it from the
-- free list leaves.
use native.Mathlib.Nat.{mod-mod_of_dvd, dvd_of_mod-eq-zero}
use eonos.Prelude.{
  ℕ, ◌+◌, ◌-◌, ◌%◌, ◌≤◌, ◌<◌, List, true, false, ◌≡◌, arith, ap, sym, subst, ◌∙◌, ◌⊎◌, inl, inr,
  max, some, dec_le,
}
use eonos.Heap.{FreeBlock, FreeList, find_and_remove, adjust, heap_start}
use eonos.Vmm.{Mem}
use eonos.Heap.Pages.{HasTree}
use eonos.Heap.Order.{Ordered}
use eonos.Heap.Bytes.{within, covers, covers_below}
use eonos.Heap.Fit.{Served, find_and_remove-Served}
use eonos.Heap.Grow.{IsHeap}

-- An alignment that Rust's `Layout` allows: every power of two is of this form.
abbrev pub IsAlign : ℕ → Type 0
IsAlign align = ((align ≡ 1) ⊎ ((align ≡ 2) ⊎ (align ≡ 4))) ⊎ ((0 < align) × (align % 8 ≡ 0))

align_dvd : (align x : ℕ) → IsAlign align → x % max align 8 ≡ 0 → x % align ≡ 0
align_dvd align x (inl (inl e)) =
    subst (λ a. x % max a 8 ≡ 0 → x % a ≡ 0) (sym e) (λ k. omega arith)
align_dvd align x (inl (inr (inl e))) =
    subst (λ a. x % max a 8 ≡ 0 → x % a ≡ 0) (sym e) (λ k. omega arith)
align_dvd align x (inl (inr (inr e))) =
    subst (λ a. x % max a 8 ≡ 0 → x % a ≡ 0) (sym e) (λ k. omega arith)
align_dvd align x (inr (pos, e)) =
    subst (λ a. x % a ≡ 0 → x % align ≡ 0) (same (omega arith)) (λ k. k)
  where
    same : max align 8 ≡ align → align ≡ max align 8
    same = sym

eight_dvd : (a x : ℕ) → a % 8 ≡ 0 → x % a ≡ 0 → x % 8 ≡ 0
eight_dvd a x e h = sym (mod-mod_of_dvd 8 x (dvd_of_mod-eq-zero 8 e)) ∙ ap (λ k. k % 8) h

-- `adjust` serves a layout with at least its size and a multiple of its alignment.
pub adjust_bounds :
    (size align : ℕ)
    → IsAlign align
    → let (s, a) = adjust size align in
      (0 < a)
      × (a % 8 ≡ 0)
      × (s % 8 ≡ 0)
      × (size ≤ s)
      × (16 ≤ s)
      × ((x : ℕ) → x % a ≡ 0 → x % align ≡ 0)
unfolding adjust
adjust_bounds size align h = (
  ground arith,
  ground arith,
  omega arith,
  omega arith,
  omega arith,
  λ x e. align_dvd align x h e,
)

-- A region on loan: mapped heap memory none of which is on the free list, and counted in
-- `allocated`. It is what a caller of `dealloc` must pass.
pub record Loaned (l : FreeList) (addr size : ℕ) : Type 0 where
  pub not_free : (x : ℕ) → within addr size x ≡ true → covers l.blocks x ≡ false
  pub low : heap_start ≤ addr
  pub high : addr + size ≤ l.mapped_end
  pub addr_align : addr % 8 ≡ 0
  pub size_align : size % 8 ≡ 0
  pub large : 16 ≤ size
  pub counted : size ≤ l.allocated

-- What `alloc` did when it returned `addr` for a region of `size` bytes.
pub record Allocated (l l' : FreeList) (root : ℕ) (q : Mem) (addr size align : ℕ) : Type 0 where
  pub aligned : addr % align ≡ 0
  pub heap : IsHeap l'
  pub tree : HasTree root q
  pub loan : Loaned l' addr size
  pub fresh : (x : ℕ) → within addr size x ≡ true → (covers l.blocks x ≡ true) ⊎ (l.mapped_end ≤ x)
  pub others : (x : ℕ) → covers l'.blocks x ≡ true → (covers l.blocks x ≡ true) ⊎ (l.mapped_end ≤ x)
  pub counted : l'.allocated ≡ l.allocated + size

covers-low : (lo : ℕ) (l : List FreeBlock) (x : ℕ) → Ordered lo l → covers l x ≡ true → lo ≤ x
covers-low lo l x o c = elim (dec_le lo x) [
  | yes p ↦ p
  | no p ↦ absurd (ground (arith, c, covers_below lo l x o (omega arith)))
]

first_byte : (addr size : ℕ) → 0 < size → within addr size addr ≡ true
first_byte addr size h = ground arith

last_byte : (addr size : ℕ) → 0 < size → within addr size (addr + size - 1) ≡ true
last_byte addr size h = ground arith

module _ (l m : FreeList) (root : ℕ) (q : Mem) (layout_size layout_align : ℕ)
    (al : IsAlign layout_align) (hm : IsHeap m) (tq : HasTree root q)
    (same : m.allocated ≡ l.allocated)
    (older : (x : ℕ) → covers m.blocks x ≡ true → (covers l.blocks x ≡ true) ⊎ (l.mapped_end ≤ x))
    (addr : ℕ) (blocks' : List FreeBlock)
    (served : find_and_remove m.blocks
        (adjust layout_size layout_align).0
        (adjust layout_size layout_align).1
      ≡ some (addr, blocks')) where
  unfoldable pub served_size : ℕ
  served_size = (adjust layout_size layout_align).0

  serve-Served :
      Served heap_start m.blocks served_size (adjust layout_size layout_align).1 addr blocks'
  unfolding served_size
  serve-Served =
      let b = adjust_bounds layout_size layout_align al in
      find_and_remove-Served heap_start m.blocks served_size _ addr blocks' hm.ordered b.0 b.1 b.2
        served

  pub serve-Allocated :
      Allocated l
        (record m { blocks = blocks'; allocated = m.allocated + served_size })
        root
        q
        addr
        served_size
        layout_align
  unfolding served_size
  serve-Allocated = record {
    aligned = b.5 addr s.aligned;
    heap = record {
      ordered = s.ordered;
      mapped = λ x c. hm.mapped x (s.no_other x c);
      paged = hm.paged;
      ceiling = hm.ceiling;
      floor = hm.floor;
    };
    tree = tq;
    loan = record {
      not_free = s.taken;
      low =
          covers-low heap_start m.blocks addr hm.ordered
            (s.was_free addr (first_byte addr served_size (omega (arith, b))));
      high = omega (
        arith,
        b,
        hm.mapped (addr + served_size - 1)
            (s.was_free (addr + served_size - 1) (last_byte addr served_size (omega (arith, b)))),
      );
      addr_align = eight_dvd _ addr b.1 s.aligned;
      size_align = b.2;
      large = b.4;
      counted = omega arith;
    };
    fresh = λ x w. older x (s.was_free x w);
    others = λ x c. older x (s.no_other x c);
    counted = omega (arith, same);
  }
    where
      b :
          (0 < (adjust layout_size layout_align).1)
          × ((adjust layout_size layout_align).1 % 8 ≡ 0)
          × (served_size % 8 ≡ 0)
          × (layout_size ≤ served_size)
          × (16 ≤ served_size)
          × ((x : ℕ) → x % (adjust layout_size layout_align).1 ≡ 0 → x % layout_align ≡ 0)
      b = adjust_bounds layout_size layout_align al

      s : Served heap_start m.blocks served_size (adjust layout_size layout_align).1 addr blocks'
      s = serve-Served
