-- ===== src/Pmm/Free.antt =====
-- `Pmm::free` of src/pmm.rs: which calls it accepts, and that it undoes an allocation.
use eonos.Prelude.{
  ℕ, zero, suc, ◌+◌, ◌*◌, ◌/◌, ◌%◌, ◌^◌, ◌≤◌, ◌<◌, true, false, ◌≡◌, refl, arith, min, some, inl,
  inr, subst, ℕ_discrete,
}
use eonos.Pmm.Bits.{Bitmap, test_bit, fill_range}
use eonos.Pmm.Bits.Fill.{fill_range-Fills}
use eonos.Pmm.Valid.{Valid, Takes, Gives, Gives-of_Fills}
use eonos.Pmm.Alloc.{alloc_one_lem}
use eonos.Pmm.Run.{alloc_contiguous-Takes}
use eonos.Pmm.{Pmm, page_size, ok, err, not_allocated, all_allocated, free, alloc_frames}

all_allocated-marked :
    (bm : Bitmap) (first count : ℕ)
    → all_allocated bm first count ≡ true
    → (j : ℕ) → first ≤ j
    → j < first + count
    → test_bit bm j ≡ true
unfolding all_allocated
all_allocated-marked bm first zero h j a b = absurd (omega arith)
all_allocated-marked bm first (suc count) h j a b = elim (ℕ_discrete first j) [
  | yes e ↦ subst (λ k. test_bit bm k ≡ true) e (ground arith)
  | no ne ↦ all_allocated-marked bm (first + 1) count (ground arith) j (omega arith) (omega arith)
]

marked-all_allocated :
    (bm : Bitmap) (first count : ℕ)
    → ((j : ℕ) → first ≤ j → j < first + count → test_bit bm j ≡ true)
    → all_allocated bm first count ≡ true
unfolding all_allocated
marked-all_allocated bm first zero h = refl
marked-all_allocated bm first (suc count) h = ground (
  arith,
  h first,
  marked-all_allocated bm (first + 1) count (λ j a b. h j (omega arith) (omega arith)),
)

first-all_allocated :
    (bm : Bitmap) (first count : ℕ)
    → 0 < count
    → test_bit bm first ≡ false
    → all_allocated bm first count ≡ false
unfolding all_allocated
first-all_allocated bm first zero h e = absurd (omega arith)
first-all_allocated bm first (suc count) h e = ground arith

-- The checks that `free` makes on a request for at least one frame.
pub record Accepts (p : Pmm) (phys count : ℕ) : Type 0 where
  pub aligned : phys % page_size ≡ 0
  pub inside : phys / page_size + count ≤ p.total_frames
  pub marked :
      (j : ℕ) → phys / page_size ≤ j → j < phys / page_size + count → test_bit p.bitmap j ≡ true

freed : Pmm → ℕ → ℕ → Pmm
freed p phys count = record p {
  bitmap = fill_range p.bitmap (phys / page_size) count false;
  free_frames = p.free_frames + count;
  next_hint = min p.next_hint (phys / page_size / 64);
}

free-ok_of_Accepts :
    (p : Pmm) (phys count : ℕ)
    → p.total_frames < 2 ^ 64
    → 0 < count
    → Accepts p phys count
    → free p phys count ≡ ok (freed p phys count)
unfolding free freed
free-ok_of_Accepts p phys count small pos a =
    ground
      (arith, marked-all_allocated p.bitmap (phys / page_size) count a.marked, a.aligned, a.inside)

-- A request for at least one frame that `free` accepts is page-aligned, inside the managed memory
-- and names only allocated frames.
free-Accepts :
    (p q : Pmm) (phys count : ℕ)
    → 0 < count
    → free p phys count ≡ ok q
    → Accepts p phys count × (q ≡ freed p phys count)
unfolding free freed
free-Accepts p q phys count pos h = (
  record {
    aligned = ground arith;
    inside = ground arith;
    marked = all_allocated-marked p.bitmap (phys / page_size) count (ground arith);
  },
  ground arith,
)

freed-Gives :
    (p : Pmm) (phys count : ℕ)
    → Valid p
    → Accepts p phys count
    → Gives p (phys / page_size) count (freed p phys count)
unfolding freed
freed-Gives p phys count v a = Gives-of_Fills p (phys / page_size) count _ _ v a.inside a.marked (
    fill_range-Fills p.bitmap (phys / page_size) count false v.words
      (omega (arith, a.inside, v.covered, v.num_words)))

-- On a valid allocator whose frame count fits a `usize`, a `free` of at least one frame succeeds
-- exactly when the address is page-aligned, the range lies inside the managed memory and each of
-- its frames is allocated; it then clears these frames and no other, adds them to the free count,
-- and leaves the allocator valid.
pub free_lem :
    (p : Pmm) (phys count : ℕ)
    → Valid p
    → p.total_frames < 2 ^ 64
    → 0 < count
    → (Accepts p phys count → (q : Pmm) × (free p phys count ≡ ok q))
      × ((q : Pmm)
          → free p phys count ≡ ok q
          → Accepts p phys count × Gives p (phys / page_size) count q)
free_lem p phys count v small pos = (
  λ a. (freed p phys count, free-ok_of_Accepts p phys count small pos a),
  λ q h. let (a, e) = free-Accepts p q phys count pos h in (a, rw e (freed-Gives p phys count v a)),
)

-- A frame range cannot be freed twice: right after a successful `free` of at least one frame, the
-- same `free` is refused as not allocated and so changes nothing.
pub free_twice :
    (p q : Pmm) (phys count : ℕ)
    → Valid p
    → 0 < count
    → free p phys count ≡ ok q
    → free q phys count ≡ err not_allocated
unfolding free freed
free_twice p q phys count v pos h =
    let (a, e) = free-Accepts p q phys count pos h in
    let g = freed-Gives p phys count v a in
    ground (
      arith,
      g.cleared (phys / page_size),
      first-all_allocated (fill_range p.bitmap (phys / page_size) count false) (phys / page_size)
          count pos,
      a.aligned,
      a.inside,
    )

Takes-allocated : (p q : Pmm) (start n : ℕ) → Takes p start n q → Accepts q (start * page_size) n
Takes-allocated p q start n t = record {
  aligned = omega arith;
  inside = omega (arith, t.inside, t.same_total);
  marked = λ j a b. ground (arith, t.marked j);
}

-- Taking frames and giving them back restores the allocator.
Takes-Gives :
    (p q r : Pmm) (start n : ℕ)
    → Takes p start n q
    → Gives q (start * page_size / page_size) n r
    → (r.free_frames ≡ p.free_frames) × ((j : ℕ) → test_bit r.bitmap j ≡ test_bit p.bitmap j)
Takes-Gives p q r start n t g =
    (omega (arith, t.fewer, g.more), λ j. ground (arith, t.marked j, t.was_clear j, g.cleared j))

alloc_frames-Takes :
    (p q : Pmm) (count phys : ℕ)
    → Valid p
    → alloc_frames p count ≡ some (phys, q)
    → (start : ℕ) × (phys ≡ start * page_size) × Takes p start count q
unfolding alloc_frames
alloc_frames-Takes p q count phys v h = elim (ℕ_discrete count 1) [
  | no ne ↦ alloc_contiguous-Takes p count phys q v (ground arith)
  | yes e ↦ elim (alloc_one_lem p v) [
    | inl (z, none_left) ↦ absurd (ground arith)
    | inr (frame, q', pos, some_left, t) ↦ (
      frame,
      ground arith,
      subst (λ n. Takes p frame n q) (omega arith) (subst (Takes p frame 1) (ground arith) t),
    )
  ]
]

pub free-Takes :
    (p q : Pmm) (start count : ℕ)
    → p.total_frames < 2 ^ 64
    → 0 < count
    → Takes p start count q
    → (r : Pmm) × (free q (start * page_size) count ≡ ok r)
      × Valid r
      × (r.free_frames ≡ p.free_frames)
      × ((j : ℕ) → test_bit r.bitmap j ≡ test_bit p.bitmap j)
free-Takes p q start count small pos t =
    let a = Takes-allocated p q start count t in
    let g = freed-Gives q (start * page_size) count t.valid a in
    let (n, bits) = Takes-Gives p q (freed q (start * page_size) count) start count t g in
    (
      freed q (start * page_size) count,
      free-ok_of_Accepts q (start * page_size) count (omega (arith, t.same_total)) pos a,
      g.valid,
      n,
      bits,
    )

-- Freeing what `pmm::alloc_contiguous` returned, for one frame or more, on a valid allocator whose
-- frame count fits a `usize`, succeeds and restores every bit and the number of free frames.
pub free-alloc_frames :
    (p q : Pmm) (count phys : ℕ)
    → Valid p
    → p.total_frames < 2 ^ 64
    → 0 < count
    → alloc_frames p count ≡ some (phys, q)
    → (r : Pmm) × (free q phys count ≡ ok r)
      × Valid r
      × (r.free_frames ≡ p.free_frames)
      × ((j : ℕ) → test_bit r.bitmap j ≡ test_bit p.bitmap j)
free-alloc_frames p q count phys v small pos h =
    let (start, e, t) = alloc_frames-Takes p q count phys v h in
    let (r, given, valid, n, bits) = free-Takes p q start count small pos t in
    (r, rw e given, valid, n, bits)
