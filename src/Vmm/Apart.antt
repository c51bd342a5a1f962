-- ===== src/Vmm/Apart.antt =====
-- A new address space of src/vmm.rs next to the kernel's tables.
use eonos.Prelude.{
  ℕ, zero, suc, ◌+◌, ◌*◌, ◌<◌, ◌≤◌, ◌≡◌, ◌≢◌, inl, inr, refl, ap, sym, ◌∙◌, false, none, some,
  if◌then◌else◌, arith,
}
use eonos.Pmm.Bits.{test_bit}
use eonos.Pmm.Valid.{Valid, Takes}
use eonos.Pmm.Alloc.{alloc_one_lem}
use eonos.Pmm.Free.{free-Takes}
use eonos.Vmm.{
  Mem, present, frame_of, put_table, zero_bytes, alloc_zeroed, kernel_pml4_start, user_space_end,
  index, walk, enter_pml4,
}
use eonos.Vmm.Entry.{zero-present, index-lt}
use eonos.Vmm.Tree.{Level, pml4, Place, Tree, Touches, walk_agrees}
use eonos.Vmm.Create.{
  free_frame, free_pdpt, free_pml4_entries, free_user_half, create_address_space, copy_half,
}

-- What `create_address_space` returns: a table whose lower half is empty and whose upper half is
-- the kernel's, while the kernel's tables are as they were.
record Fresh (kernel : ℕ) (place : Place) (m : Mem) (f : ℕ) (m' : Mem) : Type 0 where
  takes : Takes m.pmm f 1 m'.pmm
  lower : (i : ℕ) → i < 256 → m'.table (f * 4096) i ≡ 0
  upper : (i : ℕ) → 256 ≤ i → i < 512 → m'.table (f * 4096) i ≡ m.table kernel i
  others : (t i : ℕ) (p : Level × ℕ) → place t ≡ some p → m'.table t i ≡ m.table t i

create-Fresh :
    (kernel : ℕ) (place : Place) (m : Mem)
    → Tree kernel place m
    → 0 < m.pmm.free_frames
    → (f : ℕ) × (m' : Mem) × (create_address_space m (some kernel) ≡ some (f * 4096, m'))
      × Fresh kernel place m f m'
unfolding create_address_space alloc_zeroed
create-Fresh kernel place m tree free_ones = elim (alloc_one_lem m.pmm tree.valid) [
  | inl (z, k) ↦ absurd (omega arith)
  | inr (f, q, pos, e, takes) ↦
      let apart : (t : ℕ) (p : Level × ℕ) → place t ≡ some p → t ≢ f * 4096 = λ t p h z.
        let (g, at_g, set_g, small_g) = tree.taken t p h in
        let same : f ≡ g = omega (arith, z) in
        absurd (ground (arith, takes.was_clear f (omega arith) (omega arith), same, set_g)) in
      let not_kernel = apart kernel (pml4, 0) tree.at_root in
      let zeroed = put_table m.table (f * 4096) (λ i. 0) in
      let after : Mem = record m {
        table = put_table zeroed (f * 4096) (copy_half (zeroed kernel) (zeroed (f * 4096)));
        bytes = zero_bytes m.bytes (f * 4096);
        pmm = q;
      } in
      (
        f,
        after,
        ground (arith, e),
        record {
          takes = takes;
          lower = λ i h. ground (arith, h);
          upper = λ i h k. ground (arith, h, k, not_kernel);
          others = λ t i p h. ground (arith, apart t p h);
        },
      )
]

-- `create_address_space` on the kernel's tables, with a free frame, returns an address space in
-- which no address of user space is mapped, and every address of the kernel's half is mapped as in
-- the kernel's tables; the kernel's own translation is as it was.
pub create_address_space-shares :
    (kernel : ℕ) (place : Place) (m : Mem)
    → Tree kernel place m
    → 0 < m.pmm.free_frames
    → (space : ℕ) × (m' : Mem) × (create_address_space m (some kernel) ≡ some (space, m'))
      × ((virt : ℕ) → virt < user_space_end → walk m' space virt ≡ none)
      × ((virt : ℕ) → kernel_pml4_start ≤ index virt 0 → walk m' space virt ≡ walk m kernel virt)
      × ((virt : ℕ) → walk m' kernel virt ≡ walk m kernel virt)
unfolding walk enter_pml4 index
create_address_space-shares kernel place m tree free_ones =
    let (f, m', e, fresh) = create-Fresh kernel place m tree free_ones in
    let touch : Touches place kernel 512 m m' = record {
      same = λ t i p h n. fresh.others t i p h;
    } in
    let kept : (virt : ℕ) → walk m' kernel virt ≡ walk m kernel virt = λ virt.
      walk_agrees kernel place m m' tree kernel 512 0 pml4 tree.at_root touch virt
        (λ a b. absurd (omega (arith, b, index-lt virt 0))) in
    (
      f * 4096,
      m',
      e,
      (λ virt h. ground (arith, zero-present, fresh.lower (index virt 0) (omega (arith, h)))),
      (λ virt h.
          ap (λ x. enter_pml4 m' x virt)
            (fresh.upper (index virt 0) h (index-lt virt 0)
              ∙ sym (fresh.others kernel (index virt 0) (pml4, 0) tree.at_root))
          ∙ kept virt),
      kept,
    )

-- Nothing is mapped in the lower half, so its entries free nothing.
empty_half :
    (left i : ℕ) (m : Mem) (pml4_at : ℕ)
    → ((k : ℕ) → k < i + left → m.table pml4_at k ≡ 0)
    → free_pml4_entries left i m pml4_at ≡ m
unfolding free_pml4_entries
empty_half zero i m pml4_at h = refl
empty_half (suc left) i m pml4_at h =
    let off : present (m.table pml4_at i) ≡ false = ap present (h i (omega arith)) ∙ zero-present in
    ap
      (λ b.
        free_pml4_entries left (i + 1) (if b then free_pdpt m (frame_of (m.table pml4_at i)) else m)
          pml4_at)
      off
    ∙ empty_half left (i + 1) m pml4_at (λ k l. h k (omega arith))

free_user_half-empty :
    (m : Mem) (pml4_at : ℕ)
    → ((k : ℕ) → k < 256 → m.table pml4_at k ≡ 0)
    → free_user_half m pml4_at ≡ free_frame m pml4_at
unfolding free_user_half
free_user_half-empty m pml4_at h =
    ap (λ x. free_frame x pml4_at)
      (empty_half kernel_pml4_start 0 m pml4_at (λ k l. h k (omega arith)))

-- Creating an address space and dropping it again, where a frame is free, gives the frame back: the
-- allocator is valid, has as many free frames as before, and the same frames are allocated. Every
-- entry of every table of the kernel is as it was, and so is every walk of the kernel's.
pub free_user_half-create :
    (kernel : ℕ) (place : Place) (m : Mem)
    → Tree kernel place m
    → 0 < m.pmm.free_frames
    → (space : ℕ) × (m1 : Mem) × (m2 : Mem) × (create_address_space m (some kernel)
        ≡ some (space, m1))
      × (free_user_half m1 space ≡ m2)
      × Valid m2.pmm
      × (m2.pmm.free_frames ≡ m.pmm.free_frames)
      × ((j : ℕ) → test_bit m2.pmm.bitmap j ≡ test_bit m.pmm.bitmap j)
      × ((t i : ℕ) (p : Level × ℕ) → place t ≡ some p → m2.table t i ≡ m.table t i)
      × ((virt : ℕ) → walk m2 kernel virt ≡ walk m kernel virt)
unfolding free_frame
free_user_half-create kernel place m tree free_ones =
    let (f, m', e, fresh) = create-Fresh kernel place m tree free_ones in
    let empty = free_user_half-empty m' (f * 4096) fresh.lower in
    let (r, given, valid, count, bits) =
      free-Takes m.pmm m'.pmm f 1 (omega (arith, tree.small)) (omega arith) fresh.takes in
    let after : Mem = record m' { pmm = r } in
    let touch : Touches place kernel 512 m after = record {
      same = λ t i p h n. fresh.others t i p h;
    } in
    (
      f * 4096,
      m',
      after,
      e,
      empty ∙ ground (arith, given),
      valid,
      count,
      bits,
      fresh.others,
      λ virt.
          walk_agrees kernel place m after tree kernel 512 0 pml4 tree.at_root touch virt
            (λ a b. absurd (omega (arith, b, index-lt virt 0))),
    )
