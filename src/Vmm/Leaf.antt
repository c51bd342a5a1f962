-- ===== src/Vmm/Leaf.antt =====
-- `leaf_for` and the operations on one page of src/vmm.rs: those on the kernel's tables, and those
-- of `AddressSpace`, in `Space`. `kernel` is what `VMM` holds. The outer `none` is a panic.
pub mod Space
use eonos.Prelude.{
  ℕ, ◌+◌, ◌%◌, ◌<◌, Bool, true, false, not, ◌&&◌, ◌||◌, Option, none, some, if◌then◌else◌, ◌==◌,
  ltb,
}
use eonos.Vmm.{
  Mem, present, huge, frame_of, write, walk, index, map4k, split_1g_huge, split_huge, kernel_rx,
  kernel_ro, kernel_rw, kernel_wc, kernel_uc,
}

-- The page table that has the leaf; its index is the last one of `virt`.
unfoldable pub leaf_in_pd : Mem → ℕ → ℕ → Option (Mem × Option ℕ)
unfolding split_huge
leaf_in_pd m pd virt =
    let entry = m.table pd (index virt 2) in
    let opened : Option Mem = if huge entry then split_huge m pd (index virt 2) else some m in
    let found : Option (Mem × Option ℕ) = elim opened [
      | none ↦ none
      | some m1 ↦
          let pt = frame_of (m1.table pd (index virt 2)) in
          some (m1, if present (m1.table pt (index virt 3)) then some pt else none)
    ] in
    if present entry then found else some (m, none)

unfoldable pub leaf_in_pdpt : Mem → ℕ → ℕ → Option (Mem × Option ℕ)
unfolding split_1g_huge leaf_in_pd
leaf_in_pdpt m pdpt virt =
    let entry = m.table pdpt (index virt 1) in
    let opened : Option Mem = if huge entry then split_1g_huge m pdpt (index virt 1) else some m in
    let found : Option (Mem × Option ℕ) = elim opened [
      | none ↦ none
      | some m1 ↦ leaf_in_pd m1 (frame_of (m1.table pdpt (index virt 1))) virt
    ] in
    if present entry then found else some (m, none)

unfoldable pub leaf_for : Mem → ℕ → ℕ → Option (Mem × Option ℕ)
unfolding leaf_in_pdpt
leaf_for m pml4 virt =
    let entry = m.table pml4 (index virt 0) in
    if not (present entry) || huge entry
    then some (m, none)
    else leaf_in_pdpt m (frame_of entry) virt

-- The body that `unmap_page` and `AddressSpace::unmap` have in common.
unfoldable pub clear_leaf : Mem → ℕ → ℕ → Option (Mem × Option ℕ)
unfolding leaf_for write
clear_leaf m pml4 virt = elim (leaf_for m pml4 virt) [
  | none ↦ none
  | some (m1, found) ↦ elim found [
    | none ↦ some (m1, none)
    | some pt ↦ some (write m1 pt (index virt 3) 0, some (frame_of (m1.table pt (index virt 3))))
  ]
]

-- The body that `protect_page` and `AddressSpace::protect` have in common.
unfoldable pub change_leaf : Mem → ℕ → ℕ → ℕ → Option (Mem × Bool)
unfolding leaf_for write
change_leaf m pml4 virt flags = elim (leaf_for m pml4 virt) [
  | none ↦ none
  | some (m1, found) ↦ elim found [
    | none ↦ some (m1, false)
    | some pt ↦
        some (write m1 pt (index virt 3) (frame_of (m1.table pt (index virt 3)) + flags), true)
  ]
]

unfoldable pub map_page : Mem → Option ℕ → ℕ → ℕ → ℕ → Option Mem
unfolding map4k
map_page m kernel virt phys flags = elim kernel [
  | none ↦ some m
  | some pml4 ↦ map4k m pml4 virt phys flags
]

unfoldable pub unmap_page : Mem → Option ℕ → ℕ → Option (Mem × Option ℕ)
unfolding clear_leaf
unmap_page m kernel virt = elim kernel [
  | none ↦ some (m, none)
  | some pml4 ↦ clear_leaf m pml4 virt
]

unfoldable pub protect_page : Mem → Option ℕ → ℕ → ℕ → Option (Mem × Bool)
unfolding change_leaf
protect_page m kernel virt flags =
    let allowed =
      flags == kernel_rx
      || flags == kernel_ro
      || flags == kernel_rw
      || flags == kernel_wc
      || flags == kernel_uc in
    let changed : Option (Mem × Bool) = elim kernel [
      | none ↦ some (m, false)
      | some pml4 ↦ change_leaf m pml4 virt flags
    ] in
    if allowed then changed else some (m, false)

unfoldable pub translate : Mem → Option ℕ → ℕ → Option ℕ
unfolding walk
translate m kernel virt = elim kernel [ none ↦ none | some pml4 ↦ walk m pml4 virt ]
