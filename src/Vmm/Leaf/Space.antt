-- ===== src/Vmm/Leaf/Space.antt =====
-- `AddressSpace` of src/vmm.rs, which is the address of its PML4: mapping, unmapping, protecting.
use eonos.Prelude.{
  ℕ, ◌%◌, Bool, true, false, not, ◌&&◌, ◌||◌, Option, none, some, if◌then◌else◌, ◌==◌, ltb, leb,
}
use eonos.Vmm.{Mem, walk, map4k, page_size, user_space_end, user_rx, user_ro, user_rw}
use eonos.Vmm.Leaf.{clear_leaf, change_leaf}

-- `matches!(flags, USER_RX | USER_RO | USER_RW)`.
unfoldable pub user_flags : ℕ → Bool
user_flags flags = flags == user_rx || flags == user_ro || flags == user_rw

unfoldable pub lookup : Mem → ℕ → ℕ → Option ℕ
unfolding walk
lookup m space virt = walk m space virt

unfoldable pub map : Mem → ℕ → ℕ → ℕ → ℕ → Option Mem
unfolding map4k lookup user_flags
map m space virt phys flags =
    let absent : Bool = elim (lookup m space virt) [ none ↦ true | some p ↦ false ] in
    if ltb virt user_space_end
      && virt % page_size == 0
      && phys % page_size == 0
      && user_flags flags
      && absent
    then map4k m space virt phys flags
    else none

unfoldable pub unmap : Mem → ℕ → ℕ → Option (Mem × Option ℕ)
unfolding clear_leaf
unmap m space virt = if ltb virt user_space_end then clear_leaf m space virt else none

unfoldable pub protect : Mem → ℕ → ℕ → ℕ → Option (Mem × Bool)
unfolding change_leaf user_flags
protect m space virt flags =
    if leb user_space_end virt || not (user_flags flags)
    then some (m, false)
    else change_leaf m space virt flags
