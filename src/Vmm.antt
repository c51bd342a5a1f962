-- ===== src/Vmm.antt =====
-- The page tables, src/vmm.rs: the walks, mapping and unmapping, huge pages and how they are split,
-- the kernel's tables and the address spaces of processes.
-- `Mem` holds the page tables, by the physical address of the table and the index of the entry,
-- the bytes of the frames that hold no table, and the frame allocator of src/pmm.rs. An entry is the 64-bit word;
-- `entry & ADDR_MASK` and the tests of single bits are written with `/` and `%`, and `|` of an
-- address and of flags, which have no bit in common, is `+`. The flags of a mapping are one of the
-- constants, and each of them has the present bit. `none` stands for a panic. `invlpg`, which
-- changes no memory, has no counterpart.
pub mod Entry
pub mod Tree
pub mod Install
pub mod Next
pub mod Reach
pub mod Split
pub mod Page
pub mod Map
pub mod Leaf
pub mod Unmap
pub mod Change
pub mod Round
pub mod User
pub mod Create
pub mod Apart
pub mod Boot
pub mod Tests
use eonos.Prelude.{
  ℕ, ◌+◌, ◌-◌, ◌*◌, ◌/◌, ◌%◌, ◌^◌, Bool, true, false, not, ◌&&◌, ◌||◌, Option, none, some,
  if◌then◌else◌, ltb, leb, ◌==◌,
}
use eonos.Pmm.{Pmm, alloc_one}

abbrev pub page_size : ℕ
page_size = 4096

abbrev pub entries : ℕ
entries = 512

abbrev pub huge_2m : ℕ
huge_2m = 0x20_0000

abbrev pub user_space_end : ℕ
user_space_end = 0x8000_0000_0000

abbrev pub kernel_pml4_start : ℕ
kernel_pml4_start = 256

abbrev pub no_execute : ℕ
no_execute = 0x8000_0000_0000_0000

abbrev pub kernel_rx : ℕ
kernel_rx = 1

abbrev pub kernel_ro : ℕ
kernel_ro = 1 + no_execute

abbrev pub kernel_rw : ℕ
kernel_rw = 3 + no_execute

abbrev pub user_rx : ℕ
user_rx = 5

abbrev pub user_ro : ℕ
user_ro = 5 + no_execute

abbrev pub user_rw : ℕ
user_rw = 7 + no_execute

abbrev pub kernel_wc : ℕ
kernel_wc = 3 + no_execute + 8

abbrev pub kernel_uc : ℕ
kernel_uc = 3 + no_execute + 16

unfoldable pub present : ℕ → Bool
present e = e % 2 == 1

unfoldable pub writable : ℕ → Bool
writable e = e / 2 % 2 == 1

unfoldable pub user : ℕ → Bool
user e = e / 4 % 2 == 1

unfoldable pub huge : ℕ → Bool
huge e = e / 128 % 2 == 1

-- `e & ADDR_MASK`, `e & HUGE_2M_MASK`, `e & HUGE_1G_MASK`.
unfoldable pub frame_of : ℕ → ℕ
frame_of e = e / 4096 % 0x100_0000_0000 * 4096

unfoldable pub frame_2m : ℕ → ℕ
frame_2m e = e / 0x20_0000 % 0x8000_0000 * 0x20_0000

unfoldable pub frame_1g : ℕ → ℕ
frame_1g e = e / 0x4000_0000 % 0x40_0000 * 0x4000_0000

-- `e & !ADDR_MASK & !HUGE`.
unfoldable pub flags_of : ℕ → ℕ
flags_of e = e % 128 + e / 256 % 16 * 256 + e / 0x10_0000_0000_0000 * 0x10_0000_0000_0000

-- `e & PAT_HUGE != 0`.
unfoldable pub pat_huge : ℕ → Bool
pat_huge e = e / 4096 % 2 == 1

unfoldable pub index : ℕ → ℕ → ℕ
index virt level = virt / 2 ^ (39 - level * 9) % 512

pub record Mem : Type 0 where
  pub table : ℕ → ℕ → ℕ
  pub bytes : ℕ → ℕ
  pub pmm : Pmm

abbrev pub put_table : (ℕ → ℕ → ℕ) → ℕ → (ℕ → ℕ) → ℕ → ℕ → ℕ
put_table f t g t' i = if t' == t then g i else f t' i

abbrev pub put_entry : (ℕ → ℕ → ℕ) → ℕ → ℕ → ℕ → ℕ → ℕ → ℕ
put_entry f t i e t' i' = if t' == t && i' == i then e else f t' i'

-- `(*t).0[i] = e`.
unfoldable pub write : Mem → ℕ → ℕ → ℕ → Mem
write m t i e = record m { table = put_entry m.table t i e }

-- `ptr::write_bytes(phys_to_virt(phys), 0, PAGE_SIZE)`, on the bytes.
abbrev pub zero_bytes : (ℕ → ℕ) → ℕ → ℕ → ℕ
zero_bytes f phys a = if leb phys a && ltb a (phys + page_size) then 0 else f a

-- `pmm::alloc_frame_zeroed`. The frame is zeroed whether its bytes or its entries are read.
unfoldable pub alloc_zeroed : Mem → Option (ℕ × Mem)
alloc_zeroed m = elim (alloc_one m.pmm) [
  | none ↦ none
  | some (phys, p) ↦ some (
    phys,
    record m { table = put_table m.table phys (λ i. 0); bytes = zero_bytes m.bytes phys; pmm = p },
  )
]

unfoldable pub child_table : Mem → ℕ → ℕ → Option (ℕ × Mem)
unfolding alloc_zeroed write present huge frame_of
child_table m parent idx =
    let entry = m.table parent idx in
    let fresh : Option (ℕ × Mem) = elim (alloc_zeroed m) [
      | none ↦ none
      | some (phys, m1) ↦ some (phys, write m1 parent idx (phys + 7))
    ] in
    if present entry then if huge entry then none else some (frame_of entry, m) else fresh

-- The entries that the loops of `split_huge` and of `split_1g_huge` write.
unfoldable pub small_entry : ℕ → ℕ → ℕ
unfolding frame_2m flags_of pat_huge
small_entry entry i =
    if ltb i entries
    then frame_2m entry + i * page_size + (flags_of entry + (if pat_huge entry then 128 else 0))
    else 0

unfoldable pub medium_entry : ℕ → ℕ → ℕ
unfolding frame_1g flags_of pat_huge
medium_entry entry i =
    if ltb i entries
    then frame_1g entry
      + i * huge_2m
      + (flags_of entry + (if pat_huge entry then 4096 else 0))
      + 128
    else 0

-- The part that both have in common: a new table in place of the huge page.
unfoldable pub replace : Mem → ℕ → ℕ → (ℕ → ℕ) → Option Mem
unfolding alloc_zeroed write
replace m t idx new = elim (alloc_zeroed m) [
  | none ↦ none
  | some (phys, m1) ↦
      some (write (record m1 { table = put_table m1.table phys new }) t idx (phys + 7))
]

unfoldable pub split_huge : Mem → ℕ → ℕ → Option Mem
unfolding replace small_entry
split_huge m pd idx = replace m pd idx (small_entry (m.table pd idx))

unfoldable pub split_1g_huge : Mem → ℕ → ℕ → Option Mem
unfolding replace medium_entry
split_1g_huge m pdpt idx = replace m pdpt idx (medium_entry (m.table pdpt idx))

unfoldable pub pd_for : Mem → ℕ → ℕ → Option (ℕ × Mem)
unfolding split_1g_huge child_table index
pd_for m pdpt virt =
    let idx = index virt 1 in
    let entry = m.table pdpt idx in
    let split : Option (ℕ × Mem) = elim (split_1g_huge m pdpt idx) [
      | none ↦ none
      | some m1 ↦ child_table m1 pdpt idx
    ] in
    if present entry && huge entry then split else child_table m pdpt idx

unfoldable pub pt_for : Mem → ℕ → ℕ → Option (ℕ × Mem)
unfolding split_huge child_table index
pt_for m pd virt =
    let idx = index virt 2 in
    let entry = m.table pd idx in
    let split : Option (ℕ × Mem) = elim (split_huge m pd idx) [
      | none ↦ none
      | some m1 ↦ child_table m1 pd idx
    ] in
    if present entry && huge entry then split else child_table m pd idx

unfoldable pub map4k : Mem → ℕ → ℕ → ℕ → ℕ → Option Mem
unfolding child_table pd_for pt_for write frame_of
map4k m pml4 virt phys flags = elim (child_table m pml4 (index virt 0)) [
  | none ↦ none
  | some (pdpt, m1) ↦ elim (pd_for m1 pdpt virt) [
    | none ↦ none
    | some (pd, m2) ↦ elim (pt_for m2 pd virt) [
      | none ↦ none
      | some (pt, m3) ↦ some (write m3 pt (index virt 3) (frame_of phys + flags))
    ]
  ]
]

unfoldable pub map2m : Mem → ℕ → ℕ → ℕ → ℕ → Option Mem
unfolding child_table write frame_2m
map2m m pml4 virt phys flags = elim (child_table m pml4 (index virt 0)) [
  | none ↦ none
  | some (pdpt, m1) ↦ elim (child_table m1 pdpt (index virt 1)) [
    | none ↦ none
    | some (pd, m2) ↦
        let existing = m2.table pd (index virt 2) in
        if present existing && not (huge existing)
        then none
        else some (write m2 pd (index virt 2) (frame_2m phys + flags + 128))
  ]
]

-- The stages of `walk`, from the entry that each table has for `virt`.
unfoldable pub enter_pt : Mem → ℕ → ℕ → Option ℕ
enter_pt m e virt = if present e then some (frame_of e + virt % page_size) else none

unfoldable pub enter_pd : Mem → ℕ → ℕ → Option ℕ
unfolding enter_pt
enter_pd m e virt =
    if present e
    then if huge e
      then some (frame_2m e + virt % 0x20_0000)
      else enter_pt m (m.table (frame_of e) (index virt 3)) virt
    else none

unfoldable pub enter_pdpt : Mem → ℕ → ℕ → Option ℕ
unfolding enter_pd
enter_pdpt m e virt =
    if present e
    then if huge e
      then some (frame_1g e + virt % 0x4000_0000)
      else enter_pd m (m.table (frame_of e) (index virt 2)) virt
    else none

unfoldable pub enter_pml4 : Mem → ℕ → ℕ → Option ℕ
unfolding enter_pdpt
enter_pml4 m e virt =
    if present e then enter_pdpt m (m.table (frame_of e) (index virt 1)) virt else none

unfoldable pub walk : Mem → ℕ → ℕ → Option ℕ
unfolding enter_pml4
walk m pml4 virt = enter_pml4 m (m.table pml4 (index virt 0)) virt
