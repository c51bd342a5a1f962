-- ===== src/Vmm/Tests.antt =====
-- Runs of the page tables on a memory with a page of 1 GiB, and an instance of each theorem.
use eonos.Prelude.{
  ℕ, ◌+◌, ◌-◌, ◌*◌, ◌/◌, ◌%◌, ◌^◌, ◌≤◌, ◌<◌, ◌⊎◌, ◌&&◌, ◌||◌, true, false, ◌≡◌, ◌≢◌, refl, [], ◌∷◌,
  arith, some, none, if◌then◌else◌, ◌==◌, ℕ_discrete, List, length,
}
use eonos.Pmm.Tests.{machine, machine-Valid}
use eonos.Pmm.Valid.{Valid}
use eonos.Pmm.Bits.{test_bit}
use eonos.Vmm.{
  Mem, present, huge, frame_of, walk, map4k, index, enter_pml4, enter_pdpt, frame_1g, kernel_rw,
  kernel_ro, kernel_rx, kernel_wc, kernel_uc, user_rw, user, writable, kernel_pml4_start,
  user_space_end, page_size,
}
use eonos.Vmm.Entry.{IsFlags}
use eonos.Vmm.Map.{Remapped, map4k-maps}
use eonos.Vmm.Page.{page_of}
use eonos.Vmm.Leaf.{unmap_page, protect_page}
use eonos.Vmm.Leaf.Space
use eonos.Vmm.Change.{Absent, Removed, Protected, unmap_page-removes, protect_page-Protected}
use eonos.Vmm.Round.{unmap-map}
use eonos.Vmm.User.{
  user_leaf, walk_user, walk_user_write, walk_for, validate_user_range, validate_pages,
  copy_from_user, copy_in, copy_to_user, chunk,
}
use eonos.Vmm.User.Range.{Accessible, walk_for-walk, validate_user_range-cases}
use eonos.Vmm.User.Copy.{read_user, write_user, copy_from_user-bytes, copy_to_user-bytes}
use eonos.Vmm.Create.{create_address_space, free_user_half}
use eonos.Vmm.Apart.{create_address_space-shares, free_user_half-create}
use eonos.Vmm.Boot.{map_section, align_up, align_down, merge_ranges, sort_from, sift, merge_from}
use eonos.Vmm.Boot.Section.{MappedRange, map_section-maps}
use eonos.Vmm.Tree.{Level, pml4, pdpt, Place, Tree}

-- The root at frame 1 has one table, at frame 2, and that has a page of 1 GiB.
abbrev tables : ℕ → ℕ → ℕ
tables t i =
    if t == 4096 && i == 0
    then 8192 + 7
    else if t == 8192 && i == 0
    then 0x4000_0000 + 128 + 3
    else 0

abbrev pub places : Place
places t = if t == 4096 then some (pml4, 0) else if t == 8192 then some (pdpt, 0) else none

abbrev pub memory : Mem
memory = record { table = tables; bytes = λ a. a % 256; pmm = machine }

pub memory-Tree : Tree 4096 places memory
unfolding present huge frame_of test_bit
memory-Tree = record {
  at_root = refl;
  no_huge = λ i h p. ground arith;
  below_pml4 = λ i h p. ground arith;
  below_pdpt = λ t v i h k p g. ground arith;
  below_pd = λ t v i h k p g. ground arith;
  only_root = λ t v h. ground arith;
  taken = λ t p h. elim (ℕ_discrete t 4096) [
    | yes e ↦ (1, e, refl, omega arith)
    | no n ↦ elim (ℕ_discrete t 8192) [
      | yes e ↦ (2, e, refl, omega arith)
      | no k ↦ absurd (ground (arith, h, n, k))
    ]
  ];
  valid = machine-Valid;
  small = omega arith;
}

walk_huge : walk memory 4096 0x12345 ≡ some 0x40012345
unfolding walk enter_pml4 enter_pdpt index present huge frame_of frame_1g
walk_huge = refl

rw_IsFlags : IsFlags kernel_rw
rw_IsFlags = record {
  low = 1;
  mid = 0;
  high = 2048;
  parts = refl;
  few = omega arith;
  mid_few = omega arith;
}

map4k-maps_example :
    (m' : Mem) × (map4k memory 4096 0x12000 0x9000 kernel_rw ≡ some m')
    × Remapped 4096 memory m' 0x12000 (some (frame_of 0x9000))
map4k-maps_example =
    map4k-maps 4096 places memory memory-Tree 0x12000 0x9000 kernel_rw rw_IsFlags (omega arith)

unmap_page-removes_example :
    (m' : Mem) × ((unmap_page memory (some 4096) 0x12345 ≡ some (m', none))
        × Absent 4096 memory m' 0x12345
      ⊎ (phys : ℕ) × (unmap_page memory (some 4096) 0x12345 ≡ some (m', some phys))
        × Removed 4096 memory m' 0x12345 phys)
unmap_page-removes_example = unmap_page-removes 4096 places memory memory-Tree 0x12345 (omega arith)

protect_page-Protected_example :
    ((kernel_ro == kernel_rx
          || kernel_ro == kernel_ro
          || kernel_ro == kernel_rw
          || kernel_ro == kernel_wc
          || kernel_ro == kernel_uc)
        ≡ false)
      × (protect_page memory (some 4096) 0x12345 kernel_ro ≡ some (memory, false))
    ⊎ ((kernel_ro == kernel_rx
          || kernel_ro == kernel_ro
          || kernel_ro == kernel_rw
          || kernel_ro == kernel_wc
          || kernel_ro == kernel_uc)
        ≡ true)
      × (m' : Mem) × ((protect_page memory (some 4096) 0x12345 kernel_ro ≡ some (m', false))
            × Absent 4096 memory m' 0x12345
          ⊎ (protect_page memory (some 4096) 0x12345 kernel_ro ≡ some (m', true))
            × Protected 4096 memory m' 0x12345 kernel_ro)
protect_page-Protected_example =
    protect_page-Protected 4096 places memory memory-Tree 0x12345 kernel_ro (omega arith)

-- Above the page of 1 GiB nothing is mapped.
user_absent : Space.lookup memory 4096 0x4000_0000 ≡ none
unfolding Space.lookup walk enter_pml4 enter_pdpt index present huge frame_of frame_1g
user_absent = refl

user_rw_allowed : Space.user_flags user_rw ≡ true
unfolding Space.user_flags
user_rw_allowed = refl

unmap-map_example :
    (m1 : Mem) × (m2 : Mem) × (Space.map memory 4096 0x4000_0000 0x9000 user_rw ≡ some m1)
    × (Space.lookup m1 4096 0x4000_0000 ≡ some 0x9000)
    × (Space.unmap m1 4096 0x4000_0000 ≡ some (m2, some 0x9000))
    × (Space.lookup m2 4096 0x4000_0000 ≡ none)
    × ((virt' : ℕ)
        → page_of virt' ≢ page_of 0x4000_0000
        → Space.lookup m2 4096 virt' ≡ Space.lookup memory 4096 virt')
unmap-map_example =
    unmap-map 4096 places memory memory-Tree 0x4000_0000 0x9000 user_rw (omega arith) (omega arith)
      (omega arith) (omega arith) user_rw_allowed user_absent (omega arith)

-- Two pages of a process, at frames 5 and 9; the second is only for reading.
abbrev process_tables : ℕ → ℕ → ℕ
process_tables t i =
    if t == 4096 && i == 0
    then 8192 + 7
    else if t == 8192 && i == 0
    then 12288 + 7
    else if t == 12288 && i == 0
    then 16384 + 7
    else if t == 16384 && i == 0
    then 0x5000 + 7
    else if t == 16384 && i == 1
    then 0x9000 + 5
    else 0

abbrev process_memory : Mem
process_memory = record { table = process_tables; bytes = λ a. a % 256; pmm = machine }

copy_runs : copy_from_user process_memory 4096 4 4094 ≡ some (true, 254 ∷ 255 ∷ 0 ∷ 1 ∷ [])
unfolding copy_from_user copy_in validate_user_range validate_pages walk_for walk_user user_leaf
    chunk index present user huge frame_of
copy_runs = refl

copy_refused : copy_to_user process_memory 4096 4094 (1 ∷ 2 ∷ 3 ∷ []) ≡ some (false, process_memory)
unfolding copy_to_user validate_user_range validate_pages walk_for walk_user_write user_leaf index
    present user writable huge frame_of
copy_refused = refl

read_walks : walk_for false process_memory 4096 4098 ≡ some 0x9002
unfolding walk_for walk_user user_leaf index present user huge frame_of
read_walks = refl

walk_for-walk_example : walk process_memory 4096 4098 ≡ some 0x9002
walk_for-walk_example = walk_for-walk false process_memory 4096 4098 0x9002 read_walks

abbrev span : ℕ
span = 4

validate_user_range-cases_example :
    ((validate_user_range process_memory 4096 4094 span true ≡ some true)
      × ((span ≡ 0)
          ⊎ ((4094 + span ≤ user_space_end)
              × ((at : ℕ)
                  → 4094 ≤ at
                  → at < 4094 + span
                  → Accessible true process_memory 4096 at))))
    ⊎ ((validate_user_range process_memory 4096 4094 span true ≡ some false)
        × (0 < span)
        × ((user_space_end < 4094 + span)
            ⊎ ((at : ℕ) × (4094 ≤ at)
                × (at < 4094 + span)
                × (¬ Accessible true process_memory 4096 at))))
validate_user_range-cases_example = validate_user_range-cases process_memory 4096 4094 span true

copy_from_user-bytes_example :
    ((copy_from_user process_memory 4096 4 4094 ≡ some (true, read_user process_memory 4096 4094 4))
      × (validate_user_range process_memory 4096 4094 4 false ≡ some true))
    ⊎ ((copy_from_user process_memory 4096 4 4094 ≡ some (false, []))
        × (validate_user_range process_memory 4096 4094 4 false ≡ some false))
copy_from_user-bytes_example = copy_from_user-bytes process_memory 4096 4 4094

abbrev message : List ℕ
message = 1 ∷ 2 ∷ 3 ∷ []

copy_to_user-bytes_example :
    ((copy_to_user process_memory 4096 4000 message
        ≡ some (true, write_user process_memory 4096 4000 message))
      × (validate_user_range process_memory 4096 4000 (length message) true ≡ some true))
    ⊎ ((copy_to_user process_memory 4096 4000 message ≡ some (false, process_memory))
        × (validate_user_range process_memory 4096 4000 (length message) true ≡ some false))
copy_to_user-bytes_example = copy_to_user-bytes process_memory 4096 4000 message

create_address_space-shares_example :
    (space : ℕ) × (m' : Mem) × (create_address_space memory (some 4096) ≡ some (space, m'))
    × ((virt : ℕ) → virt < user_space_end → walk m' space virt ≡ none)
    × ((virt : ℕ) → kernel_pml4_start ≤ index virt 0 → walk m' space virt ≡ walk memory 4096 virt)
    × ((virt : ℕ) → walk m' 4096 virt ≡ walk memory 4096 virt)
create_address_space-shares_example =
    create_address_space-shares 4096 places memory memory-Tree (omega arith)

free_user_half-create_example :
    (space : ℕ) × (m1 : Mem) × (m2 : Mem) × (create_address_space memory (some 4096)
      ≡ some (space, m1))
    × (free_user_half m1 space ≡ m2)
    × Valid m2.pmm
    × (m2.pmm.free_frames ≡ memory.pmm.free_frames)
    × ((j : ℕ) → test_bit m2.pmm.bitmap j ≡ test_bit memory.pmm.bitmap j)
    × ((t i : ℕ) (p : Level × ℕ) → places t ≡ some p → m2.table t i ≡ memory.table t i)
    × ((virt : ℕ) → walk m2 4096 virt ≡ walk memory 4096 virt)
free_user_half-create_example = free_user_half-create 4096 places memory memory-Tree (omega arith)

-- A section of three pages, above an image at 0xffff_ffff_8000_0000.
section_top : align_up 0xffff_ffff_8000_3800 page_size < 2 ^ 64
unfolding align_up
section_top = omega arith

section_near :
    align_up 0xffff_ffff_8000_3800 page_size < align_down 0xffff_ffff_8000_1200 page_size + 2 ^ 48
unfolding align_up align_down
section_near = omega arith

section_fits :
    0x20_0000 + (align_up 0xffff_ffff_8000_3800 page_size - 0xffff_ffff_8000_0000)
    < 0x10_0000_0000_0000
unfolding align_up
section_fits = omega arith

section_frames :
    3
      * ((align_up 0xffff_ffff_8000_3800 page_size - align_down 0xffff_ffff_8000_1200 page_size)
          / page_size)
    ≤ memory.pmm.free_frames
unfolding align_up align_down
section_frames = omega arith

map_section-maps_example :
    (m' : Mem) × (map_section memory 4096 0x20_0000 0xffff_ffff_8000_0000 0xffff_ffff_8000_1200
        0xffff_ffff_8000_3800 kernel_rw
      ≡ some m')
    × MappedRange 4096 memory m' 0x20_0000 0xffff_ffff_8000_0000
        (align_down 0xffff_ffff_8000_1200 page_size)
        (align_up 0xffff_ffff_8000_3800 page_size)
map_section-maps_example =
    map_section-maps 4096 0x20_0000 0xffff_ffff_8000_0000 0xffff_ffff_8000_1200
      0xffff_ffff_8000_3800 kernel_rw places memory memory-Tree rw_IsFlags (omega arith)
      (omega arith) (omega arith) (omega arith) section_near section_top section_fits section_frames

merge_runs :
    merge_ranges ((9, 12) ∷ (0, 4) ∷ (4, 6) ∷ (10, 11) ∷ [])
    ≡ ((0, 6) ∷ (9, 12) ∷ (9, 12) ∷ (10, 11) ∷ [], 2)
unfolding merge_ranges sort_from sift merge_from
merge_runs = refl
