-- ===== src/Vmm/Boot.antt =====
-- The kernel's own tables in src/vmm.rs: merging the ranges of memory, and mapping the direct map,
-- the sections of the kernel and the registers of devices. A loop has `fuel` rounds, and gives
-- `none` where they are used up, as where it panics.
pub mod Section
use eonos.Prelude.{
  ℕ, zero, suc, ◌+◌, ◌-◌, ◌*◌, ◌/◌, ◌%◌, ◌^◌, max, Bool, true, false, not, ◌&&◌, Option, none, some,
  if◌then◌else◌, ltb, leb, ◌==◌, List, [], ◌∷◌, length, get_or, set,
}
use eonos.Vmm.{Mem, map4k, map2m, page_size, huge_2m, kernel_rx, kernel_ro, kernel_rw, kernel_uc}
use eonos.Vmm.Leaf.{map_page, translate}

unfoldable pub align_up : ℕ → ℕ → ℕ
align_up v a = (v + a - 1) / a * a

unfoldable pub align_down : ℕ → ℕ → ℕ
align_down v a = v / a * a

-- The inner loop of the sort of `merge_ranges`: entry `j` goes down past the greater ones.
unfoldable pub sift : ℕ → List (ℕ × ℕ) → List (ℕ × ℕ)
sift zero r = r
sift (suc j) r =
    let a = get_or r j (0, 0) in
    let b = get_or r (suc j) (0, 0) in
    let rest = sift j (set (set r j b) (suc j) a) in if ltb b.0 a.0 then rest else r

unfoldable pub sort_from : ℕ → ℕ → List (ℕ × ℕ) → List (ℕ × ℕ)
unfolding sift
sort_from zero i r = r
sort_from (suc left) i r = sort_from left (i + 1) (sift i r)

-- The second loop: `i` reads, `out` writes.
unfoldable pub merge_from : ℕ → ℕ → ℕ → List (ℕ × ℕ) → List (ℕ × ℕ) × ℕ
merge_from zero i out r = (r, out)
merge_from (suc left) i out r =
    let a = get_or r i (0, 0) in
    let b = get_or r (out - 1) (0, 0) in
    let joined = merge_from left (i + 1) out (set r (out - 1) (b.0, max a.1 b.1)) in
    let own = merge_from left (i + 1) (out + 1) (set r out a) in
    if ltb 0 out && leb a.0 b.1 then joined else own

unfoldable pub merge_ranges : List (ℕ × ℕ) → List (ℕ × ℕ) × ℕ
unfolding sort_from merge_from
merge_ranges r = merge_from (length r) 0 0 (sort_from (length r - 1) 1 r)

unfoldable pub map_hhdm_range : ℕ → Mem → ℕ → ℕ → ℕ → ℕ → Option Mem
unfolding map2m map4k
map_hhdm_range zero m pml4 hhdm p end = none
map_hhdm_range (suc fuel) m pml4 hhdm p end =
    let big : Option Mem = elim (map2m m pml4 (hhdm + p) p kernel_rw) [
      | none ↦ none
      | some m1 ↦ map_hhdm_range fuel m1 pml4 hhdm (p + huge_2m) end
    ] in
    let one : Option Mem = elim (map4k m pml4 (hhdm + p) p kernel_rw) [
      | none ↦ none
      | some m1 ↦ map_hhdm_range fuel m1 pml4 hhdm (p + page_size) end
    ] in
    if ltb p end then if p % huge_2m == 0 && leb huge_2m (end - p) then big else one else some m

-- `to_phys` of `map_kernel_sections`, whose difference wraps.
unfoldable pub to_phys : ℕ → ℕ → ℕ → ℕ
to_phys kernel_phys kernel_virt v = (kernel_phys + (v + 2 ^ 64 - kernel_virt)) % 2 ^ 64

-- The loop of `map_section`.
unfoldable pub map_section_pages : ℕ → Mem → ℕ → ℕ → ℕ → ℕ → ℕ → ℕ → Option Mem
unfolding to_phys map4k
map_section_pages zero m pml4 kernel_phys kernel_virt v end flags = none
map_section_pages (suc fuel) m pml4 kernel_phys kernel_virt v end flags =
    let mapped : Option Mem = elim (map4k m pml4 v (to_phys kernel_phys kernel_virt v) flags) [
      | none ↦ none
      | some m1 ↦ map_section_pages fuel m1 pml4 kernel_phys kernel_virt (v + page_size) end flags
    ] in
    if ltb v end then mapped else some m

unfoldable pub map_section : Mem → ℕ → ℕ → ℕ → ℕ → ℕ → ℕ → Option Mem
unfolding map_section_pages align_up align_down
map_section m pml4 kernel_phys kernel_virt start end flags =
    let first = align_down start page_size in
    let last = align_up end page_size in
    map_section_pages (suc ((last - first) / page_size)) m pml4 kernel_phys kernel_virt first last
      flags

-- The bounds of the sections, which the linker script gives.
pub record Sections : Type 0 where
  pub text_start : ℕ
  pub text_end : ℕ
  pub rodata_start : ℕ
  pub rodata_end : ℕ
  pub data_start : ℕ
  pub data_end : ℕ

unfoldable pub map_kernel_sections : Mem → ℕ → ℕ → ℕ → Sections → Option Mem
unfolding map_section
map_kernel_sections m pml4 kernel_phys kernel_virt s =
    elim (map_section m pml4 kernel_phys kernel_virt s.text_start s.text_end kernel_rx) [
      | none ↦ none
      | some m1 ↦
          elim (map_section m1 pml4 kernel_phys kernel_virt s.rodata_start s.rodata_end kernel_ro) [
            | none ↦ none
            | some m2 ↦
                map_section m2 pml4 kernel_phys kernel_virt s.data_start s.data_end kernel_rw
          ]
    ]

-- The loop of `map_mmio`.
unfoldable pub map_mmio_pages : ℕ → Mem → Option ℕ → ℕ → ℕ → ℕ → Option Mem
unfolding translate map_page
map_mmio_pages zero m kernel hhdm p end = none
map_mmio_pages (suc fuel) m kernel hhdm p end =
    let virt = hhdm + p in
    let mapped : Option Mem = elim (map_page m kernel virt p kernel_uc) [
      | none ↦ none
      | some m1 ↦ map_mmio_pages fuel m1 kernel hhdm (p + page_size) end
    ] in
    let skipped = map_mmio_pages fuel m kernel hhdm (p + page_size) end in
    let page : Option Mem = elim (translate m kernel virt) [
      | none ↦ mapped
      | some phys ↦ skipped
    ] in
    if ltb p end then page else some m

unfoldable pub map_mmio : Mem → Option ℕ → ℕ → ℕ → ℕ → Option (ℕ × Mem)
unfolding map_mmio_pages
map_mmio m kernel hhdm phys len =
    let start = phys / page_size * page_size in
    let end = (phys + len + page_size - 1) / page_size * page_size in
    elim (map_mmio_pages (suc ((end - start) / page_size)) m kernel hhdm start end) [
      | none ↦ none
      | some m1 ↦ some (hhdm + phys, m1)
    ]
