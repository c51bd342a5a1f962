-- ===== src/Vmm/Create.antt =====
-- A new address space, and the end of one, in src/vmm.rs: `create_address_space`, and `Drop`, which
-- calls `free_user_half`. `left` is how many rounds of a loop over entries are left.
use eonos.Prelude.{ℕ, zero, suc, ◌+◌, not, ◌&&◌, Option, none, some, if◌then◌else◌, ltb, leb}
use eonos.Pmm.{free, ok, err}
use eonos.Vmm.{
  Mem, present, huge, frame_of, frame_1g, frame_2m, put_table, alloc_zeroed, entries,
  kernel_pml4_start,
}

-- `pmm::free_frame`, which only logs an error.
unfoldable pub free_frame : Mem → ℕ → Mem
free_frame m phys = elim (free m.pmm phys 1) [ ok p ↦ record m { pmm = p } | err e ↦ m ]

-- The part of the loop of `free_pt` from entry `i` on.
unfoldable pub free_pt_entries : ℕ → ℕ → Mem → ℕ → Mem
unfolding free_frame
free_pt_entries zero i m phys = m
free_pt_entries (suc left) i m phys =
    let e = m.table phys i in
    free_pt_entries left (i + 1) (if present e then free_frame m (frame_of e) else m) phys

unfoldable pub free_pt : Mem → ℕ → Mem
unfolding free_pt_entries
free_pt m phys = free_frame (free_pt_entries entries 0 m phys) phys

unfoldable pub free_pd_entries : ℕ → ℕ → Mem → ℕ → Mem
unfolding free_pt
free_pd_entries zero i m phys = m
free_pd_entries (suc left) i m phys =
    let e = m.table phys i in
    let m1 =
      if not (present e)
      then m
      else if huge e
      then free_frame m (frame_2m e)
      else free_pt m (frame_of e) in
    free_pd_entries left (i + 1) m1 phys

unfoldable pub free_pd : Mem → ℕ → Mem
unfolding free_pd_entries
free_pd m phys = free_frame (free_pd_entries entries 0 m phys) phys

unfoldable pub free_pdpt_entries : ℕ → ℕ → Mem → ℕ → Mem
unfolding free_pd
free_pdpt_entries zero i m phys = m
free_pdpt_entries (suc left) i m phys =
    let e = m.table phys i in
    let m1 =
      if not (present e)
      then m
      else if huge e
      then free_frame m (frame_1g e)
      else free_pd m (frame_of e) in
    free_pdpt_entries left (i + 1) m1 phys

unfoldable pub free_pdpt : Mem → ℕ → Mem
unfolding free_pdpt_entries
free_pdpt m phys = free_frame (free_pdpt_entries entries 0 m phys) phys

unfoldable pub free_pml4_entries : ℕ → ℕ → Mem → ℕ → Mem
unfolding free_pdpt
free_pml4_entries zero i m pml4 = m
free_pml4_entries (suc left) i m pml4 =
    let e = m.table pml4 i in
    free_pml4_entries left (i + 1) (if present e then free_pdpt m (frame_of e) else m) pml4

unfoldable pub free_user_half : Mem → ℕ → Mem
unfolding free_pml4_entries
free_user_half m pml4_phys =
    free_frame (free_pml4_entries kernel_pml4_start 0 m pml4_phys) pml4_phys

-- The entries that the copy of the kernel's half leaves, from the kernel's and the table's own.
abbrev pub copy_half : (ℕ → ℕ) → (ℕ → ℕ) → ℕ → ℕ
copy_half from to i = if leb kernel_pml4_start i && ltb i entries then from i else to i

-- `kernel` is what `VMM` holds.
unfoldable pub create_address_space : Mem → Option ℕ → Option (ℕ × Mem)
unfolding alloc_zeroed
create_address_space m kernel = elim kernel [
  | none ↦ none
  | some kernel_pml4 ↦ elim (alloc_zeroed m) [
    | none ↦ none
    | some (pml4_phys, m1) ↦ some (
      pml4_phys,
      record m1 {
        table =
            put_table m1.table pml4_phys (copy_half (m1.table kernel_pml4) (m1.table pml4_phys));
      },
    )
  ]
]
