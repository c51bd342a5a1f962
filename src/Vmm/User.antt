-- ===== src/Vmm/User.antt =====
-- User memory in src/vmm.rs: the walks for an access of a process, the check of a range, and the
-- copies from and to a range. `cr3` is what `current_cr3` returns. A loop has `fuel` rounds, and
-- gives `none` where they are used up; otherwise it gives what the function returns, and what has
-- been copied by then.
pub mod Range
pub mod Copy
use eonos.Prelude.{
  ℕ, zero, suc, ◌+◌, ◌-◌, ◌*◌, ◌/◌, ◌%◌, ◌^◌, min, Bool, true, false, not, ◌&&◌, ◌||◌, Option, none,
  some, if◌then◌else◌, ltb, leb, ◌==◌, List, [], ◌∷◌, ◌++◌, length, take, drop,
}
use eonos.Vmm.{Mem, present, writable, user, huge, frame_of, index, page_size, user_space_end}

-- The leaf for `virt`, where the three entries before it let a process pass. Both walks begin with
-- this.
unfoldable pub user_leaf : Mem → ℕ → ℕ → Option ℕ
user_leaf m pml4 virt =
    let e0 = m.table pml4 (index virt 0) in
    let e1 = m.table (frame_of e0) (index virt 1) in
    let e2 = m.table (frame_of e1) (index virt 2) in
    if not (present e0 && user e0)
    then none
    else if not (present e1 && user e1) || huge e1
    then none
    else if not (present e2 && user e2) || huge e2
    then none
    else some (m.table (frame_of e2) (index virt 3))

unfoldable pub walk_user : Mem → ℕ → ℕ → Option ℕ
unfolding user_leaf
walk_user m pml4 virt = elim (user_leaf m pml4 virt) [
  | none ↦ none
  | some leaf ↦
      if not (present leaf && user leaf) then none else some (frame_of leaf + virt % page_size)
]

unfoldable pub walk_user_write : Mem → ℕ → ℕ → Option ℕ
unfolding user_leaf
walk_user_write m pml4 virt = elim (user_leaf m pml4 virt) [
  | none ↦ none
  | some leaf ↦
      if not (present leaf && user leaf && writable leaf)
      then none
      else some (frame_of leaf + virt % page_size)
]

-- `if write { walk_user_write(..) } else { walk_user(..) }`.
unfoldable pub walk_for : Bool → Mem → ℕ → ℕ → Option ℕ
unfolding walk_user walk_user_write
walk_for write m cr3 virt = if write then walk_user_write m cr3 virt else walk_user m cr3 virt

-- The loop of `validate_user_range`, from `va` on.
unfoldable pub validate_pages : ℕ → Mem → ℕ → ℕ → ℕ → Bool → Option Bool
unfolding walk_for
validate_pages zero m cr3 va end write = none
validate_pages (suc fuel) m cr3 va end write =
    let next_page = min (va / page_size * page_size + page_size) (2 ^ 64 - 1) in
    let rest = validate_pages fuel m cr3 (min next_page end) end write in
    let mapped : Option Bool = elim (walk_for write m cr3 va) [
      | none ↦ some false
      | some phys ↦ if leb next_page va then some false else rest
    ] in
    if ltb va end then mapped else some true

unfoldable pub validate_user_range : Mem → ℕ → ℕ → ℕ → Bool → Option Bool
unfolding validate_pages
validate_user_range m cr3 addr len write =
    let end = addr + len in
    let checked = validate_pages (suc len) m cr3 addr end write in
    if len == 0
    then some true
    else if leb (2 ^ 64) end
    then some false
    else if leb user_space_end addr || ltb user_space_end end
    then some false
    else checked

-- `copy_nonoverlapping`, out of and into the frames.
abbrev pub read_bytes : Mem → ℕ → ℕ → List ℕ
read_bytes m phys zero = []
read_bytes m phys (suc n) = m.bytes phys ∷ read_bytes m (phys + 1) n

abbrev pub put_byte : Mem → ℕ → ℕ → Mem
put_byte m phys b = record m { bytes = λ a. if a == phys then b else m.bytes a }

abbrev pub write_bytes : Mem → ℕ → List ℕ → Mem
write_bytes m phys [] = m
write_bytes m phys (b ∷ bs) = write_bytes (put_byte m phys b) (phys + 1) bs

-- How many bytes a round copies, of `left`.
unfoldable pub chunk : ℕ → ℕ → ℕ
chunk va left = min left (page_size - va % page_size)

-- The loop of `copy_from_user`, where `left` bytes are left and `dst` is the part that is filled.
unfoldable pub copy_in : ℕ → Mem → ℕ → ℕ → ℕ → List ℕ → Option (Bool × List ℕ)
unfolding walk_user chunk
copy_in zero m cr3 va left dst = none
copy_in (suc fuel) m cr3 va left dst =
    let n = chunk va left in
    let copied : Option (Bool × List ℕ) = elim (walk_user m cr3 va) [
      | none ↦ some (false, dst)
      | some phys ↦ copy_in fuel m cr3 (va + n) (left - n) (dst ++ read_bytes m phys n)
    ] in
    if ltb 0 left then copied else some (true, dst)

unfoldable pub copy_from_user : Mem → ℕ → ℕ → ℕ → Option (Bool × List ℕ)
unfolding validate_user_range copy_in
copy_from_user m cr3 len src = elim (validate_user_range m cr3 src len false) [
  | none ↦ none
  | some valid ↦ if valid then copy_in (suc len) m cr3 src len [] else some (false, [])
]

-- The loop of `copy_to_user`, where `src` is the part that is not copied yet.
unfoldable pub copy_out : ℕ → Mem → ℕ → ℕ → List ℕ → Option (Bool × Mem)
unfolding walk_user_write chunk
copy_out zero m cr3 va src = none
copy_out (suc fuel) m cr3 va src =
    let n = chunk va (length src) in
    let copied : Option (Bool × Mem) = elim (walk_user_write m cr3 va) [
      | none ↦ some (false, m)
      | some phys ↦ copy_out fuel (write_bytes m phys (take n src)) cr3 (va + n) (drop n src)
    ] in
    if ltb 0 (length src) then copied else some (true, m)

unfoldable pub copy_to_user : Mem → ℕ → ℕ → List ℕ → Option (Bool × Mem)
unfolding validate_user_range copy_out
copy_to_user m cr3 dst src = elim (validate_user_range m cr3 dst (length src) true) [
  | none ↦ none
  | some valid ↦ if valid then copy_out (suc (length src)) m cr3 dst src else some (false, m)
]
