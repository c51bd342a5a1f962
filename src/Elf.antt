-- ===== src/Elf.antt =====
-- The checks of the ELF loader, src/elf.rs: `ElfError`, `Segment`, `rd16`, `rd32`, `rd64`, `align_down`,
-- `align_up` and `parse`, whose parts between the comments are functions of their own.
-- An image is the list of its bytes. An index out of range, a panic in the source, reads 0 here. The
-- sums that `checked_add` guards are compared with 2^64; no other sum of `parse` reaches it.
pub mod Accept
pub mod Reject
mod Tests
use eonos.Prelude.{
  ℕ, zero, suc, ◌+◌, ◌-◌, ◌*◌, ◌/◌, ◌%◌, ◌^◌, List, [], ◌∷◌, ◌++◌, Bool, true, false, not, ◌&&◌,
  ◌||◌, if◌then◌else◌, ltb, leb, ◌==◌, length, get_or,
}
use eonos.Prelude.Results.{Result, ok, err}
use eonos.Prelude.Vec.{any}
use eonos.Prelude.Bytes.{rd}

pub data ElfError : Type 0 where
  too_short bad_magic not_elf64_le not_executable wrong_arch bad_header dynamic truncated : ElfError
  bad_segment too_many_segments overlap writable_executable too_large no_loadable : ElfError
  bad_entry no_memory : ElfError

pub record Segment : Type 0 where
  pub vaddr : ℕ
  pub offset : ℕ
  pub filesz : ℕ
  pub memsz : ℕ
  pub flags : ℕ

abbrev pub page_size : ℕ
page_size = 4096

abbrev pub load_min : ℕ
load_min = 0x1000

abbrev pub load_max : ℕ
load_max = 0x4000_0000_0000

abbrev pub max_segments : ℕ
max_segments = 16

abbrev pub max_phdrs : ℕ
max_phdrs = 64

abbrev pub max_pages : ℕ
max_pages = 16384

abbrev pub ehdr_size : ℕ
ehdr_size = 64

abbrev pub phdr_size : ℕ
phdr_size = 56

unfoldable pub align_down : ℕ → ℕ
align_down v = v / page_size * page_size

unfoldable pub align_up : ℕ → ℕ
align_up v = (v + page_size - 1) / page_size * page_size

unfoldable pub rd16 : List ℕ → ℕ → ℕ
unfolding rd
rd16 b o = rd 2 b o

unfoldable pub rd32 : List ℕ → ℕ → ℕ
unfolding rd
rd32 b o = rd 4 b o

unfoldable pub rd64 : List ℕ → ℕ → ℕ
unfolding rd
rd64 b o = rd 8 b o

-- `flags & PF_X != 0` and `flags & PF_W != 0`.
unfoldable pub is_executable : ℕ → Bool
is_executable flags = flags % 2 == 1

unfoldable pub is_writable : ℕ → Bool
is_writable flags = flags / 2 % 2 == 1

pub record Header : Type 0 where
  pub entry : ℕ
  pub phoff : ℕ
  pub phnum : ℕ

unfoldable pub is_elf : List ℕ → Bool
is_elf b =
    get_or b 0 0 == 0x7f && get_or b 1 0 == 0x45 && get_or b 2 0 == 0x4c && get_or b 3 0 == 0x46

unfoldable pub parse_header : List ℕ → Result ElfError Header
unfolding rd16 rd64 is_elf
parse_header b =
    let h : Header = record { entry = rd64 b 24; phoff = rd64 b 32; phnum = rd16 b 56 } in
    let table_end = h.phoff + h.phnum * phdr_size in
    if ltb (length b) ehdr_size
    then err too_short
    else (if not (is_elf b)
        then err bad_magic
        else (if not (get_or b 4 0 == 2) || not (get_or b 5 0 == 1)
            then err not_elf64_le
            else (if not (rd16 b 16 == 2)
                then err not_executable
                else (if not (rd16 b 18 == 62)
                    then err wrong_arch
                    else (if not (rd16 b 54 == phdr_size) || h.phnum == 0 || ltb max_phdrs h.phnum
                        then err bad_header
                        else (if leb (2 ^ 64) table_end
                            then err truncated
                            else (if ltb (length b) table_end then err truncated else ok h)))))))

-- The body of the loop over the program headers, on a `PT_LOAD` entry that is not empty: the
-- segments so far and their pages.
unfoldable pub check_segment : ℕ → Segment → List Segment × ℕ → Result ElfError (List Segment × ℕ)
unfolding align_up align_down is_writable is_executable
check_segment len s (segments, total) =
    let end = s.vaddr + s.memsz in
    let file_end = s.offset + s.filesz in
    let total' = total + (align_up end - align_down s.vaddr) / page_size in
    if ltb s.memsz s.filesz
    then err bad_segment
    else (if leb (2 ^ 64) end
        then err bad_segment
        else (if ltb s.vaddr load_min || ltb load_max end
            then err bad_segment
            else (if leb (2 ^ 64) file_end
                then err truncated
                else (if ltb len file_end
                    then err truncated
                    else (if is_writable s.flags && is_executable s.flags
                        then err writable_executable
                        else (if length segments == max_segments
                            then err too_many_segments
                            else (if ltb max_pages total'
                                then err too_large
                                else ok (segments ++ (s ∷ []), total'))))))))

unfoldable pub parse_phdr : List ℕ → ℕ → List Segment × ℕ → Result ElfError (List Segment × ℕ)
unfolding rd32 rd64 check_segment
parse_phdr b o st =
    let s : Segment = record {
      vaddr = rd64 b (o + 16);
      offset = rd64 b (o + 8);
      filesz = rd64 b (o + 32);
      memsz = rd64 b (o + 40);
      flags = rd32 b (o + 4);
    } in
    if rd32 b o == 3
    then err dynamic
    else (if not (rd32 b o == 1) || s.memsz == 0 then ok st else check_segment (length b) s st)

-- The loop: `n` headers are left, the next at `o`.
unfoldable pub parse_phdrs : ℕ → List ℕ → ℕ → List Segment × ℕ → Result ElfError (List Segment × ℕ)
unfolding parse_phdr
parse_phdrs zero b o st = ok st
parse_phdrs (suc n) b o st = elim (parse_phdr b o st) [
  | err e ↦ err e
  | ok st' ↦ parse_phdrs n b (o + phdr_size) st'
]

unfoldable pub overlaps : Segment → Segment → Bool
overlaps a b = ltb a.vaddr (b.vaddr + b.memsz) && ltb b.vaddr (a.vaddr + a.memsz)

-- The two nested loops over pairs of segments.
unfoldable pub any_overlap : List Segment → Bool
unfolding any overlaps
any_overlap [] = false
any_overlap (a ∷ rest) = any (overlaps a) rest || any_overlap rest

unfoldable pub contains_entry : ℕ → Segment → Bool
unfolding is_executable
contains_entry entry s = is_executable s.flags && leb s.vaddr entry && ltb entry (s.vaddr + s.memsz)

unfoldable pub is_empty : List Segment → Bool
is_empty [] = true
is_empty (s ∷ ss) = false

unfoldable pub check_image : ℕ → List Segment → Result ElfError (ℕ × List Segment)
unfolding any_overlap contains_entry any is_empty
check_image entry segments =
    if is_empty segments
    then err no_loadable
    else (if any_overlap segments
        then err overlap
        else (if not (any (contains_entry entry) segments)
            then err bad_entry
            else ok (entry, segments)))

unfoldable pub parse : List ℕ → Result ElfError (ℕ × List Segment)
unfolding parse_header parse_phdrs check_image
parse b = elim (parse_header b) [
  | err e ↦ err e
  | ok h ↦ elim (parse_phdrs h.phnum b h.phoff ([], 0)) [
    | err e ↦ err e
    | ok (segments, total) ↦ check_image h.entry segments
  ]
]
