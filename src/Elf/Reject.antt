-- ===== src/Elf/Reject.antt =====
-- The headers that `parse` of src/elf.rs checks, and the segments that it takes.
use eonos.Prelude.{
  ℕ, zero, suc, ◌+◌, ◌*◌, ◌^◌, ◌≤◌, ◌<◌, ◌≡◌, ◌≢◌, ap, sym, ◌∙◌, subst, List, [], ◌∷◌, ◌++◌, true,
  length, get_or, arith, inl, inr,
}
use eonos.Prelude.Results.{ok, Result-cases}
use eonos.Elf.{
  Segment, Header, phdr_size, max_segments, max_pages, rd16, rd32, rd64, parse_header,
  check_segment, parse_phdr, parse_phdrs, check_image, parse, is_elf,
}
use eonos.Elf.Accept.{Good, pages_of}

-- `check_segment` accepts every good segment while there is room for it, and adds it with its pages.
pub check_segment-Good :
    (len : ℕ) (s : Segment) (segments : List Segment) (total : ℕ)
    → Good len s
    → len < 2 ^ 64
    → length segments < max_segments
    → total + pages_of s ≤ max_pages
    → check_segment len s (segments, total) ≡ ok (segments ++ (s ∷ []), total + pages_of s)
unfolding check_segment pages_of
check_segment-Good len s segments total g small room fits =
    ground (arith, g.above, g.below, g.file_part, g.in_file, g.wx)

parse_phdrs-interp :
    (n : ℕ) (b : List ℕ) (o i : ℕ) (st st' : List Segment × ℕ)
    → i < n
    → parse_phdrs n b o st ≡ ok st'
    → rd32 b (o + i * phdr_size) ≢ 3
unfolding parse_phdrs parse_phdr
parse_phdrs-interp zero b o i st st' lt h = absurd (omega arith)
parse_phdrs-interp (suc n) b o zero st st' lt h = λ e. absurd (ground (arith, e))
parse_phdrs-interp (suc n) b o (suc i) st st' lt h = elim (Result-cases (parse_phdr b o st)) [
  | inl (e, x) ↦ absurd (ground (arith, x))
  | inr (mid, x) ↦ λ e.
      let at : o + 56 + i * 56 ≡ o + suc i * 56 = omega arith in
      parse_phdrs-interp n b (o + 56) i mid st' (omega arith) (ground (arith, x))
        (ap (rd32 b) at ∙ e)
]

-- What the headers of an accepted image say.
pub record Headed (b : List ℕ) (entry : ℕ) : Type 0 where
  pub long : 64 ≤ length b
  pub magic : is_elf b ≡ true
  pub class_64 : get_or b 4 0 ≡ 2
  pub little_endian : get_or b 5 0 ≡ 1
  pub executable : rd16 b 16 ≡ 2
  pub x86_64 : rd16 b 18 ≡ 62
  pub entry_size : rd16 b 54 ≡ phdr_size
  pub some_entry : 1 ≤ rd16 b 56
  pub few_entries : rd16 b 56 ≤ 64
  pub table : rd64 b 32 + rd16 b 56 * phdr_size ≤ length b
  pub entry_point : entry ≡ rd64 b 24
  pub static : (i : ℕ) → i < rd16 b 56 → rd32 b (rd64 b 32 + i * phdr_size) ≢ 3

header_of : List ℕ → Header
header_of b = record { entry = rd64 b 24; phoff = rd64 b 32; phnum = rd16 b 56 }

record Accepts (b : List ℕ) : Type 0 where
  long : 64 ≤ length b
  magic : is_elf b ≡ true
  class_64 : get_or b 4 0 ≡ 2
  little_endian : get_or b 5 0 ≡ 1
  executable : rd16 b 16 ≡ 2
  x86_64 : rd16 b 18 ≡ 62
  entry_size : rd16 b 54 ≡ phdr_size
  some_entry : 1 ≤ rd16 b 56
  few_entries : rd16 b 56 ≤ 64
  table : rd64 b 32 + rd16 b 56 * phdr_size ≤ length b

parse_header-Accepts :
    (b : List ℕ) (h : Header) → parse_header b ≡ ok h → Accepts b × (header_of b ≡ h)
unfolding parse_header header_of
parse_header-Accepts b h e = (
  record {
    long = ground arith;
    magic = ground arith;
    class_64 = ground arith;
    little_endian = ground arith;
    executable = ground arith;
    x86_64 = ground arith;
    entry_size = ground arith;
    some_entry = ground arith;
    few_entries = ground arith;
    table = ground arith;
  },
  ground arith,
)

check_image-entry :
    (entry entry' : ℕ) (l segments : List Segment)
    → check_image entry l ≡ ok (entry', segments)
    → entry ≡ entry'
unfolding check_image
check_image-entry entry entry' l segments h = ground arith

-- Every image that `parse` accepts is a static x86-64 executable: it has the ELF magic, class and
-- byte order, the type and machine that the loader supports, a program header table of 1 to 64
-- entries of the right size inside the file, no `PT_INTERP` in it, and the entry point returned is
-- the header's.
pub parse-Headed :
    (b : List ℕ) (entry : ℕ) (segments : List Segment)
    → parse b ≡ ok (entry, segments)
    → Headed b entry
unfolding parse header_of
parse-Headed b entry segments h = elim (Result-cases (parse_header b)) [
  | inl (e, x) ↦ absurd (ground (arith, x))
  | inr (hd, x) ↦ elim (Result-cases (parse_phdrs hd.phnum b hd.phoff ([], 0))) [
    | inl (e, y) ↦ absurd (ground (arith, x, y))
    | inr ((l, total), y) ↦
        let (a, same) = parse_header-Accepts b hd x in
        let start : hd.entry ≡ entry =
          check_image-entry hd.entry entry l segments (ground (arith, x, y)) in
        let loop : parse_phdrs (rd16 b 56) b (rd64 b 32) ([], 0) ≡ ok (l, total) =
          subst (λ g. parse_phdrs g.phnum b g.phoff ([], 0) ≡ ok (l, total)) (sym same) y in
        record {
          long = a.long;
          magic = a.magic;
          class_64 = a.class_64;
          little_endian = a.little_endian;
          executable = a.executable;
          x86_64 = a.x86_64;
          entry_size = a.entry_size;
          some_entry = a.some_entry;
          few_entries = a.few_entries;
          table = a.table;
          entry_point = sym start ∙ sym (ap (λ g. g.entry) same);
          static =
              λ i lt. parse_phdrs-interp (rd16 b 56) b (rd64 b 32) i ([], 0) (l, total) lt loop;
        }
  ]
]
