-- ===== src/Elf/Tests.antt =====
-- Images for src/elf.rs.
use eonos.Prelude.{ℕ, ◌≡◌, refl, List, [], ◌∷◌, ◌++◌, length, replicate, arith}
use eonos.Prelude.Results.{ok, err}
use eonos.Prelude.Vec.{any}
use eonos.Elf.{
  Segment, parse, too_short, writable_executable, bad_entry, is_writable, is_executable,
}
use eonos.Elf.Accept.{Accepted, parse-Accepted, Good}

-- A header, one program header with the flags, and four bytes of data, as the self-test of
-- src/process.rs builds them.
abbrev image : ℕ → ℕ → List ℕ
image entry_page flags =
    (0x7f ∷ 0x45 ∷ 0x4c ∷ 0x46 ∷ 2 ∷ 1 ∷ 1 ∷ [])
    ++ replicate 9 0
    ++ (2 ∷ 0 ∷ 62 ∷ 0 ∷ 1 ∷ 0 ∷ 0 ∷ 0 ∷ 0 ∷ 0 ∷ entry_page ∷ 0 ∷ 0 ∷ 0 ∷ 0 ∷ 0 ∷ 64 ∷ [])
    ++ replicate 19 0
    ++ (64 ∷ 0 ∷ 56 ∷ 0 ∷ 1 ∷ [])
    ++ replicate 7 0
    ++ (1 ∷ 0 ∷ 0 ∷ 0 ∷ flags ∷ 0 ∷ 0 ∷ 0 ∷ 120 ∷ [])
    ++ replicate 7 0
    ++ (0 ∷ 0 ∷ 0x40 ∷ [])
    ++ replicate 13 0
    ++ (4 ∷ [])
    ++ replicate 7 0
    ++ (0 ∷ 0x20 ∷ [])
    ++ replicate 14 0
    ++ (0xde ∷ 0xad ∷ 0xbe ∷ 0xef ∷ [])

image_size : length (image 0x40 5) ≡ 124
image_size = refl

abbrev only_segment : Segment
only_segment = record { vaddr = 0x40_0000; offset = 120; filesz = 4; memsz = 0x2000; flags = 5 }

parse_run : parse (image 0x40 5) ≡ ok (0x40_0000, only_segment ∷ [])
unfolding parse any
parse_run = refl

parse_writable : parse (image 0x40 7) ≡ err writable_executable
unfolding parse any
parse_writable = refl

parse_entry_outside : parse (image 0x50 5) ≡ err bad_entry
unfolding parse any
parse_entry_outside = refl

parse_short : parse (0x7f ∷ []) ≡ err too_short
unfolding parse
parse_short = refl

parse-Accepted_example : Accepted 124 0x40_0000 (only_segment ∷ [])
parse-Accepted_example = parse-Accepted (image 0x40 5) 0x40_0000 (only_segment ∷ []) parse_run

only_segment-Good : Good 124 only_segment
unfolding is_writable is_executable
only_segment-Good = record {
  above = omega arith;
  below = omega arith;
  nonempty = omega arith;
  file_part = omega arith;
  in_file = omega arith;
  wx = refl;
}
