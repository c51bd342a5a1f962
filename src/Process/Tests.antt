-- ===== src/Process/Tests.antt =====
-- Runs of the process table and of the stack builder of src/process.rs, and the theorems at concrete
-- inputs.
use eonos.Prelude.{ℕ, ◌≡◌, refl, List, [], ◌∷◌, some}
use eonos.Process.{
  Record, register, exit_current, reaped, no_child, take_child_exit_status, Write, write_words,
}
use eonos.Process.Table.{Unique}
use eonos.Process.Reap.{Table, empty, registered, left, Table-Unique}

-- Process 4 is a child of 3, which is a child of 0.
abbrev family : List Record
family = register 4 3 (0x2f ∷ []) (register 3 0 (0x2f ∷ []) [])

family-Table : Table family
family-Table = registered 4 3 (0x2f ∷ []) (registered 3 0 (0x2f ∷ []) empty)

Table-Unique_example : Unique (exit_current 4 17 family)
Table-Unique_example = Table-Unique (left 4 17 family-Table)

reap_run :
    take_child_exit_status 3 0 (exit_current 4 17 family)
    ≡ some (reaped 4 17, register 3 0 (0x2f ∷ []) [])
unfolding take_child_exit_status exit_current register
reap_run = refl

childless_run : take_child_exit_status 4 0 family ≡ some (no_child, family)
unfolding take_child_exit_status register
childless_run = refl

-- One argument of two bytes.
abbrev words_of_hi : List ℕ
words_of_hi = 1 ∷ 0x7fff_ffff_effd ∷ 0 ∷ 0 ∷ 0 ∷ 0 ∷ []

abbrev writes_of_hi : List Write
writes_of_hi = record { at = 0x7fff_ffff_effd; size = 2 } ∷ write_words 0x7fff_ffff_efc0 words_of_hi
