-- ===== src/Pmm/Bits.antt =====
-- The bitmap of src/pmm.rs: `test_bit`, `set_bit`, `clear_bit`, `fill_range`.
-- A `u64` is read as the list of its 64 bits, lowest first, so `1u64 << (i % 64)` is the place
-- `i % 64`, `!0u64` is `replicate 64 true`. The code never reads or writes outside the bitmap where
-- the invariant of `Pmm.Valid` holds; here such a read gives `true` and such a write does nothing.
pub mod Fill
use eonos.Prelude.{
  ℕ, zero, suc, ◌+◌, ◌-◌, ◌/◌, ◌%◌, List, [], Bool, true, false, not, ◌&&◌, get_or, set, replicate,
  length, All, ◌≡◌, if◌then◌else◌, leb, ◌==◌,
}

abbrev pub Word : Type 0
Word = List Bool

abbrev pub Bitmap : Type 0
Bitmap = List Word

abbrev pub full_word : Word
full_word = replicate 64 true

abbrev pub zero_word : Word
zero_word = replicate 64 false

unfoldable pub test_bit : Bitmap → ℕ → Bool
test_bit bm i = get_or (get_or bm (i / 64) []) (i % 64) true

unfoldable pub set_bit : Bitmap → ℕ → Bitmap
set_bit bm i = set bm (i / 64) (set (get_or bm (i / 64) []) (i % 64) true)

unfoldable pub clear_bit : Bitmap → ℕ → Bitmap
clear_bit bm i = set bm (i / 64) (set (get_or bm (i / 64) []) (i % 64) false)

-- the branch that both bit-wise loops of `fill_range` share
unfoldable pub write_bit : Bool → Bitmap → ℕ → Bitmap
unfolding set_bit clear_bit
write_bit used bm i = if used then set_bit bm i else clear_bit bm i

-- `while count > 0 && first % 64 != 0`: the bitmap, `first` and `count` after the loop
unfoldable pub fill_head : Bool → Bitmap → ℕ → ℕ → Bitmap × ℕ × ℕ
fill_head used bm first zero = (bm, first, 0)
fill_head used bm first (suc count) =
    let rest = fill_head used (write_bit used bm first) (first + 1) count in
    if first % 64 == 0 then (bm, first, suc count) else rest

-- `while count >= 64`, on fuel
unfoldable pub fill_words : ℕ → Bool → Bitmap → ℕ → ℕ → Bitmap × ℕ × ℕ
fill_words zero used bm first count = (bm, first, count)
fill_words (suc fuel) used bm first count =
    let rest =
      fill_words fuel used (set bm (first / 64) (if used then full_word else zero_word))
        (first + 64) (count - 64) in
    if leb 64 count then rest else (bm, first, count)

-- `while count > 0`
unfoldable pub fill_tail : Bool → Bitmap → ℕ → ℕ → Bitmap
fill_tail used bm first zero = bm
fill_tail used bm first (suc count) = fill_tail used (write_bit used bm first) (first + 1) count

-- Each round of the middle loop takes 64 off `count`, so `count` rounds are enough.
unfoldable pub fill_range : Bitmap → ℕ → ℕ → Bool → Bitmap
fill_range bm first count used =
    let (bm1, first1, count1) = fill_head used bm first count in
    let (bm2, first2, count2) = fill_words count1 used bm1 first1 count1 in
    fill_tail used bm2 first2 count2

-- Every word has its 64 bits.
abbrev pub IsWords : Bitmap → Type 0
IsWords = All (λ w. length w ≡ 64)
