-- ===== src/Process/Stack.antt =====
-- The initial user stack that `build_stack` of src/process.rs lays out.
use eonos.Prelude.{ℕ, ◌+◌, ◌-◌, ◌*◌, ◌/◌, ◌%◌, ◌≤◌, ◌≡◌, List, [], ◌++◌, some, length, All}
use mathlib.Core.List.{reverse}
use eonos.Process.{Write, page_size, user_stack_top, push_strings, write_words}

-- A write between two addresses.
abbrev pub Within : ℕ → ℕ → Write → Type 0
Within lo hi w = (lo ≤ w.at) × (w.at + w.size ≤ hi)

-- What the loop over the strings does to the cursor, the pointers and the writes.
record Pushed (cursor : ℕ) (ptrs : List ℕ) (n c : ℕ) (ps : List ℕ) (ws : List Write) : Type 0 where
  below : c ≤ cursor
  in_page : user_stack_top - page_size ≤ c
  within : All (Within c user_stack_top) ws
  count : length ps ≡ length ptrs + n

-- What `build_stack` leaves: the stack pointer is on a 16-byte boundary, the words stand from it
-- upwards, every string lies above them, and nothing leaves the topmost page.
pub record LaidOut (sp : ℕ) (words : List ℕ) (ws : List Write) : Type 0 where
  pub is_aligned : sp % 16 ≡ 0
  pub strings : List Write
  pub writes : ws ≡ strings ++ write_words sp words
  pub above : All (Within (sp + length words * 8) user_stack_top) strings
  pub in_page : All (Within (user_stack_top - page_size) user_stack_top) ws

-- The two rounds of the loop and the words that a `build_stack` that returns has gone through.
record Built (argv env : List (List ℕ)) (sp : ℕ) (words : List ℕ) (ws : List Write) : Type 0 where
  c1 : ℕ
  p1 : List ℕ
  w1 : List Write
  first : push_strings (reverse argv) user_stack_top [] [] ≡ some (c1, p1, w1)
  c2 : ℕ
  p2 : List ℕ
  w2 : List Write
  second : push_strings (reverse env) c1 [] w1 ≡ some (c2, p2, w2)
  fits : length words * 8 ≤ c2
  at : sp ≡ (c2 - length words * 8) / 16 * 16
  page : user_stack_top - page_size ≤ sp
  writes : ws ≡ w2 ++ write_words sp words
