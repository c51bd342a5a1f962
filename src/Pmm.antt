-- ===== src/Pmm.antt =====
-- The physical frame allocator, src/pmm.rs: `Kind`, `Region`, `FreeError`, `Pmm` and its methods
-- `alloc_one`, `alloc_contiguous`, `free`. A method that changes `self` returns the new state;
-- where it returns `None` or an error it has changed nothing. `region_count` is the length of
-- `regions`. Frame numbers stay below 2^52, so no product with the page size wraps.
pub mod Bits
pub mod Valid
pub mod Alloc
pub mod Run
pub mod Free
pub mod Tests
use mathlib.Core.Option
use eonos.Prelude.{
  ℕ, zero, suc, ◌+◌, ◌-◌, ◌*◌, ◌/◌, ◌%◌, ◌^◌, min, List, [], ◌∷◌, Bool, true, false, not, ◌&&◌,
  ◌||◌, Option, none, some, get_or, set, if◌then◌else◌, ltb, leb, ◌==◌,
}
use Bits.{Word, Bitmap, test_bit, fill_range}

abbrev pub page_size : ℕ
page_size = 4096

pub data Kind : Type 0 where
  usable reserved acpi_reclaimable acpi_nvs bad_memory bootloader_reclaimable : Kind
  kernel_and_modules framebuffer unknown : Kind

pub record Region : Type 0 where
  pub base : ℕ
  pub len : ℕ
  pub kind : Kind

pub data FreeError : Type 0 where
  not_initialized unaligned out_of_range not_allocated : FreeError

pub record Pmm : Type 0 where
  pub bitmap : Bitmap
  pub bitmap_words : ℕ
  pub total_frames : ℕ
  pub free_frames : ℕ
  pub usable_frames : ℕ
  pub next_hint : ℕ
  pub regions : List Region

-- `word == !0u64`
unfoldable pub is_full : Word → Bool
is_full [] = true
is_full (b ∷ w) = b && is_full w

-- `(!word).trailing_zeros()`
unfoldable pub first_clear : Word → ℕ
first_clear [] = 0
first_clear (b ∷ w) = if b then suc (first_clear w) else 0

-- The rounds of `alloc_one`'s loop that are left, and `n`.
unfoldable pub alloc_scan : ℕ → ℕ → Pmm → Option (ℕ × Pmm)
unfolding is_full first_clear
alloc_scan zero n p = none
alloc_scan (suc left) n p =
    let w = (p.next_hint + n) % p.bitmap_words in
    let word = get_or p.bitmap w [] in
    let bit = first_clear word in
    let rest = alloc_scan left (n + 1) p in
    if is_full word
    then rest
    else some (
      (w * 64 + bit) * page_size,
      record p {
        bitmap = set p.bitmap w (set word bit true);
        free_frames = p.free_frames - 1;
        next_hint = w;
      },
    )

unfoldable pub alloc_one : Pmm → Option (ℕ × Pmm)
alloc_one p = if p.free_frames == 0 then none else alloc_scan p.bitmap_words 0 p

-- The search of `alloc_contiguous`: where a run of `count` clear frames starts. `frame` grows in
-- each round, so `total_frames` rounds and one more are enough.
unfoldable pub run_scan : ℕ → Bitmap → ℕ → ℕ → ℕ → ℕ → ℕ → Option ℕ
unfolding is_full test_bit
run_scan zero bm total count frame run start = none
run_scan (suc fuel) bm total count frame run start =
    let full_skip = run_scan fuel bm total count (frame + 64) 0 start in
    let used_next = run_scan fuel bm total count (frame + 1) 0 start in
    let begin = if run == 0 then frame else start in
    let clear_next = run_scan fuel bm total count (frame + 1) (run + 1) begin in
    if ltb frame total
    then (if frame % 64 == 0 && is_full (get_or bm (frame / 64) [])
        then full_skip
        else if test_bit bm frame
        then used_next
        else if run + 1 == count
        then some begin
        else clear_next)
    else none

unfoldable pub alloc_contiguous : Pmm → ℕ → Option (ℕ × Pmm)
alloc_contiguous p count =
    if count == 0 || ltb p.free_frames count
    then none
    else Option.map
        (λ start. (
          start * page_size,
          record p {
            bitmap = fill_range p.bitmap start count true;
            free_frames = p.free_frames - count;
          },
        ))
        (run_scan (suc p.total_frames) p.bitmap p.total_frames count 0 0 0)

-- The free function `alloc_contiguous` of the module, on an initialised `PMM`.
unfoldable pub alloc_frames : Pmm → ℕ → Option (ℕ × Pmm)
alloc_frames p count = if count == 1 then alloc_one p else alloc_contiguous p count

pub data Result {ℓ} (A : Type ℓ) : Type ℓ where
  ok : A → Result A
  err : FreeError → Result A

-- `for f in first..end`: are all of the `count` frames from `first` on allocated?
unfoldable pub all_allocated : Bitmap → ℕ → ℕ → Bool
all_allocated bm first zero = true
all_allocated bm first (suc count) = test_bit bm first && all_allocated bm (first + 1) count

unfoldable pub free : Pmm → ℕ → ℕ → Result Pmm
free p phys count =
    if count == 0
    then ok p
    else if not (phys % page_size == 0)
    then err unaligned
    else let first = phys / page_size in
      if leb (2 ^ 64) (first + count)
      then err out_of_range
      else if ltb p.total_frames (first + count)
      then err out_of_range
      else if not (all_allocated p.bitmap first count)
      then err not_allocated
      else ok (record p {
        bitmap = fill_range p.bitmap first count false;
        free_frames = p.free_frames + count;
        next_hint = min p.next_hint (first / 64);
      })
