-- ===== src/Vmm/Entry.antt =====
-- Entries of the page tables of src/vmm.rs, and how an address is cut into indices.
use eonos.Prelude.{ℕ, ◌+◌, ◌*◌, ◌/◌, ◌%◌, ◌<◌, ◌≡◌, refl, true, false, some, if◌then◌else◌, arith}
use eonos.Vmm.{
  present, huge, frame_of, frame_2m, frame_1g, flags_of, pat_huge, index, small_entry, medium_entry,
  Mem, enter_pt, enter_pd,
}

-- The entry that points to a table.
pub link-present : (f : ℕ) → present (f * 4096 + 7) ≡ true
unfolding present
link-present f = ground arith

pub zero-present : present 0 ≡ false
unfolding present
zero-present = refl

pub link-huge : (f : ℕ) → huge (f * 4096 + 7) ≡ false
unfolding huge
link-huge f = ground arith

pub link-frame_of : (f : ℕ) → f < 0x100_0000_0000 → frame_of (f * 4096 + 7) ≡ f * 4096
unfolding frame_of
link-frame_of f h = omega arith

-- The flags of a mapping: the present bit (0), not the huge bit (7), no bit of the address (12 to
-- 51), and any of the bits 1 to 6, 8 to 11, and from 52 on.
pub record IsFlags (flags : ℕ) : Type 0 where
  pub low : ℕ
  pub mid : ℕ
  pub high : ℕ
  pub parts : flags ≡ low * 2 + 1 + mid * 256 + high * 0x10_0000_0000_0000
  pub few : low < 64
  pub mid_few : mid < 16

pub leaf-present : (f flags : ℕ) → IsFlags flags → present (f * 4096 + flags) ≡ true
unfolding present
leaf-present f flags i = ground (arith, i.parts)

pub leaf-frame_of :
    (f flags : ℕ) → f < 0x100_0000_0000 → IsFlags flags → frame_of (f * 4096 + flags) ≡ f * 4096
unfolding frame_of
leaf-frame_of f flags h i = omega (arith, i.parts, i.few, i.mid_few)

-- The entries that a split writes: an address, and flags outside it.
small_shape :
    (e i : ℕ)
    → present e ≡ true
    → i < 512
    → (lo : ℕ) × (hi : ℕ) × (small_entry e i
        ≡ frame_2m e + i * 4096 + lo + hi * 0x10_0000_0000_0000)
      × (lo < 4096)
      × (lo % 2 ≡ 1)
unfolding present small_entry flags_of
small_shape e i p h = (
  e % 128 + e / 256 % 16 * 256 + (if pat_huge e then 128 else 0),
  e / 0x10_0000_0000_0000,
  ground arith,
  ground arith,
  ground arith,
)

medium_shape :
    (e i : ℕ)
    → present e ≡ true
    → i < 512
    → (lo : ℕ) × (hi : ℕ) × (medium_entry e i
        ≡ frame_1g e + i * 0x20_0000 + lo + hi * 0x10_0000_0000_0000)
      × (lo < 0x20_0000)
      × (lo % 2 ≡ 1)
      × (lo / 128 % 2 ≡ 1)
unfolding present medium_entry flags_of
medium_shape e i p h = (
  e % 128 + e / 256 % 16 * 256 + (if pat_huge e then 4096 else 0) + 128,
  e / 0x10_0000_0000_0000,
  ground arith,
  ground arith,
  ground arith,
  ground arith,
)

-- What each page of a split page leads to.
pub small_entry-enter :
    (m : Mem) (e virt : ℕ)
    → present e ≡ true
    → enter_pt m (small_entry e (index virt 3)) virt ≡ some (frame_2m e + virt % 0x20_0000)
unfolding enter_pt present frame_of frame_2m index
small_entry-enter m e virt p =
    let (lo, hi, shape, small, odd) = small_shape e (virt / 4096 % 512) p (omega arith) in
    let at =
      e / 0x20_0000 % 0x8000_0000 * 0x20_0000
      + virt / 4096 % 512 * 4096
      + lo
      + hi * 0x10_0000_0000_0000 in
    let bit : at % 2 ≡ 1 = omega (arith, odd) in
    let frame : at / 4096 % 0x100_0000_0000 * 4096 + virt % 4096
        ≡ e / 0x20_0000 % 0x8000_0000 * 0x20_0000 + virt % 0x20_0000 =
      omega (arith, small) in
    ground (arith, shape, bit, frame)

pub medium_entry-enter :
    (m : Mem) (e virt : ℕ)
    → present e ≡ true
    → enter_pd m (medium_entry e (index virt 2)) virt ≡ some (frame_1g e + virt % 0x4000_0000)
unfolding enter_pd present huge frame_2m frame_1g index
medium_entry-enter m e virt p =
    let (lo, hi, shape, small, odd, big) =
      medium_shape e (virt / 0x20_0000 % 512) p (omega arith) in
    let at =
      e / 0x4000_0000 % 0x40_0000 * 0x4000_0000
      + virt / 0x20_0000 % 512 * 0x20_0000
      + lo
      + hi * 0x10_0000_0000_0000 in
    let bit : at % 2 ≡ 1 = omega (arith, odd) in
    let bit7 : at / 128 % 2 ≡ 1 = omega (arith, big) in
    let frame : at / 0x20_0000 % 0x8000_0000 * 0x20_0000 + virt % 0x20_0000
        ≡ e / 0x4000_0000 % 0x40_0000 * 0x4000_0000 + virt % 0x4000_0000 =
      omega (arith, small) in
    ground (arith, shape, bit, bit7, frame)

-- A split of 1 GiB makes no table below the new one.
pub medium_entry-huge : (e i : ℕ) → present e ≡ true → i < 512 → huge (medium_entry e i) ≡ true
unfolding huge frame_1g
medium_entry-huge e i p h =
    let (lo, hi, shape, small, odd, big) = medium_shape e i p h in
    let at =
      e / 0x4000_0000 % 0x40_0000 * 0x4000_0000 + i * 0x20_0000 + lo + hi * 0x10_0000_0000_0000 in
    let bit7 : at / 128 % 2 ≡ 1 = omega (arith, big) in ground (arith, shape, bit7)

pub index-lt : (virt level : ℕ) → index virt level < 512
unfolding index
index-lt virt level = omega arith
