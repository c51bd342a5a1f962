-- ===== src/Block/Memory.antt =====
-- `MemoryBlockDevice` of src/block.rs and the laws of a device.
use eonos.Prelude.{
  ℕ, ◌*◌, ◌/◌, ◌%◌, ◌^◌, ◌<◌, ◌≤◌, ◌≡◌, ◌≢◌, refl, subst, List, [], ◌∷◌, none, length, take, drop,
  arith, Option-cases, inl, inr, All,
}
use eonos.Prelude.Results.{ok, err}
use eonos.Block.{out_of_range, sector_size, MemoryBlockDevice, lookup, read_image, memory_device}
use eonos.Block.Laws.{Lawful}

-- The image is whole sectors, shorter than 2^63 bytes, as every slice is, and the overlay holds only
-- sectors that the image has.
pub record IsMemory (m : MemoryBlockDevice) : Type 0 where
  pub whole : length m.bytes % sector_size ≡ 0
  pub small : length m.bytes < 2 ^ 63
  pub inside : All (λ e. e.0 < length m.bytes / sector_size) m.overlay

lookup-inside :
    (n lba : ℕ) (l : List (ℕ × List ℕ)) → All (λ e. e.0 < n) l → n ≤ lba → lookup lba l ≡ none
unfolding lookup
lookup-inside n lba [] a h = refl
lookup-inside n lba ((k, v) ∷ l) a h = ground (arith, a.0, lookup-inside n lba l a.1 h)

read_image-ok :
    (bytes : List ℕ) (lba : ℕ)
    → length bytes < 2 ^ 63
    → lba < length bytes / sector_size
    → read_image bytes lba ≡ ok (take sector_size (drop (lba * sector_size) bytes))
unfolding read_image
read_image-ok bytes lba small h = ground arith

read_image-err :
    (bytes : List ℕ) (lba : ℕ)
    → length bytes / sector_size ≤ lba
    → read_image bytes lba ≡ err out_of_range
unfolding read_image
read_image-err bytes lba h = ground arith

read_memory :
    (m : MemoryBlockDevice) (lba : ℕ)
    → IsMemory m
    → lba < length m.bytes / sector_size
    → (v : List ℕ) × (memory_device.read_sector m lba ≡ ok v)
unfolding memory_device
read_memory m lba i h = elim (Option-cases (lookup lba m.overlay)) [
  | inl n ↦ (
    take sector_size (drop (lba * sector_size) m.bytes),
    rw (n, memory_device) (read_image-ok m.bytes lba i.small h),
  )
  | inr (v, e) ↦ (v, rw (e, memory_device) refl)
]

refuse_memory :
    (m : MemoryBlockDevice) (lba : ℕ)
    → IsMemory m
    → length m.bytes / sector_size ≤ lba
    → memory_device.read_sector m lba ≡ err out_of_range
unfolding memory_device
refuse_memory m lba i h =
    rw (lookup-inside (length m.bytes / sector_size) lba m.overlay i.inside h, memory_device)
      (read_image-err m.bytes lba h)

stored : MemoryBlockDevice → ℕ → List ℕ → MemoryBlockDevice
stored m lba v = record m { overlay = (lba, v) ∷ m.overlay }

stores :
    (m m' : MemoryBlockDevice) (lba : ℕ) (v : List ℕ)
    → memory_device.write_sector m lba v ≡ ok m'
    → (lba < length m.bytes / sector_size) × (stored m lba v ≡ m')
unfolding memory_device stored
stores m m' lba v h = (ground arith, ground arith)

stored-IsMemory :
    (m : MemoryBlockDevice) (lba : ℕ) (v : List ℕ)
    → IsMemory m
    → lba < length m.bytes / sector_size
    → IsMemory (stored m lba v)
unfolding stored
stored-IsMemory m lba v i h = record { whole = i.whole; small = i.small; inside = (h, i.inside) }

stored_back :
    (m : MemoryBlockDevice) (lba : ℕ) (v : List ℕ)
    → memory_device.read_sector (stored m lba v) lba ≡ ok v
unfolding memory_device lookup stored
stored_back m lba v = ground arith

stored_others :
    (m : MemoryBlockDevice) (lba other : ℕ) (v : List ℕ)
    → lba ≢ other
    → memory_device.read_sector (stored m lba v) other ≡ memory_device.read_sector m other
unfolding memory_device lookup stored
stored_others m lba other v n = ground arith

-- A memory device with a valid state is a lawful device: what is written is read back and nothing
-- else changes, although the image itself is never written.
pub memory_device-Lawful : Lawful memory_device IsMemory
unfolding memory_device lookup
memory_device-Lawful = record {
  readable = read_memory;
  refused = refuse_memory;
  written = λ s lba v i h. (record s { overlay = (lba, v) ∷ s.overlay }, ground arith);
  in_range = λ s s' lba v h. ground arith;
  valid = λ s s' lba v i h.
      let (lt, e) = stores s s' lba v h in subst IsMemory e (stored-IsMemory s lba v i lt);
  read_back = λ s s' lba v i h.
      let (lt, e) = stores s s' lba v h in
      subst (λ m. memory_device.read_sector m lba ≡ ok v) e (stored_back s lba v);
  others = λ s s' lba other v i n h.
      let (lt, e) = stores s s' lba v h in
      subst (λ m. memory_device.read_sector m other ≡ memory_device.read_sector s other) e
        (stored_others s lba other v n);
  same_size = λ s s' lba v h. ground arith;
}
