-- ===== src/Block.antt =====
-- Block devices, src/block.rs: `BlockError`, the trait `BlockDevice`, `PartitionDevice`,
-- `MemoryBlockDevice` and the register of devices.
-- A device is a record of its operations on a state; an operation that fails leaves the state, so
-- only success returns one. A sector is the list of its 512 bytes. The overlay of a memory device,
-- a BTreeMap from LBAs to sectors, is an association list, newest entry first.
pub mod Laws
pub mod Memory
pub mod Confine
mod Tests
use eonos.Prelude.{
  ℕ, zero, suc, ◌+◌, ◌-◌, ◌*◌, ◌/◌, ◌%◌, ◌^◌, List, [], ◌∷◌, ◌++◌, Bool, true, false, not, ◌&&◌,
  ◌||◌, Option, none, some, if◌then◌else◌, ltb, leb, ◌==◌, length, take, drop,
}
use eonos.Prelude.Results.{Result, ok, err}

pub data BlockError : Type 0 where
  out_of_range bad_buffer read_only : BlockError

abbrev pub sector_size : ℕ
sector_size = 512

pub record BlockDevice (S : Type 0) : Type 0 where
  pub sector_count : S → ℕ
  pub read_sector : S → ℕ → Result BlockError (List ℕ)
  pub write_sector : S → ℕ → List ℕ → Result BlockError S
  pub flush : S → Result BlockError S

module _ {S : Type 0} where
  -- `PartitionDevice` on its parent, and `PartitionDevice::new`.
  unfoldable pub partition_device : BlockDevice S → ℕ → ℕ → BlockDevice S
  partition_device parent start_lba sectors = record {
    sector_count = λ s. sectors;
    read_sector = λ s lba.
        if leb sectors lba then err out_of_range else parent.read_sector s (start_lba + lba);
    write_sector = λ s lba sector.
        if leb sectors lba
        then err out_of_range
        else parent.write_sector s (start_lba + lba) sector;
    flush = λ s. parent.flush s;
  }

  unfoldable pub new_partition : BlockDevice S → S → ℕ → ℕ → Option (BlockDevice S)
  unfolding partition_device
  new_partition parent s start_lba sectors =
      let end = start_lba + sectors in
      if leb (2 ^ 64) end
      then none
      else (if sectors == 0 || ltb (parent.sector_count s) end
          then none
          else some (partition_device parent start_lba sectors))

pub record MemoryBlockDevice : Type 0 where
  pub bytes : List ℕ
  pub overlay : List (ℕ × List ℕ)

unfoldable pub new_memory : List ℕ → Option MemoryBlockDevice
new_memory bytes =
    if ltb (length bytes) sector_size || not (length bytes % sector_size == 0)
    then none
    else some (record { bytes = bytes; overlay = [] })

unfoldable pub lookup : ℕ → List (ℕ × List ℕ) → Option (List ℕ)
lookup lba [] = none
lookup lba ((k, v) ∷ rest) = let later = lookup lba rest in if k == lba then some v else later

-- The part of `read_sector` below the overlay.
unfoldable pub read_image : List ℕ → ℕ → Result BlockError (List ℕ)
read_image bytes lba =
    let start = lba * sector_size in
    let end = start + sector_size in
    if leb (2 ^ 64) start
    then err out_of_range
    else (if leb (2 ^ 64) end
        then err out_of_range
        else (if ltb (length bytes) end
            then err out_of_range
            else ok (take sector_size (drop start bytes))))

unfoldable pub memory_device : BlockDevice MemoryBlockDevice
unfolding lookup read_image
memory_device = record {
  sector_count = λ m. length m.bytes / sector_size;
  read_sector = λ m lba. elim (lookup lba m.overlay) [
    | some sector ↦ ok sector
    | none ↦ read_image m.bytes lba
  ];
  write_sector = λ m lba sector.
      if leb (length m.bytes / sector_size) lba
      then err out_of_range
      else ok (record m { overlay = (lba, sector) ∷ m.overlay });
  flush = λ m. err read_only;
}

-- Names are lists of bytes.
unfoldable pub same_name : List ℕ → List ℕ → Bool
same_name [] [] = true
same_name [] (b ∷ bs) = false
same_name (a ∷ l) [] = false
same_name (a ∷ l) (b ∷ bs) = a == b && same_name l bs

module _ {ℓ} {D : Type ℓ} where
  unfoldable pub find_device : List ℕ → List (List ℕ × D) → Option D
  unfolding same_name
  find_device name [] = none
  find_device name ((n, d) ∷ rest) =
      let later = find_device name rest in if same_name n name then some d else later

  unfoldable pub is_registered : List ℕ → List (List ℕ × D) → Bool
  unfolding same_name
  is_registered name [] = false
  is_registered name ((n, d) ∷ rest) = same_name n name || is_registered name rest

  -- A name that is there already is not registered again.
  unfoldable pub register_device : List ℕ → D → List (List ℕ × D) → List (List ℕ × D)
  unfolding is_registered
  register_device name device devices =
      if is_registered name devices then devices else devices ++ ((name, device) ∷ [])
