-- ===== src/Partition/Tests.antt =====
-- A disk with an MBR, for src/partition.rs and src/block.rs.
use eonos.Prelude.{ℕ, ◌≡◌, ◌<◌, refl, List, [], ◌∷◌, ◌++◌, replicate, All, some, arith}
use eonos.Prelude.Results.{ok, err}
use eonos.Block.{MemoryBlockDevice, memory_device, partition_device, new_partition}
use eonos.Partition.{Partition, mbr, invalid_table, scan, crc32}
use eonos.Partition.Bounds.{scan-new_partition}

-- One entry: type 12, from sector 1, 2 sectors, on a disk of 3.
abbrev first_sector : List ℕ
first_sector =
    replicate 446 0
    ++ (0 ∷ 0 ∷ 0 ∷ 0 ∷ 12 ∷ 0 ∷ 0 ∷ 0 ∷ 1 ∷ 0 ∷ 0 ∷ 0 ∷ 2 ∷ 0 ∷ 0 ∷ 0 ∷ [])
    ++ replicate 48 0
    ++ (0x55 ∷ 0xaa ∷ [])

abbrev disk : MemoryBlockDevice
disk = record { bytes = first_sector ++ replicate 1024 0; overlay = [] }

abbrev found : Partition
found = record { index = 1; start_lba = 1; sectors = 2; type_tag = 12; table = mbr }

scan_run : scan memory_device disk ≡ ok (found ∷ [])
unfolding scan memory_device
scan_run = refl

scan_blank :
    scan memory_device (record { bytes = replicate 1024 0; overlay = [] }) ≡ err invalid_table
unfolding scan memory_device
scan_blank = refl

-- The CRC-32 check value.
crc32_run : crc32 (0x31 ∷ 0x32 ∷ 0x33 ∷ 0x34 ∷ 0x35 ∷ 0x36 ∷ 0x37 ∷ 0x38 ∷ 0x39 ∷ []) ≡ 0xcbf4_3926
unfolding crc32
crc32_run = refl

disk_small : memory_device.sector_count disk < 0x1_0000_0000_0000_0000
unfolding memory_device
disk_small = omega arith

scan-new_partition_example :
    All
      (λ p.
        new_partition memory_device disk p.start_lba p.sectors
        ≡ some (partition_device memory_device p.start_lba p.sectors))
      (found ∷ [])
scan-new_partition_example = scan-new_partition memory_device disk (found ∷ []) disk_small scan_run
