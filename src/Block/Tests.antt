-- ===== src/Block/Tests.antt =====
-- The theorems on src/block.rs at a disk in memory.
use eonos.Prelude.{◌≡◌, inr, refl, [], ◌∷◌, replicate, arith}
use eonos.Prelude.Results.{ok}
use eonos.Block.{MemoryBlockDevice, memory_device, partition_device}
use eonos.Block.Laws.{Lawful}
use eonos.Block.Memory.{IsMemory, memory_device-Lawful}
use eonos.Block.Confine.{Fits, partition_device-Lawful, partition_device-confined}

abbrev disk : MemoryBlockDevice
disk = record { bytes = replicate 2048 0; overlay = [] }

abbrev after_write : MemoryBlockDevice
after_write = record disk { overlay = (2, 7 ∷ []) ∷ [] }

disk-IsMemory : IsMemory disk
disk-IsMemory = record { whole = refl; small = omega arith; inside = tt }

partition_device-Lawful_example :
    Lawful
      (partition_device memory_device 1 2)
      (Fits memory_device IsMemory memory_device-Lawful 1 2)
partition_device-Lawful_example =
    partition_device-Lawful memory_device IsMemory memory_device-Lawful 1 2

write_run : (partition_device memory_device 1 2).write_sector disk 1 (7 ∷ []) ≡ ok after_write
unfolding partition_device memory_device
write_run = refl

partition_device-confined_example :
    memory_device.read_sector after_write 3 ≡ memory_device.read_sector disk 3
partition_device-confined_example =
    partition_device-confined memory_device IsMemory memory_device-Lawful 1 2 disk after_write 1 3
      (7 ∷ []) disk-IsMemory write_run (inr (omega arith))
