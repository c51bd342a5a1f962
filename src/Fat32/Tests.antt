-- ===== src/Fat32/Tests.antt =====
-- Runs of a small FAT32 volume on a disk in memory, and an instance of each theorem.
use eonos.Prelude.{
  zero, suc, get_or, ℕ, ◌+◌, ◌*◌, ◌%◌, ◌^◌, ◌==◌, ◌≤◌, ◌<◌, ◌⊎◌, inl, inr, false, ◌≡◌, ◌≢◌, refl,
  ap, sym, ◌∙◌, [], ◌∷◌, List, length, arith, none, Bool-cases, replicate, take, drop, length-take,
  length-drop, ℕ_discrete, ltb, leb,
}
use eonos.Prelude.Results.{Result, ok, err}
use eonos.Prelude.Bytes.{rd}
use eonos.Block.{BlockError, MemoryBlockDevice, memory_device, read_image, lookup, sector_size}
use eonos.Block.Memory.{IsMemory, memory_device-Lawful}
use eonos.Fat32.{
  Geometry, Volume, corrupt, no_space, store, le_bytes, mount, mount_sector, u16le, u32le,
  is_power_of_two, entry_sector, cluster_lba, fat_entry, next_cluster, collect_chain, collect,
  read_sector,
}
use eonos.Fat32.Mount.{Fits, Placed, mount-Placed}
use eonos.Fat32.Write.{set_fat_entry, allocate_cluster}
use eonos.Fat32.Entry.{Ready, fat_entry-set_fat_entry}
use eonos.Fat32.Data.{write_chain_range}
use eonos.Fat32.Range.{write_chain_range-Ready}
use eonos.Fat32.Allocate.{Allocated, allocate_cluster-Allocated}

-- One reserved sector, two tables of one sector, four clusters of one sector.
abbrev boot : List ℕ
boot =
    store
      (store
        (store
          (store
            (store (store (store (replicate 512 0) 11 (0 ∷ 2 ∷ 1 ∷ 1 ∷ 0 ∷ 2 ∷ [])) 19 (8 ∷ 0 ∷ []))
              36 (1 ∷ []))
            44 (2 ∷ []))
          510 (0x55 ∷ 0xaa ∷ []))
        48 [])
      32 []

abbrev disk : MemoryBlockDevice
disk = record { bytes = replicate 4096 0; overlay = (0, boot) ∷ [] }

abbrev geometry : Geometry
geometry = record {
  sectors_per_cluster = 1;
  reserved_sectors = 1;
  fat_count = 2;
  sectors_per_fat = 1;
  root_cluster = 2;
  data_start = 3;
  cluster_count = 5;
  fsinfo_sector = none;
}

abbrev volume : Volume MemoryBlockDevice
volume = record { disk = disk; next_free_hint = 2; fsinfo_invalidated = false }

mount_runs : mount memory_device disk ≡ ok (geometry, volume)
unfolding mount mount_sector memory_device lookup u16le u32le rd is_power_of_two
mount_runs = refl

disk_size : memory_device.sector_count disk < 2 ^ 64
unfolding memory_device
disk_size = omega arith

mount-Placed_example :
    (2 ≤ geometry.root_cluster)
    × (geometry.root_cluster < geometry.cluster_count + 2)
    × ((cluster : ℕ)
        → 2 ≤ cluster
        → cluster < geometry.cluster_count + 2
        → Placed geometry (memory_device.sector_count disk) cluster)
    × ((cluster : ℕ)
        → geometry.cluster_count + 2 ≤ cluster
        → (entry_sector geometry cluster ≡ err corrupt)
          × (cluster_lba geometry cluster ≡ err corrupt))
mount-Placed_example = mount-Placed memory_device disk geometry volume mount_runs disk_size

ok_same : {v w : List ℕ} → ◌≡◌ {A = Result BlockError (List ℕ)} (ok v) (ok w) → v ≡ w
ok_same h = cc

slice_length :
    (bytes : List ℕ) (start : ℕ)
    → start + 512 ≤ length bytes
    → length (take sector_size (drop start bytes)) ≡ sector_size
slice_length bytes start h =
    let rest = length-drop start bytes in
    length-take sector_size (drop start bytes) ∙ omega (arith, rest, h)

read_image-length :
    (bytes : List ℕ) (lba : ℕ) (w : List ℕ) → read_image bytes lba ≡ ok w → length w ≡ sector_size
unfolding read_image
read_image-length bytes lba w h =
    let start = lba * sector_size in
    elim (Bool-cases (leb (2 ^ 64) start)) [
      | inl a ↦ absurd (ground (arith, a, h))
      | inr a ↦ elim (Bool-cases (leb (2 ^ 64) (start + sector_size))) [
        | inl b ↦ absurd (ground (arith, a, b, h))
        | inr b ↦ elim (Bool-cases (ltb (length bytes) (start + sector_size))) [
          | inl c ↦ absurd (ground (arith, a, b, c, h))
          | inr c ↦
              let fits : start + 512 ≤ length bytes = ground (arith, c) in
              let same : take sector_size (drop start bytes) ≡ w = ground (arith, a, b, c, h) in
              ap length (sym same) ∙ slice_length bytes start fits
        ]
      ]
    ]

boot_is_full : length boot ≡ sector_size
boot_is_full = refl

abbrev image : List ℕ → List ℕ → MemoryBlockDevice
image bytes b = record { bytes = bytes; overlay = (0, b) ∷ [] }

read_below :
    (bytes b : List ℕ) (lba : ℕ)
    → lba ≢ 0
    → memory_device.read_sector (image bytes b) lba ≡ read_image bytes lba
unfolding memory_device lookup
read_below bytes b lba n =
    let other : (0 == lba) ≡ false = ground (arith, n) in ground (arith, other)

image_sized :
    (bytes b : List ℕ) (lba : ℕ) (w : List ℕ)
    → length b ≡ sector_size
    → memory_device.read_sector (image bytes b) lba ≡ ok w
    → length w ≡ sector_size
unfolding memory_device lookup
image_sized bytes b lba w n h = elim (ℕ_discrete lba 0) [
  | yes z ↦
      let same : b ≡ w =
        ok_same (ap (λ l. memory_device.read_sector (image bytes b) l) (sym z) ∙ h) in
      ap length (sym same) ∙ n
  | no z ↦ read_image-length bytes lba w (sym (read_below bytes b lba z) ∙ h)
]

disk-Fits : Fits geometry (memory_device.sector_count disk)
unfolding memory_device
disk-Fits = record {
  some_cluster = omega arith;
  few = omega arith;
  reserved = omega arith;
  tables = omega arith;
  sizes = omega arith;
  start = refl;
  data_fits = omega arith;
  entries_fit = omega arith;
  root = omega arith;
  root_in = omega arith;
  fsinfo_in = λ n h. absurd (cc);
}

disk-IsMemory : IsMemory disk
disk-IsMemory = record { whole = refl; small = omega arith; inside = (omega arith, tt) }

volume-Ready : Ready memory_device IsMemory geometry volume
volume-Ready = record {
  device = disk-IsMemory;
  fits = disk-Fits;
  small = disk_size;
  sized = λ lba w h. image_sized (replicate 4096 0) boot lba w boot_is_full h;
}

fat_entry-set_fat_entry_example :
    (v' : Volume MemoryBlockDevice) × (set_fat_entry memory_device geometry volume 3 4
      ≡ (v', ok tt))
    × Ready memory_device IsMemory geometry v'
    × (fat_entry memory_device geometry v' 3 ≡ ok (4 % 0x1000_0000))
    × ((other : ℕ)
        → other ≢ 3
        → other < geometry.cluster_count + 2
        → fat_entry memory_device geometry v' other ≡ fat_entry memory_device geometry volume other)
fat_entry-set_fat_entry_example =
    fat_entry-set_fat_entry memory_device IsMemory memory_device-Lawful geometry volume 3 4
      volume-Ready (omega arith)

allocate_cluster-Allocated_example :
    ((v' : Volume MemoryBlockDevice) × (cluster : ℕ) × (allocate_cluster memory_device geometry
          volume
        ≡ (v', ok cluster))
      × Allocated memory_device IsMemory memory_device-Lawful geometry volume v' cluster)
    ⊎ ((allocate_cluster memory_device geometry volume ≡ (volume, err no_space))
        × ((cluster : ℕ)
            → 2 ≤ cluster
            → cluster < geometry.cluster_count + 2
            → fat_entry memory_device geometry volume cluster ≢ ok 0))
allocate_cluster-Allocated_example =
    allocate_cluster-Allocated memory_device IsMemory memory_device-Lawful geometry volume
      volume-Ready

-- Two linked clusters: 2 leads to 4, which is the end.
abbrev table : List ℕ
table = store (store (replicate 512 0) 8 (4 ∷ [])) 16 (le_bytes 0x0fff_ffff)

abbrev linked : Volume MemoryBlockDevice
linked = record volume { disk = record disk { overlay = (1, table) ∷ (0, boot) ∷ [] } }

chain_runs : collect_chain memory_device geometry linked 2 ≡ ok (2 ∷ 4 ∷ [])
unfolding collect_chain collect next_cluster fat_entry entry_sector read_sector memory_device lookup
    u32le rd
chain_runs = refl

abbrev root_number : ℕ
root_number = 2

abbrev pair : List ℕ
pair = 2 ∷ 4 ∷ []

pair-inside :
    (i : ℕ)
    → i < length pair
    → (2 ≤ get_or pair i 0) × (get_or pair i 0 < geometry.cluster_count + 2)
pair-inside zero h = (omega arith, omega arith)
pair-inside (suc zero) h = (omega arith, omega arith)
pair-inside (suc (suc i)) h = absurd (omega arith)

abbrev payload : List ℕ
payload = 1 ∷ 2 ∷ 3 ∷ 4 ∷ 5 ∷ []

write_chain_range-Ready_example :
    (v' : Volume MemoryBlockDevice) × (write_chain_range memory_device geometry 5 volume pair 510
        payload
      ≡ (v', ok tt))
    × Ready memory_device IsMemory geometry v'
    × ((cluster : ℕ)
        → cluster < geometry.cluster_count + 2
        → fat_entry memory_device geometry v' cluster
          ≡ fat_entry memory_device geometry volume cluster)
write_chain_range-Ready_example =
    write_chain_range-Ready memory_device IsMemory memory_device-Lawful geometry 5 volume pair 510
      payload volume-Ready pair-inside (omega arith) (omega arith)
