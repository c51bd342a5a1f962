-- ===== src/Fat32.antt =====
-- The FAT32 volume of src/fat32.rs on a block device of src/block.rs: mounting, the table of
-- clusters, chains of clusters and their data. A sector is the list of its bytes. `Geometry` holds
-- the fields of `Fat32` that mounting fixes, `Volume` the device's state and the fields that
-- change. A function that writes returns the volume also with an error, since what is written
-- stays; one that only reads returns its result.
pub mod Mount
pub mod Chain
pub mod Write
pub mod Word
pub mod Entry
pub mod Allocate
pub mod Data
pub mod Range
mod Tests
use eonos.Prelude.{
  ℕ, zero, suc, ◌+◌, ◌-◌, ◌*◌, ◌/◌, ◌%◌, ◌^◌, min, max, List, [], ◌∷◌, ◌++◌, Bool, true, false, not,
  ◌&&◌, ◌||◌, Option, none, some, if◌then◌else◌, ltb, leb, ◌==◌, length, get_or, take, drop, set,
  replicate,
}
use eonos.Prelude.Bytes.{rd}
use eonos.Prelude.Results.{Result, ok, err, and_then}
use eonos.Block.{BlockDevice, sector_size}

pub data FatError : Type 0 where
  io invalid_boot_sector unsupported corrupt not_found not_directory is_directory too_large
        no_space :
      FatError
  invalid_name already_exists directory_not_empty : FatError

pub record Geometry : Type 0 where
  pub sectors_per_cluster : ℕ
  pub reserved_sectors : ℕ
  pub fat_count : ℕ
  pub sectors_per_fat : ℕ
  pub root_cluster : ℕ
  pub data_start : ℕ
  pub cluster_count : ℕ
  pub fsinfo_sector : Option ℕ

pub record Volume (S : Type 0) : Type 0 where
  pub disk : S
  pub next_free_hint : ℕ
  pub fsinfo_invalidated : Bool

unfoldable pub u16le : List ℕ → ℕ → ℕ
unfolding rd
u16le b at = rd 2 b at

unfoldable pub u32le : List ℕ → ℕ → ℕ
unfolding rd
u32le b at = rd 4 b at

-- `to_le_bytes`, and `copy_from_slice` into a part of a sector.
abbrev pub le_bytes : ℕ → List ℕ
le_bytes v = v % 256 ∷ v / 256 % 256 ∷ v / 65536 % 256 ∷ v / 16777216 % 256 ∷ []

abbrev pub store : List ℕ → ℕ → List ℕ → List ℕ
store sector at [] = sector
store sector at (b ∷ bs) = store (set sector at b) (at + 1) bs

-- `is_power_of_two` of a byte that is not 0.
unfoldable pub is_power_of_two : ℕ → Bool
is_power_of_two n = 128 % n == 0

-- The checks of `mount` on the boot sector `b`, on a device of `sectors` sectors.
unfoldable pub mount_sector : List ℕ → ℕ → Result FatError Geometry
unfolding u16le u32le is_power_of_two
mount_sector b sectors =
    let sectors_per_cluster = get_or b 13 0 in
    let reserved_sectors = u16le b 14 in
    let fat_count = get_or b 16 0 in
    let total_sectors = if not (u16le b 19 == 0) then u16le b 19 else u32le b 32 in
    let sectors_per_fat = u32le b 36 in
    let root_cluster = u32le b 44 % 0x1000_0000 in
    let fsinfo_sector = u16le b 48 in
    let fats_sectors = fat_count * sectors_per_fat in
    let data_start = reserved_sectors + fats_sectors in
    let cluster_count = (total_sectors - data_start) / sectors_per_cluster % 2 ^ 32 in
    let fat_entries = sectors_per_fat * sector_size / 4 in
    if not (get_or b 510 0 == 0x55) || not (get_or b 511 0 == 0xaa)
    then err invalid_boot_sector
    else if not (u16le b 11 == sector_size)
        || sectors_per_cluster == 0
        || not (is_power_of_two sectors_per_cluster)
        || reserved_sectors == 0
        || fat_count == 0
        || sectors_per_fat == 0
        || not (u16le b 17 == 0)
        || not (u16le b 22 == 0)
        || ltb sectors total_sectors
    then err unsupported
    else if leb (2 ^ 64) fats_sectors
    then err corrupt
    else if leb (2 ^ 64) data_start
    then err corrupt
    else if leb total_sectors data_start
    then err invalid_boot_sector
    else if ltb cluster_count 1
        || ltb 0x0fff_fff5 cluster_count
        || ltb fat_entries (cluster_count + 2)
        || ltb root_cluster 2
        || leb (cluster_count + 2) root_cluster
    then err invalid_boot_sector
    else ok (record {
      sectors_per_cluster = sectors_per_cluster;
      reserved_sectors = reserved_sectors;
      fat_count = fat_count;
      sectors_per_fat = sectors_per_fat;
      root_cluster = root_cluster;
      data_start = data_start;
      cluster_count = cluster_count;
      fsinfo_sector =
          if not (fsinfo_sector == 0) && ltb fsinfo_sector reserved_sectors
          then some fsinfo_sector
          else none;
    })

module _ (g : Geometry) where
  -- The sector with the table's entry for `cluster`, counted from the start of a table.
  unfoldable pub entry_sector : ℕ → Result FatError ℕ
  entry_sector cluster =
      let sector_in_fat = cluster * 4 / sector_size in
      if leb (g.cluster_count + 2) cluster
      then err corrupt
      else if leb g.sectors_per_fat sector_in_fat
      then err corrupt
      else ok sector_in_fat

  unfoldable pub cluster_lba : ℕ → Result FatError ℕ
  cluster_lba cluster =
      let lba = g.data_start + (cluster - 2) * g.sectors_per_cluster in
      if ltb cluster 2 || leb (g.cluster_count + 2) cluster
      then err corrupt
      else if leb (2 ^ 64) lba
      then err corrupt
      else ok lba

  abbrev pub cluster_bytes : ℕ
  cluster_bytes = g.sectors_per_cluster * sector_size

module _ {S : Type 0} (dev : BlockDevice S) where
  unfoldable pub read_sector : Volume S → ℕ → Result FatError (List ℕ)
  read_sector v lba = elim (dev.read_sector v.disk lba) [ ok sector ↦ ok sector | err e ↦ err io ]

  unfoldable pub write_sector : Volume S → ℕ → List ℕ → Volume S × Result {0, 0} FatError Unit
  write_sector v lba sector = elim (dev.write_sector v.disk lba sector) [
    | ok s ↦ (record v { disk = s }, ok tt)
    | err e ↦ (v, err io)
  ]

  unfoldable pub mount : S → Result FatError (Geometry × Volume S)
  unfolding mount_sector
  mount s = elim (dev.read_sector s 0) [
    | err e ↦ err io
    | ok b ↦
        and_then (mount_sector b (dev.sector_count s))
          (λ g. ok (g, record { disk = s; next_free_hint = 2; fsinfo_invalidated = false }))
  ]

  module _ (g : Geometry) where
    unfoldable pub fat_entry : Volume S → ℕ → Result FatError ℕ
    unfolding entry_sector read_sector u32le
    fat_entry v cluster = and_then (entry_sector g cluster) (λ sector_in_fat.
        and_then (read_sector v (g.reserved_sectors + sector_in_fat))
          (λ sector. ok (u32le sector (cluster * 4 % sector_size) % 0x1000_0000)))

    unfoldable pub next_cluster : Volume S → ℕ → Result FatError (Option ℕ)
    unfolding fat_entry
    next_cluster v cluster =
        if ltb cluster 2 || leb (g.cluster_count + 2) cluster
        then err corrupt
        else and_then (fat_entry v cluster) (λ next.
          if leb 0x0fff_fff8 next
          then ok none
          else if next == 0 || next == 1 || leb 0x0fff_fff0 next && leb next 0x0fff_fff7
          then err corrupt
          else if ltb next 2 || leb (g.cluster_count + 2) next
          then err corrupt
          else ok (some next))

    -- The sectors of `read_cluster`: `left` are left, the next is `lba`.
    unfoldable pub read_sectors : ℕ → Volume S → ℕ → Result FatError (List ℕ)
    unfolding read_sector
    read_sectors zero v lba = ok []
    read_sectors (suc left) v lba =
        and_then (read_sector v lba)
          (λ sector. and_then (read_sectors left v (lba + 1)) (λ rest. ok (sector ++ rest)))

    unfoldable pub read_cluster : Volume S → ℕ → Result FatError (List ℕ)
    unfolding cluster_lba read_sectors
    read_cluster v cluster =
        and_then (cluster_lba g cluster) (λ first. read_sectors g.sectors_per_cluster v first)

    -- The loop of `collect_chain`: `left` is `cluster_count` less the length of the chain.
    unfoldable pub collect : ℕ → Volume S → Option ℕ → List ℕ → Result FatError (List ℕ)
    unfolding next_cluster
    collect zero v none chain = ok chain
    collect zero v (some cluster) chain = err corrupt
    collect (suc left) v none chain = ok chain
    collect (suc left) v (some cluster) chain =
        and_then (next_cluster v cluster) (λ next. collect left v next (chain ++ (cluster ∷ [])))

    unfoldable pub collect_chain : Volume S → ℕ → Result FatError (List ℕ)
    unfolding collect
    collect_chain v first = collect g.cluster_count v (if first == 0 then none else some first) []
