-- ===== src/Fat32/Mount.antt =====
-- `mount` of src/fat32.rs, and where the sectors of a mounted volume lie.
use eonos.Prelude.{
  ℕ, ◌+◌, ◌-◌, ◌*◌, ◌/◌, ◌%◌, ◌^◌, ◌<◌, ◌≤◌, ◌≡◌, List, not, some, if◌then◌else◌, ◌==◌, get_or,
  arith, ap, ◌∙◌, inl, inr,
}
use native.Mathlib.Nat.{div-add-mod', mul-le-mul_right}
use eonos.Prelude.Results.{ok, err, Result-cases}
use eonos.Block.{BlockDevice, sector_size}
use eonos.Fat32.{
  Geometry, Volume, u16le, u32le, mount_sector, mount, entry_sector, cluster_lba, corrupt,
}

-- A volume that fits its device: the reserved sectors, then the tables, then the clusters.
pub record Fits (g : Geometry) (sectors : ℕ) : Type 0 where
  pub some_cluster : 1 ≤ g.cluster_count
  pub few : g.cluster_count ≤ 0x0fff_fff5
  pub reserved : 0 < g.reserved_sectors
  pub tables : 0 < g.fat_count
  pub sizes : 0 < g.sectors_per_cluster
  pub start : g.data_start ≡ g.reserved_sectors + g.fat_count * g.sectors_per_fat
  pub data_fits : g.data_start + g.cluster_count * g.sectors_per_cluster ≤ sectors
  pub entries_fit : (g.cluster_count + 2) * 4 ≤ g.sectors_per_fat * sector_size
  pub root : 2 ≤ g.root_cluster
  pub root_in : g.root_cluster < g.cluster_count + 2
  pub fsinfo_in : (n : ℕ) → g.fsinfo_sector ≡ some n → n < g.reserved_sectors

-- The clusters fit into the sectors after the tables.
count_fits : (x size : ℕ) → x / size % 2 ^ 32 * size ≤ x
count_fits x size =
    let q = x / size in
    let low : q % 2 ^ 32 ≤ q = omega arith in
    let times : q % 2 ^ 32 * size ≤ q * size = mul-le-mul_right size low in
    omega (arith, times, div-add-mod' x size)

mount_sector-Fits :
    (b : List ℕ) (sectors : ℕ) (g : Geometry) → mount_sector b sectors ≡ ok g → Fits g sectors
unfolding mount_sector
mount_sector-Fits b sectors g h = record {
  some_cluster = ground (arith, h);
  few = ground (arith, h);
  reserved = ground (arith, h);
  tables = ground (arith, h);
  sizes = ground (arith, h);
  start = ground (arith, h);
  data_fits =
      let total = if not (u16le b 19 == 0) then u16le b 19 else u32le b 32 in
      let first = u16le b 14 + get_or b 16 0 * u32le b 36 in
      let size = get_or b 13 0 in
      let enough : total ≤ sectors = ground (arith, h) in
      let after : first < total = ground (arith, h) in
      let at_first : g.data_start ≡ first = ground (arith, h) in
      let all : g.cluster_count * g.sectors_per_cluster ≡ (total - first) / size % 2 ^ 32 * size =
        ground (arith, h) in
      omega (arith, count_fits (total - first) size, all, at_first, after, enough);
  entries_fit = ground (arith, h);
  root = ground (arith, h);
  root_in = ground (arith, h);
  fsinfo_in = λ n k. ground (arith, h, k);
}

-- Where a cluster lies: its entry in each of the tables, and its sectors.
pub record Placed (g : Geometry) (sectors cluster : ℕ) : Type 0 where
  pub entry : ℕ
  pub has_entry : entry_sector g cluster ≡ ok entry
  pub in_tables :
      (fat : ℕ)
      → fat < g.fat_count
      → (g.reserved_sectors ≤ g.reserved_sectors + fat * g.sectors_per_fat + entry)
        × (g.reserved_sectors + fat * g.sectors_per_fat + entry < g.data_start)
  pub lba : ℕ
  pub has_lba : cluster_lba g cluster ≡ ok lba
  pub after_tables : g.data_start ≤ lba
  pub on_device : lba + g.sectors_per_cluster ≤ sectors
  pub next_apart :
      cluster + 1 < g.cluster_count + 2
      → cluster_lba g (cluster + 1) ≡ ok (lba + g.sectors_per_cluster)

pub Fits-Placed :
    (g : Geometry) (sectors cluster : ℕ)
    → Fits g sectors
    → sectors < 2 ^ 64
    → 2 ≤ cluster
    → cluster < g.cluster_count + 2
    → Placed g sectors cluster
unfolding entry_sector cluster_lba
Fits-Placed g sectors cluster f small lo hi =
    let k = cluster - 2 in
    let count_in : k + 1 ≤ g.cluster_count = omega arith in
    let room : (k + 1) * g.sectors_per_cluster ≤ g.cluster_count * g.sectors_per_cluster =
      mul-le-mul_right g.sectors_per_cluster (count_in) in
    let step : (k + 1) * g.sectors_per_cluster ≡ k * g.sectors_per_cluster + g.sectors_per_cluster =
      omega arith in
    let entry_in : cluster * 4 / sector_size < g.sectors_per_fat =
      omega (arith, f.entries_fit, hi) in
    let room_next : cluster + 1 < g.cluster_count + 2
        → (k + 2) * g.sectors_per_cluster ≤ g.cluster_count * g.sectors_per_cluster =
      λ h.
        let two_in : k + 2 ≤ g.cluster_count = omega arith in
        mul-le-mul_right g.sectors_per_cluster two_in in
    let index : cluster + 1 - 2 ≡ k + 1 = omega arith in
    record {
      entry = cluster * 4 / sector_size;
      has_entry = ground (arith, f.entries_fit, hi);
      in_tables = λ fat h.
          let more : fat + 1 ≤ g.fat_count = omega arith in
          let rows : (fat + 1) * g.sectors_per_fat ≤ g.fat_count * g.sectors_per_fat =
            mul-le-mul_right g.sectors_per_fat more in
          (omega arith, omega (arith, rows, f.start, entry_in));
      lba = g.data_start + k * g.sectors_per_cluster;
      has_lba = ground (arith, room, step, f.data_fits, lo, hi, small);
      after_tables = omega arith;
      on_device = omega (arith, room, step, f.data_fits);
      next_apart = λ h. ground (arith, step, room_next h, f.data_fits, lo, small);
    }

-- A volume that `mount` accepts, on a device of fewer than 2^64 sectors, has its root among its
-- clusters, and the entry of each cluster lies in every copy of the table, between the reserved
-- sectors and the data; the sectors of each cluster lie after the tables and on the device, and
-- those of the next cluster follow right behind. A cluster number out of range is refused.
pub mount-Placed :
    {S : Type 0} (dev : BlockDevice S) (s : S) (g : Geometry) (v : Volume S)
    → mount dev s ≡ ok (g, v)
    → dev.sector_count s < 2 ^ 64
    → (2 ≤ g.root_cluster)
      × (g.root_cluster < g.cluster_count + 2)
      × ((cluster : ℕ)
          → 2 ≤ cluster
          → cluster < g.cluster_count + 2
          → Placed g (dev.sector_count s) cluster)
      × ((cluster : ℕ)
          → g.cluster_count + 2 ≤ cluster
          → (entry_sector g cluster ≡ err corrupt) × (cluster_lba g cluster ≡ err corrupt))
unfolding mount entry_sector cluster_lba
mount-Placed dev s g v h small = elim (Result-cases (dev.read_sector s 0)) [
  | inl (e, r) ↦ absurd (ground (arith, r, h))
  | inr (b, r) ↦ elim (Result-cases (mount_sector b (dev.sector_count s))) [
    | inl (e, k) ↦ absurd (ground (arith, r, k, h))
    | inr (g', k) ↦
        let same : g' ≡ g = ground (arith, r, k, h) in
        let f = mount_sector-Fits b (dev.sector_count s) g (k ∙ ap ok same) in
        (
          f.root,
          f.root_in,
          (λ cluster lo hi. Fits-Placed g (dev.sector_count s) cluster f small lo hi),
          λ cluster hi. (ground (arith, hi), ground (arith, hi)),
        )
  ]
]
