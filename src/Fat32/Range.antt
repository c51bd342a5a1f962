-- ===== src/Fat32/Range.antt =====
-- `write_chain_range` of src/fat32.rs on a device that keeps what is written.
use eonos.Prelude.{
  ℕ, zero, suc, ◌+◌, ◌-◌, ◌*◌, ◌/◌, ◌%◌, ◌<◌, ◌≤◌, ◌≡◌, ◌≢◌, List, [], ◌∷◌, min, arith, refl, ◌∙◌,
  length, get_or, take, drop, length-drop,
}
use native.Mathlib.Nat.{mul-le-mul_right, mod-lt, div-lt_iff_lt-mul}
use eonos.Prelude.Results.{ok}
use eonos.Block.{BlockDevice, sector_size}
use eonos.Block.Laws.{Lawful}
use eonos.Fat32.{Geometry, Volume, read_sector, fat_entry, store}
use eonos.Fat32.Mount.{Fits-Placed}
use eonos.Fat32.Word.{length-store}
use eonos.Fat32.Entry.{Ready, write_step, read_step, entry_sector-ok}
use eonos.Fat32.Data.{write_chain_range}

div_below : (x size n : ℕ) → 0 < size → x < n * size → x / size < n
div_below x size n h k = (div-lt_iff_lt-mul h).1 k

module _ {S : Type 0} (dev : BlockDevice S) (Valid : S → Type 0) (law : Lawful dev Valid)
    (g : Geometry) where
  -- Writing a sector behind the tables changes no entry.
  behind_tables :
      (v v1 : Volume S) (lba : ℕ)
      → Ready dev Valid g v
      → g.data_start ≤ lba
      → ((other : ℕ) → lba ≢ other → read_sector dev v1 other ≡ read_sector dev v other)
      → (cluster : ℕ) → cluster < g.cluster_count + 2
      → fat_entry dev g v1 cluster ≡ fat_entry dev g v cluster
  unfolding fat_entry
  behind_tables v v1 lba r h same cluster k =
      let (found, low) =
        entry_sector-ok dev Valid law g (dev.sector_count v.disk) cluster r.fits k in
      let one : 1 * g.sectors_per_fat ≤ g.fat_count * g.sectors_per_fat =
        mul-le-mul_right g.sectors_per_fat r.fits.tables in
      let apart : lba ≢ g.reserved_sectors + cluster * 4 / 512 =
        λ z. absurd (omega (arith, low, one, r.fits.start, h, z)) in
      ground (arith, found, same (g.reserved_sectors + cluster * 4 / 512) apart)

  -- On a device that keeps what is written, and a volume that fits it, `write_chain_range` of bytes
  -- that end inside the chain, whose clusters are all of the volume, returns within as many rounds
  -- as there are bytes, without an error; it changes no entry of the table, and the volume still
  -- fits.
  pub write_chain_range-Ready :
      (fuel : ℕ) (v : Volume S) (chain : List ℕ) (offset : ℕ) (bytes : List ℕ)
      → Ready dev Valid g v
      → ((i : ℕ)
          → i < length chain
          → (2 ≤ get_or chain i 0) × (get_or chain i 0 < g.cluster_count + 2))
      → offset + length bytes ≤ length chain * (g.sectors_per_cluster * sector_size)
      → length bytes ≤ fuel
      → (v' : Volume S) × (write_chain_range dev g fuel v chain offset bytes ≡ (v', ok tt))
        × Ready dev Valid g v'
        × ((cluster : ℕ)
            → cluster < g.cluster_count + 2
            → fat_entry dev g v' cluster ≡ fat_entry dev g v cluster)
  unfolding write_chain_range
  write_chain_range-Ready fuel v chain offset [] r all fits enough = (v, refl, r, λ cluster h. refl)
  write_chain_range-Ready zero v chain offset (b ∷ bs) r all fits enough = absurd (omega arith)
  write_chain_range-Ready (suc fuel) v chain offset (b ∷ bs) r all fits enough =
      let size = g.sectors_per_cluster * 512 in
      let positive : 0 < size = omega (arith, r.fits.sizes) in
      let ci = offset / size in
      let inside : ci < length chain =
        div_below offset size (length chain) positive (omega arith) in
      let (lo, hi) = all ci inside in
      let p = Fits-Placed g (dev.sector_count v.disk) (get_or chain ci 0) r.fits r.small lo hi in
      let below : offset % size < size = mod-lt offset positive in
      let lba = p.lba + offset % size / 512 in
      let on_disk : lba < dev.sector_count v.disk = omega (arith, p.on_device, below) in
      let (w, e1, n1) = read_step dev Valid law g v lba r on_disk in
      let n = min (suc (length bs)) (512 - offset % size % 512) in
      let w' = store w (offset % size % 512) (take n (b ∷ bs)) in
      let (v1, e2, wrote) =
        write_step dev Valid law g v lba w' r on_disk
          (length-store w (offset % size % 512) (take n (b ∷ bs)) ∙ n1) in
      let left : length (drop n (b ∷ bs)) ≡ suc (length bs) - n = length-drop n (b ∷ bs) in
      let (v2, e3, r2, same) =
        write_chain_range-Ready fuel v1 chain (offset + n) (drop n (b ∷ bs)) wrote.ready all
          (omega (arith, left, fits)) (omega (arith, left, enough)) in
      (
        v2,
        ground (arith, inside, p.has_lba, e1, e2, e3),
        r2,
        λ cluster h.
            same cluster h
            ∙ behind_tables v v1 lba r (omega (arith, p.after_tables)) wrote.others cluster h,
      )
