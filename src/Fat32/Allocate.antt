-- ===== src/Fat32/Allocate.antt =====
-- `allocate_cluster` of src/fat32.rs.
use eonos.Prelude.{
  ℕ, zero, suc, ◌+◌, ◌-◌, ◌*◌, ◌/◌, ◌%◌, ◌<◌, ◌≤◌, ◌≡◌, ◌≢◌, ◌⊎◌, inl, inr, min, max, if◌then◌else◌,
  ◌==◌, arith, refl, ap, ◌∙◌, ℕ_discrete, dec_lt, replicate, length-replicate,
}
use native.Mathlib.Nat.{mul-le-mul_right, mod-lt, mod-eq_of_lt, add-mod_right}
use eonos.Prelude.Results.{ok, err}
use eonos.Block.{BlockDevice, sector_size}
use eonos.Block.Laws.{Lawful}
use eonos.Fat32.{Geometry, Volume, no_space, u32le, read_sector, fat_entry}
use eonos.Fat32.Mount.{Fits-Placed}
use eonos.Fat32.Write.{zero_sectors, zero_cluster, claim, search, allocate_cluster}
use eonos.Fat32.Entry.{Ready, fat_entry-set_fat_entry, write_step, read_step, entry_sector-ok}

module _ {S : Type 0} (dev : BlockDevice S) (Valid : S → Type 0) (law : Lawful dev Valid)
    (g : Geometry) where
  zero_sectors-Ready :
      (left lba : ℕ) (v : Volume S)
      → Ready dev Valid g v
      → lba + left ≤ dev.sector_count v.disk
      → (v' : Volume S) × (zero_sectors dev g left v lba ≡ (v', ok tt))
        × Ready dev Valid g v'
        × ((other : ℕ) → other < lba → read_sector dev v' other ≡ read_sector dev v other)
  unfolding zero_sectors
  zero_sectors-Ready zero lba v r h = (v, refl, r, λ other k. refl)
  zero_sectors-Ready (suc left) lba v r h =
      let (v1, e1, wrote) =
        write_step dev Valid law g v lba (replicate sector_size 0) r (omega arith)
          (length-replicate {A = ℕ} sector_size 0) in
      let (v2, e2, r2, same) =
        zero_sectors-Ready left (lba + 1) v1 wrote.ready (omega (arith, wrote.size)) in
      (
        v2,
        ground (arith, e1, e2),
        r2,
        λ other k. same other (omega arith) ∙ wrote.others other (λ z. absurd (omega arith)),
      )

  -- Clearing a cluster changes no entry of the table.
  pub zero_cluster-Ready :
      (v : Volume S) (cluster : ℕ)
      → Ready dev Valid g v
      → 2 ≤ cluster
      → cluster < g.cluster_count + 2
      → (v' : Volume S) × (zero_cluster dev g v cluster ≡ (v', ok tt))
        × Ready dev Valid g v'
        × ((other : ℕ)
            → other < g.cluster_count + 2
            → fat_entry dev g v' other ≡ fat_entry dev g v other)
  unfolding zero_cluster fat_entry
  zero_cluster-Ready v cluster r lo hi =
      let p = Fits-Placed g (dev.sector_count v.disk) cluster r.fits r.small lo hi in
      let (v', e, r', same) = zero_sectors-Ready g.sectors_per_cluster p.lba v r p.on_device in
      let entry : (other : ℕ)
          → other < g.cluster_count + 2
          → read_sector dev v' (g.reserved_sectors + other * 4 / 512)
            ≡ read_sector dev v (g.reserved_sectors + other * 4 / 512) =
        λ other h.
          let (found, low) =
            entry_sector-ok dev Valid law g (dev.sector_count v.disk) other r.fits h in
          let one : 1 * g.sectors_per_fat ≤ g.fat_count * g.sectors_per_fat =
            mul-le-mul_right g.sectors_per_fat r.fits.tables in
          same (g.reserved_sectors + other * 4 / 512)
            (omega (arith, low, one, r.fits.start, p.after_tables)) in
      (
        v',
        ground (arith, p.has_lba, e),
        r',
        λ other h.
            let (found, low) =
              entry_sector-ok dev Valid law g (dev.sector_count v.disk) other r.fits h in
            ground (arith, found, entry other h),
      )

  -- The cluster was free, and is the end of a chain; all other entries are as they were.
  pub record Allocated (v v' : Volume S) (cluster : ℕ) : Type 0 where
    pub lower : 2 ≤ cluster
    pub upper : cluster < g.cluster_count + 2
    pub was_free : fat_entry dev g v cluster ≡ ok 0
    pub ends : fat_entry dev g v' cluster ≡ ok 0x0fff_ffff
    pub others :
        (other : ℕ)
        → other ≢ cluster
        → other < g.cluster_count + 2
        → fat_entry dev g v' other ≡ fat_entry dev g v other
    pub ready : Ready dev Valid g v'

  claim-Allocated :
      (v : Volume S) (cluster : ℕ)
      → Ready dev Valid g v
      → 2 ≤ cluster
      → cluster < g.cluster_count + 2
      → fat_entry dev g v cluster ≡ ok 0
      → (v' : Volume S) × (claim dev g v cluster ≡ (v', ok cluster)) × Allocated v v' cluster
  unfolding claim fat_entry read_sector
  claim-Allocated v cluster r lo hi free =
      let (v1, e1, r1, set_to, others) =
        fat_entry-set_fat_entry dev Valid law g v cluster 0x0fff_ffff r hi in
      let (v2, e2, r2, same) = zero_cluster-Ready v1 cluster r1 lo hi in
      let after : Volume S = record v2 {
        next_free_hint = if cluster == g.cluster_count + 1 then 2 else cluster + 1;
      } in
      (
        after,
        ground (arith, e1, e2),
        record {
          lower = lo;
          upper = hi;
          was_free = free;
          ends = same cluster hi ∙ set_to;
          others = λ other n h. same other h ∙ others other n h;
          ready = record { device = r2.device; fits = r2.fits; small = r2.small; sized = r2.sized };
        },
      )

  entry_readable :
      (v : Volume S) (cluster : ℕ)
      → Ready dev Valid g v
      → cluster < g.cluster_count + 2
      → (e : ℕ) × (fat_entry dev g v cluster ≡ ok e)
  unfolding fat_entry
  entry_readable v cluster r h =
      let (found, low) =
        entry_sector-ok dev Valid law g (dev.sector_count v.disk) cluster r.fits h in
      let one : 1 * g.sectors_per_fat ≤ g.fat_count * g.sectors_per_fat =
        mul-le-mul_right g.sectors_per_fat r.fits.tables in
      let (w, e, n) =
        read_step dev Valid law g v (g.reserved_sectors + cluster * 4 / 512) r
          (omega (arith, low, one, r.fits.start, r.fits.data_fits)) in
      (u32le w (cluster * 4 % 512) % 0x1000_0000, ground (arith, found, e))

  -- The cluster of a round.
  abbrev pub candidate : ℕ → ℕ → ℕ
  candidate start step = 2 + (start - 2 + step) % g.cluster_count

  search-Allocated :
      (left step start : ℕ) (v : Volume S)
      → Ready dev Valid g v
      → ((v' : Volume S) × (cluster : ℕ) × (search dev g left step v start ≡ (v', ok cluster))
          × Allocated v v' cluster)
        ⊎ ((search dev g left step v start ≡ (v, err no_space))
            × ((k : ℕ) → step ≤ k → k < step + left → fat_entry dev g v (candidate start k) ≢ ok 0))
  unfolding search
  search-Allocated zero step start v r = inr (refl, λ k a b. absurd (omega arith))
  search-Allocated (suc left) step start v r =
      let cluster = candidate start step in
      let below = mod-lt (start - 2 + step) r.fits.some_cluster in
      let lo : 2 ≤ cluster = omega arith in
      let hi : cluster < g.cluster_count + 2 = omega (arith, below) in
      let (e, there) = entry_readable v cluster r hi in
      elim (ℕ_discrete e 0) [
        | yes z ↦
            let (v', c, a) = claim-Allocated v cluster r lo hi (there ∙ ap ok z) in
            inl (v', cluster, ground (arith, there, z, c), a)
        | no n ↦ elim (search-Allocated left (step + 1) start v r) [
          | inl (v', c, k, a) ↦ inl (v', c, ground (arith, there, n, k), a)
          | inr (k, none_free) ↦ inr (
            ground (arith, there, n, k),
            λ i a b. elim (ℕ_discrete i step) [
              | no m ↦ none_free i (omega arith) (omega arith)
              | yes m ↦ λ h. n (ground (arith, there, h, m))
            ],
          )
        ]
      ]

  -- Every cluster is the candidate of a round.
  reached :
      (start cluster : ℕ)
      → 2 ≤ start
      → start ≤ g.cluster_count + 1
      → 2 ≤ cluster
      → cluster < g.cluster_count + 2
      → (k : ℕ) × (k < g.cluster_count) × (candidate start k ≡ cluster)
  reached start cluster a b lo hi = elim (dec_lt cluster start) [
    | no n ↦
        let sum : start - 2 + (cluster - start) ≡ cluster - 2 = omega arith in
        let small : cluster - 2 < g.cluster_count = omega arith in
        let back : (cluster - 2) % g.cluster_count ≡ cluster - 2 = mod-eq_of_lt small in
        (
          cluster - start,
          omega arith,
          ap (λ x. 2 + x % g.cluster_count) sum ∙ ap (λ x. 2 + x) back ∙ omega arith,
        )
    | yes y ↦
        let sum : start - 2 + (cluster + g.cluster_count - start) ≡ cluster - 2 + g.cluster_count =
          omega arith in
        let small : cluster - 2 < g.cluster_count = omega arith in
        let back : (cluster - 2) % g.cluster_count ≡ cluster - 2 = mod-eq_of_lt small in
        (
          cluster + g.cluster_count - start,
          omega arith,
          ap (λ x. 2 + x % g.cluster_count) sum
              ∙ ap (λ x. 2 + x) (add-mod_right (cluster - 2) g.cluster_count ∙ back)
              ∙ omega arith,
        )
  ]

  -- On a device that keeps what is written, and a volume that fits it, `allocate_cluster` either
  -- returns a cluster of the volume whose entry was free, gives it the mark of an end of a chain and
  -- changes no other entry, and the volume still fits; or every cluster is in use, it returns
  -- `NoSpace`, and the volume is as it was.
  pub allocate_cluster-Allocated :
      (v : Volume S)
      → Ready dev Valid g v
      → ((v' : Volume S) × (cluster : ℕ) × (allocate_cluster dev g v ≡ (v', ok cluster))
          × Allocated v v' cluster)
        ⊎ ((allocate_cluster dev g v ≡ (v, err no_space))
            × ((cluster : ℕ)
                → 2 ≤ cluster
                → cluster < g.cluster_count + 2
                → fat_entry dev g v cluster ≢ ok 0))
  unfolding allocate_cluster
  allocate_cluster-Allocated v r =
      let start = min (max v.next_free_hint 2) (g.cluster_count + 1) in
      elim (search-Allocated g.cluster_count 0 start v r) [
        | inl a ↦ inl a
        | inr (k, none_free) ↦ inr (
          k,
          λ cluster lo hi h.
              let (i, below, at) =
                reached start cluster (omega (arith, r.fits.some_cluster)) (omega arith) lo hi in
              none_free i (omega arith) (omega arith) (ap (fat_entry dev g v) at ∙ h),
        )
      ]
