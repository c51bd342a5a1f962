-- ===== src/Block/Confine.antt =====
-- `PartitionDevice` of src/block.rs and the range of its parent that it opens.
use eonos.Prelude.{ℕ, ◌+◌, ◌^◌, ◌<◌, ◌≤◌, ◌≡◌, ◌⊎◌, refl, List, some, arith}
use eonos.Prelude.Results.{ok}
use eonos.Block.{BlockDevice, partition_device, new_partition}
use eonos.Block.Laws.{Lawful}

module _ {S : Type 0} (d : BlockDevice S) (Valid : S → Type 0) (law : Lawful d Valid) where
  -- The states in which the partition lies inside its parent.
  pub record Fits (start_lba sectors : ℕ) (s : S) : Type 0 where
    pub is_valid : Valid s
    pub inside : start_lba + sectors ≤ d.sector_count s

  -- A partition of a lawful device that lies inside it is itself a lawful device.
  pub partition_device-Lawful :
      (start_lba sectors : ℕ)
      → Lawful (partition_device d start_lba sectors) (Fits start_lba sectors)
  unfolding partition_device
  partition_device-Lawful start_lba sectors = record {
    readable = λ s lba f h.
        let (v, e) = law.readable s (start_lba + lba) f.is_valid (omega (arith, f.inside)) in
        (v, ground (arith, e));
    refused = λ s lba f h. ground arith;
    written = λ s lba v f h.
        let (s', e) = law.written s (start_lba + lba) v f.is_valid (omega (arith, f.inside)) in
        (s', ground (arith, e));
    in_range = λ s s' lba v h. ground arith;
    valid = λ s s' lba v f h.
        let w : d.write_sector s (start_lba + lba) v ≡ ok s' = ground arith in
        record {
          is_valid = law.valid s s' (start_lba + lba) v f.is_valid w;
          inside = omega (arith, f.inside, law.same_size s s' (start_lba + lba) v w);
        };
    read_back = λ s s' lba v f h.
        let w : d.write_sector s (start_lba + lba) v ≡ ok s' = ground arith in
        ground (arith, law.read_back s s' (start_lba + lba) v f.is_valid w);
    others = λ s s' lba other v f n h.
        let w : d.write_sector s (start_lba + lba) v ≡ ok s' = ground arith in
        ground (
          arith,
          law.others s s' (start_lba + lba) (start_lba + other) v f.is_valid
              (λ e. n (omega (arith, e))) w,
        );
    same_size = λ s s' lba v h. refl;
  }

  -- A write through a partition changes no sector of the parent outside the partition, so two
  -- partitions that do not overlap never see each other's writes.
  pub partition_device-confined :
      (start_lba sectors : ℕ) (s s' : S) (lba other : ℕ) (v : List ℕ)
      → Valid s
      → (partition_device d start_lba sectors).write_sector s lba v ≡ ok s'
      → (other < start_lba) ⊎ (start_lba + sectors ≤ other)
      → d.read_sector s' other ≡ d.read_sector s other
  unfolding partition_device
  partition_device-confined start_lba sectors s s' lba other v i h away =
      let w : d.write_sector s (start_lba + lba) v ≡ ok s' = ground arith in
      let n : lba < sectors = ground arith in
      law.others s s' (start_lba + lba) other v i (λ e. ground arith) w

  -- `PartitionDevice::new` makes only partitions that fit, that have a sector and whose end is a
  -- 64-bit number, and it makes all of those.
  pub new_partition-Fits :
      (s : S) (start_lba sectors : ℕ)
      → Valid s
      → ((p : BlockDevice S)
          → new_partition d s start_lba sectors ≡ some p
          → Fits start_lba sectors s × (0 < sectors) × (p ≡ partition_device d start_lba sectors))
        × (start_lba + sectors ≤ d.sector_count s
            → d.sector_count s < 2 ^ 64
            → 0 < sectors
            → new_partition d s start_lba sectors ≡ some (partition_device d start_lba sectors))
  unfolding new_partition
  new_partition-Fits s start_lba sectors i = (
    λ p h. (record { is_valid = i; inside = ground arith }, ground arith, ground arith),
    λ a b c. ground arith,
  )
