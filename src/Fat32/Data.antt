-- ===== src/Fat32/Data.antt =====
-- The data of a chain in src/fat32.rs: `write_chain_range`, `write_zero_range`, and `read_at` from
-- the directory entry on. A loop has `fuel` rounds, of which each but the last takes a byte or
-- more; where they were used up, the result is `Corrupt`.
use eonos.Prelude.{
  ℕ, zero, suc, ◌+◌, ◌-◌, ◌*◌, ◌/◌, ◌%◌, min, List, [], ◌∷◌, ◌++◌, Bool, ◌||◌, none, some,
  if◌then◌else◌, ltb, leb, ◌==◌, length, get_or, take, drop, replicate,
}
use eonos.Prelude.Results.{Result, ok, err, and_then}
use eonos.Block.{BlockDevice, sector_size}
use eonos.Fat32.{
  Geometry, Volume, FatError, corrupt, is_directory, store, read_sector, write_sector, cluster_lba,
  read_cluster, next_cluster,
}
use eonos.Fat32.Write.{Run, then_run}

abbrev pub max_chain_steps : ℕ
max_chain_steps = 1_000_000

module _ {S : Type 0} (dev : BlockDevice S) (g : Geometry) where
  unfoldable pub write_chain_range : ℕ → Volume S → List ℕ → ℕ → List ℕ → Run S Unit
  unfolding cluster_lba read_sector write_sector
  write_chain_range fuel v chain offset [] = (v, ok tt)
  write_chain_range zero v chain offset (b ∷ bs) = (v, err corrupt)
  write_chain_range (suc fuel) v chain offset (b ∷ bs) =
      let size = g.sectors_per_cluster * sector_size in
      let ci = offset / size in
      let in_cluster = offset % size in
      let in_sector = in_cluster % sector_size in
      let n = min (length (b ∷ bs)) (sector_size - in_sector) in
      let written : Run S Unit =
        then_run (v, cluster_lba g (get_or chain ci 0))
          (λ v1 first.
            then_run (v1, read_sector dev v1 (first + in_cluster / sector_size))
              (λ v2 sector.
                then_run
                  (write_sector dev v2 (first + in_cluster / sector_size)
                    (store sector in_sector (take n (b ∷ bs))))
                  (λ v3 t. write_chain_range fuel v3 chain (offset + n) (drop n (b ∷ bs))))) in
      if leb (length chain) ci then (v, err corrupt) else written

  unfoldable pub write_zero_range : ℕ → Volume S → List ℕ → ℕ → ℕ → Run S Unit
  unfolding write_chain_range
  write_zero_range zero v chain offset len = if len == 0 then (v, ok tt) else (v, err corrupt)
  write_zero_range (suc fuel) v chain offset len =
      let n = min len (sector_size - offset % sector_size) in
      let written : Run S Unit =
        then_run (write_chain_range n v chain offset (replicate n 0))
          (λ v1 t. write_zero_range fuel v1 chain (offset + n) (len - n)) in
      if len == 0 then (v, ok tt) else written

  -- `self.next_cluster(cluster)?.ok_or(FatError::Corrupt)?`.
  unfoldable pub next_or_corrupt : Volume S → ℕ → Result FatError ℕ
  unfolding next_cluster
  next_or_corrupt v cluster =
      and_then (next_cluster dev g v cluster)
        (λ next. elim next [ none ↦ err corrupt | some c ↦ ok c ])

  -- The first loop of `read_at`: the cluster, and the steps so far.
  unfoldable pub skip_clusters : ℕ → Volume S → ℕ → ℕ → Result FatError (ℕ × ℕ)
  unfolding next_or_corrupt
  skip_clusters zero v cluster steps = ok (cluster, steps)
  skip_clusters (suc skip) v cluster steps = and_then (next_or_corrupt v cluster) (λ next.
      if ltb max_chain_steps (steps + 1)
      then err corrupt
      else skip_clusters skip v next (steps + 1))

  -- The second loop: `out` is what is copied.
  unfoldable pub read_loop : ℕ → Volume S → ℕ → ℕ → ℕ → ℕ → List ℕ → Result FatError (List ℕ)
  unfolding read_cluster next_or_corrupt
  read_loop zero v cluster steps in_cluster wanted out =
      if leb wanted (length out) then ok out else err corrupt
  read_loop (suc fuel) v cluster steps in_cluster wanted out =
      let size = g.sectors_per_cluster * sector_size in
      let n = min (wanted - length out) (size - in_cluster) in
      let round : Result FatError (List ℕ) = and_then (read_cluster dev g v cluster) (λ bytes.
        let more = out ++ take n (drop in_cluster bytes) in
        if ltb (length out + n) wanted
        then and_then (next_or_corrupt v cluster)
            (λ next. read_loop fuel v next (steps + 1) 0 wanted more)
        else ok more) in
      if leb wanted (length out)
      then ok out
      else if leb max_chain_steps steps
      then err corrupt
      else round

  -- `read_at` behind `resolve`, which gives whether the entry is a directory, its size and its
  -- cluster.
  unfoldable pub read_resolved : Volume S → Bool → ℕ → ℕ → ℕ → ℕ → Result FatError (List ℕ)
  unfolding skip_clusters read_loop
  read_resolved v is_dir size cluster offset len =
      let bytes = g.sectors_per_cluster * sector_size in
      let wanted = min len (size - offset) in
      let copied : Result FatError (List ℕ) =
        and_then (skip_clusters (offset / bytes) v cluster 0)
          (λ at. read_loop (suc wanted) v at.0 at.1 (offset % bytes) wanted []) in
      if is_dir then err is_directory else if leb size offset || len == 0 then ok [] else copied
