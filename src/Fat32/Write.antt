-- ===== src/Fat32/Write.antt =====
-- The functions of src/fat32.rs that write the table and the clusters.
use eonos.Prelude.{
  ℕ, zero, suc, ◌+◌, ◌-◌, ◌*◌, ◌/◌, ◌%◌, min, max, List, [], ◌∷◌, ◌++◌, true, ◌&&◌, none, some,
  if◌then◌else◌, ltb, ◌==◌, length, get_or, drop, replicate,
}
use eonos.Prelude.Results.{Result, ok, err}
use eonos.Block.{BlockDevice, sector_size}
use eonos.Fat32.{
  Geometry, Volume, FatError, no_space, u32le, le_bytes, store, read_sector, write_sector,
  entry_sector, cluster_lba, fat_entry,
}

abbrev pub Run : Type 0 → Type 0 → Type 0
Run S A = Volume S × Result {0, 0} FatError A

-- The operator `?` after a function that writes.
abbrev pub then_run : {S A B : Type 0} → Run S A → (Volume S → A → Run S B) → Run S B
then_run (v, ok a) f = f v a
then_run (v, err e) f = (v, err e)

-- `if let Err(error) = ..`, with what the source does before it returns the error.
abbrev pub or_undo :
    {S A B : Type 0} → Run S A → (Volume S → Volume S) → (Volume S → A → Run S B) → Run S B
or_undo (v, ok a) undo f = f v a
or_undo (v, err e) undo f = (undo v, err e)

-- The free count and the hint in the sector, both set to unknown.
abbrev pub no_hints : List ℕ → List ℕ
no_hints sector = store (store sector 488 (le_bytes 0xffff_ffff)) 492 (le_bytes 0xffff_ffff)

-- The new word: the upper four bits stay.
unfoldable pub new_word : List ℕ → ℕ → ℕ → List ℕ
unfolding u32le
new_word sector at value =
    store sector at (le_bytes (u32le sector at / 0x1000_0000 * 0x1000_0000 + value % 0x1000_0000))

module _ {S : Type 0} (dev : BlockDevice S) (g : Geometry) where
  abbrev done : Volume S → Run S Unit
  done v = (v, ok tt)

  abbrev invalidated : Volume S → Volume S
  invalidated v = record v { fsinfo_invalidated = true }

  unfoldable pub invalidate_fsinfo_hint : Volume S → Run S Unit
  unfolding read_sector write_sector u32le
  invalidate_fsinfo_hint v =
      let at_sector : Run S Unit = elim g.fsinfo_sector [
        | none ↦ done (invalidated v)
        | some sector_no ↦
            then_run (v, read_sector dev v sector_no)
              (λ v1 sector.
                if u32le sector 0 == 0x4161_5252
                  && u32le sector 484 == 0x6141_7272
                  && u32le sector 508 == 0xaa55_0000
                then then_run (write_sector dev v1 sector_no (no_hints sector))
                    (λ v2 t. done (invalidated v2))
                else done (invalidated v1))
      ] in
      if v.fsinfo_invalidated then done v else at_sector

  -- The loop of `set_fat_entry` over the copies of the table.
  unfoldable pub set_copies : ℕ → ℕ → Volume S → ℕ → ℕ → ℕ → Run S Unit
  unfolding read_sector write_sector new_word
  set_copies zero fat v sector_in_fat at value = done v
  set_copies (suc left) fat v sector_in_fat at value =
      let lba = g.reserved_sectors + fat * g.sectors_per_fat + sector_in_fat in
      then_run (v, read_sector dev v lba)
        (λ v1 sector.
          then_run (write_sector dev v1 lba (new_word sector at value))
            (λ v2 t. set_copies left (fat + 1) v2 sector_in_fat at value))

  unfoldable pub set_fat_entry : Volume S → ℕ → ℕ → Run S Unit
  unfolding entry_sector invalidate_fsinfo_hint set_copies
  set_fat_entry v cluster value =
      then_run (v, entry_sector g cluster)
        (λ v1 sector_in_fat.
          then_run (invalidate_fsinfo_hint v1)
            (λ v2 t. set_copies g.fat_count 0 v2 sector_in_fat (cluster * 4 % sector_size) value))

  unfoldable pub zero_sectors : ℕ → Volume S → ℕ → Run S Unit
  unfolding write_sector
  zero_sectors zero v lba = done v
  zero_sectors (suc left) v lba =
      then_run (write_sector dev v lba (replicate sector_size 0))
        (λ v1 t. zero_sectors left v1 (lba + 1))

  unfoldable pub zero_cluster : Volume S → ℕ → Run S Unit
  unfolding cluster_lba zero_sectors
  zero_cluster v cluster =
      then_run (v, cluster_lba g cluster) (λ v1 first. zero_sectors g.sectors_per_cluster v1 first)

  -- What `allocate_cluster` does with a free cluster.
  unfoldable pub claim : Volume S → ℕ → Run S ℕ
  unfolding set_fat_entry zero_cluster
  claim v cluster = then_run (set_fat_entry v cluster 0x0fff_ffff) (λ v1 t.
      or_undo (zero_cluster v1 cluster) (λ v2. (set_fat_entry v2 cluster 0).0)
        (λ v2 t. (
          record v2 { next_free_hint = if cluster == g.cluster_count + 1 then 2 else cluster + 1 },
          ok cluster,
        )))

  -- The loop of `allocate_cluster`: `left` rounds are left.
  unfoldable pub search : ℕ → ℕ → Volume S → ℕ → Run S ℕ
  unfolding fat_entry claim
  search zero step v start = (v, err no_space)
  search (suc left) step v start =
      let cluster = 2 + (start - 2 + step) % g.cluster_count in
      then_run (v, fat_entry dev g v cluster)
        (λ v1 entry. if entry == 0 then claim v1 cluster else search left (step + 1) v1 start)

  unfoldable pub allocate_cluster : Volume S → Run S ℕ
  unfolding search
  allocate_cluster v =
      search g.cluster_count 0 v (min (max v.next_free_hint 2) (g.cluster_count + 1))

  unfoldable pub release_chain : Volume S → List ℕ → Run S Unit
  unfolding set_fat_entry
  release_chain v [] = done v
  release_chain v (cluster ∷ chain) =
      then_run (set_fat_entry v cluster 0)
        (λ v1 t. release_chain (record v1 { next_free_hint = min v1.next_free_hint cluster }) chain)

  -- The volume after it, and the chain is cut back to `original_len`.
  unfoldable pub rollback_chain_growth : Volume S → List ℕ → ℕ → Volume S
  unfolding set_fat_entry release_chain
  rollback_chain_growth v chain original_len =
      let v1 =
        if ltb 0 original_len
        then (set_fat_entry v (get_or chain (original_len - 1) 0) 0x0fff_ffff).0
        else v in
      (release_chain v1 (drop original_len chain)).0

  -- The loop of `ensure_chain`: `left` clusters are missing; the result is the new ones.
  unfoldable pub grow_chain : ℕ → Volume S → List ℕ → ℕ → Run S (List ℕ)
  unfolding allocate_cluster set_fat_entry rollback_chain_growth
  grow_chain zero v chain original_len = (v, ok (drop original_len chain))
  grow_chain (suc left) v chain original_len =
      or_undo (allocate_cluster v) (λ v1. rollback_chain_growth v1 chain original_len)
        (λ v1 new_cluster.
          let linked : Run S Unit =
            if length chain == 0
            then done v1
            else set_fat_entry v1 (get_or chain (length chain - 1) 0) new_cluster in
          or_undo linked
            (λ v2. rollback_chain_growth (set_fat_entry v2 new_cluster 0).0 chain original_len)
            (λ v2 t. grow_chain left v2 (chain ++ (new_cluster ∷ [])) original_len))

  unfoldable pub ensure_chain : Volume S → List ℕ → ℕ → Run S (List ℕ)
  unfolding grow_chain
  ensure_chain v chain needed = grow_chain (needed - length chain) v chain (length chain)
