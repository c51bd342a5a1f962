-- ===== src/Block/Laws.antt =====
-- What a client of src/block.rs relies on: the laws of a device that can be written.
use eonos.Prelude.{ℕ, ◌<◌, ◌≤◌, ◌≡◌, ◌≢◌, List}
use eonos.Prelude.Results.{ok, err}
use eonos.Block.{BlockDevice, out_of_range}

-- On the states that satisfy `Valid`: what is written is read back, other sectors stay, sectors in
-- range can be read, sectors out of range are refused.
pub record Lawful {S : Type 0} (d : BlockDevice S) (Valid : S → Type 0) : Type 0 where
  pub readable :
      (s : S) (lba : ℕ)
      → Valid s
      → lba < d.sector_count s
      → (v : List ℕ) × (d.read_sector s lba ≡ ok v)
  pub refused :
      (s : S) (lba : ℕ) → Valid s → d.sector_count s ≤ lba → d.read_sector s lba ≡ err out_of_range
  pub written :
      (s : S) (lba : ℕ) (v : List ℕ)
      → Valid s
      → lba < d.sector_count s
      → (s' : S) × (d.write_sector s lba v ≡ ok s')
  pub in_range :
      (s s' : S) (lba : ℕ) (v : List ℕ) → d.write_sector s lba v ≡ ok s' → lba < d.sector_count s
  pub valid :
      (s s' : S) (lba : ℕ) (v : List ℕ) → Valid s → d.write_sector s lba v ≡ ok s' → Valid s'
  pub read_back :
      (s s' : S) (lba : ℕ) (v : List ℕ)
      → Valid s
      → d.write_sector s lba v ≡ ok s'
      → d.read_sector s' lba ≡ ok v
  pub others :
      (s s' : S) (lba other : ℕ) (v : List ℕ)
      → Valid s
      → lba ≢ other
      → d.write_sector s lba v ≡ ok s'
      → d.read_sector s' other ≡ d.read_sector s other
  pub same_size :
      (s s' : S) (lba : ℕ) (v : List ℕ)
      → d.write_sector s lba v ≡ ok s'
      → d.sector_count s' ≡ d.sector_count s
