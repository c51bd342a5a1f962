-- ===== src/Partition/Bounds.antt =====
-- Where the partitions lie that `scan` of src/partition.rs finds.
use eonos.Prelude.{
  ℕ, zero, suc, ◌+◌, ◌-◌, ◌*◌, ◌/◌, ◌^◌, ◌<◌, ◌≤◌, ◌≡◌, min, subst, List, [], ◌∷◌, ◌++◌, Bool, true,
  false, ◌||◌, ◌==◌, get_or, take, drop, All, All-append, arith, Bool-cases, inl, inr, some,
}
use eonos.Prelude.Results.{ok, Result-cases}
use eonos.Block.{BlockDevice, sector_size, partition_device, new_partition}
use eonos.Partition.{
  Partition, mbr, gpt, u32le, u64le, mbr_entries, gpt_entries, all_zero, read_table, gpt_table,
  gpt_header, scan_gpt, scan_mbr, scan,
}

-- A partition inside a device of `count` sectors, behind the first one.
pub record Inside (count : ℕ) (p : Partition) : Type 0 where
  pub behind : 0 < p.start_lba
  pub nonempty : 0 < p.sectors
  pub upto : p.start_lba + p.sectors ≤ count

-- One turn of the MBR loop goes on with the same list or with one partition more.
data MbrTurn (n index count : ℕ) (sector : List ℕ) (b : Bool) (parts : List Partition)
    (out : Bool × List Partition) : Type 0 where
  same :
      (b' : Bool)
      → mbr_entries n (index + 1) count sector (b', parts) ≡ ok out
      → MbrTurn n index count sector b parts out
  more :
      (p : Partition)
      → Inside count p
      → mbr_entries n (index + 1) count sector (b, parts ++ (p ∷ [])) ≡ ok out
      → MbrTurn n index count sector b parts out

mbr_entries-MbrTurn :
    (n index count : ℕ) (sector : List ℕ) (b : Bool) (parts : List Partition)
    (out : Bool × List Partition)
    → mbr_entries (suc n) index count sector (b, parts) ≡ ok out
    → MbrTurn n index count sector b parts out
unfolding mbr_entries
mbr_entries-MbrTurn n index count sector b parts out h =
    let at = 446 + index * 16 in
    let kind = get_or sector (at + 4) 0 in
    let start = u32le sector (at + 8) in
    let sectors = u32le sector (at + 12) in
    elim (Bool-cases (kind == 0 || sectors == 0)) [
      | inl e ↦ same b (ground arith)
      | inr e ↦ elim (Bool-cases (kind == 0xee)) [
        | inl f ↦ same true (ground arith)
        | inr f ↦ elim (Bool-cases (kind == 0x05 || kind == 0x0f || kind == 0x85)) [
          | inl g ↦ same b (ground arith)
          | inr g ↦
              more
                (record {
                  index = index + 1;
                  start_lba = start;
                  sectors = sectors;
                  type_tag = kind;
                  table = mbr;
                })
                (record { behind = ground arith; nonempty = ground arith; upto = ground arith })
                (ground arith)
        ]
      ]
    ]

mbr_entries-Inside :
    (n index count : ℕ) (sector : List ℕ) (b : Bool) (parts : List Partition)
    (out : Bool × List Partition)
    → All (Inside count) parts
    → mbr_entries n index count sector (b, parts) ≡ ok out
    → All (Inside count) out.1
unfolding mbr_entries
mbr_entries-Inside zero index count sector b parts out a h =
    let e : (b, parts) ≡ out = ground arith in subst (λ o. All (Inside count) o.1) e a
mbr_entries-Inside (suc n) index count sector b parts out a h =
    elim (mbr_entries-MbrTurn n index count sector b parts out h) [
      | same b' g ↦ mbr_entries-Inside n (index + 1) count sector b' parts out a g
      | more p i g ↦
          mbr_entries-Inside n (index + 1) count sector b (parts ++ (p ∷ [])) out
            (All-append (Inside count) parts (p ∷ []) a (i, tt)) g
    ]

gpt_entries-Inside :
    (n i entry_size count : ℕ) (raw : List ℕ) (parts out : List Partition)
    → All (Inside count) parts
    → gpt_entries n i entry_size count raw parts ≡ ok out
    → All (Inside count) out
unfolding gpt_entries
gpt_entries-Inside zero i entry_size count raw parts out a h =
    let e : parts ≡ out = ground arith in subst (All (Inside count)) e a
gpt_entries-Inside (suc n) i entry_size count raw parts out a h =
    let at = i * entry_size in
    let first = u64le raw (at + 32) in
    let last = u64le raw (at + 40) in
    let p : Partition = record {
      index = i + 1;
      start_lba = first;
      sectors = last - first + 1;
      type_tag = u32le raw at;
      table = gpt;
    } in
    elim (Bool-cases (all_zero (take 16 (drop at raw)))) [
      | inl e ↦ gpt_entries-Inside n (i + 1) entry_size count raw parts out a (ground arith)
      | inr e ↦
          gpt_entries-Inside n (i + 1) entry_size count raw (parts ++ (p ∷ [])) out
            (All-append (Inside count) parts (p ∷ []) a
              (record { behind = ground arith; nonempty = omega arith; upto = ground arith }, tt))
            (ground arith)
    ]

module _ {S : Type 0} (device : BlockDevice S) (s : S) where
  gpt_table-Inside :
      (lba entries entry_size crc : ℕ) (out : List Partition)
      → gpt_table device s lba entries entry_size crc ≡ ok out
      → All (Inside (device.sector_count s)) out
  unfolding gpt_table
  gpt_table-Inside lba entries entry_size crc out h =
      let total = entries * entry_size in
      elim (Result-cases (read_table device s ((total + sector_size - 1) / sector_size) lba)) [
        | inl (e, x) ↦ absurd (ground (arith, x))
        | inr (raw, x) ↦
            gpt_entries-Inside entries 0 entry_size (device.sector_count s) raw [] out tt
              (ground (arith, x))
      ]

  scan_gpt-Inside :
      (out : List Partition) → scan_gpt device s ≡ ok out → All (Inside (device.sector_count s)) out
  unfolding scan_gpt gpt_header
  scan_gpt-Inside out h = elim (Result-cases (device.read_sector s 1)) [
    | inl (e, x) ↦ absurd (ground (arith, x))
    | inr (hdr, x) ↦
        gpt_table-Inside (u64le hdr 72) (min (u32le hdr 80) 4096) (u32le hdr 84) (u32le hdr 88) out
          (ground (arith, x))
  ]

  scan_mbr-Inside :
      (sector : List ℕ) (out : List Partition)
      → scan_mbr device s sector ≡ ok out
      → All (Inside (device.sector_count s)) out
  unfolding scan_mbr
  scan_mbr-Inside sector out h =
      elim (Result-cases (mbr_entries 4 0 (device.sector_count s) sector (false, []))) [
        | inl (e, x) ↦ absurd (ground (arith, x))
        | inr ((protective, parts), x) ↦ elim (Bool-cases protective) [
          | inl p ↦ scan_gpt-Inside out (ground (arith, x, p))
          | inr p ↦
              let e : parts ≡ out = ground (arith, x, p) in
              subst (All (Inside (device.sector_count s))) e (
                mbr_entries-Inside 4 0 (device.sector_count s) sector false [] (protective, parts)
                  tt x)
        ]
      ]

  -- Every partition that `scan` reports, from an MBR or from a GPT, has a sector, starts behind the
  -- first sector of the device and ends on the device.
  pub scan-Inside :
      (out : List Partition) → scan device s ≡ ok out → All (Inside (device.sector_count s)) out
  unfolding scan
  scan-Inside out h = elim (Result-cases (device.read_sector s 0)) [
    | inl (e, x) ↦ absurd (ground (arith, x))
    | inr (sector, x) ↦ scan_mbr-Inside sector out (ground (arith, x))
  ]

  openable :
      (l : List Partition)
      → device.sector_count s < 2 ^ 64
      → All (Inside (device.sector_count s)) l
      → All
          (λ p.
            new_partition device s p.start_lba p.sectors
            ≡ some (partition_device device p.start_lba p.sectors))
          l
  unfolding new_partition
  openable [] small a = tt
  openable (p ∷ l) small a = (ground (arith, a.0.nonempty, a.0.upto, small), openable l small a.1)

  -- Every partition that `scan` reports can be opened: `PartitionDevice::new` on its start and size
  -- returns a device, if the number of sectors of the disk is a 64-bit number.
  pub scan-new_partition :
      (out : List Partition)
      → device.sector_count s < 2 ^ 64
      → scan device s ≡ ok out
      → All
          (λ p.
            new_partition device s p.start_lba p.sectors
            ≡ some (partition_device device p.start_lba p.sectors))
          out
  scan-new_partition out small h = openable out small (scan-Inside out h)
