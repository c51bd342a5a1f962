-- ===== src/Partition.antt =====
-- MBR and GPT partition tables, src/partition.rs: `scan`, `crc32` and `scan_gpt` on a block device of
-- src/block.rs at one state of it. A sector is the list of its bytes.
pub mod Bounds
mod Tests
use Prim.Native.Nat.{bit_xor, bit_and}
use eonos.Prelude.{
  ℕ, zero, suc, ◌+◌, ◌-◌, ◌*◌, ◌/◌, ◌%◌, ◌^◌, min, List, [], ◌∷◌, ◌++◌, Bool, true, false, not,
  ◌&&◌, ◌||◌, if◌then◌else◌, ltb, leb, ◌==◌, length, get_or, take, drop, set,
}
use eonos.Prelude.Bytes.{rd}
use eonos.Prelude.Results.{Result, ok, err}
use eonos.Block.{BlockDevice, sector_size}

pub data TableKind : Type 0 where
  mbr gpt : TableKind

pub record Partition : Type 0 where
  pub index : ℕ
  pub start_lba : ℕ
  pub sectors : ℕ
  pub type_tag : ℕ
  pub table : TableKind

pub data PartitionError : Type 0 where
  io invalid_table unsupported corrupt : PartitionError

unfoldable pub u32le : List ℕ → ℕ → ℕ
unfolding rd
u32le b at = rd 4 b at

unfoldable pub u64le : List ℕ → ℕ → ℕ
unfolding rd
u64le b at = rd 8 b at

-- One turn of the inner loop of `crc32`.
unfoldable pub crc_bits : ℕ → ℕ → ℕ
crc_bits zero crc = crc
crc_bits (suc n) crc =
    crc_bits n (bit_xor (crc / 2) (bit_and 0xedb8_8320 (if crc % 2 == 1 then 0xffff_ffff else 0)))

unfoldable pub crc_bytes : List ℕ → ℕ → ℕ
unfolding crc_bits
crc_bytes [] crc = crc
crc_bytes (byte ∷ bytes) crc = crc_bytes bytes (crc_bits 8 (bit_xor crc byte))

unfoldable pub crc32 : List ℕ → ℕ
unfolding crc_bytes
crc32 bytes = bit_xor (crc_bytes bytes 0xffff_ffff) 0xffff_ffff

-- The loop over the MBR entries: `n` are left, the next is `index`; whether a protective entry was
-- seen, and the partitions.
unfoldable pub mbr_entries :
    ℕ → ℕ → ℕ → List ℕ → Bool × List Partition → Result PartitionError (Bool × List Partition)
unfolding u32le
mbr_entries zero index count sector st = ok st
mbr_entries (suc n) index count sector (protective, parts) =
    let at = 446 + index * 16 in
    let kind = get_or sector (at + 4) 0 in
    let start = u32le sector (at + 8) in
    let sectors = u32le sector (at + 12) in
    let skip = mbr_entries n (index + 1) count sector (protective, parts) in
    let protect = mbr_entries n (index + 1) count sector (true, parts) in
    let found : Partition = record {
      index = index + 1;
      start_lba = start;
      sectors = sectors;
      type_tag = kind;
      table = mbr;
    } in
    let push = mbr_entries n (index + 1) count sector (protective, parts ++ (found ∷ [])) in
    if kind == 0 || sectors == 0
    then skip
    else (if kind == 0xee
        then protect
        else (if kind == 0x05 || kind == 0x0f || kind == 0x85
            then skip
            else (if leb (2 ^ 64) (start + sectors)
                then err corrupt
                else (if start == 0 || ltb count (start + sectors) then err corrupt else push))))

unfoldable pub all_zero : List ℕ → Bool
all_zero [] = true
all_zero (b ∷ bs) = b == 0 && all_zero bs

-- The loop over the GPT entries.
unfoldable pub gpt_entries :
    ℕ → ℕ → ℕ → ℕ → List ℕ → List Partition → Result PartitionError (List Partition)
unfolding u32le u64le all_zero
gpt_entries zero i entry_size count raw out = ok out
gpt_entries (suc n) i entry_size count raw out =
    let at = i * entry_size in
    let first = u64le raw (at + 32) in
    let last = u64le raw (at + 40) in
    let skip = gpt_entries n (i + 1) entry_size count raw out in
    let found : Partition = record {
      index = i + 1;
      start_lba = first;
      sectors = last - first + 1;
      type_tag = u32le raw at;
      table = gpt;
    } in
    let push = gpt_entries n (i + 1) entry_size count raw (out ++ (found ∷ [])) in
    if all_zero (take 16 (drop at raw))
    then skip
    else (if ltb last first || first == 0 || leb count last then err corrupt else push)

unfoldable pub is_efi_part : List ℕ → Bool
is_efi_part b = u32le b 0 == 0x2049_4645 && u32le b 4 == 0x5452_4150

module _ {S : Type 0} (device : BlockDevice S) (s : S) where
  -- The sectors of the table one behind the other: `n` are left, the next is `lba`.
  unfoldable pub read_table : ℕ → ℕ → Result PartitionError (List ℕ)
  read_table zero lba = ok []
  read_table (suc n) lba = elim (device.read_sector s lba) [
    | err e ↦ err io
    | ok sector ↦ elim (read_table n (lba + 1)) [ err e ↦ err e | ok rest ↦ ok (sector ++ rest) ]
  ]

  -- `scan_gpt` from the table on.
  unfoldable pub gpt_table : ℕ → ℕ → ℕ → ℕ → Result PartitionError (List Partition)
  unfolding read_table gpt_entries crc32
  gpt_table table_lba entries entry_size crc =
      let total_bytes = entries * entry_size in
      let sectors = (total_bytes + sector_size - 1) / sector_size in
      let table : Result PartitionError (List Partition) = elim (read_table sectors table_lba) [
        | err e ↦ err e
        | ok raw ↦
            if not (crc32 (take total_bytes raw) == crc)
            then err corrupt
            else gpt_entries entries 0 entry_size (device.sector_count s) raw []
      ] in
      if leb (2 ^ 64) (table_lba + sectors) || ltb (device.sector_count s) (table_lba + sectors)
      then err corrupt
      else table

  -- `scan_gpt` on the header sector.
  unfoldable pub gpt_header : List ℕ → Result PartitionError (List Partition)
  unfolding gpt_table crc32 is_efi_part u32le u64le
  gpt_header hdr =
      let header_size = u32le hdr 12 in
      let crc_hdr = set (set (set (set hdr 16 0) 17 0) 18 0) 19 0 in
      let entries = min (u32le hdr 80) 4096 in
      let entry_size = u32le hdr 84 in
      if not (is_efi_part hdr)
      then err invalid_table
      else (if ltb header_size 92 || ltb sector_size header_size
          then err corrupt
          else (if not (crc32 (take header_size crc_hdr) == u32le hdr 16)
              then err corrupt
              else (if ltb entry_size 128
                    || ltb 4096 entry_size
                    || not (entry_size % 8 == 0)
                    || entries == 0
                  then err unsupported
                  else gpt_table (u64le hdr 72) entries entry_size (u32le hdr 88))))

  unfoldable pub scan_gpt : Result PartitionError (List Partition)
  unfolding gpt_header
  scan_gpt = elim (device.read_sector s 1) [ err e ↦ err io | ok hdr ↦ gpt_header hdr ]

  -- `scan` on the first sector.
  unfoldable pub scan_mbr : List ℕ → Result PartitionError (List Partition)
  unfolding mbr_entries scan_gpt
  scan_mbr sector =
      let found : Result PartitionError (List Partition) =
        elim (mbr_entries 4 0 (device.sector_count s) sector (false, [])) [
          | err e ↦ err e
          | ok (protective, parts) ↦ if not protective then ok parts else scan_gpt
        ] in
      if not (get_or sector 510 0 == 0x55 && get_or sector 511 0 == 0xaa)
      then err invalid_table
      else found

  unfoldable pub scan : Result PartitionError (List Partition)
  unfolding scan_mbr
  scan =
      let first : Result PartitionError (List Partition) = elim (device.read_sector s 0) [
        | err e ↦ err io
        | ok sector ↦ scan_mbr sector
      ] in
      if ltb (device.sector_count s) 2 then err invalid_table else first
