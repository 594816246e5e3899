-- ===== src/BootSector.antt =====
-- src/boot_sector.rs: the boot sector, its checks and its parsing; and what src/file_system.rs keeps
-- of it (`FileSystemDetails`), with the address of a cluster and its inverse
-- (src/directory_entry.rs, `new_from_file_details`).
pub mod Bounds
mod Tests
use exfat_slim.Base.{
  ℕ, ◌+◌, ◌-◌, ◌*◌, ◌/◌, ◌%◌, ◌^◌, Bool, true, false, ◌&&◌, ◌||◌, not, List, [], ◌∷◌, bit_and, ltb,
  leb, ◌==◌, if◌then◌else◌,
}
use exfat_slim.Word.{u32, byte_at, read_u16_le, read_u32_le, read_u64_le}
use exfat_slim.Error.{
  Result, ok, err, ExFatError, BootSectorError, invalid_jump_boot, invalid_file_system_name,
  invalid_boot_signature, invalid_bytes_per_sector_shift, invalid_sectors_per_cluster_shift,
}

pub record BootSector : Type 0 where
  pub partition_offset : ℕ
  pub volume_length : ℕ
  pub fat_offset : ℕ
  pub fat_length : ℕ
  pub cluster_heap_offset : ℕ
  pub cluster_count : ℕ
  pub first_cluster_of_root_dir : ℕ
  pub volume_serial_number : ℕ
  pub file_system_revision : ℕ
  pub volume_flags : ℕ
  pub bytes_per_sector : ℕ
  pub sectors_per_cluster : ℕ
  pub number_of_fats : ℕ
  pub drive_select : ℕ
  pub percent_in_use : ℕ

-- `VolumeFlags::from_bits_truncate`: the three flags that are declared.
abbrev pub volume_flags_of : ℕ → ℕ
volume_flags_of bits = bit_and bits 7

-- `value[3..11]` is the text "EXFAT   ": its bytes are those of the text, which are valid UTF-8.
abbrev pub is_file_system_name : List ℕ → Bool
is_file_system_name value =
    byte_at value 3 == 0x45
    && byte_at value 4 == 0x58
    && byte_at value 5 == 0x46
    && byte_at value 6 == 0x41
    && byte_at value 7 == 0x54
    && byte_at value 8 == 0x20
    && byte_at value 9 == 0x20
    && byte_at value 10 == 0x20

-- `BootSector::check_is_valid`, with the rest of `try_from` in place of `Ok(())`.
unfoldable pub check_is_valid :
    List ℕ → Result BootSectorError BootSector → Result BootSectorError BootSector
check_is_valid value rest =
    if not (byte_at value 0 == 0xeb)
      || (not (byte_at value 1 == 0x76) || not (byte_at value 2 == 0x90))
    then err invalid_jump_boot
    else if not (is_file_system_name value)
    then err invalid_file_system_name
    else if not (byte_at value 510 == 0x55) || not (byte_at value 511 == 0xaa)
    then err invalid_boot_signature
    else rest

-- `BootSector::try_from`, of the bytes of a sector.
unfoldable pub try_from : List ℕ → Result BootSectorError BootSector
unfolding check_is_valid
try_from value =
    let bytes_per_sector_shift = byte_at value 108 in
    let sectors_per_cluster_shift = byte_at value 109 in
    check_is_valid value (
      if not (leb 9 bytes_per_sector_shift && leb bytes_per_sector_shift 12)
      then err (invalid_bytes_per_sector_shift bytes_per_sector_shift)
      else if ltb 25 (bytes_per_sector_shift + sectors_per_cluster_shift)
      then err (invalid_sectors_per_cluster_shift sectors_per_cluster_shift)
      else ok (record {
        partition_offset = read_u64_le 64 value;
        volume_length = read_u64_le 72 value;
        fat_offset = read_u32_le 80 value;
        fat_length = read_u32_le 84 value;
        cluster_heap_offset = read_u32_le 88 value;
        cluster_count = read_u32_le 92 value;
        first_cluster_of_root_dir = read_u32_le 96 value;
        volume_serial_number = read_u32_le 100 value;
        file_system_revision = read_u16_le 104 value;
        volume_flags = volume_flags_of (read_u16_le 106 value);
        bytes_per_sector = 2 ^ bytes_per_sector_shift;
        sectors_per_cluster = 2 ^ sectors_per_cluster_shift;
        number_of_fats = byte_at value 110;
        drive_select = byte_at value 111;
        percent_in_use = byte_at value 112;
      }))

pub record FileSystemDetails : Type 0 where
  pub cluster_heap_offset : ℕ
  pub fat_offset : ℕ
  pub sectors_per_cluster : ℕ
  pub cluster_length : ℕ
  pub cluster_count : ℕ
  pub first_cluster_of_root_dir : ℕ

-- `FileSystemDetails::empty`.
abbrev pub empty_details : FileSystemDetails
empty_details = record {
  cluster_heap_offset = 0;
  fat_offset = 0;
  sectors_per_cluster = 64;
  cluster_length = 32768;
  cluster_count = 0;
  first_cluster_of_root_dir = 0;
}

-- `FileSystemDetails::new`.
unfoldable pub details_of : BootSector → FileSystemDetails
details_of boot_sector = record {
  cluster_heap_offset = boot_sector.cluster_heap_offset;
  fat_offset = boot_sector.fat_offset;
  sectors_per_cluster = boot_sector.sectors_per_cluster;
  cluster_length = u32 (boot_sector.bytes_per_sector * boot_sector.sectors_per_cluster);
  cluster_count = boot_sector.cluster_count;
  first_cluster_of_root_dir = boot_sector.first_cluster_of_root_dir;
}

-- `FileSystemDetails::get_heap_sector_id`.
unfoldable pub get_heap_sector_id : {E : Type 0} → FileSystemDetails → ℕ → Result (ExFatError E) ℕ
get_heap_sector_id fs cluster_id =
    if ltb cluster_id 2
    then err (ExFatError.invalid_cluster_id cluster_id)
    else ok (u32 (fs.cluster_heap_offset + u32 ((cluster_id - 2) * fs.sectors_per_cluster)))

-- The cluster and the sector within it that `DirectoryEntryChain::new_from_file_details` computes
-- from a sector of the heap.
unfoldable pub cluster_of_sector : FileSystemDetails → ℕ → ℕ × ℕ
cluster_of_sector fs sector_id =
    let sector_id_from_start = sector_id - fs.cluster_heap_offset in
    (
      2 + sector_id_from_start / fs.sectors_per_cluster,
      sector_id_from_start % fs.sectors_per_cluster,
    )
