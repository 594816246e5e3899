-- ===== src/DirEntry.antt =====
-- src/directory_entry.rs: the kinds of directory entries, their fields, and their 32 raw bytes. A
-- set of flags is its bits; `from_bits_truncate` keeps the flags that are declared.
pub mod RoundTrip
mod Tests
use exfat_slim.Base.{
  ℕ, ◌+◌, ◌-◌, ◌*◌, ◌/◌, ◌%◌, ◌^◌, Bool, true, false, List, [], ◌∷◌, replicate, set, drop, bit_and,
  ◌==◌, if◌then◌else◌,
}
use exfat_slim.Word.{
  byte_at, copy_at, to_le_bytes, from_le_bytes, read_u16_le, read_u32_le, read_u64_le,
}
use exfat_slim.Timestamp.{EncodedTimestamp}

abbrev pub raw_entry_len : ℕ
raw_entry_len = 32

-- `[0u8; RAW_ENTRY_LEN]`.
abbrev pub no_bytes : List ℕ
no_bytes = replicate 32 0

pub data EntryType : Type 0 where
  end_of_directory : EntryType
  unused : ℕ → EntryType
  allocation_bitmap : EntryType
  upcase_table : EntryType
  volume_label : EntryType
  file_and_directory : EntryType
  volume_guid : EntryType
  tex_fat_padding : EntryType
  stream_extension : EntryType
  filename : EntryType
  reserved : ℕ → EntryType

-- `EntryType::from`, the arms in order.
unfoldable pub entry_type_of : ℕ → EntryType
entry_type_of value =
    if value == 0x00
    then end_of_directory
    else if bit_and value 0x80 == 0
    then unused value
    else if value == 0x81
    then allocation_bitmap
    else if value == 0x82
    then upcase_table
    else if value == 0x83
    then volume_label
    else if value == 0x85
    then file_and_directory
    else if value == 0xA0
    then volume_guid
    else if value == 0xA1
    then tex_fat_padding
    else if value == 0xC0
    then stream_extension
    else if value == 0xC1
    then filename
    else reserved value

-- `EntryType::serialize`.
abbrev pub serialize_type : EntryType → ℕ
serialize_type end_of_directory = 0x00
serialize_type (unused x) = x
serialize_type allocation_bitmap = 0x81
serialize_type upcase_table = 0x82
serialize_type volume_label = 0x83
serialize_type file_and_directory = 0x85
serialize_type volume_guid = 0xA0
serialize_type tex_fat_padding = 0xA1
serialize_type stream_extension = 0xC0
serialize_type filename = 0xC1
serialize_type (reserved x) = x

abbrev pub bitmap_flags_of : ℕ → ℕ
bitmap_flags_of bits = bit_and bits 0x01

abbrev pub general_secondary_flags_of : ℕ → ℕ
general_secondary_flags_of bits = bit_and bits 0x03

abbrev pub file_attributes_of : ℕ → ℕ
file_attributes_of bits = bit_and bits 0x37

pub record AllocationBitmapDirEntry : Type 0 where
  pub bitmap_flags : ℕ
  pub first_cluster : ℕ
  pub data_length : ℕ

pub record UpcaseTableDirEntry : Type 0 where
  pub table_checksum : ℕ
  pub first_cluster : ℕ
  pub data_length : ℕ

pub record FileDirEntry : Type 0 where
  pub secondary_count : ℕ
  pub set_checksum : ℕ
  pub file_attributes : ℕ
  pub create_timestamp : ℕ
  pub last_modified_timestamp : ℕ
  pub last_accessed_timestamp : ℕ
  pub create_10ms_increment : ℕ
  pub last_modified_10ms_increment : ℕ
  pub create_utc_offset : ℕ
  pub last_modified_utc_offset : ℕ
  pub last_accessed_utc_offset : ℕ

pub record StreamExtensionDirEntry : Type 0 where
  pub general_secondary_flags : ℕ
  pub name_length : ℕ
  pub name_hash : ℕ
  pub valid_data_length : ℕ
  pub first_cluster : ℕ
  pub data_length : ℕ

-- `FileDirEntry::serialize`.
unfoldable pub serialize_file : FileDirEntry → List ℕ
unfolding copy_at to_le_bytes
serialize_file e =
    let raw = set no_bytes 0 (serialize_type file_and_directory) in
    let raw = set raw 1 e.secondary_count in
    let raw = copy_at raw 2 (to_le_bytes 2 e.set_checksum) in
    let raw = copy_at raw 4 (to_le_bytes 2 e.file_attributes) in
    let raw = copy_at raw 8 (to_le_bytes 4 e.create_timestamp) in
    let raw = copy_at raw 12 (to_le_bytes 4 e.last_modified_timestamp) in
    let raw = copy_at raw 16 (to_le_bytes 4 e.last_accessed_timestamp) in
    let raw = set raw 20 e.create_10ms_increment in
    let raw = set raw 21 e.last_modified_10ms_increment in
    let raw = set raw 22 e.create_utc_offset in
    let raw = set raw 23 e.last_modified_utc_offset in set raw 24 e.last_accessed_utc_offset

-- `FileDirEntry::created`, `modified` and `accessed`.
abbrev pub created : FileDirEntry → EncodedTimestamp
created e = record {
  packed = e.create_timestamp;
  increment_10ms = e.create_10ms_increment;
  utc_offset = e.create_utc_offset;
}

abbrev pub modified : FileDirEntry → EncodedTimestamp
modified e = record {
  packed = e.last_modified_timestamp;
  increment_10ms = e.last_modified_10ms_increment;
  utc_offset = e.last_modified_utc_offset;
}

abbrev pub accessed : FileDirEntry → EncodedTimestamp
accessed e = record {
  packed = e.last_accessed_timestamp;
  increment_10ms = 0;
  utc_offset = e.last_accessed_utc_offset;
}

-- `StreamExtensionDirEntry::serialize`.
unfoldable pub serialize_stream : StreamExtensionDirEntry → List ℕ
unfolding copy_at to_le_bytes
serialize_stream e =
    let raw = set no_bytes 0 (serialize_type stream_extension) in
    let raw = set raw 1 e.general_secondary_flags in
    let raw = set raw 3 e.name_length in
    let raw = copy_at raw 4 (to_le_bytes 2 e.name_hash) in
    let raw = copy_at raw 8 (to_le_bytes 8 e.valid_data_length) in
    let raw = copy_at raw 20 (to_le_bytes 4 e.first_cluster) in
    copy_at raw 24 (to_le_bytes 8 e.data_length)

-- The conversions from 32 bytes.
unfoldable pub parse_bitmap : List ℕ → AllocationBitmapDirEntry
parse_bitmap value = record {
  bitmap_flags = bitmap_flags_of (byte_at value 1);
  first_cluster = read_u32_le 20 value;
  data_length = read_u64_le 24 value;
}

unfoldable pub parse_upcase : List ℕ → UpcaseTableDirEntry
parse_upcase value = record {
  table_checksum = read_u32_le 4 value;
  first_cluster = read_u32_le 20 value;
  data_length = read_u64_le 24 value;
}

unfoldable pub parse_file : List ℕ → FileDirEntry
unfolding read_u16_le read_u32_le
parse_file value = record {
  secondary_count = byte_at value 1;
  set_checksum = read_u16_le 2 value;
  file_attributes = file_attributes_of (read_u16_le 4 value);
  create_timestamp = read_u32_le 8 value;
  last_modified_timestamp = read_u32_le 12 value;
  last_accessed_timestamp = read_u32_le 16 value;
  create_10ms_increment = byte_at value 20;
  last_modified_10ms_increment = byte_at value 21;
  create_utc_offset = byte_at value 22;
  last_modified_utc_offset = byte_at value 23;
  last_accessed_utc_offset = byte_at value 24;
}

unfoldable pub parse_stream : List ℕ → StreamExtensionDirEntry
unfolding read_u16_le read_u32_le read_u64_le
parse_stream value = record {
  general_secondary_flags = general_secondary_flags_of (byte_at value 1);
  name_length = byte_at value 3;
  name_hash = read_u16_le 4 value;
  valid_data_length = read_u64_le 8 value;
  first_cluster = read_u32_le 20 value;
  data_length = read_u64_le 24 value;
}
