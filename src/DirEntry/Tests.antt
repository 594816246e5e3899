-- ===== src/DirEntry/Tests.antt =====
-- A file of 5 bytes, and the theorems on its entries.
use exfat_slim.Base.{◌≡◌, refl, arith}
use exfat_slim.DirEntry.{
  EntryType, entry_type_of, serialize_type, FileDirEntry, StreamExtensionDirEntry, serialize_file,
  parse_file, serialize_stream, parse_stream,
}
use exfat_slim.DirEntry.RoundTrip.{
  entry_type_of-serialize_type, FileInRange, parse_file-serialize_file, StreamInRange,
  parse_stream-serialize_stream,
}

abbrev archive : FileDirEntry
archive = record {
  secondary_count = 2;
  set_checksum = 0xABCD;
  file_attributes = 0x20;
  create_timestamp = 0x5A5B5C5D;
  last_modified_timestamp = 0x210000;
  last_accessed_timestamp = 0x210001;
  create_10ms_increment = 150;
  last_modified_10ms_increment = 0;
  create_utc_offset = 0x84;
  last_modified_utc_offset = 0x84;
  last_accessed_utc_offset = 0;
}

abbrev five_bytes : StreamExtensionDirEntry
five_bytes = record {
  general_secondary_flags = 3;
  name_length = 8;
  name_hash = 0x1234;
  valid_data_length = 5;
  first_cluster = 17;
  data_length = 5;
}

entry_type_of-serialize_type_example :
    entry_type_of (serialize_type (EntryType.reserved 0xC2)) ≡ EntryType.reserved 0xC2
entry_type_of-serialize_type_example = entry_type_of-serialize_type (EntryType.reserved 0xC2) (
  omega arith,
  omega arith,
  omega arith,
  omega arith,
  omega arith,
  omega arith,
  omega arith,
  omega arith,
  omega arith,
  omega arith,
)

archive-InRange : FileInRange archive
archive-InRange = record {
  checksum = omega arith;
  attributes = refl;
  attributes_u16 = omega arith;
  create = omega arith;
  modify = omega arith;
  access = omega arith;
}

parse_file-serialize_file_example : parse_file (serialize_file archive) ≡ archive
parse_file-serialize_file_example = parse_file-serialize_file archive archive-InRange

five_bytes-InRange : StreamInRange five_bytes
five_bytes-InRange = record {
  flags = refl;
  hash = omega arith;
  valid_length = omega arith;
  cluster = omega arith;
  length = omega arith;
}

parse_stream-serialize_stream_example : parse_stream (serialize_stream five_bytes) ≡ five_bytes
parse_stream-serialize_stream_example = parse_stream-serialize_stream five_bytes five_bytes-InRange
