-- ===== src/DirEntry/RoundTrip.antt =====
-- What is serialized is parsed again.
use exfat_slim.Base.{
  ℕ, ◌^◌, ◌<◌, ◌≤◌, ◌≡◌, ◌≢◌, refl, ap, ◌∙◌, true, false, bit_and, ◌/◌, ◌*◌, ◌==◌, arith,
  agree_below, agree_below→eq,
}
use exfat_slim.Word.Laws.{from-to_le_bytes}
use exfat_slim.DirEntry.{
  EntryType, entry_type_of, serialize_type, FileDirEntry, serialize_file, parse_file,
  file_attributes_of, StreamExtensionDirEntry, serialize_stream, parse_stream,
  general_secondary_flags_of,
}

-- The kinds that a byte can have: an unused entry keeps a byte below 0x80 that is not 0, a reserved
-- one any other byte that no kind has.
abbrev pub IsKind : EntryType → Type 0
IsKind (EntryType.unused x) = (0 < x) × (x < 0x80)
IsKind (EntryType.reserved x) =
    (0x80 ≤ x)
    × (x < 0x100)
    × (x ≢ 0x81)
    × (x ≢ 0x82)
    × (x ≢ 0x83)
    × (x ≢ 0x85)
    × (x ≢ 0xA0)
    × (x ≢ 0xA1)
    × (x ≢ 0xC0)
    × (x ≢ 0xC1)
IsKind other = Unit {0}

-- The bit that marks an entry as in use.
in_use : (b : ℕ) → b < 256 → bit_and b 0x80 ≡ b / 0x80 * 0x80
unfolding agree_below
in_use = agree_below→eq (λ b. bit_and b 0x80) (λ b. b / 0x80 * 0x80) 256 refl

-- Every kind of entry is read back from the byte that it is written as, and keeps the byte that an
-- unused or reserved entry has.
pub entry_type_of-serialize_type : (t : EntryType) → IsKind t → entry_type_of (serialize_type t) ≡ t
unfolding entry_type_of
entry_type_of-serialize_type EntryType.end_of_directory k = refl
entry_type_of-serialize_type EntryType.allocation_bitmap k = refl
entry_type_of-serialize_type EntryType.upcase_table k = refl
entry_type_of-serialize_type EntryType.volume_label k = refl
entry_type_of-serialize_type EntryType.file_and_directory k = refl
entry_type_of-serialize_type EntryType.volume_guid k = refl
entry_type_of-serialize_type EntryType.tex_fat_padding k = refl
entry_type_of-serialize_type EntryType.stream_extension k = refl
entry_type_of-serialize_type EntryType.filename k = refl
entry_type_of-serialize_type (EntryType.unused x) (lo, hi) =
    let zero_byte : (x == 0) ≡ false = ground arith in
    let free : (bit_and x 0x80 == 0) ≡ true = ground (arith, in_use x (omega arith)) in
    rw zero_byte (rw free refl)
entry_type_of-serialize_type (EntryType.reserved x) (lo, hi, a, b, c, d, e, f, g, h) =
    let zero_byte : (x == 0) ≡ false = ground arith in
    let taken : (bit_and x 0x80 == 0) ≡ false = ground (arith, in_use x hi) in
    rw zero_byte (rw taken (ground arith))

-- Fields that are a `u16`, a `u32` and so on, and flags that are declared.
pub record FileInRange (e : FileDirEntry) : Type 0 where
  pub checksum : e.set_checksum < 256 ^ 2
  pub attributes : file_attributes_of e.file_attributes ≡ e.file_attributes
  pub attributes_u16 : e.file_attributes < 256 ^ 2
  pub create : e.create_timestamp < 256 ^ 4
  pub modify : e.last_modified_timestamp < 256 ^ 4
  pub access : e.last_accessed_timestamp < 256 ^ 4

-- A file entry is parsed from the bytes that it is serialized to.
pub parse_file-serialize_file :
    (e : FileDirEntry) → FileInRange e → parse_file (serialize_file e) ≡ e
unfolding parse_file serialize_file
parse_file-serialize_file e v = λ i. record {
  secondary_count = e.secondary_count;
  set_checksum = from-to_le_bytes 2 e.set_checksum v.checksum i;
  file_attributes =
      (ap file_attributes_of (from-to_le_bytes 2 e.file_attributes v.attributes_u16) ∙ v.attributes)
        i;
  create_timestamp = from-to_le_bytes 4 e.create_timestamp v.create i;
  last_modified_timestamp = from-to_le_bytes 4 e.last_modified_timestamp v.modify i;
  last_accessed_timestamp = from-to_le_bytes 4 e.last_accessed_timestamp v.access i;
  create_10ms_increment = e.create_10ms_increment;
  last_modified_10ms_increment = e.last_modified_10ms_increment;
  create_utc_offset = e.create_utc_offset;
  last_modified_utc_offset = e.last_modified_utc_offset;
  last_accessed_utc_offset = e.last_accessed_utc_offset;
}

pub record StreamInRange (e : StreamExtensionDirEntry) : Type 0 where
  pub flags : general_secondary_flags_of e.general_secondary_flags ≡ e.general_secondary_flags
  pub hash : e.name_hash < 256 ^ 2
  pub valid_length : e.valid_data_length < 256 ^ 8
  pub cluster : e.first_cluster < 256 ^ 4
  pub length : e.data_length < 256 ^ 8

-- A stream extension is parsed from the bytes that it is serialized to.
pub parse_stream-serialize_stream :
    (e : StreamExtensionDirEntry) → StreamInRange e → parse_stream (serialize_stream e) ≡ e
unfolding parse_stream serialize_stream
parse_stream-serialize_stream e v = λ i. record {
  general_secondary_flags = v.flags i;
  name_length = e.name_length;
  name_hash = from-to_le_bytes 2 e.name_hash v.hash i;
  valid_data_length = from-to_le_bytes 8 e.valid_data_length v.valid_length i;
  first_cluster = from-to_le_bytes 4 e.first_cluster v.cluster i;
  data_length = from-to_le_bytes 8 e.data_length v.length i;
}
