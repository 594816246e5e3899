-- ===== src/NameEntry.antt =====
-- src/directory_entry.rs: the entry that holds 15 units of a name, the units of a text in an entry,
-- and the checks on 32 bytes that are read.
pub mod RoundTrip
mod Tests
use exfat_slim.Base.{
  ℕ, zero, suc, ◌+◌, ◌-◌, ◌*◌, ◌/◌, ◌%◌, Bool, true, false, ◌&&◌, ◌||◌, Option, none, some, List,
  [], ◌∷◌, ◌++◌, set, take, drop, length, replicate, leb, ltb, ◌==◌, if◌then◌else◌,
}
use exfat_slim.Word.{byte_at, copy_at, to_le_bytes, from_le_bytes}
use exfat_slim.Error.{Result, ok, err, ExFatError, DirectoryEntryError}
use exfat_slim.DirEntry.{
  EntryType, entry_type_of, serialize_type, filename, no_bytes, general_secondary_flags_of,
}

pub record FileNameDirEntry : Type 0 where
  pub general_secondary_flags : ℕ
  pub file_name : List ℕ

-- The bytes of units, and the units of bytes (`as_chunks::<2>`, without the remainder).
unfoldable pub bytes_of : List ℕ → List ℕ
unfolding to_le_bytes
bytes_of [] = []
bytes_of (u ∷ us) = to_le_bytes 2 u ++ bytes_of us

unfoldable pub units_of : List ℕ → List ℕ
unfolding from_le_bytes
units_of [] = []
units_of (a ∷ []) = []
units_of (a ∷ b ∷ bytes) = from_le_bytes (a ∷ b ∷ []) ∷ units_of bytes

-- `FileNameDirEntry::serialize`: `file_name` has 15 units, as many as `raw[2..32]` has chunks.
unfoldable pub serialize_name : FileNameDirEntry → List ℕ
unfolding copy_at bytes_of
serialize_name e =
    let raw = set no_bytes 0 (serialize_type filename) in
    let raw = set raw 1 e.general_secondary_flags in copy_at raw 2 (bytes_of e.file_name)

-- `FileNameDirEntry::from`, of 32 bytes.
unfoldable pub parse_name : List ℕ → FileNameDirEntry
unfolding units_of
parse_name value = record {
  general_secondary_flags = general_secondary_flags_of (byte_at value 1);
  file_name = units_of (drop 2 value);
}

-- `is_end_of_directory`.
unfoldable pub is_end_of_directory : List ℕ → Bool
is_end_of_directory [] = true
is_end_of_directory (x ∷ xs) = x == 0 && is_end_of_directory xs

-- `try_into`: the fields of 32 bytes, if they are an entry of that type (`wanted` is the byte of an
-- `EntryType`, which determines the type).
abbrev pub try_into : {T : Type 0} → (List ℕ → T) → EntryType → List ℕ → Option T
try_into parse wanted dir_entry =
    if serialize_type (entry_type_of (byte_at dir_entry 0)) == serialize_type wanted
    then some (parse dir_entry)
    else none

-- `char::len_utf8` and `char::encode_utf8`.
abbrev pub encode_utf8 : ℕ → List ℕ
encode_utf8 c =
    if ltb c 0x80
    then c ∷ []
    else if ltb c 0x800
    then (0xC0 + c / 0x40) ∷ (0x80 + c % 0x40) ∷ []
    else if ltb c 0x10000
    then (0xE0 + c / 0x1000) ∷ (0x80 + c / 0x40 % 0x40) ∷ (0x80 + c % 0x40) ∷ []
    else (0xF0 + c / 0x40000)
      ∷ (0x80 + c / 0x1000 % 0x40)
      ∷ (0x80 + c / 0x40 % 0x40)
      ∷ (0x80 + c % 0x40)
      ∷ []

-- One round of `decode_utf16_to_utf8`: `room` is what is left of the buffer, `utf8` is
-- `&utf8[..cursor]`.
abbrev pub put_char :
    {E : Type 0}
    → ℕ
    → (room : ℕ) → List ℕ
    → (ℕ → List ℕ → Result (ExFatError E) (List ℕ))
    → Result (ExFatError E) (List ℕ)
put_char c room utf8 rest =
    let needed = length (encode_utf8 c) in
    if leb needed room
    then rest (room - needed) (utf8 ++ encode_utf8 c)
    else err ExFatError.file_name_buffer_too_small

abbrev pub invalid_character : {E : Type 0} → Result (ExFatError E) (List ℕ)
invalid_character =
    err (ExFatError.invalid_utf16_string "file name contains an invalid utf16 character")

-- `decode_utf16_to_utf8`, into a buffer of `room` bytes: the bytes of the name. The scalar values are
-- those of `core::char::decode_utf16`: a surrogate that has no partner is refused.
unfoldable pub decode_utf16_to_utf8 :
    {E : Type 0} → List ℕ → (room : ℕ) → List ℕ → Result (ExFatError E) (List ℕ)
decode_utf16_to_utf8 [] room utf8 = ok utf8
decode_utf16_to_utf8 (u ∷ []) room utf8 =
    if ltb u 0xD800 || leb 0xE000 u
    then put_char u room utf8 (λ room utf8. ok utf8)
    else invalid_character
decode_utf16_to_utf8 (u ∷ v ∷ units) room utf8 =
    let single = put_char u room utf8 (decode_utf16_to_utf8 (v ∷ units)) in
    let pair =
      put_char (0x10000 + (u - 0xD800) * 0x400 + (v - 0xDC00)) room utf8
        (decode_utf16_to_utf8 units) in
    if ltb u 0xD800 || leb 0xE000 u
    then single
    else if ltb u 0xDC00 && leb 0xDC00 v && ltb v 0xE000
    then pair
    else invalid_character

-- `VolumeLabelDirEntry::try_from`. `collect` is the collection of the decoded units into a
-- `heapless::String<22>`, which is not in the repository.
unfoldable pub parse_label :
    (List ℕ → Result DirectoryEntryError (List ℕ)) → List ℕ → Result DirectoryEntryError (List ℕ)
unfolding units_of
parse_label collect value =
    let character_count = byte_at value 1 in
    if ltb 11 character_count
    then err (DirectoryEntryError.invalid_utf16_string "character count exceeds 11")
    else collect (units_of (take (character_count * 2) (drop 2 value)))
