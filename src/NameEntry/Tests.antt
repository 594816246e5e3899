-- ===== src/NameEntry/Tests.antt =====
-- A name entry and a decoded name.
use exfat_slim.Base.{ℕ, ◌≡◌, refl, [], ◌∷◌, arith}
use exfat_slim.Error.{ok}
use exfat_slim.NameEntry.{FileNameDirEntry, serialize_name, parse_name, decode_utf16_to_utf8}
use exfat_slim.NameEntry.RoundTrip.{parse_name-serialize_name, Fits, decode_utf16_to_utf8-Fits}

abbrev hello : FileNameDirEntry
hello = record {
  general_secondary_flags = 0;
  file_name = 72 ∷ 101 ∷ 108 ∷ 108 ∷ 111 ∷ 46 ∷ 84 ∷ 88 ∷ 84 ∷ 0 ∷ 0 ∷ 0 ∷ 0 ∷ 0 ∷ 0 ∷ [];
}

parse_name-serialize_name_example : parse_name (serialize_name hello) ≡ hello
parse_name-serialize_name_example =
    parse_name-serialize_name hello (record { flags = refl; units = omega arith; fifteen = refl })

-- A crab is one scalar value of two units, and four bytes.
crab :
    decode_utf16_to_utf8 {E = ℕ} (0xD83E ∷ 0xDD80 ∷ []) 4 [] ≡ ok (0xF0 ∷ 0x9F ∷ 0xA6 ∷ 0x80 ∷ [])
unfolding decode_utf16_to_utf8
crab = refl

decode_utf16_to_utf8-Fits_example :
    Fits ℕ 3 (65 ∷ []) (decode_utf16_to_utf8 (0x20AC ∷ []) 3 (65 ∷ []))
decode_utf16_to_utf8-Fits_example = decode_utf16_to_utf8-Fits ℕ (0x20AC ∷ []) 3 (65 ∷ [])
